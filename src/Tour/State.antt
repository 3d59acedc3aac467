-- ===== src/Tour/State.antt =====
-- bayserver_core/tour/tour.py: the state of a tour. `none` stands for TOUR_ID_NOCHECK. `error` says
-- whether the tour has an exception; the request's and the response's fields that are not flow control
-- are not part of the model, and the tours' number comes from the counter of the class.
use bay_server_python.Prelude.{ℕ, ◌==◌, if◌then◌else◌, Bool, true, false, not, Option, none, some}
use bay_server_python.Prelude.Results.{Result, ok, err, sink}
use bay_server_python.Tour.Flow.{Flow, fresh}

pub data TourState : Type 0 where
  uninitialized preparing reading running aborted ended zombie : TourState

-- A tour's listener: None, `content_consume_listener_dev_null`, or the one of the tour's town.
pub data Listener : Type 0 where
  no_listener dev_null town_listener : Listener

-- A tour's key; the key of an error tour is a negative number.
pub data Key : Type 0 where
  plain minus : ℕ → Key

pub record Tour : Type 0 where
  pub tour_id : ℕ
  pub state : TourState
  pub error : Bool
  pub error_handling : Bool
  -- TourReq: `key`, flow control, `content_handler is not None`, `ended`.
  pub key : Key
  pub req : Flow
  pub has_handler : Bool
  pub req_ended : Bool
  -- TourRes: flow control, `res_consume_listener`, `header_sent`, `can_compress`.
  pub res : Flow
  pub listener : Listener
  pub header_sent : Bool
  pub can_compress : Bool

abbrev pub invalid_tour_id : ℕ
invalid_tour_id = 0

unfoldable pub new_tour : Tour
new_tour = record {
  tour_id = invalid_tour_id;
  state = uninitialized;
  error = false;
  error_handling = false;
  key = plain 0;
  req = fresh;
  has_handler = false;
  req_ended = false;
  res = fresh;
  listener = no_listener;
  header_sent = false;
  can_compress = false;
}

-- All fields of the model are reset.
unfoldable pub reset : Tour → Tour
unfolding new_tour
reset t = new_tour

abbrev pub is_initialized : TourState → Bool
is_initialized uninitialized = false
is_initialized _ = true

abbrev pub is_preparing : TourState → Bool
is_preparing preparing = true
is_preparing _ = false

abbrev pub is_reading : TourState → Bool
is_reading reading = true
is_reading _ = false

abbrev pub is_running : TourState → Bool
is_running running = true
is_running _ = false

abbrev pub is_valid : TourState → Bool
is_valid preparing = true
is_valid reading = true
is_valid running = true
is_valid _ = false

abbrev pub is_aborted : TourState → Bool
is_aborted aborted = true
is_aborted _ = false

abbrev pub is_ended : TourState → Bool
is_ended ended = true
is_ended _ = false

abbrev pub is_zombie : TourState → Bool
is_zombie zombie = true
is_zombie _ = false

unfoldable pub check_tour_id : Option ℕ → Tour → Result (Unit {0})
check_tour_id none t = ok tt
check_tour_id (some chk) t =
    if not (is_initialized t.state)
    then err sink
    else if not (chk == t.tour_id)
    then err sink
    else ok tt

abbrev pub checked : Result (Unit {0}) → Tour → Result Tour
checked (ok _) t = ok t
checked (err e) t = err e

unfoldable pub change_state : Option ℕ → TourState → Tour → Result Tour
unfolding check_tour_id
change_state chk st t = checked (check_tour_id chk t) (record t { state = st })

-- `init`, with the ship's id and the next number of the counter. INVALID_SHIP_ID is 0.
unfoldable pub init : Key → ℕ → ℕ → Tour → Result Tour
init key ship_id next t =
    if is_initialized t.state
    then err sink
    else if ship_id == 0
    then err sink
    else ok (record t { tour_id = next; state = preparing; key = key })

-- The part of `go` in front of the city: a request with content is read, another one runs.
unfoldable pub go : ℕ → Tour → Tour
go content_length t = record t { state = if content_length == 0 then running else reading }
