-- ===== src/Tests/Tour.antt =====
-- Tours, their store and their ship at concrete inputs.
use bay_server_python.Prelude.{
  ℕ, ◌≤◌, ◌≡◌, refl, Bytes, List, [], ◌∷◌, ◌++◌, length, Bool, true, false, none, some, arith, ltb,
  if◌then◌else◌,
}
use bay_server_python.Prelude.Results.{ok, err, io_error, runtime_error, protocol_error, http_error}
use bay_server_python.Prelude.Acts.{give}
use bay_server_python.Util.ObjectStore.Laws.{count}
use bay_server_python.Tour.Flow.{Flow}
use bay_server_python.Tour.Flow.Balance.{
  post, consumes, run, Event, Tells, run-Tells, resumes, resumes_once, sum,
}
use bay_server_python.Tour.State.{
  Tour, new_tour, reading, running, preparing, ended, town_listener, Key, plain, minus,
}
use bay_server_python.Tour.Request.{Handler}
use bay_server_python.Tour.Request.Content.{
  IsListener, IsOpen, concat, send_content, content-delivered, content-refused,
}
use bay_server_python.Tour.Response.{Peer, consumed, end_res_content}
use bay_server_python.Tour.Response.Ending.{
  IsLive, end_res_content_twice, end_res_content-io_error, consume_all, consume_all-silent,
}
use bay_server_python.Tour.Store.{TourStore, new_store, activate, create, rent, get, lookup}
use bay_server_python.Tour.Store.Laws.{IsValid, uses, keys}
use bay_server_python.Tour.Store.Refines.{view, TakesBack, Handed, rent-refines, give_back-refines}
use bay_server_python.Tour.Store.Bounds.{Op, rents, returns, run-within_max, rent-answers, total}
use bay_server_python.Tour.Store.Bounds
use bay_server_python.Tour.Ship.{
  InboundShip, uniq_key, get_tour, get_error_tour, return_tour, send_res_content, holds,
}
use bay_server_python.Tour.Ship.Keys.{uniq_key-injective}
use bay_server_python.Tour.Ship.Pieces.{keep, data_of, IsCut, send_res_content-IsCut}
use bay_server_python.Tour.Ship.Turns.{IsConsistent, get_tour-return_tour, get_error_tour-full}

abbrev flow : ℕ → ℕ → ℕ → Bool → Flow
flow posted consumed limit available = record {
  posted = posted;
  consumed = consumed;
  limit = limit;
  available = available;
}

abbrev partly_passed_on : List Event
partly_passed_on = post 4 true ∷ post 12 false ∷ consumes 9 ∷ []

run-Tells_example : Tells false 10 (run 10 partly_passed_on (flow 0 0 20 true))
run-Tells_example = run-Tells 10 partly_passed_on (flow 0 0 20 true) (record { exact = refl })

resumes_once_example : resumes 10 (3 ∷ 4 ∷ 5 ∷ []) (flow 12 0 20 false) ≡ 1
resumes_once_example =
    resumes_once 10 (3 ∷ 4 ∷ 5 ∷ []) (flow 12 0 20 false) (omega arith) (record { exact = refl })
      refl (unfold sum in omega arith)

-- A handler that keeps the content.
abbrev keeper : Handler Bytes
keeper = record {
  on_read = λ d s. ((s.0 ++ d, s.1), ok tt);
  on_end = λ s. (s, ok tt);
  on_abort = give true;
}

keeper-IsListener : IsListener keeper (λ w. w)
keeper-IsListener = record {
  takes = λ d s. (
    (s.0 ++ d, s.1),
    refl,
    refl,
    record {
      state = refl;
      error = refl;
      has_handler = refl;
      ended = refl;
      posted = refl;
      limit = refl;
    },
  );
  ends = λ s. (s, refl, refl);
}

abbrev reading_tour : ℕ → Tour
reading_tour limit = record new_tour {
  tour_id = 1;
  state = reading;
  has_handler = true;
  req = flow 0 0 limit true;
  error = false;
  req_ended = false;
}

reading_tour-IsOpen : (limit : ℕ) → IsOpen (reading_tour limit)
reading_tour-IsOpen limit = record { state = refl; error = refl; has_handler = refl; ended = refl }

abbrev two_pieces : List Bytes
two_pieces = (1 ∷ 2 ∷ []) ∷ (3 ∷ []) ∷ []

content-delivered_example :
    (s' : Bytes × Tour) × (send_content 16 keeper two_pieces ([], reading_tour 3) ≡ (s', ok tt))
    × (s'.0 ≡ 1 ∷ 2 ∷ 3 ∷ [])
    × (s'.1.req_ended ≡ true)
unfolding concat
content-delivered_example =
    content-delivered 16 keeper (λ w. w) keeper-IsListener two_pieces ([], reading_tour 3)
      (reading_tour-IsOpen 3) refl refl

content-refused_example :
    (s' : Bytes × Tour) × (send_content 16 keeper two_pieces ([], reading_tour 4)
      ≡ (s', err (if ltb (length (concat two_pieces)) 4 then protocol_error else http_error)))
content-refused_example =
    content-refused 16 keeper (λ w. w) keeper-IsListener two_pieces ([], reading_tour 4)
      (reading_tour-IsOpen 4) refl (λ e. absurd (unfold concat in omega (arith, e)))

-- A peer that sends what it can: `fails` says that the end of a tour cannot be sent.
abbrev peer : Bool → Peer ℕ
peer fails = record {
  send_res_content = λ buf cb. give tt;
  send_end_tour = λ cb s. (s, if fails then err io_error else ok tt);
  send_error = give tt;
  send_redirect = give tt;
  return_tour = λ s. ((s.0, new_tour), ok tt);
  compress = λ buf cb. give tt;
  finish = give tt;
  log = λ s. ((s.0, s.1), ok tt);
  on_consumed = λ n resume. give tt;
}

abbrev running_tour : Tour
running_tour = record new_tour {
  tour_id = 1;
  state = running;
  can_compress = false;
  listener = town_listener;
  res = flow 12 0 0 false;
}

running_tour-IsLive : IsLive running_tour
running_tour-IsLive = record { zombie = refl; aborted = refl; ended = refl; plain = refl }

end_res_content_twice_example :
    (s' : ℕ × Tour) × (end_res_content 10 (peer false) none (0, running_tour) ≡ (s', ok tt))
    × (s'.1.state ≡ ended)
    × (end_res_content 10 (peer false) none s' ≡ (s', ok tt))
end_res_content_twice_example =
    end_res_content_twice 10 (peer false) (0, running_tour) (λ s. (s.0, refl)) (λ b u. (u.0, refl))
      running_tour-IsLive

end_res_content-io_error_example :
    (w : ℕ) × (end_res_content 10 (peer true) none (0, running_tour)
      ≡ ((w, new_tour), err io_error))
end_res_content-io_error_example =
    end_res_content-io_error 10 (peer true) (0, running_tour) (λ w. (w, new_tour))
      (λ s. (s.0, refl)) (λ b u. refl) (λ w. refl) running_tour-IsLive

consume_all-silent_example :
    (t : Tour) × (consume_all 10 (peer false) (8 ∷ 4 ∷ []) (0, running_tour) ≡ ((0, t), ok tt))
    × (t.res.available ≡ true)
    × (resumes 10 (8 ∷ 4 ∷ []) running_tour.res ≡ 1)
consume_all-silent_example =
    consume_all-silent 10 (peer false) (8 ∷ 4 ∷ []) (0, running_tour) refl (λ e. absurd (cc e))
      (omega arith) (record { exact = refl }) refl (unfold sum in omega arith)

new_store-IsValid : IsValid new_store
unfolding count uses keys
new_store-IsValid = record {
  once = λ x. omega arith;
  known = λ x old. refl;
  one_key = λ k. omega arith;
  clean = λ x here. refl;
}

abbrev one_rented : TourStore
one_rented = activate 7 0 (create new_store).1

rent-refines_example : Handed 7 0 (view new_store) one_rented
rent-refines_example =
    rent-refines 2 false 7 0 new_store one_rented new_store-IsValid (unfold rent in refl)

give_back-refines_example : TakesBack 7 one_rented (get 7 one_rented)
give_back-refines_example = give_back-refines 7 one_rented rent-refines_example.valid

run-within_max_example :
    total (Bounds.run 2 (rents 1 ∷ rents 2 ∷ rents 3 ∷ returns 1 ∷ []) new_store) ≤ 2
run-within_max_example =
    run-within_max 2 (rents 1 ∷ rents 2 ∷ rents 3 ∷ returns 1 ∷ []) new_store (omega arith)

abbrev error_key : Key
error_key = minus 3

abbrev own_id : ℕ
own_id = 7

uniq_key-injective_example : (own_id ≡ own_id) × (error_key ≡ error_key)
uniq_key-injective_example =
    uniq_key-injective 7 7 error_key error_key (omega arith, omega arith) (omega arith, omega arith)
      refl

send_res_content-IsCut_example :
    (l : List (Bytes × Bool)) × (send_res_content keep true 5 (some 5) 2 (1 ∷ 2 ∷ 3 ∷ []) []
      ≡ ([] ++ l, ok tt))
    × (data_of l ≡ 1 ∷ 2 ∷ 3 ∷ [])
    × IsCut 2 l
send_res_content-IsCut_example =
    send_res_content-IsCut 5 (some 5) 2 (1 ∷ 2 ∷ 3 ∷ []) [] refl (omega arith) (omega arith)

abbrev ship : InboundShip
ship = record {
  ship_id = 5;
  active_tours = [];
  need_end = false;
  ship_returned = false;
  store = new_store;
  tour_id_counter = 1;
  err_counter = 1;
}

ship-IsConsistent : IsConsistent ship
unfolding holds
ship-IsConsistent = record { valid = new_store-IsValid; real = refl; active = λ x h. absurd (cc h) }

get_tour-return_tour_example :
    (t : InboundShip) × (u : InboundShip) × (get_tour 2 (plain 3) false true ship
      ≡ (t, ok (some 0)))
    × ((t.store.tours 0).state ≡ preparing)
    × ((t.store.tours 0).key ≡ plain 3)
    × (return_tour 0 t ≡ (u, ok tt))
    × (u.active_tours ≡ [])
    × ((j : ℕ) → get j u.store ≡ get j new_store)
get_tour-return_tour_example =
    get_tour-return_tour 2 (plain 3) false 0
      (activate (uniq_key 5 (plain 3)) 0 (create new_store).1) ship ship-IsConsistent refl
      (unfold get lookup in refl) (unfold rent in refl)

get_error_tour-full_example :
    get_error_tour 0 ship
    ≡ (record ship { err_counter = 2; active_tours = none ∷ [] }, err runtime_error)
get_error_tour-full_example =
    get_error_tour-full 0 ship (unfold get lookup in refl) refl (omega arith)
