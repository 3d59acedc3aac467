-- ===== src/Tour/Ship.antt =====
-- bayserver_core/common/inbound_ship.py: the tours of a ship. The ship, its agent's store of tours and
-- the counters of the classes are one state; an object is its identity. `ship_returned` says whether
-- `end_ship` has given the ship back. `none` stands for None.
pub mod Keys
pub mod Turns
pub mod Pieces
use bay_server_python.Prelude.{
  ℕ, suc, ◌+◌, ◌-◌, ◌%◌, bit_and, bit_or, List, [], ◌∷◌, ◌++◌, length, ltb, ◌==◌, if◌then◌else◌,
  Bool, true, false, not, ◌&&◌, ◌||◌, Option, none, some, Bytes, take, drop, zero,
}
use bay_server_python.Prelude.Results.{Result, ok, err, sink, runtime_error, out_of_fuel}
use bay_server_python.Prelude.Acts.{Act, and_then, ◌>>=◌, ◌>>◌, give, raise, change}
use bay_server_python.Protocol.Accessor.{shl}
use bay_server_python.Tour.State.{Tour, Key, plain, minus, init, is_valid}
use bay_server_python.Tour.Store.{TourStore, get, rent, give_back, set_at}

-- `key & 0xffffffff`, in two's complement for a negative number.
abbrev pub low_bits : Key → ℕ
low_bits (plain k) = bit_and k 0xffffffff
low_bits (minus k) = (4294967296 - k % 4294967296) % 4294967296

unfoldable pub uniq_key : ℕ → Key → ℕ
uniq_key sip_id tur_key = bit_or (shl sip_id 32) (low_bits tur_key)

pub record InboundShip : Type 0 where
  pub ship_id : ℕ
  pub active_tours : List (Option ℕ)
  pub need_end : Bool
  pub ship_returned : Bool
  pub store : TourStore
  pub tour_id_counter : ℕ
  pub err_counter : ℕ

abbrev pub put_tour : ℕ → Tour → InboundShip → InboundShip
put_tour x t s = record s { store = record (s.store) { tours = set_at x t s.store.tours } }

-- `tur.init(tur_key, self)` and `self.active_tours.append(tur)`.
abbrev pub init_tour : Key → ℕ → Act InboundShip (Unit {0})
init_tour key x s = elim (init key s.ship_id s.tour_id_counter (s.store.tours x)) [
  | ok t ↦ (record (put_tour x t s) { tour_id_counter = suc s.tour_id_counter }, ok tt)
  | err e ↦ (s, err e)
]

abbrev pub add_active : ℕ → Act InboundShip (Unit {0})
add_active x = change (λ s. record s { active_tours = s.active_tours ++ (some x ∷ []) })

module _ (max_count : ℕ) where
  abbrev pub rent_tour : Bool → ℕ → Act InboundShip (Option ℕ)
  rent_tour force key s = elim (rent max_count force key s.store) [
    | ok (t, store) ↦ (record s { store = store }, ok t)
    | err e ↦ (s, err e)
  ]

  abbrev pub enter : Key → Option ℕ → Act InboundShip (Option ℕ)
  enter key none = give none
  enter key (some x) = do init_tour key x; add_active x; give (some x)

  -- `get_tour(tur_key, force, rent)`. It passes `force` to `rent` in the place of the ship, which `rent`
  -- only prints, so that `rent` gets its default False.
  unfoldable pub get_tour : Key → Bool → Bool → Act InboundShip (Option ℕ)
  unfolding uniq_key
  get_tour key force rents s =
      let store_key = uniq_key s.ship_id key in
      elim (get store_key s.store) [
        | some x ↦ (s, ok (some x))
        | none ↦
            if rents
            then (rent_tour false store_key >>= λ found. enter key found) s
            else (s, ok none)
      ]

  -- None is put into `active_tours`, and has no `init`: for its AttributeError stands `runtime_error`.
  abbrev pub enter_error : Key → Option ℕ → Act InboundShip ℕ
  enter_error key none =
      change (λ s. record s { active_tours = s.active_tours ++ (none ∷ []) }) >> raise runtime_error
  enter_error key (some x) = do add_active x; init_tour key x; give x

  -- Here too True stands in the place of the ship.
  unfoldable pub get_error_tour : Act InboundShip ℕ
  unfolding uniq_key
  get_error_tour s =
      let key = minus s.err_counter in
      (change (λ t. record t { err_counter = suc t.err_counter })
          >> rent_tour false (uniq_key s.ship_id key)
          >>= λ found. enter_error key found)
        s

abbrev pub end_ship : Act InboundShip (Unit {0})
end_ship = change (λ s. record s { ship_returned = true })

abbrev pub is_tour : ℕ → Option ℕ → Bool
is_tour x none = false
is_tour x (some y) = x == y

-- `tur in self.active_tours`
unfoldable pub holds : ℕ → List (Option ℕ) → Bool
holds x [] = false
holds x (y ∷ l) = is_tour x y || holds x l

-- `self.active_tours.remove(tur)`: the first one goes.
unfoldable pub drop_first : ℕ → List (Option ℕ) → List (Option ℕ)
drop_first x [] = []
drop_first x (y ∷ l) = let rest = drop_first x l in if is_tour x y then l else y ∷ rest

abbrev none_active : List (Option ℕ) → Bool
none_active [] = true
none_active (_ ∷ _) = false

abbrev pub return_to_store : ℕ → Act InboundShip (Unit {0})
return_to_store key s = elim (give_back key s.store) [
  | ok store ↦ (record s { store = store }, ok tt)
  | err e ↦ (s, err e)
]

unfoldable pub return_tour : ℕ → Act InboundShip (Unit {0})
unfolding drop_first holds uniq_key
return_tour x s =
    (return_to_store (uniq_key s.ship_id (s.store.tours x).key)
        >> (λ t. (t, if not (holds x t.active_tours) then err sink else ok tt))
        >> change (λ t. record t { active_tours = drop_first x t.active_tours })
        >> λ t. if t.need_end && none_active t.active_tours then end_ship t else (t, ok tt))
      s

-- The methods that the transport calls when the connection is closed. `abort_req` is `tur.req.abort()`
-- of a tour of the ship.
module _ (abort_req : ℕ → Act InboundShip Bool) where
  abbrev keep_if : ℕ → Bool → List ℕ → List ℕ
  keep_if x true l = x ∷ l
  keep_if x false l = l

  unfoldable pub to_return : List (Option ℕ) → Act InboundShip (List ℕ)
  to_return [] s = (s, ok [])
  to_return (none ∷ xs) s = (s, err runtime_error)
  to_return (some x ∷ xs) s =
      if is_valid (s.store.tours x).state
      then (abort_req x >>= λ aborted. to_return xs >>= λ l. give (keep_if x aborted l)) s
      else to_return xs s

  unfoldable pub return_all : List ℕ → Act InboundShip (Unit {0})
  unfolding return_tour
  return_all [] = give tt
  return_all (x ∷ xs) = return_tour x >> return_all xs

  unfoldable pub abort_tours : Act InboundShip (Unit {0})
  unfolding to_return return_all
  abort_tours s = (to_return s.active_tours >>= λ l. return_all l) s

  unfoldable pub notify_close : Act InboundShip (Unit {0})
  unfolding abort_tours
  notify_close = abort_tours >> λ s.
      if not (none_active s.active_tours) then (record s { need_end = true }, ok tt) else end_ship s

-- Ship.check_ship_id of bayserver_core/ship/ship.py; `none` is SHIP_ID_NOCHECK.
unfoldable pub check_ship_id : Bool → ℕ → Option ℕ → Result (Unit {0})
check_ship_id false ship_id chk = err sink
check_ship_id true ship_id none = ok tt
check_ship_id true ship_id (some chk) = if not (chk == ship_id) then err sink else ok tt

-- `send_res_content` of a ship, initialised or not, with its id, to the handler `send`, with the data and whether the callback goes with it. Each
-- round of the loop takes `max_len` bytes away, which the fuel counts.
module _ {S : Type 0} (send : Bytes → Bool → Act S (Unit {0})) where
  unfoldable pub send_pieces : ℕ → ℕ → Bytes → Act S (Unit {0})
  send_pieces zero max_len buf = raise out_of_fuel
  send_pieces (suc fuel) max_len buf =
      let later = send_pieces fuel max_len (drop max_len buf) in
      if ltb max_len (length buf)
      then send (take max_len buf) false >> later
      else if ltb 0 (length buf)
      then send buf true
      else give tt

  unfoldable pub send_res_content : Bool → ℕ → Option ℕ → ℕ → Bytes → Act S (Unit {0})
  unfolding send_pieces check_ship_id
  send_res_content initialized ship_id chk max_len buf =
      (λ s. (s, check_ship_id initialized ship_id chk))
      >> send_pieces (suc (length buf)) max_len buf
