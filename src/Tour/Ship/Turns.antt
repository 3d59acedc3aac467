-- ===== src/Tour/Ship/Turns.antt =====
-- A tour that comes and goes, and the error tours of a full store.
use bay_server_python.Prelude.{
  ℕ, suc, ◌≤◌, ◌≡◌, ◌≢◌, refl, sym, ap, ◌∙◌, List, [], ◌∷◌, ◌++◌, length, ◌==◌, ==_iff, ==_refl,
  Bool, true, false, Bool-cases, inl, inr, Option, none, some, le→leb,
}
use bay_server_python.Prelude.Results.{ok, err, runtime_error}
use bay_server_python.Prelude.Acts.{and_then-ok}
use bay_server_python.Tour.State.{Tour, Key, minus, preparing, new_tour, init, reset}
use bay_server_python.Tour.Store.{TourStore, get, lookup, remove, pop_free, set_at, rent, give_back}
use bay_server_python.Tour.Store.Laws.{IsValid, lookup-remove}
use bay_server_python.Tour.Store.Refines.{view, Handed, rent-refines}
use bay_server_python.Tour.Ship.{
  InboundShip, uniq_key, get_tour, get_error_tour, return_tour, drop_first, rent_tour, enter,
  init_tour, return_to_store, holds, is_tour,
}

-- The store is valid, and the ship's tours are active in it.
pub record IsConsistent (s : InboundShip) : Type 0 where
  pub valid : IsValid s.store
  pub real : (s.ship_id == 0) ≡ false
  pub active : (x : ℕ) → holds x s.active_tours ≡ true → (j : ℕ) × (get j s.store ≡ some x)

holds-append : (x : ℕ) (l : List (Option ℕ)) → holds x (l ++ (some x ∷ [])) ≡ true
unfolding holds
holds-append x [] = rw (==_refl x) refl
holds-append x (y ∷ l) = elim (Bool-cases (is_tour x y)) [
  | inl e ↦ rw e refl
  | inr e ↦ rw e (holds-append x l)
]

drop_first-append :
    (x : ℕ) (l : List (Option ℕ)) → holds x l ≡ false → drop_first x (l ++ (some x ∷ [])) ≡ l
unfolding drop_first holds
drop_first-append x [] h = rw (==_refl x) refl
drop_first-append x (y ∷ l) h = elim (Bool-cases (is_tour x y)) [
  | inl e ↦ let h' : true ≡ false = rw e at h in absurd (cc h')
  | inr e ↦
      let rest : holds x l ≡ false = rw e at h in
      rw e (ap (λ t. y ∷ t) (drop_first-append x l rest))
]

init-fresh :
    (key : Key) (ship_id next : ℕ) (t : Tour)
    → (ship_id == 0) ≡ false
    → t ≡ new_tour
    → init key ship_id next t ≡ ok (record t { tour_id = next; state = preparing; key = key })
unfolding init new_tour
init-fresh key ship_id next t real fresh =
    let state : t.state ≡ new_tour.state = ap (λ u. u.state) fresh in simp (state, real)

-- What `get_tour` leaves where it rents.
abbrev entered : Key → ℕ → TourStore → InboundShip → InboundShip
entered key x store s =
    let t = record (store.tours x) { tour_id = s.tour_id_counter; state = preparing; key = key } in
    record s {
      store = record store { tours = set_at x t store.tours };
      tour_id_counter = suc s.tour_id_counter;
      active_tours = s.active_tours ++ (some x ∷ []);
    }

-- The store that has got the tour back.
abbrev given : ℕ → ℕ → TourStore → TourStore
given key x s = record s {
  free_tours = s.free_tours ++ (x ∷ []);
  active_tour_map = remove key s.active_tour_map;
  tours = set_at x (reset (s.tours x)) s.tours;
}

give_back-given :
    (key x : ℕ) (s : TourStore)
    → lookup key s.active_tour_map ≡ some x
    → give_back key s ≡ ok (given key x s)
unfolding give_back
give_back-given key x s present = rw (give_back, present) refl

return_to_store-given :
    (key x : ℕ) (t : InboundShip)
    → lookup key t.store.active_tour_map ≡ some x
    → return_to_store key t ≡ (record t { store = given key x t.store }, ok tt)
return_to_store-given key x t present =
    rw (return_to_store, give_back-given key x t.store present) refl

-- A tour that was rented and returned leaves the map as it was.
view-same :
    (key x : ℕ) (s store : TourStore)
    → Handed key x (view s) store
    → lookup key store.active_tour_map ≡ some x
    → (j : ℕ) → lookup j (remove key store.active_tour_map) ≡ lookup j s.active_tour_map
unfolding get
view-same key x s store handed present j =
    let removed = lookup-remove j key x store.active_tour_map present (handed.valid.one_key key) in
    elim (Bool-cases (j == key)) [
      | inl e ↦
          let same : lookup key s.active_tour_map ≡ lookup j s.active_tour_map =
            ap (λ i. lookup i s.active_tour_map) (sym ((==_iff j key).0 e)) in
          removed ∙ rw e (sym handed.rents.absent ∙ same)
      | inr e ↦
          let kept : lookup j store.active_tour_map ≡ lookup j s.active_tour_map =
            handed.rents.after j ∙ rw e refl in
          removed ∙ rw e kept
    ]

not_active :
    (x : ℕ) (s : InboundShip)
    → IsConsistent s
    → ((j : ℕ) → get j s.store ≢ some x)
    → holds x s.active_tours ≡ false
not_active x s c unused = elim (Bool-cases (holds x s.active_tours)) [
  | inl e ↦ let (j, used) = c.active x e in absurd (unused j used)
  | inr e ↦ e
]

module _ (max_count : ℕ) where
  get_tour-entered :
      (key : Key) (force : Bool) (x : ℕ) (store : TourStore) (s : InboundShip)
      → (s.ship_id == 0) ≡ false
      → store.tours x ≡ new_tour
      → get (uniq_key s.ship_id key) s.store ≡ none
      → rent max_count false (uniq_key s.ship_id key) s.store ≡ ok (some x, store)
      → get_tour max_count key force true s ≡ (entered key x store s, ok (some x))
  unfolding get_tour
  get_tour-entered key force x store s real fresh absent rents =
      let inits = init-fresh key s.ship_id s.tour_id_counter (store.tours x) real fresh in
      let renting : rent_tour max_count false (uniq_key s.ship_id key) s
          ≡ (record s { store = store }, ok (some x)) =
        rw (rent_tour, rents) refl in
      rw (get_tour, absent)
        (and_then-ok (λ found. enter max_count key found) renting
          ∙ rw (enter, init_tour, inits) refl)

  -- A tour that comes and goes, for a ship that is not to end, whose store is valid and holds its tours,
  -- and for a key that is not in use: where the store hands out a tour, the ship gets it prepared, under
  -- that key, and when it is returned, the ship's tours and the map of its store are as before.
  pub get_tour-return_tour :
      (key : Key) (force : Bool) (x : ℕ) (store : TourStore) (s : InboundShip)
      → IsConsistent s
      → s.need_end ≡ false
      → get (uniq_key s.ship_id key) s.store ≡ none
      → rent max_count false (uniq_key s.ship_id key) s.store ≡ ok (some x, store)
      → (t : InboundShip) × (u : InboundShip) × (get_tour max_count key force true s
          ≡ (t, ok (some x)))
        × ((t.store.tours x).state ≡ preparing)
        × ((t.store.tours x).key ≡ key)
        × (return_tour x t ≡ (u, ok tt))
        × (u.active_tours ≡ s.active_tours)
        × ((j : ℕ) → get j u.store ≡ get j s.store)
  unfolding return_tour get
  get_tour-return_tour key force x store s c open_ absent rents =
      let store_key = uniq_key s.ship_id key in
      let handed = rent-refines max_count false store_key x s.store store c.valid rents in
      let t = entered key x store s in
      let keyed : (t.store.tours x).key ≡ key = rw (==_refl x) refl in
      let present : lookup store_key store.active_tour_map ≡ some x =
        handed.rents.after store_key ∙ rw (==_refl store_key) refl in
      let spare : holds x s.active_tours ≡ false = not_active x s c handed.rents.unused in
      let returns : return_to_store (uniq_key t.ship_id (t.store.tours x).key) t
          ≡ (record t { store = given store_key x t.store }, ok tt) =
        ap (λ k. return_to_store (uniq_key s.ship_id k) t) keyed
        ∙ return_to_store-given store_key x t present in
      let u = record t {
        store = given store_key x t.store;
        active_tours = drop_first x t.active_tours;
      } in
      (
        t,
        u,
        get_tour-entered key force x store s c.real handed.fresh absent rents,
        rw (==_refl x) refl,
        keyed,
        rw (return_tour, returns, holds-append x s.active_tours, open_) refl,
        drop_first-append x s.active_tours spare,
        view-same store_key x s.store store handed present,
      )

  rent-full :
      (key : ℕ) (s : TourStore)
      → get key s ≡ none
      → pop_free s.free_tours ≡ none
      → max_count ≤ length s.active_tour_map
      → rent max_count false key s ≡ ok (none, s)
  unfolding rent
  rent-full key s absent no_free full = rw (rent, absent, no_free, le→leb _ _ full) refl

  -- Where no tour is free, at least as many as the maximum are active and the next error key is not in
  -- use, there is no error tour, though `get_error_tour` means to force one: it fails, and leaves None
  -- among the tours of the ship, with its counter one higher and nothing else changed.
  pub get_error_tour-full :
      (s : InboundShip)
      → get (uniq_key s.ship_id (minus s.err_counter)) s.store ≡ none
      → s.store.free_tours ≡ []
      → max_count ≤ length s.store.active_tour_map
      → get_error_tour max_count s ≡ (
        record s { err_counter = suc s.err_counter; active_tours = s.active_tours ++ (none ∷ []) },
        err runtime_error,
      )
  unfolding get_error_tour pop_free
  get_error_tour-full s absent no_free full =
      let refused =
        rent-full (uniq_key s.ship_id (minus s.err_counter)) s.store absent (ap pop_free no_free)
          full in
      rw (get_error_tour, rent_tour, refused) refl
