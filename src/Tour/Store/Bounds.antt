-- ===== src/Tour/Store/Bounds.antt =====
-- How many tours there are, and when a tour can be had.
use bay_server_python.Prelude.{
  ◌⊎◌, ℕ, suc, ◌+◌, ◌≤◌, ◌<◌, ◌≡◌, refl, ap, List, [], ◌∷◌, length, length-append, leb, ◌==◌, Bool,
  true, false, not, ◌&&◌, Bool-cases, Option-cases, inl, inr, Option, none, some, arith,
}
use bay_server_python.Prelude.Results.{Result, ok, err}
use bay_server_python.Tour.Store.{
  TourStore, lookup, remove, get, pop_free, activate, create, rent, give_back,
}

-- A client that does not force: it rents and returns.
pub data Op : Type 0 where
  rents : ℕ → Op
  returns : ℕ → Op

abbrev after_rent : TourStore → Result (Option ℕ × TourStore) → TourStore
after_rent s (ok (_, s')) = s'
after_rent s (err _) = s

abbrev after_return : TourStore → Result TourStore → TourStore
after_return s (ok s') = s'
after_return s (err _) = s

abbrev pub step : ℕ → Op → TourStore → TourStore
step max_count (rents key) s = after_rent s (rent max_count false key s)
step max_count (returns key) s = after_return s (give_back key s)

pub run : ℕ → List Op → TourStore → TourStore
run max_count [] s = s
run max_count (op ∷ ops) s = run max_count ops (step max_count op s)

abbrev pub total : TourStore → ℕ
total s = length s.free_tours + length s.active_tour_map

length-pop_free :
    (t : ℕ) (l rest : List ℕ) → pop_free l ≡ some (t, rest) → length l ≡ suc (length rest)
unfolding pop_free
length-pop_free t [] rest h = absurd (cc h)
length-pop_free t (a ∷ []) rest h = let e : [] ≡ rest = cc h in omega (arith, ap length e)
length-pop_free t (a ∷ b ∷ l) rest h = let e : a ∷ l ≡ rest = cc h in omega (arith, ap length e)

length-pop_none : (l : List ℕ) → pop_free l ≡ none → length l ≡ 0
unfolding pop_free
length-pop_none [] h = refl
length-pop_none (a ∷ []) h = absurd (cc h)
length-pop_none (a ∷ b ∷ l) h = absurd (cc h)

length-remove :
    (k t : ℕ) (m : List (ℕ × ℕ)) → lookup k m ≡ some t → suc (length (remove k m)) ≡ length m
unfolding lookup remove
length-remove k t [] h = absurd (cc h)
length-remove k t ((j, u) ∷ m) h = elim (Bool-cases (k == j)) [
  | inl e ↦ rw e refl
  | inr e ↦
      let rest : lookup k m ≡ some t = rw e at h in rw e (omega (arith, length-remove k t m rest))
]

total-rent :
    (max_count key : ℕ) (s : TourStore)
    → total s ≤ max_count
    → total (step max_count (rents key) s) ≤ max_count
unfolding rent
total-rent max_count key s h = elim (Option-cases (get key s)) [
  | inr (u, e) ↦ rw (rent, e) h
  | inl e ↦ elim (Option-cases (pop_free s.free_tours)) [
    | inr ((t, rest), f) ↦
        rw (rent, e, f)
          (omega (
            arith,
            h,
            length-pop_free t s.free_tours rest f,
            length-append s.active_tour_map ((key, t) ∷ []),
          ))
    | inl f ↦ elim (Bool-cases (leb max_count (length s.active_tour_map))) [
      | inl g ↦ rw (rent, e, f, g) h
      | inr g ↦
          let room : length s.active_tour_map < max_count = ground (arith, g) in
          rw (rent, e, f, g)
            (omega (
              arith,
              room,
              length-pop_none s.free_tours f,
              length-append s.active_tour_map ((key, s.created) ∷ []),
            ))
    ]
  ]
]

total-give_back :
    (max_count key : ℕ) (s : TourStore) → total (step max_count (returns key) s) ≡ total s
unfolding give_back
total-give_back max_count key s = elim (Option-cases (lookup key s.active_tour_map)) [
  | inl e ↦ rw (give_back, e) refl
  | inr (t, e) ↦
      rw (give_back, e)
        (omega
          (arith, length-append s.free_tours (t ∷ []), length-remove key t s.active_tour_map e))
]

-- Whatever a client rents and returns without force, in whatever order: a store that holds no more tours,
-- free and active, than its maximum never holds more.
pub run-within_max :
    (max_count : ℕ) (ops : List Op) (s : TourStore)
    → total s ≤ max_count
    → total (run max_count ops s) ≤ max_count
unfolding run
run-within_max max_count [] s h = h
run-within_max max_count (rents key ∷ ops) s h =
    run-within_max max_count ops (step max_count (rents key) s) (total-rent max_count key s h)
run-within_max max_count (returns key ∷ ops) s h =
    run-within_max max_count ops (step max_count (returns key) s)
      (omega (arith, h, total-give_back max_count key s))

-- A key that is not in use gets a tour, where fewer tours than the maximum are active or where it is forced.
pub rent-answers :
    (max_count : ℕ) (force : Bool) (key : ℕ) (s : TourStore)
    → get key s ≡ none
    → (force ≡ true) ⊎ (length s.active_tour_map < max_count)
    → (t : ℕ) × (s' : TourStore) × (rent max_count force key s ≡ ok (some t, s'))
unfolding rent
rent-answers max_count force key s e room = elim (Option-cases (pop_free s.free_tours)) [
  | inr ((t, rest), f) ↦ (t, activate key t (record s { free_tours = rest }), rw (rent, e, f) refl)
  | inl f ↦
      let g : (not force && leb max_count (length s.active_tour_map)) ≡ false =
        ground (arith, room) in
      (s.created, activate key s.created (create s).1, rw (rent, e, f, g) refl)
]
