-- ===== src/Tour/Store/Refines.antt =====
-- The store as a map from keys to tours.
use mathlib.Core.Path.{subst}
use bay_server_python.Prelude.{
  ℕ, ◌+◌, ◌≤◌, ◌<◌, ◌≡◌, ◌≢◌, refl, sym, ap, ◌∙◌, List, [], ◌∷◌, ◌++◌, length, ◌==◌, ==_iff,
  ==_refl, if◌then◌else◌, Bool, false, not, ◌&&◌, leb, Bool-cases, Option-cases, inl, inr, Option,
  none, some, arith,
}
use bay_server_python.Prelude.Results.{Result, ok, err, sink}
use bay_server_python.Util.ObjectStore.Laws.{one_if, count, count-append}
use bay_server_python.Tour.State.{new_tour, reset}
use bay_server_python.Tour.Store.{
  TourStore, lookup, remove, get, pop_free, set_at, activate, create, rent, give_back,
}
use bay_server_python.Tour.Store.Laws.{
  IsValid, uses, keys, uses-append, keys-append, lookup-append, lookup-remove, keys-lookup-none,
  uses-lookup, uses-remove, keys-remove, count-pop_free,
}

-- The specification: maps from keys to tours, and what renting and returning do to them.
pub record Rents (key t : ℕ) (m m' : ℕ → Option ℕ) : Type 0 where
  pub absent : m key ≡ none
  pub unused : (j : ℕ) → m j ≢ some t
  pub after : (j : ℕ) → m' j ≡ (if j == key then some t else m j)

pub record Returns (key : ℕ) (m m' : ℕ → Option ℕ) : Type 0 where
  pub present : (t : ℕ) × (m key ≡ some t)
  pub after : (j : ℕ) → m' j ≡ (if j == key then none else m j)

abbrev pub view : TourStore → ℕ → Option ℕ
view s j = get j s

-- A tour that is neither free nor active.
record IsSpare (t : ℕ) (s : TourStore) : Type 0 where
  once : (x : ℕ) → one_if (x == t) + count x s.free_tours + uses x s.active_tour_map ≤ 1
  known :
      (x : ℕ)
      → s.created ≤ x
      → one_if (x == t) + count x s.free_tours + uses x s.active_tour_map ≡ 0
  one_key : (k : ℕ) → keys k s.active_tour_map ≤ 1
  clean : (x : ℕ) → 0 < count x s.free_tours → s.tours x ≡ new_tour
  new_too : s.tours t ≡ new_tour

-- What `rent` hands out: the tour is as new, and the store is valid and says what the map says.
pub record Handed (key t : ℕ) (m : ℕ → Option ℕ) (s' : TourStore) : Type 0 where
  pub rents : Rents key t m (view s')
  pub fresh : s'.tours t ≡ new_tour
  pub valid : IsValid s'

activate-Handed :
    (key t : ℕ) (s : TourStore)
    → IsSpare t s
    → get key s ≡ none
    → Handed key t (view s) (activate key t s)
unfolding get uses keys
activate-Handed key t s spare none_yet = record {
  rents = record {
    absent = none_yet;
    unused = λ j used. absurd (
        omega (arith, spare.once t, ap one_if (==_refl t), uses-lookup j t s.active_tour_map used));
    after = λ j. lookup-append j key t s.active_tour_map none_yet;
  };
  fresh = spare.new_too;
  valid = record {
    once = λ x. omega (arith, spare.once x, uses-append x s.active_tour_map ((key, t) ∷ []));
    known =
        λ x old. omega (arith, spare.known x old, uses-append x s.active_tour_map ((key, t) ∷ []));
    one_key = λ k.
        let more = keys-append k s.active_tour_map ((key, t) ∷ []) in
        elim (Bool-cases (k == key)) [
          | inl e ↦
              let gone : keys k s.active_tour_map ≡ 0 =
                ap (λ i. keys i s.active_tour_map) ((==_iff k key).0 e)
                ∙ keys-lookup-none key s.active_tour_map none_yet in
              omega (arith, more, gone, ap one_if e)
          | inr e ↦ omega (arith, more, spare.one_key k, ap one_if e)
        ];
    clean = spare.clean;
  };
}

popped-IsSpare :
    (t : ℕ) (rest : List ℕ) (s : TourStore)
    → IsValid s
    → pop_free s.free_tours ≡ some (t, rest)
    → IsSpare t (record s { free_tours = rest })
popped-IsSpare t rest s v pops = record {
  once = λ x. omega (arith, v.once x, count-pop_free x t s.free_tours rest pops);
  known = λ x old. omega (arith, v.known x old, count-pop_free x t s.free_tours rest pops);
  one_key = v.one_key;
  clean = λ x here. v.clean x (omega (arith, here, count-pop_free x t s.free_tours rest pops));
  new_too =
      v.clean t (omega (arith, count-pop_free t t s.free_tours rest pops, ap one_if (==_refl t)));
}

created-IsSpare : (s : TourStore) → IsValid s → IsSpare s.created (create s).1
created-IsSpare s v = record {
  once = λ x. elim (Bool-cases (x == s.created)) [
    | inl e ↦
        let old : s.created ≤ x = ground (arith, e) in omega (arith, v.known x old, ap one_if e)
    | inr e ↦ omega (arith, v.once x, ap one_if e)
  ];
  known = λ x old.
      let apart : (x == s.created) ≡ false = ground (arith, old) in
      omega (arith, v.known x (omega (arith, old)), ap one_if apart);
  one_key = v.one_key;
  clean = λ x here. elim (Bool-cases (x == s.created)) [
    | inl e ↦ rw e refl
    | inr e ↦ rw e (v.clean x here)
  ];
  new_too = rw (==_refl s.created) refl;
}

abbrev answer : ℕ → TourStore → Result (Option ℕ × TourStore)
answer t s = ok (some t, s)

-- What was handed out is what the answer says.
rented :
    (key t u : ℕ) (s s2 s' : TourStore)
    → answer u (activate key u s2) ≡ answer t s'
    → Handed key u (view s) (activate key u s2)
    → Handed key t (view s) s'
rented key t u s s2 s' h handed =
    let same : u ≡ t = cc h in
    let store : activate key u s2 ≡ s' = cc h in
    subst (λ x. Handed key x (view s) s') same (subst (λ x. Handed key u (view s) x) store handed)

-- A valid store hands out a tour that is as new and that no key has, and is a valid store after that, with
-- the key and its tour in the map and nothing else changed there.
pub rent-refines :
    (max_count : ℕ) (force : Bool) (key t : ℕ) (s s' : TourStore)
    → IsValid s
    → rent max_count force key s ≡ ok (some t, s')
    → Handed key t (view s) s'
unfolding rent get
rent-refines max_count force key t s s' v h = elim (Option-cases (get key s)) [
  | inr (u, e) ↦ let h' : err sink ≡ ok (some t, s') = rw (rent, e) at h in absurd (cc h')
  | inl e ↦ elim (Option-cases (pop_free s.free_tours)) [
    | inr ((u, rest), f) ↦
        let s2 = record s { free_tours = rest } in
        let h' : answer u (activate key u s2) ≡ answer t s' = rw (rent, e, f) at h in
        rented key t u s s2 s' h' (activate-Handed key u s2 (popped-IsSpare u rest s v f) e)
    | inl f ↦
        let s2 = (create s).1 in
        elim (Bool-cases (not force && leb max_count (length s.active_tour_map))) [
          | inl g ↦
              let h' : ok (none, s) ≡ ok (some t, s') = rw (rent, e, f, g) at h in absurd (cc h')
          | inr g ↦
              let h' : answer s.created (activate key s.created s2) ≡ answer t s' =
                rw (rent, e, f, g) at h in
              rented key t s.created s s2 s' h'
                (activate-Handed key s.created s2 (created-IsSpare s v) e)
        ]
  ]
]

given-IsValid :
    (key t : ℕ) (s : TourStore)
    → IsValid s
    → lookup key s.active_tour_map ≡ some t
    → IsValid (record s {
      free_tours = s.free_tours ++ (t ∷ []);
      active_tour_map = remove key s.active_tour_map;
      tours = set_at t (reset (s.tours t)) s.tours;
    })
unfolding count reset
given-IsValid key t s v e = record {
  once = λ x. omega (
    arith,
    v.once x,
    count-append x s.free_tours (t ∷ []),
    uses-remove x key t s.active_tour_map e,
  );
  known = λ x old. omega (
    arith,
    v.known x old,
    count-append x s.free_tours (t ∷ []),
    uses-remove x key t s.active_tour_map e,
  );
  one_key = λ k. omega (arith, v.one_key k, keys-remove k key t s.active_tour_map e);
  clean = λ x here. elim (Bool-cases (x == t)) [
    | inl f ↦ rw f refl
    | inr f ↦
        rw f (v.clean x (omega (arith, here, count-append x s.free_tours (t ∷ []), ap one_if f)))
  ];
}

-- What `Return` owes for a key under which `found` is in the map: the tour is taken back and kept as new
-- for another request, or Sink is raised.
abbrev pub TakesBack : ℕ → TourStore → Option ℕ → Type 0
TakesBack key s none = give_back key s ≡ err sink
TakesBack key s (some t) =
    (s' : TourStore) × (give_back key s ≡ ok s')
    × Returns key (view s) (view s')
    × (0 < count t s'.free_tours)
    × (s'.tours t ≡ new_tour)
    × IsValid s'

-- A valid store takes back every tour that is active under the key, and raises Sink for a key that is not
-- in use. With the tour taken back it is a valid store, without the key in the map and nothing else changed
-- there, and the tour is free and as new.
pub give_back-refines : (key : ℕ) (s : TourStore) → IsValid s → TakesBack key s (get key s)
unfolding give_back get
give_back-refines key s v = elim (Option-cases (lookup key s.active_tour_map)) [
  | inl e ↦ subst (TakesBack key s) (sym e) (rw (give_back, e) refl)
  | inr (t, e) ↦
      let s' = record s {
        free_tours = s.free_tours ++ (t ∷ []);
        active_tour_map = remove key s.active_tour_map;
        tours = set_at t (reset (s.tours t)) s.tours;
      } in
      let valid = given-IsValid key t s v e in
      let kept : 0 < count t (s.free_tours ++ (t ∷ [])) =
        unfold count in
        omega (arith, count-append t s.free_tours (t ∷ []), ap one_if (==_refl t)) in
      subst (TakesBack key s) (sym e) (
        s',
        rw (give_back, e) refl,
        record {
          present = (t, e);
          after = λ j. lookup-remove j key t s.active_tour_map e (v.one_key key);
        },
        kept,
        valid.clean t kept,
        valid,
      )
]
