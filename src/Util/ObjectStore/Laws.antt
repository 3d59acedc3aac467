-- ===== src/Util/ObjectStore/Laws.antt =====
-- No object is handed out twice.
use mathlib.Core.Path.{subst}
use bay_server_python.Prelude.{
  ◌⊎◌, ℕ, ◌+◌, ◌≤◌, ◌<◌, ◌≡◌, refl, ap, List, [], ◌∷◌, ◌++◌, ◌==◌, ==_iff, ==_refl, if◌then◌else◌,
  Bool, true, false, Bool-cases, inl, inr, Option, none, some, arith,
}
use bay_server_python.Prelude.Results.{ok, err, sink}
use bay_server_python.Util.ObjectStore.{ObjectStore, elem, remove, rent, give_back}

abbrev pub one_if : Bool → ℕ
one_if true = 1
one_if false = 0

-- How often an object is in a list.
unfoldable pub count : ℕ → List ℕ → ℕ
count x [] = 0
count x (o ∷ l) = one_if (x == o) + count x l

-- Every object is in the store at most once: free, or active.
pub record IsValid (s : ObjectStore) : Type 0 where
  pub once : (x : ℕ) → count x s.free_list + count x s.active_list ≤ 1

pub record IsActive (x : ℕ) (s : ObjectStore) : Type 0 where
  pub active : count x s.active_list ≡ 1
  pub not_free : count x s.free_list ≡ 0

pub count-append : (x : ℕ) (l m : List ℕ) → count x (l ++ m) ≡ count x l + count x m
unfolding count
count-append x [] m = omega arith
count-append x (o ∷ l) m = omega (arith, count-append x l m)

count-elem : (x : ℕ) (l : List ℕ) → elem x l ≡ true → 0 < count x l
unfolding elem count
count-elem x [] h = absurd (cc h)
count-elem x (o ∷ l) h = elim (Bool-cases (x == o)) [
  | inl e ↦ rw e (omega arith)
  | inr e ↦ let here : elem x l ≡ true = rw e at h in omega (arith, count-elem x l here)
]

count-no_elem : (x : ℕ) (l : List ℕ) → elem x l ≡ false → count x l ≡ 0
unfolding elem count
count-no_elem x [] h = refl
count-no_elem x (o ∷ l) h = elim (Bool-cases (x == o)) [
  | inl e ↦ let h' : true ≡ false = rw e at h in absurd (cc h')
  | inr e ↦ let here : elem x l ≡ false = rw e at h in rw e (omega (arith, count-no_elem x l here))
]

-- Removing takes one occurrence.
count-remove :
    (x obj : ℕ) (l : List ℕ)
    → elem obj l ≡ true
    → count x (remove obj l) + one_if (x == obj) ≡ count x l
unfolding elem remove count
count-remove x obj [] h = absurd (cc h)
count-remove x obj (o ∷ l) h = elim (Bool-cases (obj == o)) [
  | inl e ↦
      let same : obj ≡ o = (==_iff obj o).0 e in
      rw e (
        subst (λ t. count x l + one_if (x == obj) ≡ one_if (x == t) + count x l) same (omega arith))
  | inr e ↦
      let here : elem obj l ≡ true = rw e at h in rw e (omega (arith, count-remove x obj l here))
]

-- What `rent` would create is not in the store.
abbrev pub IsFresh : Option ℕ → ObjectStore → Type 0
IsFresh created s = (x : ℕ) → created ≡ some x → count x s.free_list + count x s.active_list ≡ 0

abbrev handed : List ℕ → List ℕ → ℕ → ObjectStore
handed free active obj = record { free_list = free; active_list = active ++ (obj ∷ []) }

rent-cases :
    (free active : List ℕ) (created : Option ℕ) (obj : ℕ) (s' : ObjectStore)
    → rent created (record { free_list = free; active_list = active }) ≡ ok (obj, s')
    → ((rest : List ℕ) × (free ≡ obj ∷ rest) × (handed rest active obj ≡ s'))
      ⊎ ((free ≡ []) × (created ≡ some obj) × (handed [] active obj ≡ s'))
unfolding rent
rent-cases [] active none obj s' e = absurd (cc e)
rent-cases [] active (some c) obj s' e =
    let same : c ≡ obj = cc e in
    let store : handed [] active c ≡ s' = cc e in
    inr (refl, ap some same, subst (λ t. handed [] active t ≡ s') same store)
rent-cases (o ∷ rest) active created obj s' e =
    let same : o ≡ obj = cc e in
    let store : handed rest active o ≡ s' = cc e in
    inl (rest, ap (λ t. t ∷ rest) same, subst (λ t. handed rest active t ≡ s') same store)

-- Where `free` holds what is left of the store's objects, the object that goes to the active ones is
-- active, once.
handed-IsValid :
    (free active : List ℕ) (obj : ℕ)
    → ((x : ℕ) → one_if (x == obj) + count x free + count x active ≤ 1)
    → IsValid (handed free active obj) × IsActive obj (handed free active obj)
unfolding count
handed-IsValid free active obj h = (
  record { once = λ x. omega (arith, h x, count-append x active (obj ∷ [])) },
  record {
    active = omega (arith, here, count-append obj active (obj ∷ []), ap one_if (==_refl obj));
    not_free = omega (arith, here, ap one_if (==_refl obj));
  },
)
  where
    here : one_if (obj == obj) + count obj free + count obj active ≤ 1
    here = h obj

one_if-le : (b : Bool) → one_if b ≤ 1
one_if-le true = omega arith
one_if-le false = omega arith

fresh_once :
    (s : ObjectStore) (obj : ℕ)
    → IsValid s
    → count obj s.free_list + count obj s.active_list ≡ 0
    → (x : ℕ) → one_if (x == obj) + count x [] + count x s.active_list ≤ 1
unfolding count
fresh_once s obj v h x = elim (Bool-cases (x == obj)) [
  | inl e ↦
      let same : x ≡ obj = (==_iff x obj).0 e in
      rw e (omega (arith, h, ap (λ t. count t s.active_list) same))
  | inr e ↦ rw e (omega (arith, v.once x))
]

-- In a store with each object at most once, where what the factory creates is not in the store: `rent`
-- keeps each object at most once, and what it returns is active and no longer free.
pub rent-IsValid :
    (created : Option ℕ) (s s' : ObjectStore) (obj : ℕ)
    → IsValid s
    → IsFresh created s
    → rent created s ≡ ok (obj, s')
    → IsValid s' × IsActive obj s'
rent-IsValid created s s' obj v fresh e =
    elim (rent-cases s.free_list s.active_list created obj s' e) [
      | inl (rest, free, store) ↦
          subst (λ t. IsValid t × IsActive obj t) store
            (handed-IsValid rest s.active_list obj
              (λ x. unfold count in omega (arith, v.once x, ap (count x) free)))
      | inr (free, is_new, store) ↦
          subst (λ t. IsValid t × IsActive obj t) store
            (handed-IsValid [] s.active_list obj (fresh_once s obj v (fresh obj is_new)))
    ]

abbrev returned : ℕ → Bool → ObjectStore → ObjectStore
returned obj reuse s = record {
  free_list = if reuse then obj ∷ s.free_list else s.free_list;
  active_list = remove obj s.active_list;
}

-- In a store with each object at most once, an object that is active is taken back: it leaves the
-- active ones, and is free again if it is to be used again. The store still has each object at
-- most once.
pub give_back-active :
    (obj : ℕ) (reuse : Bool) (s : ObjectStore)
    → IsValid s
    → IsActive obj s
    → (s' : ObjectStore) × (give_back obj reuse s ≡ ok s')
      × IsValid s'
      × (count obj s'.active_list ≡ 0)
      × (count obj s'.free_list ≡ one_if reuse)
unfolding give_back
give_back-active obj reuse s v a = elim (Bool-cases (elem obj s.free_list)) [
  | inl e ↦ absurd (omega (arith, count-elem obj s.free_list e, a.not_free))
  | inr e ↦ elim (Bool-cases (elem obj s.active_list)) [
    | inl f ↦ (
      returned obj reuse s,
      rw (e, f) refl,
      record { once = once f reuse },
      omega (arith, count-remove obj obj s.active_list f, a.active, ap one_if (==_refl obj)),
      free reuse,
    )
    | inr f ↦ absurd (omega (arith, count-no_elem obj s.active_list f, a.active))
  ]
]
  where
    once :
        elem obj s.active_list ≡ true
        → (b : Bool) (x : ℕ)
        → count x (returned obj b s).free_list + count x (returned obj b s).active_list ≤ 1
    once f true x = unfold count in omega (arith, v.once x, count-remove x obj s.active_list f)
    once f false x = omega (arith, v.once x, count-remove x obj s.active_list f)

    free : (b : Bool) → count obj (if b then obj ∷ s.free_list else s.free_list) ≡ one_if b
    free true = unfold count in omega (arith, a.not_free, ap one_if (==_refl obj))
    free false = omega (arith, a.not_free)

-- An object that is not active is refused with a Sink, whether it is free or not.
pub give_back-refused :
    (obj : ℕ) (reuse : Bool) (s : ObjectStore)
    → count obj s.active_list ≡ 0
    → give_back obj reuse s ≡ err sink
unfolding give_back
give_back-refused obj reuse s h = elim (Bool-cases (elem obj s.active_list)) [
  | inl e ↦ absurd (omega (arith, count-elem obj s.active_list e, h))
  | inr e ↦ elim (Bool-cases (elem obj s.free_list)) [ inl f ↦ rw f refl | inr f ↦ rw (f, e) refl ]
]

-- In a store with each object at most once: an active object is taken back, and is refused with a
-- Sink when it is given back again right after that.
pub give_back-twice :
    (obj : ℕ) (reuse again : Bool) (s : ObjectStore)
    → IsValid s
    → IsActive obj s
    → (s' : ObjectStore) × (give_back obj reuse s ≡ ok s') × (give_back obj again s' ≡ err sink)
give_back-twice obj reuse again s v a =
    let (s', done_once, _, gone, _) = give_back-active obj reuse s v a in
    (s', done_once, give_back-refused obj again s' gone)
