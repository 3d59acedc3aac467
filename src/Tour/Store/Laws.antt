-- ===== src/Tour/Store/Laws.antt =====
-- A tour is free or active under one key, and a free one is as new.
use mathlib.Core.Path.{subst}
use bay_server_python.Prelude.{
  ℕ, ◌+◌, ◌≤◌, ◌<◌, ◌≡◌, refl, sym, ap, List, [], ◌∷◌, ◌++◌, ◌==◌, ==_iff, ==_refl, Bool-cases, inl,
  inr, none, some, arith, if◌then◌else◌, false, ◌∙◌,
}
use bay_server_python.Util.ObjectStore.Laws.{one_if, count}
use bay_server_python.Tour.State.{new_tour}
use bay_server_python.Tour.Store.{TourStore, lookup, remove, pop_free}

-- How often a tour is active, and how often a key is in the map.
unfoldable pub uses : ℕ → List (ℕ × ℕ) → ℕ
uses x [] = 0
uses x ((k, t) ∷ m) = one_if (x == t) + uses x m

unfoldable pub keys : ℕ → List (ℕ × ℕ) → ℕ
keys x [] = 0
keys x ((k, t) ∷ m) = one_if (x == k) + keys x m

pub uses-append : (x : ℕ) (m n : List (ℕ × ℕ)) → uses x (m ++ n) ≡ uses x m + uses x n
unfolding uses
uses-append x [] n = omega arith
uses-append x ((k, t) ∷ m) n = omega (arith, uses-append x m n)

pub keys-append : (x : ℕ) (m n : List (ℕ × ℕ)) → keys x (m ++ n) ≡ keys x m + keys x n
unfolding keys
keys-append x [] n = omega arith
keys-append x ((k, t) ∷ m) n = omega (arith, keys-append x m n)

pub keys-lookup-none : (x : ℕ) (m : List (ℕ × ℕ)) → lookup x m ≡ none → keys x m ≡ 0
unfolding keys lookup
keys-lookup-none x [] h = refl
keys-lookup-none x ((k, t) ∷ m) h = elim (Bool-cases (x == k)) [
  | inl e ↦ let h' : some t ≡ none = rw e at h in absurd (cc h')
  | inr e ↦
      let rest : lookup x m ≡ none = rw e at h in rw e (omega (arith, keys-lookup-none x m rest))
]

pub lookup-keys : (x : ℕ) (m : List (ℕ × ℕ)) → keys x m ≡ 0 → lookup x m ≡ none
unfolding keys lookup
lookup-keys x [] h = refl
lookup-keys x ((k, t) ∷ m) h = elim (Bool-cases (x == k)) [
  | inl e ↦ absurd (omega (arith, h, ap one_if e))
  | inr e ↦ rw e (lookup-keys x m (omega (arith, h)))
]

pub uses-lookup : (k t : ℕ) (m : List (ℕ × ℕ)) → lookup k m ≡ some t → 0 < uses t m
unfolding uses lookup
uses-lookup k t [] h = absurd (cc h)
uses-lookup k t ((j, u) ∷ m) h = elim (Bool-cases (k == j)) [
  | inl e ↦
      let h' : some u ≡ some t = rw e at h in
      let same : u ≡ t = cc h' in
      subst (λ v. 0 < one_if (t == v) + uses t m) (sym same) (omega (arith, ap one_if (==_refl t)))
  | inr e ↦ let rest : lookup k m ≡ some t = rw e at h in omega (arith, uses-lookup k t m rest)
]

-- Removing a key takes its tour, once, and the key, once.
pub uses-remove :
    (x k t : ℕ) (m : List (ℕ × ℕ))
    → lookup k m ≡ some t
    → uses x (remove k m) + one_if (x == t) ≡ uses x m
unfolding uses lookup remove
uses-remove x k t [] h = absurd (cc h)
uses-remove x k t ((j, u) ∷ m) h = elim (Bool-cases (k == j)) [
  | inl e ↦
      let h' : some u ≡ some t = rw e at h in
      let same : u ≡ t = cc h' in
      rw e (
        subst (λ v. uses x m + one_if (x == t) ≡ one_if (x == v) + uses x m) (sym same)
          (omega arith))
  | inr e ↦
      let rest : lookup k m ≡ some t = rw e at h in rw e (omega (arith, uses-remove x k t m rest))
]

pub keys-remove :
    (x k t : ℕ) (m : List (ℕ × ℕ))
    → lookup k m ≡ some t
    → keys x (remove k m) + one_if (x == k) ≡ keys x m
unfolding keys lookup remove
keys-remove x k t [] h = absurd (cc h)
keys-remove x k t ((j, u) ∷ m) h = elim (Bool-cases (k == j)) [
  | inl e ↦
      let same : k ≡ j = (==_iff k j).0 e in
      rw e (subst (λ v. keys x m + one_if (x == k) ≡ one_if (x == v) + keys x m) same (omega arith))
  | inr e ↦
      let rest : lookup k m ≡ some t = rw e at h in rw e (omega (arith, keys-remove x k t m rest))
]

pub lookup-append :
    (j k t : ℕ) (m : List (ℕ × ℕ))
    → lookup k m ≡ none
    → lookup j (m ++ ((k, t) ∷ [])) ≡ (if j == k then some t else lookup j m)
unfolding lookup
lookup-append j k t [] h = refl
lookup-append j k t ((i, u) ∷ m) h = elim (Bool-cases (k == i)) [
  | inl e ↦ let h' : some u ≡ none = rw e at h in absurd (cc h')
  | inr e ↦
      let rest : lookup k m ≡ none = rw e at h in
      elim (Bool-cases (j == i)) [
        | inl f ↦ let apart : (j == k) ≡ false = ground (arith, e, f) in rw (f, apart) refl
        | inr f ↦ rw f (lookup-append j k t m rest)
      ]
]

pub lookup-remove :
    (j k t : ℕ) (m : List (ℕ × ℕ))
    → lookup k m ≡ some t
    → keys k m ≤ 1
    → lookup j (remove k m) ≡ (if j == k then none else lookup j m)
unfolding lookup remove keys
lookup-remove j k t [] h one = absurd (cc h)
lookup-remove j k t ((i, u) ∷ m) h one = elim (Bool-cases (k == i)) [
  | inl e ↦
      let gone : lookup k m ≡ none = lookup-keys k m (omega (arith, one, ap one_if e)) in
      elim (Bool-cases (j == k)) [
        | inl f ↦ rw (e, f) (ap (λ x. lookup x m) ((==_iff j k).0 f) ∙ gone)
        | inr f ↦ let apart : (j == i) ≡ false = ground (arith, e, f) in rw (e, f, apart) refl
      ]
  | inr e ↦
      let rest : lookup k m ≡ some t = rw e at h in
      let less : keys k m ≤ 1 = omega (arith, one) in
      elim (Bool-cases (j == i)) [
        | inl f ↦ let apart : (j == k) ≡ false = ground (arith, e, f) in rw (e, f, apart) refl
        | inr f ↦ rw (e, f) (lookup-remove j k t m rest less)
      ]
]

pub record IsValid (s : TourStore) : Type 0 where
  pub once : (x : ℕ) → count x s.free_tours + uses x s.active_tour_map ≤ 1
  pub known : (x : ℕ) → s.created ≤ x → count x s.free_tours + uses x s.active_tour_map ≡ 0
  pub one_key : (k : ℕ) → keys k s.active_tour_map ≤ 1
  pub clean : (x : ℕ) → 0 < count x s.free_tours → s.tours x ≡ new_tour

pub count-pop_free :
    (x t : ℕ) (l rest : List ℕ)
    → pop_free l ≡ some (t, rest)
    → count x l ≡ one_if (x == t) + count x rest
unfolding count pop_free
count-pop_free x t [] rest h = absurd (cc h)
count-pop_free x t (o ∷ []) rest h =
    let e : o ≡ t = cc h in
    let f : [] ≡ rest = cc h in
    subst (λ v. one_if (x == o) + 0 ≡ one_if (x == v) + count x rest) e
      (ap (λ r. one_if (x == o) + count x r) f)
count-pop_free x t (o ∷ p ∷ l) rest h =
    let e : p ≡ t = cc h in
    let f : o ∷ l ≡ rest = cc h in
    subst (λ v. one_if (x == o) + (one_if (x == p) + count x l) ≡ one_if (x == v) + count x rest) e
      (omega (arith, ap (λ r. count x r) f))
