-- ===== src/Http2/HeaderTable/Laws.antt =====
-- What the operations of the header tables do to the fields found by index and by name.
use bay_server_python.Prelude.{
  ℕ, suc, ◌+◌, ◌-◌, ◌≤◌, ◌<◌, ◌≡◌, refl, ap, ◌∙◌, Bytes, List, [], ◌∷◌, ◌++◌, length, get_elem?,
  All, none, some, Bool, true, false, ◌&&◌, ltb, leb, ◌==◌, if◌then◌else◌, text_eq, text_eq_iff,
  text_eq_refl, Bool-cases, Option-cases, leb→le, append-nil, inl, inr, arith, codes,
}
use mathlib.Core.Path.{subst}
use bay_server_python.Prelude.Results.{ok}
use bay_server_python.Http2.HeaderTable.Static.{entries}
use bay_server_python.Http2.HeaderTable.{
  KeyVal, HeaderTable, empty, or_nil, or_raise, name_get, add_to_name_map, insert, put_all,
  static_table, static_size, get, get_idx_list,
}

-- None of the calls of `put` raises, and the table has `static_size` entries.
pub put_all-static :
    (put_all entries empty ≡ ok static_table) × (length static_table.idx_map ≡ static_size)
unfolding static_table
put_all-static = (refl, refl)

-- An inserted field has the first index behind the static table, the fields of the static table
-- keep theirs, and those of the dynamic table move up by one.
pub get-insert :
    (n v : Bytes) (t : HeaderTable) (idx : ℕ)
    → get idx (insert n v t) ≡ (
        if leb idx static_size
        then get idx t
        else if idx == 62
        then ok (record { name = n; value = v })
        else get (idx - 1) t)
unfolding get insert
get-insert n v t idx = elim (Bool-cases (leb idx static_size)) [
  | inl static ↦ rw static (ground arith)
  | inr dynamic ↦ elim (Bool-cases (idx == 62)) [
    | inl new ↦ rw (dynamic, new) (ground arith)
    | inr old ↦
        let e : idx - static_size - 1 ≡ suc (idx - 1 - static_size - 1) = ground arith in
        rw (dynamic, old, e) (ground arith)
  ]
]

-- The test that each index of a name map leads to a field of that name.
names_at : List KeyVal → Bytes → List ℕ → Bool
names_at m n [] = true
names_at m n (idx ∷ l) =
    elim (get_elem? m (idx - 1)) [ none ↦ false | some kv ↦ text_eq kv.name n ]
    && ltb 0 idx
    && leb idx (length m)
    && names_at m n l

all_names_at : List KeyVal → List (Bytes × List ℕ) → Bool
all_names_at m [] = true
all_names_at m ((n, l) ∷ r) = names_at m n l && all_names_at m r

static_names : all_names_at static_table.idx_map static_table.name_map ≡ true
unfolding all_names_at names_at static_table text_eq
static_names = refl

names_at-name_get :
    (m : List KeyVal) (names : List (Bytes × List ℕ)) (n : Bytes)
    → all_names_at m names ≡ true
    → names_at m n (or_nil (name_get n names)) ≡ true
unfolding all_names_at name_get names_at
names_at-name_get m [] n h = refl
names_at-name_get m ((k, l) ∷ r) n h = elim (Bool-cases (text_eq k n)) [
  | inl same ↦
      rw same (subst (λ x. names_at m x l ≡ true) ((text_eq_iff k n).0 same) (ground arith))
  | inr other ↦ rw other (names_at-name_get m r n (ground arith))
]

-- An index leads to a field of the name.
abbrev pub Leads : HeaderTable → Bytes → ℕ → Type 0
Leads t n idx = (kv : KeyVal) × (get idx t ≡ ok kv) × (kv.name ≡ n)

-- An index of the static table is looked up there, whatever the dynamic table holds.
pub get-static :
    (t : HeaderTable) (idx : ℕ)
    → 0 < idx
    → idx ≤ static_size
    → get idx t ≡ or_raise (get_elem? static_table.idx_map (idx - 1))
unfolding get
get-static t idx p h =
    let zero : (idx == 0) ≡ false = ground arith in
    let inside : ltb (static_size + length t.idx_map) idx ≡ false = ground arith in
    let static : leb idx static_size ≡ true = ground arith in rw (zero, inside, static) refl

Leads-static :
    (t : HeaderTable) (n : Bytes) (idx : ℕ) {kv : KeyVal}
    → get_elem? static_table.idx_map (idx - 1) ≡ some kv
    → text_eq kv.name n ≡ true
    → 0 < idx
    → idx ≤ static_size
    → Leads t n idx
Leads-static t n idx {kv} e same p h =
    (kv, get-static t idx p h ∙ ap or_raise e, (text_eq_iff kv.name n).0 same)

names_at-Leads :
    (t : HeaderTable) (n : Bytes) (l : List ℕ)
    → names_at static_table.idx_map n l ≡ true
    → All (Leads t n) l
unfolding names_at
names_at-Leads t n [] h = tt
names_at-Leads t n (idx ∷ l) h = elim (Option-cases (get_elem? static_table.idx_map (idx - 1))) [
  | inl missing ↦ absurd (ground (arith, missing))
  | inr (kv, found) ↦ (
    Leads-static t n idx found (ground (arith, found)) (ground (arith, found)) (
        omega (
          arith,
          put_all-static.1,
          leb→le idx (length static_table.idx_map) (ground (arith, found)),
        )),
    names_at-Leads t n l (ground (arith, found)),
  )
]

-- While the dynamic table knows no field of the name, every index that is listed for the name leads
-- to a field of that name.
pub get_idx_list-Leads :
    (n : Bytes) (t : HeaderTable)
    → name_get n t.name_map ≡ none
    → All (Leads t n) (get_idx_list n t)
unfolding get_idx_list
get_idx_list-Leads n t h =
    rw (h, append-nil)
      (names_at-Leads t n (or_nil (name_get n static_table.name_map))
        (names_at-name_get static_table.idx_map static_table.name_map n static_names))

name_get-add_to_name_map :
    (n : Bytes) (idx : ℕ) (r : List (Bytes × List ℕ))
    → name_get n (add_to_name_map n idx r) ≡ some (or_nil (name_get n r) ++ (idx ∷ []))
unfolding name_get add_to_name_map
name_get-add_to_name_map n idx [] = rw (text_eq_refl n)
name_get-add_to_name_map n idx ((m, l) ∷ r) = elim (Bool-cases (text_eq m n)) [
  | inl same ↦ rw (same, same)
  | inr other ↦ rw (other, other) (name_get-add_to_name_map n idx r)
]

-- Right after the insertion of a field whose name is in neither table, the only index that is
-- listed for the name is 61, where the static table has its last field, `www-authenticate`, while
-- the field itself is at 62.
pub get_idx_list-insert :
    (n v : Bytes) (t : HeaderTable)
    → name_get n static_table.name_map ≡ none
    → name_get n t.name_map ≡ none
    → (get_idx_list n (insert n v t) ≡ 61 ∷ [])
      × (get 61 (insert n v t) ≡ ok (record { name = codes "www-authenticate"; value = [] }))
      × (get 62 (insert n v t) ≡ ok (record { name = n; value = v }))
unfolding get_idx_list insert
get_idx_list-insert n v t h k = (
  rw (h, name_get-add_to_name_map n (t.add_count + 1) t.name_map, k) (ap (λ i. i ∷ []) only),
  get-static (insert n v t) 61 (omega arith) (omega arith) ∙ unfold static_table in refl,
  get-insert n v t 62,
)
  where
    only : t.add_count + 1 - (t.add_count + 1) + 61 ≡ 61
    only = omega arith
