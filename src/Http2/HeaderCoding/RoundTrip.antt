-- ===== src/Http2/HeaderCoding/RoundTrip.antt =====
-- A block that the builder makes of a field is read back as the field.
use mathlib.Core.Path.{subst}
use bay_server_python.Prelude.{
  ℕ, ◌≡◌, refl, sym, ap, ◌∙◌, Bytes, List, [], ◌∷◌, All, Option, none, some, true, text_eq,
  text_eq_iff, Bool-cases, inl, inr,
}
use bay_server_python.Prelude.Results.{ok}
use bay_server_python.Http2.HeaderTable.{HeaderTable, KeyVal, get, name_get, get_idx_list}
use bay_server_python.Http2.HeaderTable.Laws.{Leads, get_idx_list-Leads}
use bay_server_python.Http2.HeaderBlock.{HeaderBlock, index, known_header}
use bay_server_python.Http2.HeaderCoding.Fields.{Analysed, Analysed-classify}
use bay_server_python.Http2.HeaderCoding.{
  find_value, literal_block, choose_block, build_header_block, classify, with_table,
  analyze_header_block,
}

-- A block that stands for the field in the table: what it analyses to is the field.
abbrev Means : HeaderTable → Bytes → Bytes → HeaderBlock → Type 0
Means t n v b = analyze_header_block b t ≡ with_table t (classify n v)

index-Means :
    (t : HeaderTable) (n v : Bytes) (idx : ℕ) (kv : KeyVal)
    → get idx t ≡ ok kv
    → kv.name ≡ n
    → text_eq v kv.value ≡ true
    → Means t n v (index idx)
unfolding analyze_header_block
index-Means t n v idx kv e named same = rw e (
    ap (λ m. with_table t (classify m kv.value)) named
    ∙ ap (λ w. with_table t (classify n w)) (sym ((text_eq_iff v kv.value).0 same)))

known-Means :
    (t : HeaderTable) (n v : Bytes) (idx : ℕ) → Leads t n idx → Means t n v (known_header idx v)
unfolding analyze_header_block
known-Means t n v idx (kv, e, named) = rw e (ap (λ m. with_table t (classify m v)) named)

literal-Means :
    (t : HeaderTable) (n v : Bytes) (l : List ℕ)
    → All (Leads t n) l
    → Means t n v (literal_block n v l)
literal-Means t n v [] h = unfold analyze_header_block in refl
literal-Means t n v (idx ∷ l) h = known-Means t n v idx h.0

-- What the loop finds, if it finds anything, leads to the name and the value.
find_value-Means :
    (t : HeaderTable) (n v : Bytes) (l : List ℕ)
    → All (Leads t n) l
    → (found : Option ℕ) × (find_value v l t ≡ ok found)
      × ((idx : ℕ) → found ≡ some idx → Means t n v (index idx))
unfolding find_value
find_value-Means t n v [] h = (none, refl, λ idx e. cc)
find_value-Means t n v (idx ∷ l) ((kv, e, named), h) = elim (Bool-cases (text_eq v kv.value)) [
  | inl same ↦ (
    some idx,
    rw (e, same),
    λ i p.
        let q : idx ≡ i = cc in
        subst (λ i. Means t n v (index i)) q (index-Means t n v idx kv e named same),
  )
  | inr other ↦ let (found, f, m) = find_value-Means t n v l h in (found, rw (e, other) f, m)
]

choose-Means :
    (t : HeaderTable) (n v : Bytes) (l : List ℕ) (found : Option ℕ)
    → All (Leads t n) l
    → ((idx : ℕ) → found ≡ some idx → Means t n v (index idx))
    → Means t n v (choose_block n v l found)
choose-Means t n v l none h m = literal-Means t n v l h
choose-Means t n v l (some idx) h m = m idx refl

-- With a table whose dynamic part does not know the name, `build_header_block` succeeds, and the analyzer
-- of its block and the same table leaves the table as it is and holds the field: the value, the name, for
-- which ":authority" becomes "host", and for a pseudo header its own attribute and no other. Where the name
-- is empty, and only there, the analyzer raises IndexError.
pub analyze-build_header_block :
    (n v : Bytes) (t : HeaderTable)
    → name_get n t.name_map ≡ none
    → (b : HeaderBlock) × (build_header_block n v t ≡ ok b)
      × Analysed n v t (analyze_header_block b t)
unfolding build_header_block
analyze-build_header_block n v t h =
    let leads = get_idx_list-Leads n t h in
    let (found, e, m) = find_value-Means t n v (get_idx_list n t) leads in
    (
      choose_block n v (get_idx_list n t) found,
      rw e refl,
      Analysed-classify n v t (analyze_header_block (choose_block n v (get_idx_list n t) found) t)
          (choose-Means t n v (get_idx_list n t) found leads m),
    )
