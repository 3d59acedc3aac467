-- ===== src/Http2/HeaderCoding/Fields.antt =====
-- What the analyzer holds for a header field.
use mathlib.Core.Path.{subst}
use bay_server_python.Prelude.{
  ℕ, ◌≡◌, refl, sym, ap, ◌∙◌, Bytes, [], ◌∷◌, none, some, false, text_eq, text_eq_iff, Bool-cases,
  inl, inr, codes, ◌==◌, if◌then◌else◌,
}
use bay_server_python.Prelude.Results.{Result, ok, err, index_error}
use bay_server_python.Http2.HeaderTable.{HeaderTable}
use bay_server_python.Http2.HeaderCoding.{classify, with_table, Analyzer, clear}

-- What an analyzer holds for a field, attribute by attribute: HTTP/2's name of the host is replaced, and a
-- pseudo header stands in its attribute too.
pub record Describes (n v : Bytes) (a : Analyzer) : Type 0 where
  pub name : a.name ≡ some (if text_eq n (codes ":authority") then codes "host" else n)
  pub value : a.value ≡ some v
  pub method : a.method ≡ (if text_eq n (codes ":method") then some v else none)
  pub path : a.path ≡ (if text_eq n (codes ":path") then some v else none)
  pub scheme : a.scheme ≡ (if text_eq n (codes ":scheme") then some v else none)
  pub status : a.status ≡ (if text_eq n (codes ":status") then some v else none)

-- The analyzer for the field, and the table as it was; without a name, IndexError.
abbrev pub Analysed : Bytes → Bytes → HeaderTable → Result (Analyzer × HeaderTable) → Type 0
Analysed [] v t r = r ≡ err index_error
Analysed (c ∷ cs) v t r = (a : Analyzer) × (r ≡ ok (a, t)) × Describes (c ∷ cs) v a

Classified : Bytes → Bytes → Type 0
Classified n v = (a : Analyzer) × (classify n v ≡ ok a) × Describes n v a

classify-authority : (v : Bytes) → Classified (codes ":authority") v
unfolding Classified classify text_eq
classify-authority v = (
  _,
  refl,
  record { name = refl; value = refl; method = refl; path = refl; scheme = refl; status = refl },
)

classify-method : (v : Bytes) → Classified (codes ":method") v
unfolding Classified classify text_eq
classify-method v = (
  _,
  refl,
  record { name = refl; value = refl; method = refl; path = refl; scheme = refl; status = refl },
)

classify-path : (v : Bytes) → Classified (codes ":path") v
unfolding Classified classify text_eq
classify-path v = (
  _,
  refl,
  record { name = refl; value = refl; method = refl; path = refl; scheme = refl; status = refl },
)

classify-scheme : (v : Bytes) → Classified (codes ":scheme") v
unfolding Classified classify text_eq
classify-scheme v = (
  _,
  refl,
  record { name = refl; value = refl; method = refl; path = refl; scheme = refl; status = refl },
)

classify-status : (v : Bytes) → Classified (codes ":status") v
unfolding Classified classify text_eq
classify-status v = (
  _,
  refl,
  record { name = refl; value = refl; method = refl; path = refl; scheme = refl; status = refl },
)

-- A name that is none of the five.
classify-other :
    (c : ℕ) (cs v : Bytes)
    → text_eq (c ∷ cs) (codes ":authority") ≡ false
    → text_eq (c ∷ cs) (codes ":method") ≡ false
    → text_eq (c ∷ cs) (codes ":path") ≡ false
    → text_eq (c ∷ cs) (codes ":scheme") ≡ false
    → text_eq (c ∷ cs) (codes ":status") ≡ false
    → Classified (c ∷ cs) v
unfolding Classified classify
classify-other c cs v ha hm hp hs ht = (
  record clear { name = some (c ∷ cs); value = some v },
  elim (Bool-cases (c == b':')) [ inl e ↦ rw (e, ha, hm, hp, hs, ht) refl | inr e ↦ rw e refl ],
  record {
    name = rw ha refl;
    value = refl;
    method = rw hm refl;
    path = rw hp refl;
    scheme = rw hs refl;
    status = rw ht refl;
  },
)

-- The name is one of those, or the rest of the tests decides.
one_of :
    (n v : Bytes) (m : Bytes)
    → Classified m v
    → (text_eq n m ≡ false → Classified n v)
    → Classified n v
one_of n v m at_name other = elim (Bool-cases (text_eq n m)) [
  | inl e ↦ subst (λ x. Classified x v) (sym ((text_eq_iff n m).0 e)) at_name
  | inr e ↦ other e
]

classify-Describes : (c : ℕ) (cs v : Bytes) → Classified (c ∷ cs) v
classify-Describes c cs v = one_of (c ∷ cs) v (codes ":authority") (classify-authority v) (λ ha.
    one_of (c ∷ cs) v (codes ":method") (classify-method v) (λ hm.
      one_of (c ∷ cs) v (codes ":path") (classify-path v) (λ hp.
        one_of (c ∷ cs) v (codes ":scheme") (classify-scheme v) (λ hs.
          one_of (c ∷ cs) v (codes ":status") (classify-status v)
            (λ ht. classify-other c cs v ha hm hp hs ht)))))

pub Analysed-classify :
    (n v : Bytes) (t : HeaderTable) (r : Result (Analyzer × HeaderTable))
    → r ≡ with_table t (classify n v)
    → Analysed n v t r
unfolding Classified
Analysed-classify [] v t r h = h ∙ (unfold classify in refl)
Analysed-classify (c ∷ cs) v t r h =
    let (a, e, d) = classify-Describes c cs v in (a, h ∙ ap (with_table t) e, d)
