-- ===== src/Http2/Huffman/Decode.antt =====
-- What `HTree.decode` makes of the code that the table gives for a text.
use bay_server_python.Prelude.{
  ℕ, zero, suc, ◌≤◌, ◌<◌, ◌≡◌, refl, sym, ap, ◌∙◌, Bytes, List, [], ◌∷◌, ◌++◌, append_assoc,
  append-nil, All, Bool, true, false, ◌&&◌, ◌==◌, if◌then◌else◌, arith, Bool-cases, inl, inr,
  ==_iff,
}
use bay_server_python.Prelude.Results.{ok, err, runtime_error, ◌>>=◌}
use bay_server_python.Http2.Huffman.{
  HNode, nil, node, child, leaf_value, down, decode_bits, all_bits, bits_of, root, decode,
}
use bay_server_python.Http2.Huffman.Table.{Code, codes}
use mathlib.Core.Option.{none, some}

-- The bits of a symbol in the table.
unfoldable pub code_of : List Code → ℕ → List Bool
code_of [] symbol = []
code_of ((code, len, s) ∷ cs) symbol = if s == symbol then bits_of code len else code_of cs symbol

unfoldable pub encode_bits : Bytes → List Bool
encode_bits [] = []
encode_bits (b ∷ bs) = code_of codes b ++ encode_bits bs

-- The bits lead from a node over nodes that are no leaves to the leaf of the symbol.
is_inner : HNode → Bool
is_inner nil = false
is_inner (node v one zer) = elim (leaf_value (node v one zer)) [ none ↦ true | some s ↦ false ]

is_leaf_of : ℕ → HNode → Bool
is_leaf_of symbol nil = false
is_leaf_of symbol (node v one zer) = elim (leaf_value (node v one zer)) [
  | none ↦ false
  | some s ↦ s == symbol
]

reaches : ℕ → HNode → List Bool → Bool
reaches symbol cur [] = false
reaches symbol cur (b ∷ []) = is_leaf_of symbol (child b cur)
reaches symbol cur (b ∷ c ∷ bs) = is_inner (child b cur) && reaches symbol (child b cur) (c ∷ bs)

down-is_inner : (top : HNode) (w : Bytes) (n : HNode) → is_inner n ≡ true → down top w n ≡ ok (n, w)
unfolding down is_inner
down-is_inner top w nil h = cc
down-is_inner top w (node v one zer) h = ground arith

down-is_leaf_of :
    (top : HNode) (w : Bytes) (n : HNode) (symbol : ℕ)
    → symbol < 256
    → is_leaf_of symbol n ≡ true
    → down top w n ≡ ok (top, w ++ (symbol ∷ []))
unfolding down is_leaf_of
down-is_leaf_of top w nil symbol k h = cc
down-is_leaf_of top w (node v one zer) symbol k h = ground arith

decode_bits-reaches :
    (top cur : HNode) (w : Bytes) (symbol : ℕ) (bs rest : List Bool)
    → symbol < 256
    → reaches symbol cur bs ≡ true
    → decode_bits top cur w (bs ++ rest) ≡ decode_bits top top (w ++ (symbol ∷ [])) rest
unfolding decode_bits reaches
decode_bits-reaches top cur w symbol [] rest k h = cc
decode_bits-reaches top cur w symbol (b ∷ []) rest k h =
    rw (down-is_leaf_of top w (child b cur) symbol k h, ◌>>=◌)
decode_bits-reaches top cur w symbol (b ∷ c ∷ bs) rest k h =
    rw (down-is_inner top w (child b cur) (ground arith), ◌>>=◌)
      (decode_bits-reaches top (child b cur) w symbol (c ∷ bs) rest k (ground arith))

-- Every symbol of the table from 1 to 255 has a code that the tree decodes.
all_reach : ℕ → Bool
all_reach zero = true
all_reach (suc n) = reaches (suc n) root (code_of codes (suc n)) && all_reach n

all_reach_sound :
    (n symbol : ℕ)
    → all_reach n ≡ true
    → 0 < symbol
    → symbol ≤ n
    → reaches symbol root (code_of codes symbol) ≡ true
unfolding all_reach
all_reach_sound zero symbol h p q = absurd (omega arith)
all_reach_sound (suc n) zero h p q = absurd (omega arith)
all_reach_sound (suc n) (suc m) h p q = elim (Bool-cases (n == m)) [
  | inl e ↦ rw (sym ((==_iff n m).0 e)) (ground (arith, h))
  | inr e ↦ all_reach_sound n (suc m) (ground arith) p (ground arith)
]

table_reach : all_reach 255 ≡ true
unfolding all_reach reaches root code_of bits_of is_inner is_leaf_of
table_reach = refl

abbrev pub IsSymbol : ℕ → Type 0
IsSymbol b = (0 < b) × (b < 256)

decode_bits-encode_bits :
    (s w : Bytes) (rest : List Bool)
    → All IsSymbol s
    → decode_bits root root w (encode_bits s ++ rest) ≡ decode_bits root root (w ++ s) rest
unfolding encode_bits
decode_bits-encode_bits [] w rest h = ap (λ t. decode_bits root root t rest) (sym (append-nil w))
decode_bits-encode_bits (b ∷ s) w rest h =
    ap (decode_bits root root w) (append_assoc (code_of codes b) (encode_bits s) rest)
    ∙ decode_bits-reaches root root w b (code_of codes b) (encode_bits s ++ rest) h.0.1
        (all_reach_sound 255 b table_reach h.0.0 (omega arith))
    ∙ decode_bits-encode_bits s (w ++ (b ∷ [])) rest h.1
    ∙ ap (λ t. decode_bits root root t rest) (append_assoc w (b ∷ []) s)

decode_bits-zero :
    (w : Bytes) (b : Bool) (rest : List Bool)
    → decode_bits root root w (code_of codes 0 ++ (b ∷ rest)) ≡ err runtime_error
unfolding decode_bits root code_of bits_of
decode_bits-zero w true rest = refl
decode_bits-zero w false rest = refl

-- Bytes that hold the codes of bytes from 1 to 255, then the code of 0 and at least one bit more, raise,
-- whatever follows, though the code of 0 is in the table.
pub decode_zero :
    (s data' : Bytes) (b : Bool) (rest : List Bool)
    → All IsSymbol s
    → all_bits data' ≡ encode_bits s ++ (code_of codes 0 ++ (b ∷ rest))
    → decode data' ≡ err runtime_error
unfolding decode
decode_zero s data' b rest h e =
    rw
      (
        e ∙ refl,
        decode_bits-encode_bits s [] (code_of codes 0 ++ (b ∷ rest)) h,
        decode_bits-zero s b rest,
      )
      refl
