-- ===== src/Http2/Huffman.antt =====
-- bayserver_docker_http/h2/huffman: the tree of HPACK's Huffman code (hnode.py, htree.py).
pub mod Table
pub mod Decode
use bay_server_python.Prelude.{
  ℕ, zero, suc, ◌+◌, ◌-◌, ◌/◌, ◌%◌, ◌^◌, ◌≡◌, refl, bit_and, Bytes, List, [], ◌∷◌, ◌++◌, Option,
  none, some, Bool, true, false, ltb, leb, ◌==◌, if◌then◌else◌,
}
use bay_server_python.Prelude.Results.{Result, ok, err, runtime_error, value_error, ◌>>=◌}
use bay_server_python.Util.StringUtil.{ascii_or_utf8}
use Table.{Code, codes}

-- `nil` is a child that is `None`. The value of a node is `none` for -1.
pub data HNode : Type 0 where
  nil : HNode
  node : Option ℕ → HNode → HNode → HNode

abbrev fresh : HNode
fresh = node none nil nil

-- `bits[i] = code >> (len_in_bits - i - 1) & 1`, for the bits from the `len`-th last on.
unfoldable pub bits_of : ℕ → ℕ → List Bool
bits_of code zero = []
bits_of code (suc len) = (bit_and (code / 2 ^ len) 1 == 1) ∷ bits_of code len

-- The walk creates the children that it does not find.
unfoldable pub insert_bits : HNode → List Bool → ℕ → HNode
insert_bits nil [] sym = node (some sym) nil nil
insert_bits (node v one zer) [] sym = node (some sym) one zer
insert_bits nil (true ∷ bs) sym = node none (insert_bits nil bs sym) nil
insert_bits nil (false ∷ bs) sym = node none nil (insert_bits nil bs sym)
insert_bits (node v one zer) (true ∷ bs) sym = node v (insert_bits one bs sym) zer
insert_bits (node v one zer) (false ∷ bs) sym = node v one (insert_bits zer bs sym)

unfoldable pub insert : HNode → Code → HNode
unfolding insert_bits bits_of
insert root (code, len, sym) = insert_bits root (bits_of code len) sym

unfoldable pub insert_all : HNode → List Code → HNode
unfolding insert
insert_all root [] = root
insert_all root (c ∷ cs) = insert_all (insert root c) cs

unfoldable pub root : HNode
unfolding insert_all
root = insert_all fresh codes

-- `cur.one` or `cur.zero`.
abbrev pub child : Bool → HNode → HNode
child b nil = nil
child true (node v one zer) = one
child false (node v one zer) = zer

-- `cur.value > 0`: the value 0 is no leaf for the decoder.
abbrev pub leaf_value : HNode → Option ℕ
leaf_value nil = none
leaf_value (node none one zer) = none
leaf_value (node (some v) one zer) = if ltb 0 v then some v else none

-- One bit: the node reached, and the bytes written so far. `None` has no `value` (AttributeError);
-- `w.append` refuses 256 (ValueError).
unfoldable pub down : HNode → Bytes → HNode → Result (HNode × Bytes)
down top w nil = err runtime_error
down top w (node v one zer) = elim (leaf_value (node v one zer)) [
  | none ↦ ok (node v one zer, w)
  | some s ↦ if ltb s 256 then ok (top, w ++ (s ∷ [])) else err value_error
]

unfoldable pub decode_bits : HNode → HNode → Bytes → List Bool → Result (HNode × Bytes)
unfolding down
decode_bits top cur w [] = ok (cur, w)
decode_bits top cur w (b ∷ bs) = down top w (child b cur) >>= λ r. decode_bits top (r.0) (r.1) bs

-- `data[i] >> (8 - j - 1) & 1` for `j` from 0 to 7, for every byte.
unfoldable pub all_bits : Bytes → List Bool
unfolding bits_of
all_bits [] = []
all_bits (b ∷ bs) = bits_of b 8 ++ all_bits bs

-- Bits that are left when the input ends are dropped. The bytes are taken for ASCII or else UTF-8.
unfoldable pub decode : Bytes → Result Bytes
unfolding decode_bits all_bits root
decode data' = decode_bits root root [] (all_bits data') >>= λ r. ascii_or_utf8 (r.1)
