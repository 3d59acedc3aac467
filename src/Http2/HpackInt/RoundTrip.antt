-- ===== src/Http2/HpackInt/RoundTrip.antt =====
-- What is written for an HPACK integer or string is read back.
use mathlib.Core.Path.{subst}
use native.Mathlib.Nat.{div-add-mod, one-le-pow}
use native.Mathlib.Numerals.{towards_suc}
use bay_server_python.Prelude.{
  ℕ, zero, suc, ◌+◌, ◌-◌, ◌*◌, ◌/◌, ◌%◌, ◌^◌, ◌≤◌, ◌<◌, ◌≡◌, ◌≢◌, ap, ◌∙◌, bit_and, bit_or, Bytes,
  [], ◌∷◌, ◌++◌, length, length-append, append-nil, ltb, ltb→lt, ◌==◌, ==_refl, if◌then◌else◌, true,
  false, not, Bool-cases, inl, inr, arith,
}
use bay_server_python.Prelude.Bits.{
  bit_and_mask, bit_and_mask_lt, bit_or_comm, bit_or_disjoint, bit_seven, set_bit_seven,
  ones_of_byte, bit_and_field, shr_field,
}
use bay_server_python.Prelude.Results.{ok}
use bay_server_python.Protocol.Accessor.{
  ◌>>=◌, pure, read_limit, put_byte, get_byte, get_bytes, bind-ok, Accessor,
}
use bay_server_python.Protocol.Accessor.Append.{
  Appends, Appends->>, put_byte-Appends, put_bytes-Appends, IsAtEnd, appended,
}
use bay_server_python.Protocol.Accessor.Read.{
  Reads, Reads->>=, advanced, get_byte-Reads, get_bytes-Reads, pure-Reads, Holds,
}
use bay_server_python.Util.StringUtil.{IsAscii, from_bytes-ascii}
use bay_server_python.Http2.Huffman.{decode}
use bay_server_python.Http2.HpackInt.{
  max_val, put_rest_loop, put_hpack_int_rest, put_hpack_int, get_rest_loop, get_hpack_int_rest,
  get_hpack_int, get_hpack_string, decode_text, put_ascii, put_hpack_string,
}

-- The number in groups of seven bits, the lowest first, each but the last with the top bit set.
unfoldable pub groups : ℕ → ℕ → Bytes
groups zero v = []
groups (suc f) v =
    let more = groups f (v / 128) in if v / 128 == 0 then (v % 128) ∷ [] else (v % 128 + 128) ∷ more

pub groups-ne-nil : (v : ℕ) → groups (suc v) v ≢ []
unfolding groups
groups-ne-nil v = elim (Bool-cases (v / 128 == 0)) [
  | inl e ↦ rw e (λ h. cc)
  | inr e ↦ rw e (λ h. cc)
]

group_byte : (v : ℕ) → bit_or (bit_and v 0x7f) 0x80 ≡ v % 128 + 128
group_byte v = ap (λ t. bit_or t 0x80) (bit_and_mask 7 v) ∙ set_bit_seven (v % 128) (omega arith)

put_rest_loop-Appends : (f v : ℕ) → v < f → Appends (put_rest_loop f v) (groups f v)
unfolding put_rest_loop groups
put_rest_loop-Appends zero v h = absurd (omega arith)
put_rest_loop-Appends (suc f) v h = elim (Bool-cases (v / 128 == 0)) [
  | inl e ↦ rw (e, bit_and_mask 7 v) (put_byte-Appends (v % 128) (omega arith))
  | inr e ↦
      rw (e, group_byte v)
        (Appends->> (put_byte (v % 128 + 128)) (put_rest_loop f (v / 128)) ((v % 128 + 128) ∷ [])
          (groups f (v / 128)) (put_byte-Appends (v % 128 + 128) (omega arith))
          (put_rest_loop-Appends f (v / 128) (ground arith)))
]

-- A last group, and a group with more behind it, as `get_hpack_int_rest` sees them.
last_octet : (b : ℕ) → b < 128 → (not (not (bit_and b 0x80 == 0)) ≡ true) × (bit_and b 0x7f ≡ b)
last_octet b h = (ground (arith, bit_seven b), bit_and_mask_lt 7 b h)

more_octet :
    (b : ℕ)
    → b < 128
    → (not (not (bit_and (b + 128) 0x80 == 0)) ≡ false) × (bit_and (b + 128) 0x7f ≡ b)
more_octet b h = (ground (arith, bit_seven (b + 128)), bit_and_mask 7 (b + 128) ∙ omega arith)

pow_seven : (k : ℕ) → 2 ^ (k + 7) ≡ 128 * 2 ^ k
pow_seven k = simp towards_suc (omega arith)

shift_step : (i v : ℕ) → v * 2 ^ ((i + 1) * 7) ≡ v * 128 * 2 ^ (i * 7)
shift_step i v =
    ap (λ (t : ℕ). v * 2 ^ t) e ∙ omega (arith, ap (λ (t : ℕ). v * t) (pow_seven (i * 7)))
  where
    e : (i + 1) * 7 ≡ i * 7 + 7
    e = omega arith

joined : (i v r : ℕ) → r + v % 128 * 2 ^ (i * 7) + v / 128 * 2 ^ ((i + 1) * 7) ≡ r + v * 2 ^ (i * 7)
joined i v r =
    omega (arith, shift_step i (v / 128), ap (λ (t : ℕ). t * 2 ^ (i * 7)) (div-add-mod v 128))

get_rest_loop-Reads :
    (f g r i v : ℕ)
    → v < g
    → length (groups g v) ≤ f
    → Reads (get_rest_loop f r i) (groups g v) (r + v * 2 ^ (i * 7))
unfolding get_rest_loop groups
get_rest_loop-Reads f zero r i v h k = absurd (omega arith)
get_rest_loop-Reads zero (suc g) r i v h k = absurd (ground arith)
get_rest_loop-Reads (suc f) (suc g) r i v h k = elim (Bool-cases (v / 128 == 0)) [
  | inl e ↦ rw e (
      Reads->>= get_byte _ ((v % 128) ∷ []) [] (v % 128) _ (get_byte-Reads (v % 128)) (
        rw (last_octet (v % 128) (omega arith)).0 (
          rw (last_octet (v % 128) (omega arith)).1 (
            subst (Reads (pure (r + v % 128 * 2 ^ (i * 7))) [])
              (ap (λ (t : ℕ). r + t * 2 ^ (i * 7)) (ground arith)) (pure-Reads _)))))
  | inr e ↦ rw e (
      Reads->>= get_byte _ ((v % 128 + 128) ∷ []) (groups g (v / 128)) (v % 128 + 128) _
        (get_byte-Reads (v % 128 + 128))
        (rw (more_octet (v % 128) (omega arith)).0 (
          rw (more_octet (v % 128) (omega arith)).1 (
            subst (Reads (get_rest_loop f (r + v % 128 * 2 ^ (i * 7)) (i + 1)) (groups g (v / 128)))
              (joined i v r)
              (get_rest_loop-Reads f g (r + v % 128 * 2 ^ (i * 7)) (i + 1) (v / 128) (ground arith)
                (ground arith))))))
]

pub get_hpack_int_rest-Reads : (v : ℕ) → Reads get_hpack_int_rest (groups (suc v) v) v
unfolding get_hpack_int_rest
get_hpack_int_rest-Reads v a rest h =
    get_rest_loop-Reads (suc (read_limit a - a.pos)) (suc v) 0 0 v (omega arith)
      (omega (arith, h.limit, length-append (groups (suc v) v) rest)) a rest h
    ∙ ap (λ (t : ℕ). ok (t, advanced (length (groups (suc v) v)) a)) (omega arith)

-- The bytes of a number under a prefix of `p` bits, with `head` above it.
unfoldable pub hpack_bytes : ℕ → ℕ → ℕ → Bytes
hpack_bytes v p head =
    let m = 2 ^ p - 1 in
    if ltb v m then (head * 2 ^ p + v) ∷ [] else (head * 2 ^ p + m) ∷ groups (suc (v - m)) (v - m)

max_val_eq : (p : ℕ) → p ≤ 8 → max_val p ≡ 2 ^ p - 1
unfolding max_val
max_val_eq p h = ones_of_byte p h

pub put_hpack_int_rest-Appends : (v : ℕ) → Appends (put_hpack_int_rest v) (groups (suc v) v)
unfolding put_hpack_int_rest
put_hpack_int_rest-Appends v = put_rest_loop-Appends (suc v) v (omega arith)

-- A number that is put under a prefix of `p` bits with a head that fits above it, at the end of a
-- packet, appends the HPACK form of the number.
pub put_hpack_int-Appends :
    (v p head : ℕ)
    → p ≤ 8
    → head * 2 ^ p + 2 ^ p ≤ 256
    → (a : Accessor) → IsAtEnd a
    → put_hpack_int v p head a ≡ ok (tt, appended (hpack_bytes v p head) a)
unfolding put_hpack_int hpack_bytes
put_hpack_int-Appends v p head h k =
    rw (max_val_eq p h, bit_and_mask_lt 8 (head * 2 ^ p) (omega (arith, one-le-pow p 2)))
      (elim (Bool-cases (ltb v (2 ^ p - 1))) [
        | inl e ↦
            rw (e, small (ltb→lt _ _ e))
              (put_byte-Appends (head * 2 ^ p + v) (omega (arith, ltb→lt _ _ e)))
        | inr e ↦
            rw (e, full)
              (Appends->> (put_byte (head * 2 ^ p + m)) (put_hpack_int_rest (v - m))
                ((head * 2 ^ p + m) ∷ []) (groups (suc (v - m)) (v - m))
                (put_byte-Appends (head * 2 ^ p + m) (omega (arith, one-le-pow p 2)))
                (put_hpack_int_rest-Appends (v - m)))
      ])
  where
    m : ℕ
    m = 2 ^ p - 1

    full : bit_or (head * 2 ^ p) (2 ^ p - 1) ≡ head * 2 ^ p + (2 ^ p - 1)
    full = bit_or_disjoint p head (2 ^ p - 1) (omega (arith, one-le-pow p 2))

    small : v < m → bit_or v (head * 2 ^ p) ≡ head * 2 ^ p + v
    small lt = bit_or_comm v (head * 2 ^ p) ∙ bit_or_disjoint p head v (omega arith)

-- In front of the HPACK form of a number under a prefix of at most eight bits, the number and the head
-- are read, and exactly the bytes of the form are passed.
pub get_hpack_int-Reads :
    (v p head : ℕ)
    → p ≤ 8
    → (a : Accessor) (rest : Bytes) → Holds a (hpack_bytes v p head ++ rest)
    → get_hpack_int p a ≡ ok ((v, head), advanced (length (hpack_bytes v p head)) a)
unfolding get_hpack_int hpack_bytes
get_hpack_int-Reads v p head h = rw (max_val_eq p h) (elim (Bool-cases (ltb v m)) [
  | inl e ↦ rw e (
      Reads->>= get_byte _ ((head * 2 ^ p + v) ∷ []) [] (head * 2 ^ p + v) (v, head)
        (get_byte-Reads (head * 2 ^ p + v))
        (rw
          (
            bit_and_field p head v (omega (arith, ltb→lt _ _ e)),
            shr_field p head v (omega (arith, ltb→lt _ _ e)),
            differs (ltb→lt _ _ e),
          )
          (pure-Reads (v, head))))
  | inr e ↦ rw e (
      Reads->>= get_byte _ ((head * 2 ^ p + m) ∷ []) (groups (suc (v - m)) (v - m))
        (head * 2 ^ p + m) (v, head) (get_byte-Reads (head * 2 ^ p + m))
        (rw
          (
            bit_and_field p head m (omega (arith, one-le-pow p 2)),
            shr_field p head m (omega (arith, one-le-pow p 2)),
            ==_refl m,
          )
          (λ a rest hold.
            bind-ok get_hpack_int_rest (λ r. pure (m + r, head)) {a = a}
              (get_hpack_int_rest-Reads (v - m) a rest hold)
            ∙ ap (λ (t : ℕ). ok ((t, head), advanced (length (groups (suc (v - m)) (v - m))) a))
                (ground arith))))
])
  where
    m : ℕ
    m = 2 ^ p - 1

    differs : v < m → (v == m) ≡ false
    differs lt = ground arith

-- A string as it is written, without the Huffman code, and as it may be read, with it.
abbrev pub string_bytes : ℕ → Bytes → Bytes
string_bytes head s = hpack_bytes (length s) 7 head ++ s

pub put_hpack_string-Appends :
    (s : Bytes) → IsAscii s → Appends (put_hpack_string s false) (string_bytes 0 s)
unfolding put_hpack_string
put_hpack_string-Appends s h =
    Appends->> (put_hpack_int (length s) 7 0) (put_ascii s) (hpack_bytes (length s) 7 0) s
      (put_hpack_int-Appends (length s) 7 0 (omega arith) (omega arith))
      (rw (put_ascii, h) (put_bytes-Appends s))

read_text-Reads :
    (head : ℕ) (coded s : Bytes)
    → Reads (decode_text head coded) [] s
    → Reads (get_bytes (length coded) >>= decode_text head) coded s
read_text-Reads head coded s h =
    subst (λ t. Reads (get_bytes (length coded) >>= decode_text head) t s) (append-nil coded)
      (Reads->>= (get_bytes (length coded)) (decode_text head) coded [] coded s
        (get_bytes-Reads coded) h)

string-Reads :
    (head : ℕ) (coded s : Bytes)
    → Reads (decode_text head coded) [] s
    → Reads get_hpack_string (string_bytes head coded) s
unfolding get_hpack_string
string-Reads head coded s h =
    Reads->>= (get_hpack_int 7) (λ r. get_bytes (r.0) >>= decode_text (r.1))
      (hpack_bytes (length coded) 7 head) coded (length coded, head) s
      (get_hpack_int-Reads (length coded) 7 head (omega arith)) (read_text-Reads head coded s h)

pub get_hpack_string-Reads : (s : Bytes) → IsAscii s → Reads get_hpack_string (string_bytes 0 s) s
get_hpack_string-Reads s h = string-Reads 0 s s (rw (from_bytes-ascii s h) (pure-Reads s))

-- A string under the Huffman flag reads as what `HTree.decode` makes of its bytes.
pub get_hpack_string_huffman :
    (coded s : Bytes) → decode coded ≡ ok s → Reads get_hpack_string (string_bytes 1 coded) s
get_hpack_string_huffman coded s e = string-Reads 1 coded s (rw e (pure-Reads s))
