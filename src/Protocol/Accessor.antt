-- ===== src/Protocol/Accessor.antt =====
-- bayserver_core/protocol/packet_part_accessor.py. An accessor holds its packet, so an operation
-- returns the accessor with the packet that it has changed. `max_len` is `none` where the source
-- has -1. A list of numbers stands for `bytes` and `bytearray`.
pub mod Append
pub mod Read
pub mod Overwrite
pub mod Fill
use bay_server_python.Prelude.{
  ℕ, ◌+◌, ◌-◌, ◌*◌, ◌/◌, ◌^◌, bit_and, bit_or, Bytes, [], ◌∷◌, length, slice, slice_assign,
  slice_whole, ltb, max, ◌≡◌, refl, ap, ◌<◌, inl, inr, Bool-cases, lt→ltb, arith, if◌then◌else◌,
  Bool, false, ◌&&◌, Option, none, some,
}
use bay_server_python.Prelude.Results.{Error, io_error, index_error, value_error, Result, ok, err}
use bay_server_python.Protocol.Packet.{Packet}

pub record Accessor : Type 0 where
  pub packet : Packet
  pub start : ℕ
  pub max_len : Option ℕ
  pub pos : ℕ

abbrev pub M : Type 0 → Type 0
M A = Accessor → Result (A × Accessor)

infixl 5 ◌>>=◌ ◌>>◌
abbrev pub ◌>>=◌ : {A B : Type 0} → M A → (A → M B) → M B
◌>>=◌ m f a = elim (m a) [ ok (v, b) ↦ f v b | err e ↦ err e ]

abbrev pub ◌>>◌ : {B : Type 0} → M (Unit {0}) → M B → M B
m >> k = m >>= λ _. k

pub bind-ok :
    {A B : Type 0} (m : M A) (f : A → M B) {a b : Accessor} {v : A}
    → m a ≡ ok (v, b)
    → (m >>= f) a ≡ f v b
bind-ok m f e = rw (e, ◌>>=◌)

abbrev pub pure : {A : Type 0} → A → M A
pure v a = ok (v, a)

abbrev pub fail : {A : Type 0} → Error → M A
fail e a = err e

unfoldable pub new_header_accessor : Packet → Accessor
new_header_accessor p = record { packet = p; start = 0; max_len = some p.header_len; pos = 0 }

unfoldable pub new_data_accessor : Packet → Accessor
new_data_accessor p = record { packet = p; start = p.header_len; max_len = none; pos = 0 }

-- `max_len if max_len >= 0 else buf_len - start`
unfoldable pub read_limit : Accessor → ℕ
read_limit a = elim a.max_len [ some m ↦ m | none ↦ a.packet.buf_len - a.start ]

pub check_read : ℕ → M (Unit {0})
unfolding read_limit
check_read n a = if ltb (read_limit a) (a.pos + n) then err io_error else ok (tt, a)

-- `max_len > 0 and pos + length > max_len`
unfoldable pub write_overflows : Option ℕ → ℕ → Bool
write_overflows none end = false
write_overflows (some m) end = ltb 0 m && ltb m end

pub check_write : ℕ → M (Unit {0})
unfolding write_overflows
check_write n a = if write_overflows a.max_len (a.pos + n) then err io_error else ok (tt, a)

pub forward : ℕ → M (Unit {0})
forward n a =
    let pos = a.pos + n in
    let end = a.start + pos in
    let p = a.packet in
    ok (
      tt,
      record a { pos = pos; packet = if ltb p.buf_len end then record p { buf_len = end } else p },
    )

abbrev store : ℕ → Bytes → M (Unit {0})
store n s a =
    let i = a.start + a.pos in
    ok (tt, record a { packet = record (a.packet) { buf = slice_assign i (i + n) s a.packet.buf } })

-- `put_bytes(buf, ofs, length)`
unfoldable pub put_slice : Bytes → ℕ → ℕ → M (Unit {0})
unfolding check_write forward
put_slice buf ofs n a =
    if ltb 0 n
    then (do check_write n; store n (slice ofs (ofs + n) buf); forward n) a
    else ok (tt, a)

-- What a write that succeeds leaves, and when two such results are equal.
abbrev pub with_parts : Accessor → ℕ → Bytes → ℕ → Accessor
with_parts a pos buf len = record a {
  pos = pos;
  packet = record (a.packet) { buf = buf; buf_len = len };
}

pub with_parts-eq :
    (a : Accessor) {p q l m : ℕ} {b c : Bytes}
    → p ≡ q
    → b ≡ c
    → l ≡ m
    → with_parts a p b l ≡ with_parts a q c m
with_parts-eq a e f g = λ i. with_parts a (e i) (f i) (g i)

abbrev pub stored : Bytes → ℕ → ℕ → Accessor → Accessor
stored s ofs n a =
    let i = a.start + a.pos in
    with_parts a (a.pos + n) (slice_assign i (i + n) (slice ofs (ofs + n) s) a.packet.buf)
      (max a.packet.buf_len (i + n))

forward_packet :
    (a : Accessor) (buf : Bytes) (n : ℕ)
    → (forward n (with_parts a a.pos buf a.packet.buf_len))
      ≡ ok (tt, with_parts a (a.pos + n) buf (max a.packet.buf_len (a.start + a.pos + n)))
unfolding forward
forward_packet a buf n = elim (Bool-cases (ltb a.packet.buf_len (a.start + (a.pos + n)))) [
  | inl e ↦ rw e (ap (λ b. ok (tt, b)) (with_parts-eq a refl refl (ground arith)))
  | inr e ↦ rw e (ap (λ b. ok (tt, b)) (with_parts-eq a refl refl (ground arith)))
]

pub put_slice-eq-stored :
    (s : Bytes) (ofs n : ℕ) (a : Accessor)
    → 0 < n
    → write_overflows a.max_len (a.pos + n) ≡ false
    → put_slice s ofs n a ≡ ok (tt, stored s ofs n a)
unfolding put_slice
put_slice-eq-stored s ofs n a h e =
    rw (lt→ltb 0 n h, e, ◌>>=◌)
      (forward_packet a
        (slice_assign (a.start + a.pos) (a.start + a.pos + n) (slice ofs (ofs + n) s) a.packet.buf)
        n)

-- Only the slice of the argument counts.
pub put_slice-slice :
    (s t : Bytes) (ofs : ℕ) (a : Accessor)
    → slice ofs (ofs + length t) s ≡ t
    → put_slice s ofs (length t) a ≡ put_slice t 0 (length t) a
unfolding put_slice
put_slice-slice s t ofs a h = rw (h, slice_whole t)

-- `put_bytes(buf)`
unfoldable pub put_bytes : Bytes → M (Unit {0})
unfolding put_slice
put_bytes buf = put_slice buf 0 (length buf)

-- A `bytearray` refuses a number that is no byte.
unfoldable pub put_byte : ℕ → M (Unit {0})
unfolding put_slice
put_byte b = if ltb b 256 then put_slice (b ∷ []) 0 1 else fail value_error

abbrev pub shr : ℕ → ℕ → ℕ
shr v k = v / 2 ^ k

abbrev pub shl : ℕ → ℕ → ℕ
shl v k = v * 2 ^ k

unfoldable pub put_short : ℕ → M (Unit {0})
unfolding put_slice
put_short val =
    let h = bit_and (shr val 8) 0xff in let l = bit_and val 0xff in put_slice (h ∷ l ∷ []) 0 2

unfoldable pub put_int : ℕ → M (Unit {0})
unfolding put_slice
put_int val =
    let b1 = bit_and (shr val 24) 0xff in
    let b2 = bit_and (shr val 16) 0xff in
    let b3 = bit_and (shr val 8) 0xff in
    let b4 = bit_and val 0xff in put_slice (b1 ∷ b2 ∷ b3 ∷ b4 ∷ []) 0 4

-- The bytes that `get_bytes(buf, ofs, length)` writes into its argument.
unfoldable pub get_bytes : ℕ → M Bytes
unfolding check_read
get_bytes n = do
  check_read n
  λ a. let i = a.start + a.pos in ok (slice i (i + n) a.packet.buf, record a { pos = a.pos + n })

abbrev first : Bytes → M ℕ
first [] a = err index_error
first (b ∷ bs) a = ok (b, a)

unfoldable pub get_byte : M ℕ
unfolding get_bytes
get_byte = do buf ← get_bytes 1; first buf

unfoldable pub get_short : M ℕ
unfolding get_byte
get_short = do h ← get_byte; l ← get_byte; pure (bit_or (shl h 8) l)

unfoldable pub get_int : M ℕ
unfolding get_byte
get_int = do
  b1 ← get_byte
  b2 ← get_byte
  b3 ← get_byte
  b4 ← get_byte
  pure (bit_or (bit_or (bit_or (shl b1 24) (shl b2 16)) (shl b3 8)) b4)
