-- ===== src/Protocol/Accessor/Append.antt =====
-- Writing behind the last byte of a packet, which is what a data accessor does while a command is
-- packed, with the rule that joins two such writes.
use bay_server_python.Prelude.{
  ℕ, ◌+◌, ◌<◌, ◌≡◌, refl, sym, ap, ◌∙◌, Bytes, [], ◌∷◌, ◌++◌, length, length-append, append-nil,
  append_assoc, slice_whole, slice_assign_end, none, arith, lt→ltb, slice_assign, ◌%◌, ◌/◌,
}
use mathlib.Core.Path.{subst}
use bay_server_python.Prelude.Bits.{bit_and_mask}
use bay_server_python.Prelude.Results.{ok}
use bay_server_python.Protocol.Packet.{Packet, IsTight}
use bay_server_python.Protocol.Accessor.{
  Accessor, M, ◌>>◌, new_data_accessor, put_slice, put_bytes, put_byte, put_short, put_int,
  write_overflows, bind-ok, with_parts-eq, put_slice-eq-stored,
}

-- The accessor stands at the end of its packet, with no limit.
pub record IsAtEnd (a : Accessor) : Type 0 where
  pub at_end : a.start + a.pos ≡ length a.packet.buf
  pub tight : length a.packet.buf ≡ a.packet.buf_len
  pub unlimited : a.max_len ≡ none

abbrev pub appended : Bytes → Accessor → Accessor
appended s a = record a {
  pos = a.pos + length s;
  packet = record (a.packet) { buf = a.packet.buf ++ s; buf_len = a.packet.buf_len + length s };
}

-- The operation appends exactly these bytes.
abbrev pub Appends : M (Unit {0}) → Bytes → Type 0
Appends m s = (a : Accessor) → IsAtEnd a → m a ≡ ok (tt, appended s a)

pub appended-IsAtEnd : (s : Bytes) (a : Accessor) → IsAtEnd a → IsAtEnd (appended s a)
appended-IsAtEnd s a e = record {
  at_end = omega (arith, length-append a.packet.buf s, e.at_end);
  tight = omega (arith, length-append a.packet.buf s, e.tight);
  unlimited = e.unlimited;
}

pub new_data_accessor-IsAtEnd :
    (p : Packet) → IsTight p → p.buf_len ≡ p.header_len → IsAtEnd (new_data_accessor p)
unfolding new_data_accessor
new_data_accessor-IsAtEnd p t e = record {
  at_end = omega (arith, t.tight);
  tight = t.tight;
  unlimited = refl;
}

pub appended-nil : (a : Accessor) → appended [] a ≡ a
appended-nil a = with_parts-eq a (omega arith) (append-nil a.packet.buf) (omega arith)

pub appended-appended :
    (s t : Bytes) (a : Accessor) → appended t (appended s a) ≡ appended (s ++ t) a
appended-appended s t a =
    with_parts-eq a (omega (arith, length-append s t)) (append_assoc a.packet.buf s t)
      (omega (arith, length-append s t))

pub Appends->> :
    (m k : M (Unit {0})) (s t : Bytes) → Appends m s → Appends k t → Appends (m >> k) (s ++ t)
Appends->> m k s t h g a e =
    bind-ok m (λ _. k) (h a e)
    ∙ g (appended s a) (appended-IsAtEnd s a e)
    ∙ ap (λ b. ok (tt, b)) (appended-appended s t a)

pub Appends-eq : {m : M (Unit {0})} {s t : Bytes} → s ≡ t → Appends m s → Appends m t
Appends-eq {m} e h = subst (Appends m) e h

put_slice-eq-appended : (s : Bytes) → 0 < length s → Appends (put_slice s 0 (length s)) s
put_slice-eq-appended s h a e =
    put_slice-eq-stored s 0 (length s) a h (rw e.unlimited (unfold write_overflows in refl))
    ∙ ap (λ b. ok (tt, b))
        (with_parts-eq a refl
          (ap (λ t. slice_assign i (i + length s) t a.packet.buf) (slice_whole s)
            ∙ slice_assign_end i (i + length s) s a.packet.buf (omega (arith, e.at_end))
                (omega (arith, e.at_end)))
          (omega (arith, e.at_end, e.tight)))
  where
    i : ℕ
    i = a.start + a.pos

pub put_bytes-Appends : (s : Bytes) → Appends (put_bytes s) s
unfolding put_bytes
put_bytes-Appends [] a e = unfold put_slice in ap (λ b. ok (tt, b)) (sym (appended-nil a))
put_bytes-Appends (b ∷ s) a e = put_slice-eq-appended (b ∷ s) (omega arith) a e

pub put_byte-Appends : (b : ℕ) → b < 256 → Appends (put_byte b) (b ∷ [])
unfolding put_byte
put_byte-Appends b h a e = rw (lt→ltb b 256 h) (put_slice-eq-appended (b ∷ []) (omega arith) a e)

-- The bytes of a number, most significant first.
abbrev pub short_bytes : ℕ → Bytes
short_bytes v = (v / 256 % 256) ∷ (v % 256) ∷ []

abbrev pub int_bytes : ℕ → Bytes
int_bytes v = (v / 16777216 % 256) ∷ (v / 65536 % 256) ∷ (v / 256 % 256) ∷ (v % 256) ∷ []

pub put_short-Appends : (v : ℕ) → Appends (put_short v) (short_bytes v)
unfolding put_short
put_short-Appends v a e =
    rw (bit_and_mask 8 (v / 256), bit_and_mask 8 v)
      (put_slice-eq-appended (short_bytes v) (omega arith) a e)

pub put_int-Appends : (v : ℕ) → Appends (put_int v) (int_bytes v)
unfolding put_int
put_int-Appends v a e =
    rw
      (
        bit_and_mask 8 (v / 16777216),
        bit_and_mask 8 (v / 65536),
        bit_and_mask 8 (v / 256),
        bit_and_mask 8 v,
      )
      (put_slice-eq-appended (int_bytes v) (omega arith) a e)
