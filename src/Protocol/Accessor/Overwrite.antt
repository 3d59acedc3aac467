-- ===== src/Protocol/Accessor/Overwrite.antt =====
-- Writing over bytes that a packet already has, which is what a header accessor does, with the rule
-- that joins two such writes.
use bay_server_python.Prelude.{
  ℕ, ◌+◌, ◌/◌, ◌≤◌, ◌<◌, ◌≡◌, refl, sym, ap, ◌∙◌, Bytes, [], ◌∷◌, ◌++◌, length, length-append,
  append_assoc, take, drop, take-append-drop, length-take, length-drop, slice_whole, slice_assign,
  slice_assign_middle, some, arith, lt→ltb, false,
}
use bay_server_python.Prelude.Bits.{bit_and_mask}
use bay_server_python.Prelude.Results.{ok}
use bay_server_python.Protocol.Packet.{Packet}
use bay_server_python.Protocol.Accessor.{
  Accessor, M, ◌>>◌, put_slice, put_bytes, put_byte, put_short, put_int, write_overflows, bind-ok,
  with_parts, with_parts-eq, put_slice-eq-stored, new_header_accessor,
}
use bay_server_python.Protocol.Accessor.Append.{short_bytes, int_bytes}

-- `old` stands at the accessor's position, inside its limit and inside the packet.
pub record Room (a : Accessor) (front old back : Bytes) : Type 0 where
  pub splits : a.packet.buf ≡ front ++ (old ++ back)
  pub before : length front ≡ a.start + a.pos
  pub limit : ℕ
  pub limited : a.max_len ≡ some limit
  pub fits : a.pos + length old ≤ limit
  pub inside : a.start + a.pos + length old ≤ a.packet.buf_len

abbrev pub overwritten : Bytes → Bytes → Bytes → Accessor → Accessor
overwritten front s back a = with_parts a (a.pos + length s) (front ++ (s ++ back)) a.packet.buf_len

-- The operation replaces as many bytes as `s` has by `s`.
abbrev pub Overwrites : M (Unit {0}) → Bytes → Type 0
Overwrites m s =
    (a : Accessor) (front old back : Bytes)
    → Room a front old back
    → length old ≡ length s
    → m a ≡ ok (tt, overwritten front s back a)

pub Overwrites->> :
    (m k : M (Unit {0})) (s t : Bytes)
    → Overwrites m s
    → Overwrites k t
    → Overwrites (m >> k) (s ++ t)
Overwrites->> m k s t h g a front old back r e =
    bind-ok m (λ _. k) (h a front (take n old) (drop n old ++ back) first_room first_size)
    ∙ g (overwritten front s (drop n old ++ back) a) (front ++ s) (drop n old) back second_room
        second_size
    ∙ ap (λ b. ok (tt, b))
        (with_parts-eq a (omega (arith, length-append s t))
          (append_assoc front s (t ++ back) ∙ ap (λ b. front ++ b) (sym (append_assoc s t back)))
          refl)
  where
    n : ℕ
    n = length s

    total : length old ≡ length s + length t
    total = e ∙ length-append s t

    first_size : length (take n old) ≡ length s
    first_size = omega (arith, length-take n old, total)

    second_size : length (drop n old) ≡ length t
    second_size = omega (arith, length-drop n old, total)

    first_room : Room a front (take n old) (drop n old ++ back)
    first_room = record {
      splits =
          r.splits
          ∙ ap (λ b. front ++ (b ++ back)) (sym (take-append-drop n old))
          ∙ ap (λ b. front ++ b) (append_assoc (take n old) (drop n old) back);
      before = r.before;
      limit = r.limit;
      limited = r.limited;
      fits = omega (arith, first_size, total, r.fits);
      inside = omega (arith, first_size, total, r.inside);
    }

    second_room : Room (overwritten front s (drop n old ++ back) a) (front ++ s) (drop n old) back
    second_room = record {
      splits = sym (append_assoc front s (drop n old ++ back));
      before = omega (arith, length-append front s, r.before);
      limit = r.limit;
      limited = r.limited;
      fits = omega (arith, second_size, total, r.fits);
      inside = omega (arith, second_size, total, r.inside);
    }

write_fits : (m end : ℕ) → end ≤ m → write_overflows (some m) end ≡ false
unfolding write_overflows
write_fits m end h = ground arith

pub put_slice-Overwrites : (s : Bytes) → 0 < length s → Overwrites (put_slice s 0 (length s)) s
put_slice-Overwrites s h a front old back r e =
    put_slice-eq-stored s 0 (length s) a h room
    ∙ ap (λ b. ok (tt, b))
        (with_parts-eq a refl
          (ap (λ t. slice_assign i (i + length s) t a.packet.buf) (slice_whole s)
            ∙ ap (slice_assign i (i + length s) s) r.splits
            ∙ slice_assign_middle i (i + length s) front old back s r.before
                (omega (arith, r.before, e)))
          (omega (arith, r.inside, e)))
  where
    i : ℕ
    i = a.start + a.pos

    room : write_overflows a.max_len (a.pos + length s) ≡ false
    room =
        ap (λ m. write_overflows m (a.pos + length s)) r.limited
        ∙ write_fits r.limit (a.pos + length s) (omega (arith, r.fits, e))

pub put_byte-Overwrites : (b : ℕ) → b < 256 → Overwrites (put_byte b) (b ∷ [])
unfolding put_byte
put_byte-Overwrites b h a front old back r e =
    rw (lt→ltb b 256 h) (put_slice-Overwrites (b ∷ []) (omega arith) a front old back r e)

pub put_short-Overwrites : (v : ℕ) → Overwrites (put_short v) (short_bytes v)
unfolding put_short
put_short-Overwrites v a front old back r e =
    rw (bit_and_mask 8 (v / 256), bit_and_mask 8 v)
      (put_slice-Overwrites (short_bytes v) (omega arith) a front old back r e)

pub put_int-Overwrites : (v : ℕ) → Overwrites (put_int v) (int_bytes v)
unfolding put_int
put_int-Overwrites v a front old back r e =
    rw
      (
        bit_and_mask 8 (v / 16777216),
        bit_and_mask 8 (v / 65536),
        bit_and_mask 8 (v / 256),
        bit_and_mask 8 v,
      )
      (put_slice-Overwrites (int_bytes v) (omega arith) a front old back r e)

pub put_bytes-Overwrites : (s : Bytes) → 0 < length s → Overwrites (put_bytes s) s
unfolding put_bytes
put_bytes-Overwrites s h = put_slice-Overwrites s h

-- A header accessor may write the whole header.
pub new_header_accessor-Room :
    (p : Packet) (old back : Bytes)
    → p.buf ≡ old ++ back
    → length old ≡ p.header_len
    → p.header_len ≤ p.buf_len
    → Room (new_header_accessor p) [] old back
unfolding new_header_accessor
new_header_accessor-Room p old back e h k = record {
  splits = e;
  before = omega arith;
  limit = p.header_len;
  limited = refl;
  fits = omega arith;
  inside = omega arith;
}
