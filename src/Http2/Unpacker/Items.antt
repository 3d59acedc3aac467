-- ===== src/Http2/Unpacker/Items.antt =====
-- The items of a frame, which arrive in pieces.
use bay_server_python.Prelude.{
  ℕ, ◌+◌, ◌-◌, ◌≤◌, ◌<◌, ◌≡◌, refl, sym, ap, ◌∙◌, Bytes, ◌++◌, length, take, length-append,
  append_assoc, take-append_le, drop-append_le, take-append_add, drop-append_add, take_all, ltb,
  Bool-cases, inl, inr, arith, ltb→lt, lt→ltb, le→ltb,
}
use bay_server_python.Http2.Unpacker.{
  State, read_flame_payload, end, Unpacker, absorb, read_header_item,
}

-- An item has room, but for an empty payload.
abbrev pub HasRoom : State → ℕ → ℕ → Type 0
HasRoom end pos len = ⊥
HasRoom read_flame_payload pos len = pos ≤ len
HasRoom _ pos len = pos < len

abbrev pub IsReading : Unpacker → Type 0
IsReading u = HasRoom u.state u.item_pos u.item_len

abbrev pub need : Unpacker → ℕ
need u = u.item_len - u.item_pos

absorb-eq :
    (u : Unpacker) {n m : ℕ} {t t' r r' : Bytes}
    → t ≡ t'
    → n ≡ m
    → r ≡ r'
    → ◌≡◌ {A = Unpacker × Bytes}
        (record u { tmp_buf = t; item_pos = n }, r)
        (record u { tmp_buf = t'; item_pos = m }, r')
absorb-eq u e f g = λ i. (record u { tmp_buf = e i; item_pos = f i }, g i)

pub read_long :
    (u : Unpacker) (r : Bytes) → need u ≤ length r → read_header_item u r ≡ absorb (need u) u r
unfolding read_header_item
read_long u r h = rw (le→ltb (length r) (need u) h) refl

pub read_short :
    (u : Unpacker) (r : Bytes) → length r < need u → read_header_item u r ≡ absorb (length r) u r
unfolding read_header_item
read_short u r h = rw (lt→ltb (length r) (need u) h) refl

-- The item ends inside the first piece.
pub read_inside :
    (u : Unpacker) (a b : Bytes)
    → need u ≤ length a
    → read_header_item u (a ++ b) ≡ ((read_header_item u a).0, (read_header_item u a).1 ++ b)
read_inside u a b h =
    read_long u (a ++ b) (omega (arith, length-append a b))
    ∙ absorb-eq u (ap (λ t. u.tmp_buf ++ t) (take-append_le (need u) a b h)) refl
        (drop-append_le (need u) a b h)
    ∙ ap (λ p. (p.0, p.1 ++ b)) (sym (read_long u a h))

absorb-add :
    (u : Unpacker) (a b : Bytes) (n : ℕ)
    → absorb (length a + n) u (a ++ b) ≡ absorb n (absorb (length a) u a).0 b
absorb-add u a b n =
    absorb-eq u
      (ap (λ t. u.tmp_buf ++ t)
          (take-append_add n a b
            ∙ ap (λ t. t ++ take n b) (sym (take_all (length a) a (omega arith))))
        ∙ sym (append_assoc u.tmp_buf (take (length a) a) (take n b)))
      (omega arith) (drop-append_add n a b)

-- The first piece lies inside the item.
pub read_across :
    (u : Unpacker) (a b : Bytes)
    → length a < need u
    → read_header_item u (a ++ b) ≡ read_header_item (absorb (length a) u a).0 b
read_across u a b h = elim (Bool-cases (ltb (length b) (need u - length a))) [
  | inl less ↦
      read_short u (a ++ b) (omega (arith, length-append a b, ltb→lt _ _ less))
      ∙ ap (λ n. absorb n u (a ++ b)) (length-append a b)
      ∙ absorb-add u a b (length b)
      ∙ sym (read_short (absorb (length a) u a).0 b (omega (arith, ltb→lt _ _ less)))
  | inr more ↦
      let whole : need u ≡ length a + (need u - length a) = omega arith in
      let left : need u - length a ≡ need (absorb (length a) u a).0 = omega arith in
      read_long u (a ++ b) (ground (arith, length-append a b))
      ∙ ap (λ n. absorb n u (a ++ b)) whole
      ∙ absorb-add u a b (need u - length a)
      ∙ ap (λ n. absorb n (absorb (length a) u a).0 b) left
      ∙ sym (read_long (absorb (length a) u a).0 b (ground arith))
]
