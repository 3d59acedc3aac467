-- ===== src/Fcgi/Unpacker/Parts.antt =====
-- The parts of a record, which arrive in pieces.
use bay_server_python.Prelude.{
  ℕ, ◌+◌, ◌-◌, ◌≤◌, ◌<◌, ◌≡◌, ◌≢◌, refl, sym, ap, ◌∙◌, Bytes, [], ◌∷◌, ◌++◌, length, take, drop,
  length-append, append_assoc, length-take, take-append_le, drop-append_le, take-append_add,
  drop-append_add, take_all, drop_all, ltb, ◌==◌, ==_iff, true, false, Bool-cases, inl, inr, arith,
  lt→ltb, le→ltb, ltb→lt,
}
use bay_server_python.Fcgi.Command.{preamble_size}
use bay_server_python.Fcgi.Unpacker.{
  State, read_preamble, read_content, read_padding, end, Unpacker, read_part, at_most,
  preamble_done, to_padding, change_state,
}

-- What a part still lacks.
abbrev pub need : State → Unpacker → ℕ
need read_preamble u = preamble_size - length u.header_buf
need read_content u = u.content_len - length u.data_buf
need read_padding u = u.padding - u.padding_read_bytes
need end u = 0

-- A part lacks something, and the later parts are empty.
abbrev pub HasRoom : State → Unpacker → Type 0
HasRoom read_preamble u =
    (length u.header_buf < 8) × (length u.data_buf ≡ 0) × (u.padding_read_bytes ≡ 0)
HasRoom read_content u = (length u.data_buf < u.content_len) × (u.padding_read_bytes ≡ 0)
HasRoom read_padding u = u.padding_read_bytes < u.padding
HasRoom end u = Unit

-- A part grows by some bytes, and is completed.
abbrev pub grown : State → Unpacker → Bytes → Unpacker
grown read_preamble u x = record u { header_buf = u.header_buf ++ x }
grown read_content u x = record u { data_buf = u.data_buf ++ x }
grown read_padding u x = record u { padding_read_bytes = u.padding_read_bytes + length x }
grown end u x = u

unfoldable pub completed : State → Unpacker → Unpacker
completed read_preamble u = preamble_done u
completed read_content u = to_padding u
completed read_padding u = change_state end u
completed end u = u

at_most-short : (n : ℕ) (r : Bytes) → length r < n → at_most n r ≡ length r
at_most-short n r h = rw (lt→ltb (length r) n h) refl

at_most-long : (n : ℕ) (r : Bytes) → n ≤ length r → at_most n r ≡ n
at_most-long n r h = rw (le→ltb (length r) n h) refl

pub positive : (r : Bytes) → r ≢ [] → 0 < length r
positive [] h = absurd (h refl)
positive (x ∷ r) h = omega arith

-- A piece that ends inside the part.
pub read_part-short :
    (st : State) (u : Unpacker) (r : Bytes)
    → HasRoom st u
    → r ≢ []
    → length r < need st u
    → read_part st u r ≡ (grown st u r, [])
unfolding read_part
read_part-short end u r v ne h = absurd (omega arith)
read_part-short read_preamble u r v ne h =
    let whole = take_all (length r) r (omega arith) in
    let partial : (length (u.header_buf ++ r) == 8) ≡ false =
      ground (arith, length-append u.header_buf r) in
    rw
      (
        at_most-short (need read_preamble u) r h,
        whole,
        drop_all (length r) r (omega arith),
        partial,
      )
      refl
read_part-short read_content u r v ne h =
    let whole = take_all (length r) r (omega arith) in
    let partial : (length (u.data_buf ++ r) == u.content_len) ≡ false =
      ground (arith, length-append u.data_buf r) in
    rw
      (
        at_most-short (need read_content u) r h,
        whole,
        drop_all (length r) r (omega arith),
        partial,
        lt→ltb 0 (length r) (positive r ne),
      )
      refl
read_part-short read_padding u r v ne h =
    let partial : (u.padding_read_bytes + length r == u.padding) ≡ false = ground arith in
    rw
      (
        at_most-short (need read_padding u) r h,
        drop_all (length r) r (omega arith),
        partial,
        lt→ltb 0 (length r) (positive r ne),
      )
      refl

-- A piece in which the part is completed.
pub read_part-long :
    (st : State) (u : Unpacker) (r : Bytes)
    → HasRoom st u
    → need st u ≤ length r
    → read_part st u r ≡ (completed st (grown st u (take (need st u) r)), drop (need st u) r)
unfolding read_part completed
read_part-long end u r v h = ap (λ t. (u, t)) refl
read_part-long read_preamble u r v h =
    let full : (length (u.header_buf ++ take (8 - length u.header_buf) r) == 8) ≡ true =
      (==_iff _ _).1 (
        omega (
          arith,
          v.0,
          length-append u.header_buf (take (8 - length u.header_buf) r),
          length-take (8 - length u.header_buf) r,
        )) in
    rw (at_most-long (need read_preamble u) r h, full) refl
read_part-long read_content u r v h =
    let n = u.content_len - length u.data_buf in
    let full : (length (u.data_buf ++ take n r) == u.content_len) ≡ true =
      (==_iff _ _).1 (omega (arith, v.0, length-append u.data_buf (take n r), length-take n r)) in
    rw (at_most-long (need read_content u) r h, full, lt→ltb 0 n (omega (arith, v.0))) refl
read_part-long read_padding u r v h =
    let n = u.padding - u.padding_read_bytes in
    let size : length (take n r) ≡ n = omega (arith, length-take n r) in
    let full : (u.padding_read_bytes + n == u.padding) ≡ true = (==_iff _ _).1 (omega arith) in
    rw (at_most-long (need read_padding u) r h, size, full, lt→ltb 0 n (omega arith)) refl

pub need-grown :
    (st : State) (u : Unpacker) (a : Bytes) → need st (grown st u a) ≡ need st u - length a
need-grown read_preamble u a = omega (arith, length-append u.header_buf a)
need-grown read_content u a = omega (arith, length-append u.data_buf a)
need-grown read_padding u a = omega arith
need-grown end u a = omega arith

pub grown-HasRoom :
    (st : State) (u : Unpacker) (a : Bytes)
    → HasRoom st u
    → length a < need st u
    → HasRoom st (grown st u a)
grown-HasRoom read_preamble u a v h = (omega (arith, length-append u.header_buf a), v.1, v.2)
grown-HasRoom read_content u a v h = (omega (arith, length-append u.data_buf a), v.1)
grown-HasRoom read_padding u a v h = omega arith
grown-HasRoom end u a v h = tt

pub grown-grown :
    (st : State) (u : Unpacker) (a b : Bytes) → grown st (grown st u a) b ≡ grown st u (a ++ b)
grown-grown read_preamble u a b =
    ap (λ t. record u { header_buf = t }) (append_assoc u.header_buf a b)
grown-grown read_content u a b = ap (λ t. record u { data_buf = t }) (append_assoc u.data_buf a b)
grown-grown read_padding u a b =
    ap (λ n. record u { padding_read_bytes = n }) (omega (arith, length-append a b))
grown-grown end u a b = refl

pub grown-state : (st : State) (u : Unpacker) (a : Bytes) → (grown st u a).state ≡ u.state
grown-state read_preamble u a = refl
grown-state read_content u a = refl
grown-state read_padding u a = refl
grown-state end u a = refl

-- The first piece ends inside the part.
pub read_part-across :
    (st : State) (u : Unpacker) (a b : Bytes)
    → HasRoom st u
    → b ≢ []
    → a ≢ []
    → length a < need st u
    → read_part st u (a ++ b) ≡ read_part st (grown st u a) b
read_part-across st u a b v ne ne' h = elim (Bool-cases (ltb (length b) (need st u - length a))) [
  | inl less ↦
      let small : length b < need st u - length a = ltb→lt _ _ less in
      read_part-short st u (a ++ b) v (longer a b ne') (omega (arith, length-append a b, small))
      ∙ ap (λ t. (t, [])) (sym (grown-grown st u a b))
      ∙ sym (
          read_part-short st (grown st u a) b (grown-HasRoom st u a v h) ne
            (omega (arith, need-grown st u a, small)))
  | inr more ↦
      let n = need st u - length a in
      let large : n ≤ length b = ground arith in
      let whole : need st u ≡ length a + n = omega arith in
      read_part-long st u (a ++ b) v (omega (arith, length-append a b))
      ∙ ap (λ k. (completed st (grown st u (take k (a ++ b))), drop k (a ++ b))) whole
      ∙ ap (λ t. (completed st (grown st u t), drop (length a + n) (a ++ b)))
          (take-append_add n a b)
      ∙ ap (λ t. (completed st (grown st u (a ++ take n b)), t)) (drop-append_add n a b)
      ∙ ap (λ t. (completed st t, drop n b)) (sym (grown-grown st u a (take n b)))
      ∙ ap (λ k. (completed st (grown st (grown st u a) (take k b)), drop k b))
          (sym (need-grown st u a))
      ∙ sym (
          read_part-long st (grown st u a) b (grown-HasRoom st u a v h)
            (omega (arith, need-grown st u a)))
]
  where
    longer : (a b : Bytes) → a ≢ [] → a ++ b ≢ []
    longer [] b h = absurd (h refl)
    longer (x ∷ a) b h = λ p. cc

-- The part is completed in the first piece.
pub read_part-inside :
    (st : State) (u : Unpacker) (a b : Bytes)
    → HasRoom st u
    → need st u ≤ length a
    → read_part st u (a ++ b) ≡ ((read_part st u a).0, (read_part st u a).1 ++ b)
read_part-inside st u a b v h =
    read_part-long st u (a ++ b) v (omega (arith, length-append a b))
    ∙ ap (λ t. (completed st (grown st u t), drop (need st u) (a ++ b)))
        (take-append_le (need st u) a b h)
    ∙ ap (λ t. (completed st (grown st u (take (need st u) a)), t))
        (drop-append_le (need st u) a b h)
    ∙ ap (λ p. (p.0, p.1 ++ b)) (sym (read_part-long st u a v h))
