-- ===== src/Protocol/SimpleBuffer.antt =====
-- bayserver_core/util/simple_buffer.py: a byte buffer that doubles its capacity when it is full. The
-- packet unpackers hold such buffers by their contents, which `put-contents` justifies.
use bay_server_python.Prelude.{
  ℕ, zero, suc, ◌+◌, ◌-◌, ◌*◌, ◌≤◌, ◌<◌, ◌≡◌, refl, sym, ap, ◌∙◌, Bytes, [], ◌∷◌, ◌++◌, length,
  take, drop, replicate, slice, slice_assign, ltb, if◌then◌else◌, arith, length-append, length-take,
  length-drop, length-replicate, take-append_self, drop-append_self, drop-replicate,
  replicate-append, append_assoc, slice_assign_middle, take-append-drop, Option, none, some, inl,
  inr, Bool-cases, le→ltb, ltb→lt,
}

pub record SimpleBuffer : Type 0 where
  pub capacity : ℕ
  pub buf : Bytes
  pub length_used : ℕ

unfoldable pub new_buffer : ℕ → SimpleBuffer
new_buffer init = record { capacity = init; buf = replicate init 0; length_used = 0 }

-- The loop of `reset` over `range(self.length)`.
zero_first : ℕ → Bytes → Bytes
zero_first zero b = b
zero_first (suc n) [] = []
zero_first (suc n) (x ∷ b) = 0 ∷ zero_first n b

unfoldable pub reset : SimpleBuffer → SimpleBuffer
unfolding zero_first
reset s = record s { buf = zero_first s.length_used s.buf; length_used = 0 }

unfoldable pub extend_buf : SimpleBuffer → SimpleBuffer
extend_buf s =
    let capacity = s.capacity * 2 in
    record s {
      capacity = capacity;
      buf = slice_assign 0 s.length_used (slice 0 s.length_used s.buf) (replicate capacity 0);
    }

-- `while self.length + length > self.capacity: self.extend_buf()`, with fuel.
unfoldable pub grow : ℕ → ℕ → SimpleBuffer → Option SimpleBuffer
unfolding extend_buf
grow zero need s = none
grow (suc fuel) need s =
    let rest = grow fuel need (extend_buf s) in if ltb s.capacity need then rest else some s

-- The copy behind the used bytes, once there is room.
abbrev place : Bytes → ℕ → ℕ → Option SimpleBuffer → Option SimpleBuffer
place bytes pos n none = none
place bytes pos n (some t) = some (record t {
  buf = slice_assign t.length_used (t.length_used + n) (slice pos (pos + n) bytes) t.buf;
  length_used = t.length_used + n;
})

-- `put(bytes, pos, length)`; `none` is a loop that does not end.
unfoldable pub put : Bytes → ℕ → ℕ → SimpleBuffer → Option SimpleBuffer
put bytes pos n s = place bytes pos n (grow (suc (s.length_used + n)) (s.length_used + n) s)

abbrev pub contents : SimpleBuffer → Bytes
contents s = take s.length_used s.buf

-- The array has the capacity's size, the used part lies in it, and the rest is zero.
pub record IsValid (s : SimpleBuffer) : Type 0 where
  pub sized : length s.buf ≡ s.capacity
  pub within : s.length_used ≤ s.capacity
  pub positive : 0 < s.capacity
  pub cleared : drop s.length_used s.buf ≡ replicate (s.capacity - s.length_used) 0

pub new_buffer-IsValid : (init : ℕ) → 0 < init → IsValid (new_buffer init)
unfolding new_buffer
new_buffer-IsValid init h = record {
  sized = length-replicate init 0;
  within = omega arith;
  positive = h;
  cleared = ap (λ n. replicate n 0) (omega arith);
}

-- Dropping from a list that was filled up to there.
extend_buf-buf :
    (s : SimpleBuffer)
    → IsValid s
    → (extend_buf s).buf ≡ contents s ++ replicate (s.capacity * 2 - s.length_used) 0
unfolding extend_buf
extend_buf-buf s v =
    ap (λ t. t ++ drop s.length_used (replicate (s.capacity * 2) 0))
      (ap (λ n. take n s.buf) (omega arith))
    ∙ ap (λ t. contents s ++ t) (drop-replicate s.length_used (s.capacity * 2) 0)

length-contents : (s : SimpleBuffer) → IsValid s → length (contents s) ≡ s.length_used
length-contents s v = omega (arith, length-take s.length_used s.buf, v.sized, v.within)

-- A buffer whose array is `front`, then zeros up to its capacity.
filled :
    (c : ℕ) (b front : Bytes) (n : ℕ)
    → b ≡ front ++ replicate (c - n) 0
    → length front ≡ n
    → n ≤ c
    → 0 < c
    → IsValid (record { capacity = c; buf = b; length_used = n })
filled c b front n e h k p = record {
  sized =
      ap length e
      ∙ omega
          (arith, length-append front (replicate (c - n) 0), length-replicate {A = ℕ} (c - n) 0);
  within = k;
  positive = p;
  cleared =
      ap (drop n) e
      ∙ ap (λ m. drop m (front ++ replicate (c - n) 0)) (sym h)
      ∙ drop-append_self front _;
}

extend_buf-IsValid : (s : SimpleBuffer) → IsValid s → IsValid (extend_buf s)
unfolding extend_buf
extend_buf-IsValid s v =
    filled (s.capacity * 2) _ (contents s) s.length_used (extend_buf-buf s v) (length-contents s v)
      (omega (arith, v.within)) (omega (arith, v.positive))

extend_buf-contents : (s : SimpleBuffer) → IsValid s → contents (extend_buf s) ≡ contents s
unfolding extend_buf
extend_buf-contents s v =
    ap (take s.length_used) (extend_buf-buf s v)
    ∙ ap (λ m. take m (contents s ++ replicate (s.capacity * 2 - s.length_used) 0))
        (sym (length-contents s v))
    ∙ take-append_self (contents s) _

-- The loop ends, with room for the bytes and the same contents.
record Grown (need : ℕ) (s t : SimpleBuffer) : Type 0 where
  valid : IsValid t
  room : need ≤ t.capacity
  used : t.length_used ≡ s.length_used
  same : contents t ≡ contents s

grow_total :
    (fuel need : ℕ) (s : SimpleBuffer)
    → IsValid s
    → need ≤ s.capacity + fuel
    → (t : SimpleBuffer) × (grow (suc fuel) need s ≡ some t) × Grown need s t
unfolding grow
grow_total zero need s v h = (
  s,
  rw (le→ltb s.capacity need (omega arith)),
  record { valid = v; room = omega arith; used = refl; same = refl },
)
grow_total (suc fuel) need s v h = elim (Bool-cases (ltb s.capacity need)) [
  | inl small ↦
      let (t, e, g) =
        grow_total fuel need (extend_buf s) (extend_buf-IsValid s v)
          (omega (arith, v.positive, ltb→lt _ _ small)) in
      (
        t,
        rw small e,
        record {
          valid = g.valid;
          room = g.room;
          used = g.used;
          same = g.same ∙ extend_buf-contents s v;
        },
      )
  | inr enough ↦ (s, rw enough, record { valid = v; room = ground arith; used = refl; same = refl })
]

length-slice : (i j : ℕ) (b : Bytes) → i ≤ j → j ≤ length b → length (slice i j b) ≡ j - i
length-slice i j b h k = omega (arith, length-take (j - i) (drop i b), length-drop i b)

placed :
    (bytes : Bytes) (pos n : ℕ) (t : SimpleBuffer)
    → IsValid t
    → pos + n ≤ length bytes
    → t.length_used + n ≤ t.capacity
    → let added = slice pos (pos + n) bytes in
      let u : SimpleBuffer = record t {
        buf = slice_assign t.length_used (t.length_used + n) added t.buf;
        length_used = t.length_used + n;
      } in
      IsValid u × (contents u ≡ contents t ++ added)
placed bytes pos n t v h room = (
  filled t.capacity _ (contents t ++ added) (t.length_used + n) shape size room v.positive,
  ap (take (t.length_used + n)) shape
      ∙ ap (λ m. take m ((contents t ++ added) ++ zeros)) (sym size)
      ∙ take-append_self (contents t ++ added) zeros,
)
  where
    added : Bytes
    added = slice pos (pos + n) bytes

    zeros : Bytes
    zeros = replicate (t.capacity - (t.length_used + n)) 0

    sum : n + (t.capacity - (t.length_used + n)) ≡ t.capacity - t.length_used
    sum = omega arith

    whole : t.buf ≡ contents t ++ (replicate n 0 ++ zeros)
    whole =
        sym (take-append-drop t.length_used t.buf)
        ∙ ap (λ z. contents t ++ z)
            (v.cleared
              ∙ sym (
                  replicate-append n (t.capacity - (t.length_used + n)) 0
                  ∙ ap (λ m. replicate m 0) sum))

    shape :
        slice_assign t.length_used (t.length_used + n) added t.buf ≡ (contents t ++ added) ++ zeros
    shape =
        ap (slice_assign t.length_used (t.length_used + n) added) whole
        ∙ slice_assign_middle t.length_used (t.length_used + n) (contents t) (replicate n 0) zeros
            added (length-contents t v)
            (omega (arith, length-contents t v, length-replicate {A = ℕ} n 0))
        ∙ sym (append_assoc (contents t) added zeros)

    size : length (contents t ++ added) ≡ t.length_used + n
    size = omega (
      arith,
      length-append (contents t) added,
      length-contents t v,
      length-slice pos (pos + n) bytes (omega arith) h,
    )

-- For a valid buffer and a slice inside the argument, `put` ends, keeps the buffer valid, and
-- appends the bytes of the slice to the contents.
pub put_total :
    (bytes : Bytes) (pos n : ℕ) (s : SimpleBuffer)
    → IsValid s
    → pos + n ≤ length bytes
    → (t : SimpleBuffer) × (put bytes pos n s ≡ some t)
      × IsValid t
      × (contents t ≡ contents s ++ slice pos (pos + n) bytes)
unfolding put
put_total bytes pos n s v h =
    let (t, e, g) = grow_total (s.length_used + n) (s.length_used + n) s v (omega arith) in
    let (good, has) = placed bytes pos n t g.valid h (omega (arith, g.room, g.used)) in
    (_, ap (place bytes pos n) e, good, has ∙ ap (λ c. c ++ slice pos (pos + n) bytes) g.same)

zero_first-eq : (n : ℕ) (b : Bytes) → n ≤ length b → zero_first n b ≡ replicate n 0 ++ drop n b
unfolding zero_first
zero_first-eq zero b h = refl
zero_first-eq (suc n) [] h = absurd (omega arith)
zero_first-eq (suc n) (x ∷ b) h = ap (◌∷◌ 0) (zero_first-eq n b (omega arith))

-- In a valid buffer, `reset` clears the bytes that were in use, so that the whole array is zero
-- again, and leaves the buffer valid.
pub reset_total :
    (s : SimpleBuffer) → IsValid s → IsValid (reset s) × ((reset s).buf ≡ replicate s.capacity 0)
unfolding reset
reset_total s v = (
  filled s.capacity _ [] 0 (all_zero ∙ ap (λ n. replicate n 0) e) refl (omega arith) v.positive,
  all_zero,
)
  where
    e : s.capacity ≡ s.capacity - 0
    e = omega arith

    f : s.length_used + (s.capacity - s.length_used) ≡ s.capacity
    f = omega (arith, v.within)

    all_zero : zero_first s.length_used s.buf ≡ replicate s.capacity 0
    all_zero =
        zero_first-eq s.length_used s.buf (omega (arith, v.sized, v.within))
        ∙ ap (λ t. replicate s.length_used 0 ++ t) v.cleared
        ∙ replicate-append s.length_used (s.capacity - s.length_used) 0
        ∙ ap (λ n. replicate n 0) f
