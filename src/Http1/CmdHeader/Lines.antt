-- ===== src/Http1/CmdHeader/Lines.antt =====
-- The lines of a header, as they are written and read back.
use bay_server_python.Prelude.{
  ℕ, suc, ◌+◌, ◌<◌, ◌≡◌, refl, sym, ap, ◌∙◌, Bytes, [], ◌∷◌, ◌++◌, append-nil, append_assoc, length,
  length-append, slice, slice_middle, ◌==◌, Bool, true, false, All, arith,
}
use bay_server_python.Prelude.Results.{ok}
use bay_server_python.Http1.Unpacker.Headers.{IsText}
use bay_server_python.Http1.CmdHeader.{
  Request, lower, split, three_items, unpack_request_line, read_value, read_name, read_line,
  unpack_loop, crlf,
}

-- A byte of a name: no colon, no space, and in lower case. A byte that is no space.
abbrev pub IsNameByte : ℕ → Type 0
IsNameByte b = ((b == 58) ≡ false) × ((b == 32) ≡ false) × (lower b ≡ b)

abbrev pub IsWordByte : ℕ → Type 0
IsWordByte b = (b == 32) ≡ false

-- A value does not start with a space.
abbrev pub Starts : Bytes → Type 0
Starts [] = Unit
Starts (b ∷ s) = IsWordByte b

read_value-rest : (buf s : Bytes) → read_value false buf s ≡ buf ++ s
unfolding read_value
read_value-rest buf [] = sym (append-nil buf)
read_value-rest buf (b ∷ s) = read_value-rest (buf ++ (b ∷ [])) s ∙ append_assoc buf (b ∷ []) s

read_value-eq : (s : Bytes) → Starts s → read_value true [] s ≡ s
unfolding read_value
read_value-eq [] h = refl
read_value-eq (b ∷ s) h = rw h (read_value-rest (b ∷ []) s)

read_name-rest :
    (buf name value : Bytes)
    → All IsNameByte name
    → Starts value
    → read_name false buf (name ++ (58 ∷ value)) ≡ ok (buf ++ name, value)
unfolding read_name
read_name-rest buf [] value h k = λ i. ok (sym (append-nil buf) i, read_value-eq value k i)
read_name-rest buf (b ∷ name) value ((no_colon, no_space, low), h) k =
    rw (no_colon, low)
      (read_name-rest (buf ++ (b ∷ [])) name value h k
        ∙ ap (λ t. ok (t, value)) (append_assoc buf (b ∷ []) name))

pub read_name-eq :
    (name value : Bytes)
    → All IsNameByte name
    → Starts value
    → read_name true [] (name ++ (58 ∷ value)) ≡ ok (name, value)
unfolding read_name
read_name-eq [] value h k = ap (λ t. ok ([], t)) (read_value-eq value k)
read_name-eq (b ∷ name) value ((no_colon, no_space, low), h) k =
    rw (no_space, no_colon, low) (read_name-rest (b ∷ []) name value h k)

split-word :
    (item s rest : Bytes)
    → All IsWordByte s
    → split item (s ++ (32 ∷ rest)) ≡ (item ++ s) ∷ split [] rest
unfolding split
split-word item [] rest h = ap (λ t. t ∷ split [] rest) (sym (append-nil item))
split-word item (b ∷ s) rest (no_space, h) = rw no_space (
    split-word (item ++ (b ∷ [])) s rest h
    ∙ ap (λ t. t ∷ split [] rest) (append_assoc item (b ∷ []) s))

split-last : (item s : Bytes) → All IsWordByte s → split item s ≡ (item ++ s) ∷ []
unfolding split
split-last item [] h = ap (λ t. t ∷ []) (sym (append-nil item))
split-last item (b ∷ s) (no_space, h) =
    rw no_space
      (split-last (item ++ (b ∷ [])) s h ∙ ap (λ t. t ∷ []) (append_assoc item (b ∷ []) s))

-- The lines of a request.
abbrev pub request_line : Request → Bytes
request_line c = c.method ++ (32 ∷ (c.uri ++ (32 ∷ c.version)))

abbrev pub header_line : Bytes × Bytes → Bytes
header_line (name, value) = name ++ (58 ∷ value)

pub unpack_request_line-eq :
    (c d : Request)
    → All IsWordByte c.method
    → All IsWordByte c.uri
    → All IsWordByte c.version
    → unpack_request_line (request_line c) d
      ≡ ok (record d { method = c.method; uri = c.uri; version = c.version })
unfolding unpack_request_line
unpack_request_line-eq c d hm hu hv = ap (three_items d) (
    split-word [] c.method (c.uri ++ (32 ∷ c.version)) hm
    ∙ ap (λ t. c.method ∷ t)
        (split-word [] c.uri c.version hu ∙ ap (λ t. c.uri ∷ t) (split-last [] c.version hv)))

loop-text :
    (buf s rest : Bytes) (pos start n : ℕ) (first : Bool) (c : Request)
    → All IsText s
    → unpack_loop buf (s ++ rest) pos start n first c
      ≡ unpack_loop buf rest (pos + length s) start (n + length s) first c
unfolding unpack_loop
loop-text buf [] rest pos start n first c h =
    λ i. unpack_loop buf rest (plus pos i) start (plus n i) first c
  where
    plus : (k : ℕ) → k ≡ k + 0
    plus k = omega arith
loop-text buf (b ∷ s) rest pos start n first c ((no_cr, no_lf), h) =
    rw (unpack_loop, no_cr, no_lf)
      (loop-text buf s rest (suc pos) start (suc n) first c h ∙ λ i.
        unpack_loop buf rest (more pos (length s) i) start (more n (length s) i) first c)
  where
    more : (k l : ℕ) → suc k + l ≡ k + suc l
    more k l = omega arith

-- A line that is read: the loop stands behind its CRLF.
pub loop-line :
    (front line rest : Bytes) (first : Bool) (c d : Request)
    → All IsText line
    → 0 < length line
    → read_line first line c ≡ ok d
    → (buf : Bytes) → buf ≡ front ++ (line ++ (13 ∷ 10 ∷ rest))
    → unpack_loop buf (line ++ (13 ∷ 10 ∷ rest)) (length front) (length front) 0 first c
      ≡ unpack_loop buf rest
          (length (front ++ (line ++ crlf)))
          (length (front ++ (line ++ crlf)))
          0
          false
          d
unfolding unpack_loop
loop-line front line rest first c d text some_text reads buf e =
    let some : (0 + length line == 0) ≡ false = ground (arith, some_text) in
    let cut : slice (length front) (length front + (0 + length line)) buf ≡ line =
      ap (slice (length front) (length front + (0 + length line))) e
      ∙ slice_middle (length front) (length front + (0 + length line)) front line (13 ∷ 10 ∷ rest)
          refl (omega arith) in
    let size : suc (suc (length front + length line)) ≡ length (front ++ (line ++ crlf)) =
      omega (arith, length-append front (line ++ crlf), length-append line crlf) in
    loop-text buf line (13 ∷ 10 ∷ rest) (length front) (length front) 0 first c text
    ∙ rw (unpack_loop, some, cut, reads) (ap (λ n. unpack_loop buf rest n n 0 false d) size)
