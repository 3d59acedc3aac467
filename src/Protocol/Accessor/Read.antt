-- ===== src/Protocol/Accessor/Read.antt =====
-- Reading at the accessor's position, with the rule that joins two reads.
use bay_server_python.Prelude.{
  ℕ, ◌+◌, ◌*◌, ◌<◌, ◌≡◌, sym, ap, ◌∙◌, Bytes, [], ◌∷◌, ◌++◌, length, length-append, append_assoc,
  slice, slice_middle, le→ltb, lt→ltb, arith, bit_or, ◌%◌, ◌/◌, ◌^◌,
}
use mathlib.Core.Path.{subst}
use bay_server_python.Prelude.Bits.{bit_or_disjoint}
use bay_server_python.Prelude.Results.{ok, err, io_error}
use bay_server_python.Protocol.Accessor.{
  Accessor, M, ◌>>=◌, pure, first, read_limit, get_bytes, get_byte, get_short, get_int, bind-ok,
}
use bay_server_python.Protocol.Accessor.Append.{short_bytes, int_bytes}

-- `rest` is what the accessor may still read.
pub record Holds (a : Accessor) (rest : Bytes) : Type 0 where
  pub front : Bytes
  pub back : Bytes
  pub splits : a.packet.buf ≡ front ++ (rest ++ back)
  pub before : length front ≡ a.start + a.pos
  pub limit : read_limit a ≡ a.pos + length rest

abbrev pub advanced : ℕ → Accessor → Accessor
advanced n a = record a { pos = a.pos + n }

-- On an accessor that stands before `s` the operation returns `v` and steps over `s`.
abbrev pub Reads : {A : Type 0} → M A → Bytes → A → Type 0
Reads m s v =
    (a : Accessor) (rest : Bytes) → Holds a (s ++ rest) → m a ≡ ok (v, advanced (length s) a)

pub Holds-advanced :
    (s rest : Bytes) (a : Accessor) → Holds a (s ++ rest) → Holds (advanced (length s) a) rest
unfolding read_limit
Holds-advanced s rest a h = record {
  front = h.front ++ s;
  back = h.back;
  splits =
      h.splits
      ∙ ap (λ t. h.front ++ t) (append_assoc s rest h.back)
      ∙ sym (append_assoc h.front s (rest ++ h.back));
  before = omega (arith, length-append h.front s, h.before);
  limit = h.limit ∙ omega (arith, length-append s rest);
}

pub advanced-advanced :
    (s t : Bytes) (a : Accessor)
    → advanced (length t) (advanced (length s) a) ≡ advanced (length (s ++ t)) a
advanced-advanced s t a = ap (λ n. record a { pos = n }) (omega (arith, length-append s t))

module _ {A B : Type 0} (m : M A) (f : A → M B) (s t : Bytes) (v : A) (w : B) where
  pub Reads->>= : Reads m s v → Reads (f v) t w → Reads (m >>= f) (s ++ t) w
  Reads->>= h k a rest hold =
      let here : Holds a (s ++ (t ++ rest)) = subst (Holds a) (append_assoc s t rest) hold in
      bind-ok m f (h a (t ++ rest) here)
      ∙ k (advanced (length s) a) rest (Holds-advanced s (t ++ rest) a here)
      ∙ ap (λ b. ok (w, b)) (advanced-advanced s t a)

pub pure-Reads : {A : Type 0} (v : A) → Reads (pure v) [] v
pure-Reads v a rest h = ap (λ n. ok (v, record a { pos = n })) (omega arith)

pub get_bytes-Reads : (s : Bytes) → Reads (get_bytes (length s)) s s
unfolding get_bytes
get_bytes-Reads s a rest h =
    rw
      (
        le→ltb (read_limit a) (a.pos + length s) (omega (arith, h.limit, length-append s rest)),
        ◌>>=◌,
      )
      (ap (λ t. ok (t, advanced (length s) a))
        (ap (slice i (i + length s))
            (h.splits ∙ ap (λ t. h.front ++ t) (append_assoc s rest h.back))
          ∙ slice_middle i (i + length s) h.front s (rest ++ h.back) h.before
              (omega (arith, h.before))))
  where
    i : ℕ
    i = a.start + a.pos

pub get_byte-Reads : (b : ℕ) → Reads get_byte (b ∷ []) b
unfolding get_byte
get_byte-Reads b a rest h = bind-ok (get_bytes 1) first {a = a} (get_bytes-Reads (b ∷ []) a rest h)

-- A read of more bytes than are left in front of the accessor raises `IOError`.
pub get_bytes_past :
    (n : ℕ) (a : Accessor) (rest : Bytes)
    → Holds a rest
    → length rest < n
    → get_bytes n a ≡ err io_error
unfolding get_bytes
get_bytes_past n a rest h k = rw (lt→ltb (read_limit a) (a.pos + n) (omega (arith, h.limit)), ◌>>=◌)

pub short_value : (h l : ℕ) → l < 256 → bit_or (h * 256) l ≡ h * 256 + l
short_value h l k = bit_or_disjoint 8 h l k

pub int_value :
    (b1 b2 b3 b4 : ℕ)
    → b2 < 256
    → b3 < 256
    → b4 < 256
    → bit_or (bit_or (bit_or (b1 * 16777216) (b2 * 65536)) (b3 * 256)) b4
      ≡ b1 * 16777216 + b2 * 65536 + b3 * 256 + b4
int_value b1 b2 b3 b4 h2 h3 h4 =
    ap (λ t. bit_or (bit_or t (b3 * 256)) b4)
      (bit_or_disjoint 24 b1 (b2 * 65536) (omega arith) ∙ first_two)
    ∙ ap (λ t. bit_or t b4)
        (bit_or_disjoint 16 (b1 * 256 + b2) (b3 * 256) (omega arith) ∙ first_three)
    ∙ bit_or_disjoint 8 (b1 * 65536 + b2 * 256 + b3) b4 (omega arith)
    ∙ omega arith
  where
    first_two : b1 * 16777216 + b2 * 65536 ≡ (b1 * 256 + b2) * 65536
    first_two = omega arith

    first_three : (b1 * 256 + b2) * 65536 + b3 * 256 ≡ (b1 * 65536 + b2 * 256 + b3) * 256
    first_three = omega arith

pub get_short-Reads : (h l : ℕ) → l < 256 → Reads get_short (h ∷ l ∷ []) (h * 256 + l)
unfolding get_short
get_short-Reads h l k = Reads->>= get_byte _ (h ∷ []) (l ∷ []) h _ (get_byte-Reads h) (
    Reads->>= get_byte _ (l ∷ []) [] l _ (get_byte-Reads l)
      (rw (short_value h l k) (pure-Reads (h * 256 + l))))

pub get_int-Reads :
    (b1 b2 b3 b4 : ℕ)
    → b2 < 256
    → b3 < 256
    → b4 < 256
    → Reads get_int (b1 ∷ b2 ∷ b3 ∷ b4 ∷ []) (b1 * 16777216 + b2 * 65536 + b3 * 256 + b4)
unfolding get_int
get_int-Reads b1 b2 b3 b4 h2 h3 h4 =
    Reads->>= get_byte _ (b1 ∷ []) (b2 ∷ b3 ∷ b4 ∷ []) b1 _ (get_byte-Reads b1) (
      Reads->>= get_byte _ (b2 ∷ []) (b3 ∷ b4 ∷ []) b2 _ (get_byte-Reads b2) (
        Reads->>= get_byte _ (b3 ∷ []) (b4 ∷ []) b3 _ (get_byte-Reads b3) (
          Reads->>= get_byte _ (b4 ∷ []) [] b4 _ (get_byte-Reads b4)
            (rw (int_value b1 b2 b3 b4 h2 h3 h4) (pure-Reads _)))))

-- What `put_short` and `put_int` write is read back, for numbers of 16 and of 32 bits.
pub get_short-short_bytes : (v : ℕ) → v < 65536 → Reads get_short (short_bytes v) v
get_short-short_bytes v h =
    subst (Reads get_short (short_bytes v)) (omega arith)
      (get_short-Reads (v / 256 % 256) (v % 256) (omega arith))

pub get_int-int_bytes : (v : ℕ) → v < 2 ^ 32 → Reads get_int (int_bytes v) v
get_int-int_bytes v h = subst (Reads get_int (int_bytes v)) (omega arith) (
    get_int-Reads (v / 16777216 % 256) (v / 65536 % 256) (v / 256 % 256) (v % 256) (omega arith)
      (omega arith) (omega arith))

pub Reads-map :
    {A B : Type 0} (m : M A) (f : A → B) (s : Bytes) (v : A)
    → Reads m s v
    → Reads (m >>= λ x. pure (f x)) s (f v)
Reads-map m f s v h a rest hold = bind-ok m (λ x. pure (f x)) {a = a} (h a rest hold)
