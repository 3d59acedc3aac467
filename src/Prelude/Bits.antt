-- ===== src/Prelude/Bits.antt =====
-- `&` with a mask of ones and `|` of disjoint fields as arithmetic, at every width.
use Prim.Native.Nat.{
  ℕ, zero, suc, ◌+◌, ◌-◌, ◌*◌, ◌/◌, ◌%◌, ◌^◌, ◌≤◌, ◌<◌, min, max, bit_and, bit_or, digits,
  bit_and-bitwise, bit_or-bitwise,
}
use mathlib.Core.Path.{◌≡◌, refl, ap, ◌∙◌}
use mathlib.Core.Bool.{Bool, true, ◌&&◌}
use native.Mathlib.Nat.{pow-suc, one-le-pow, mod-eq_of_lt}
use native.Mathlib.Omega.{arith}
use bay_server_python.Prelude.Tests.{◌==◌}

-- The digit recursion with any count of digits that is large enough.
or_digits : ℕ → ℕ → ℕ → ℕ
or_digits = digits (λ b. b) max

and_digits : ℕ → ℕ → ℕ → ℕ
and_digits = digits (λ b. zero) min

or_digits-more : (n m a b : ℕ) → a ≤ n → a ≤ m → or_digits n a b ≡ or_digits m a b
unfolding or_digits
or_digits-more zero zero a b p q = refl
or_digits-more zero (suc m) zero b p q = refl
or_digits-more zero (suc m) (suc a) b p q = absurd (omega arith)
or_digits-more (suc n) zero zero b p q = refl
or_digits-more (suc n) zero (suc a) b p q = absurd (omega arith)
or_digits-more (suc n) (suc m) zero b p q = refl
or_digits-more (suc n) (suc m) (suc a) b p q =
    omega (arith, or_digits-more n m (suc a / 2) (b / 2) (omega arith) (omega arith))

and_digits-more : (n m a b : ℕ) → a ≤ n → a ≤ m → and_digits n a b ≡ and_digits m a b
unfolding and_digits
and_digits-more zero zero a b p q = refl
and_digits-more zero (suc m) zero b p q = refl
and_digits-more zero (suc m) (suc a) b p q = absurd (omega arith)
and_digits-more (suc n) zero zero b p q = refl
and_digits-more (suc n) zero (suc a) b p q = absurd (omega arith)
and_digits-more (suc n) (suc m) zero b p q = refl
and_digits-more (suc n) (suc m) (suc a) b p q =
    omega (arith, and_digits-more n m (suc a / 2) (b / 2) (omega arith) (omega arith))

zero-bit_or : (b : ℕ) → bit_or 0 b ≡ b
zero-bit_or b = bit_or-bitwise 0 b

zero-bit_and : (b : ℕ) → bit_and 0 b ≡ 0
zero-bit_and b = bit_and-bitwise 0 b

-- The lowest digit apart from the others.
pub bit_or_halves : (a b : ℕ) → bit_or a b ≡ bit_or (a / 2) (b / 2) * 2 + max (a % 2) (b % 2)
unfolding or_digits
bit_or_halves zero b = omega (arith, zero-bit_or b, zero-bit_or (b / 2))
bit_or_halves (suc a) b = omega (
  arith,
  bit_or-bitwise (suc a) b,
  bit_or-bitwise (suc a / 2) (b / 2),
  or_digits-more a (suc a / 2) (suc a / 2) (b / 2) (omega arith) (omega arith),
)

pub bit_and_halves : (a b : ℕ) → bit_and a b ≡ bit_and (a / 2) (b / 2) * 2 + min (a % 2) (b % 2)
unfolding and_digits
bit_and_halves zero b = omega (arith, zero-bit_and b, zero-bit_and (b / 2))
bit_and_halves (suc a) b = omega (
  arith,
  bit_and-bitwise (suc a) b,
  bit_and-bitwise (suc a / 2) (b / 2),
  and_digits-more a (suc a / 2) (suc a / 2) (b / 2) (omega arith) (omega arith),
)

or_zero_within : (n a : ℕ) → a ≤ n → bit_or a 0 ≡ a
or_zero_within n zero h = refl
or_zero_within zero (suc a) h = absurd (omega arith)
or_zero_within (suc n) (suc a) h =
    omega (arith, bit_or_halves (suc a) 0, or_zero_within n (suc a / 2) (omega arith))

and_zero_within : (n a : ℕ) → a ≤ n → bit_and a 0 ≡ 0
and_zero_within n zero h = refl
and_zero_within zero (suc a) h = absurd (omega arith)
and_zero_within (suc n) (suc a) h =
    omega (arith, bit_and_halves (suc a) 0, and_zero_within n (suc a / 2) (omega arith))

pub bit_or-zero : (a : ℕ) → bit_or a 0 ≡ a
bit_or-zero a = or_zero_within a a (omega arith)

pub bit_and-zero : (a : ℕ) → bit_and a 0 ≡ 0
bit_and-zero a = and_zero_within a a (omega arith)

or_comm_within : (n a b : ℕ) → a ≤ n → bit_or a b ≡ bit_or b a
or_comm_within n zero b h = omega (arith, zero-bit_or b, bit_or-zero b)
or_comm_within zero (suc a) b h = absurd (omega arith)
or_comm_within (suc n) (suc a) b h = omega (
  arith,
  bit_or_halves (suc a) b,
  bit_or_halves b (suc a),
  or_comm_within n (suc a / 2) (b / 2) (omega arith),
)

pub bit_or_comm : (a b : ℕ) → bit_or a b ≡ bit_or b a
bit_or_comm a b = or_comm_within a a b (omega arith)

double_field : (q k : ℕ) → q * 2 ^ suc k ≡ q * 2 ^ k * 2
double_field q k = omega (arith, ap (λ (t : ℕ). q * t) (pow-suc 2 k))

-- `q << k | r` is a sum where `r` fits `k` bits.
pub bit_or_disjoint : (k q r : ℕ) → r < 2 ^ k → bit_or (q * 2 ^ k) r ≡ q * 2 ^ k + r
bit_or_disjoint zero q r h = ground (arith, bit_or-zero q)
bit_or_disjoint (suc k) q r h = ground (
  arith,
  bit_or_halves (q * 2 ^ suc k) r,
  double_field q k,
  pow-suc 2 k,
  bit_or_disjoint k q (r / 2),
)

pub bit_and_field : (k q r : ℕ) → r < 2 ^ k → bit_and (q * 2 ^ k + r) (2 ^ k - 1) ≡ r
bit_and_field zero q r h = rw bit_and-zero (omega arith)
bit_and_field (suc k) q r h = ground (
  arith,
  bit_and_halves (q * 2 ^ suc k + r) (2 ^ suc k - 1),
  double_field q k,
  pow-suc 2 k,
  one-le-pow k 2,
  bit_and_field k q (r / 2),
)

-- `a & (2^k - 1)` is the remainder by `2^k`.
pub bit_and_mask : (k a : ℕ) → bit_and a (2 ^ k - 1) ≡ a % 2 ^ k
bit_and_mask k a = ground (arith, one-le-pow k 2, bit_and_field k (a / 2 ^ k) (a % 2 ^ k))

pub bit_and_mask_lt : (k a : ℕ) → a < 2 ^ k → bit_and a (2 ^ k - 1) ≡ a
bit_and_mask_lt k a h = bit_and_mask k a ∙ mod-eq_of_lt h

-- Checking all values below a bound by evaluation.
agrees_below : ℕ → (ℕ → ℕ) → (ℕ → ℕ) → Bool
agrees_below zero f g = true
agrees_below (suc n) f g = f n == g n && agrees_below n f g

agrees_below_sound : (n : ℕ) (f g : ℕ → ℕ) → agrees_below n f g ≡ true → (x : ℕ) → x < n → f x ≡ g x
unfolding agrees_below
agrees_below_sound zero f g h x lt = absurd (omega arith)
agrees_below_sound (suc n) f g h x lt = ground (arith, agrees_below_sound n f g (ground arith) x)

-- The tests of one bit of a byte, and the setting of its top bit.
pub bit_seven : (b : ℕ) → b < 256 → bit_and b 0x80 ≡ b / 128 * 128
unfolding agrees_below
bit_seven = agrees_below_sound 256 _ _ refl

pub bit_six : (b : ℕ) → b < 256 → bit_and b 0x40 ≡ b / 64 % 2 * 64
unfolding agrees_below
bit_six = agrees_below_sound 256 _ _ refl

pub bit_five : (b : ℕ) → b < 256 → bit_and b 0x20 ≡ b / 32 % 2 * 32
unfolding agrees_below
bit_five = agrees_below_sound 256 _ _ refl

pub set_bit_seven : (b : ℕ) → b < 128 → bit_or b 0x80 ≡ b + 128
unfolding agrees_below
set_bit_seven = agrees_below_sound 128 _ _ refl

-- The masks `0xFF >> (8 - k)`.
pub ones_of_byte : (k : ℕ) → k ≤ 8 → 0xff / 2 ^ (8 - k) ≡ 2 ^ k - 1
unfolding agrees_below
ones_of_byte k h =
    agrees_below_sound 9 (λ k. 0xff / 2 ^ (8 - k)) (λ k. 2 ^ k - 1) refl k (omega arith)

-- The field above `k` bits.
pub shr_field : (k q r : ℕ) → r < 2 ^ k → (q * 2 ^ k + r) / 2 ^ k ≡ q
shr_field k q r h = grind (arith, one-le-pow)

-- The bit above `k` bits, alone.
pub bit_and_top_set : (k r : ℕ) → r < 2 ^ k → bit_and (2 ^ k + r) (2 ^ k) ≡ 2 ^ k
bit_and_top_set zero r h = let e : 2 ^ 0 + r ≡ 1 = omega arith in rw e refl
bit_and_top_set (suc k) r h =
    let m = 2 ^ k in
    let a : (2 ^ suc k + r) / 2 ≡ m + r / 2 = omega arith in
    let b : 2 ^ suc k / 2 ≡ m = omega arith in
    let c : 2 ^ suc k % 2 ≡ 0 = omega arith in
    bit_and_halves (2 ^ suc k + r) (2 ^ suc k)
    ∙ rw (a, b, c, bit_and_top_set k (r / 2) (omega arith)) (omega arith)

pub bit_and_top_clear : (k r : ℕ) → r < 2 ^ k → bit_and r (2 ^ k) ≡ 0
bit_and_top_clear zero r h = let e : r ≡ 0 = omega arith in rw e refl
bit_and_top_clear (suc k) r h =
    let m = 2 ^ k in
    let b : 2 ^ suc k / 2 ≡ m = omega arith in
    let c : 2 ^ suc k % 2 ≡ 0 = omega arith in
    bit_and_halves r (2 ^ suc k)
    ∙ rw (b, c, bit_and_top_clear k (r / 2) (omega arith)) (omega arith)
