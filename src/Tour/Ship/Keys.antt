-- ===== src/Tour/Ship/Keys.antt =====
-- The keys under which the ships' tours are in the store of their agent.
use bay_server_python.Prelude.{ℕ, ◌+◌, ◌*◌, ◌-◌, ◌<◌, ◌≡◌, sym, ap, ◌∙◌, arith}
use bay_server_python.Prelude.Bits.{bit_or_disjoint, bit_and_mask_lt}
use bay_server_python.Tour.State.{Key, plain, minus}
use bay_server_python.Tour.Ship.{uniq_key, low_bits}

uniq_key-plain : (a k : ℕ) → k < 4294967296 → uniq_key a (plain k) ≡ a * 4294967296 + k
unfolding uniq_key
uniq_key-plain a k h = rw (bit_and_mask_lt 32 k h) (bit_or_disjoint 32 a k h)

uniq_key-minus :
    (a k : ℕ) → 0 < k → k < 2147483648 → uniq_key a (minus k) ≡ a * 4294967296 + (4294967296 - k)
unfolding uniq_key
uniq_key-minus a k p h =
    let e : low_bits (minus k) ≡ 4294967296 - k = omega (arith, p, h) in
    rw e (bit_or_disjoint 32 a (4294967296 - k) (omega (arith, p, h)))

-- Keys as the ships make them: with 31 bits, and the error tours' keys negative.
abbrev pub IsSmall : Key → Type 0
IsSmall (plain k) = k < 2147483648
IsSmall (minus k) = (0 < k) × (k < 2147483648)

-- The low half of the key: the plain keys lie below 2^31, the negative ones above.
low_half : Key → ℕ
low_half (plain k) = k
low_half (minus k) = 4294967296 - k

low_half_lt : (k : Key) → IsSmall k → low_half k < 4294967296
unfolding low_half
low_half_lt (plain k) h = omega (arith, h)
low_half_lt (minus k) h = omega (arith, h.0)

uniq_key-eq : (a : ℕ) (k : Key) → IsSmall k → uniq_key a k ≡ a * 4294967296 + low_half k
unfolding low_half
uniq_key-eq a (plain k) h = uniq_key-plain a k (omega (arith, h))
uniq_key-eq a (minus k) h = uniq_key-minus a k h.0 h.1

low_half-injective : (k l : Key) → IsSmall k → IsSmall l → low_half k ≡ low_half l → k ≡ l
unfolding low_half
low_half-injective (plain k) (plain l) hk hl e = ap plain e
low_half-injective (plain k) (minus l) hk hl e = absurd (omega (arith, hk, hl.1, e))
low_half-injective (minus k) (plain l) hk hl e = absurd (omega (arith, hk.1, hl, e))
low_half-injective (minus k) (minus l) hk hl e = ap minus (omega (arith, hk.1, hl.1, e))

-- Keys with 31 bits, those of tours and the negative ones of error tours: where two keys of the store are
-- equal, they are of one ship and for one key of a tour; so neither two ships, nor two tours of a ship, nor
-- an error tour and a tour or another error tour, share a key of the store.
pub uniq_key-injective :
    (a b : ℕ) (k l : Key) → IsSmall k → IsSmall l → uniq_key a k ≡ uniq_key b l → (a ≡ b) × (k ≡ l)
uniq_key-injective a b k l hk hl e =
    let same : a * 4294967296 + low_half k ≡ b * 4294967296 + low_half l =
      sym (uniq_key-eq a k hk) ∙ e ∙ uniq_key-eq b l hl in
    let low = low_half_lt k hk in
    let low' = low_half_lt l hl in
    (omega (arith, same, low, low'), low_half-injective k l hk hl (omega (arith, same, low, low')))
