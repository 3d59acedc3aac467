-- ===== src/Http2/Flags/Laws.antt =====
-- The flags of a frame do not disturb each other.
use bay_server_python.Prelude.{
  ℕ, zero, suc, ◌^◌, ◌<◌, ◌≡◌, refl, ◌==◌, if◌then◌else◌, Bool, true, false, not, ◌&&◌, arith,
}
use bay_server_python.Http2.Flags.{has_flag, set_flag}

-- A test of all numbers below a bound.
all_below : ℕ → (ℕ → Bool) → Bool
all_below zero p = true
all_below (suc n) p = p n && all_below n p

all_below_sound : (n : ℕ) (p : ℕ → Bool) → all_below n p ≡ true → (x : ℕ) → x < n → p x ≡ true
unfolding all_below
all_below_sound zero p h x lt = absurd (omega (arith, lt))
all_below_sound (suc n) p h x lt = ground (arith, h, all_below_sound n p (ground (arith, h)) x)

abbrev same : Bool → Bool → Bool
same true b = b
same false b = not b

same_sound : (a b : Bool) → same a b ≡ true → a ≡ b
same_sound true true h = refl
same_sound true false h = absurd (cc h)
same_sound false true h = absurd (cc h)
same_sound false false h = refl

abbrev agrees : Bool → ℕ → ℕ → ℕ → Bool
agrees val f g flags =
    same (has_flag (set_flag (2 ^ f) val flags) (2 ^ g))
      (if f == g then val else has_flag flags (2 ^ g))

abbrev agree : Bool → Bool
agree val = all_below 8 (λ f. all_below 8 (λ g. all_below 256 (λ flags. agrees val f g flags)))

all_agree : (val : Bool) → agree val ≡ true
unfolding all_below has_flag set_flag
all_agree true = refl
all_agree false = refl

-- Setting one of the eight flags of a frame to a value makes this flag the value, and leaves every other
-- flag as it was.
pub set_flag-has_flag :
    (val : Bool) (f g flags : ℕ)
    → f < 8
    → g < 8
    → flags < 256
    → has_flag (set_flag (2 ^ f) val flags) (2 ^ g)
      ≡ (if f == g then val else has_flag flags (2 ^ g))
set_flag-has_flag val f g flags hf hg h =
    let at_f =
      all_below_sound 8 (λ f. all_below 8 (λ g. all_below 256 (agrees val f g))) (all_agree val) f
        hf in
    let at_g = all_below_sound 8 (λ g. all_below 256 (agrees val f g)) at_f g hg in
    same_sound _ _ (all_below_sound 256 (agrees val f g) at_g flags h)
