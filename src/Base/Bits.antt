-- ===== src/Base/Bits.antt =====
-- `|` of a low field and a field above it is their sum.
use Prim.Native.Nat.{
  ℕ, zero, suc, ◌+◌, ◌-◌, ◌*◌, ◌/◌, ◌%◌, ◌^◌, ◌≤◌, ◌<◌, max, bit_or, digits, bit_or-bitwise,
}
use mathlib.Core.Path.{◌≡◌, refl, ap}
use native.Mathlib.Nat.{pow-suc}
use native.Mathlib.Omega.{arith}

abbrev or_digits : ℕ → ℕ → ℕ → ℕ
or_digits fuel low high = digits (λ rest. rest) max fuel low high

no_low_digits : (fuel high : ℕ) → or_digits fuel 0 high ≡ high
no_low_digits zero high = refl
no_low_digits (suc fuel) high = refl

-- Fuel beyond the first number changes nothing.
or_digits-spare :
    (fuel spare low high : ℕ)
    → low ≤ fuel
    → or_digits (fuel + spare) low high ≡ or_digits fuel low high
or_digits-spare zero spare zero high enough = no_low_digits (0 + spare) high
or_digits-spare zero spare (suc low) high enough = absurd (omega arith)
or_digits-spare (suc fuel) spare zero high enough = no_low_digits (suc fuel + spare) high
or_digits-spare (suc fuel) spare (suc low) high enough =
    let more : suc fuel + spare ≡ suc (fuel + spare) = omega arith in
    rw (more, or_digits-spare fuel spare (suc low / 2) (high / 2) (omega arith)) refl

or_first_digit :
    (low high : ℕ) → bit_or low high ≡ bit_or (low / 2) (high / 2) * 2 + max (low % 2) (high % 2)
or_first_digit zero high = omega (arith, bit_or-bitwise 0 high, bit_or-bitwise 0 (high / 2))
or_first_digit (suc low) high =
    let spare : suc low / 2 + (low - suc low / 2) ≡ low = omega arith in
    omega (
      arith,
      bit_or-bitwise (suc low) high,
      bit_or-bitwise (suc low / 2) (high / 2),
      or_digits-spare (suc low / 2) (low - suc low / 2) (suc low / 2) (high / 2) (omega arith),
      ap (λ (n : ℕ). or_digits n (suc low / 2) (high / 2)) spare,
    )

pub bit_or-eq-add : (k low q : ℕ) → low < 2 ^ k → bit_or low (q * 2 ^ k) ≡ low + q * 2 ^ k
bit_or-eq-add zero zero q h = omega (arith, bit_or-bitwise 0 (q * 2 ^ 0))
bit_or-eq-add zero (suc low) q h = absurd (omega arith)
bit_or-eq-add (suc k) low q h = ground (
  arith,
  or_first_digit low (q * 2 ^ suc k),
  ap (λ (n : ℕ). q * n) (pow-suc 2 k),
  pow-suc 2 k,
  bit_or-eq-add k (low / 2) q,
)
