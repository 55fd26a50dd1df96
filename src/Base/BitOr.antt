-- ===== src/Base/BitOr.antt =====
-- `bit_or` of the native numbers at a field of zero bits.
use Prim.Native.Nat.{
  ℕ, zero, suc, ◌+◌, ◌*◌, ◌/◌, ◌%◌, ◌^◌, ◌≤◌, ◌<◌, max, bit_or, digits, bit_or-bitwise,
}
use mathlib.Core.Path.{◌≡◌, refl, sym, ◌∙◌, ap₂}
use native.Mathlib.Omega.{arith}

abbrev or_digits : ℕ → ℕ → ℕ → ℕ
or_digits n a b = digits (λ b. b) max n a b

or_digits_fuel : (n m a b : ℕ) → a ≤ n → a ≤ m → or_digits n a b ≡ or_digits m a b
or_digits_fuel zero zero a b p q = refl
or_digits_fuel zero (suc m) zero b p q = refl
or_digits_fuel zero (suc m) (suc a) b p q = absurd (omega arith)
or_digits_fuel (suc n) zero zero b p q = refl
or_digits_fuel (suc n) zero (suc a) b p q = absurd (omega arith)
or_digits_fuel (suc n) (suc m) zero b p q = refl
or_digits_fuel (suc n) (suc m) (suc a) b p q =
    omega (arith, or_digits_fuel n m (suc a / 2) (b / 2) (omega arith) (omega arith))

pub zero-bit_or : (b : ℕ) → bit_or 0 b ≡ b
zero-bit_or b = bit_or-bitwise 0 b

pub bit_or_step : (a b : ℕ) → bit_or a b ≡ bit_or (a / 2) (b / 2) * 2 + max (a % 2) (b % 2)
bit_or_step zero b = omega (arith, zero-bit_or b, zero-bit_or (b / 2))
bit_or_step (suc a) b = omega (
  arith,
  bit_or-bitwise (suc a) b,
  bit_or-bitwise (suc a / 2) (b / 2),
  or_digits_fuel a (suc a / 2) (suc a / 2) (b / 2) (omega arith) (omega arith),
)

bit_or-zero_fuel : (n a : ℕ) → a ≤ n → bit_or a 0 ≡ a
bit_or-zero_fuel n zero h = zero-bit_or 0
bit_or-zero_fuel zero (suc a) h = absurd (omega arith)
bit_or-zero_fuel (suc n) (suc a) h =
    omega (arith, bit_or_step (suc a) 0, bit_or-zero_fuel n (suc a / 2) (omega arith))

pub bit_or-zero : (a : ℕ) → bit_or a 0 ≡ a
bit_or-zero a = bit_or-zero_fuel a a (omega arith)

half_bit_or : (a b : ℕ) → bit_or a b / 2 ≡ bit_or (a / 2) (b / 2)
half_bit_or a b = omega (arith, bit_or_step a b)

halves : ℕ → ℕ → ℕ
halves zero x = x
halves (suc k) x = halves k (x / 2)

halves-bit_or : (k a b : ℕ) → halves k (bit_or a b) ≡ bit_or (halves k a) (halves k b)
unfolding halves
halves-bit_or zero a b = refl
halves-bit_or (suc k) a b = rw half_bit_or (halves-bit_or k (a / 2) (b / 2))

halves_ten : (x : ℕ) → halves 10 x ≡ x / 2 ^ 10
unfolding halves
halves_ten x = omega arith

-- Ten low bits do not reach the rest.
pub bit_or-div : (a b : ℕ) → b < 2 ^ 10 → bit_or a b / 2 ^ 10 ≡ a / 2 ^ 10
bit_or-div a b h =
    sym (halves_ten (bit_or a b))
    ∙ halves-bit_or 10 a b
    ∙ ap₂ bit_or (halves_ten a) (halves_ten b ∙ omega arith)
    ∙ bit_or-zero (a / 2 ^ 10)

pub bit_or-one : (a : ℕ) → bit_or a 1 % 2 ≡ 1
bit_or-one a = omega (arith, bit_or_step a 1)
