-- ===== src/Base/Bits.antt =====
-- Single bits of a word: `w & (1 << k)`, `w |= 1 << k` and `w &= ~(1 << k)`, by recursion on `k`.
use Prim.Native.Nat.{ℕ, zero, suc, ◌+◌, ◌*◌, ◌/◌, ◌%◌}
use mathlib.Core.Path.{◌≡◌, refl, ap}
use mathlib.Core.Logic.{◌≢◌}
use mathlib.Core.Bool.{Bool, true, false}
use native.Mathlib.Omega.{arith}
use zynex_os.Base.Tests.{◌==◌}

unfoldable pub test_bit : ℕ → ℕ → Bool
test_bit w zero = w % 2 == 1
test_bit w (suc k) = test_bit (w / 2) k

unfoldable pub set_bit : ℕ → ℕ → ℕ
set_bit w zero = w / 2 * 2 + 1
set_bit w (suc k) = set_bit (w / 2) k * 2 + w % 2

unfoldable pub clear_bit : ℕ → ℕ → ℕ
clear_bit w zero = w / 2 * 2
clear_bit w (suc k) = clear_bit (w / 2) k * 2 + w % 2

half_double_add : (a b : ℕ) → (a * 2 + b % 2) / 2 ≡ a
half_double_add a b = omega arith

pub test_bit-set_bit : (w k : ℕ) → test_bit (set_bit w k) k ≡ true
unfolding test_bit set_bit
test_bit-set_bit w zero = ground arith
test_bit-set_bit w (suc k) = rw half_double_add (test_bit-set_bit (w / 2) k)

pub test_bit-clear_bit : (w k : ℕ) → test_bit (clear_bit w k) k ≡ false
unfolding test_bit clear_bit
test_bit-clear_bit w zero = ground arith
test_bit-clear_bit w (suc k) = rw half_double_add (test_bit-clear_bit (w / 2) k)

pub test_bit-set_bit_ne : (w k j : ℕ) → k ≢ j → test_bit (set_bit w k) j ≡ test_bit w j
unfolding test_bit set_bit
test_bit-set_bit_ne w zero zero h = absurd (h refl)
test_bit-set_bit_ne w zero (suc j) h = ap (λ v. test_bit v j) (omega arith)
test_bit-set_bit_ne w (suc k) zero h = ground arith
test_bit-set_bit_ne w (suc k) (suc j) h =
    rw half_double_add (test_bit-set_bit_ne (w / 2) k j (λ e. h (ap suc e)))

pub test_bit-clear_bit_ne : (w k j : ℕ) → k ≢ j → test_bit (clear_bit w k) j ≡ test_bit w j
unfolding test_bit clear_bit
test_bit-clear_bit_ne w zero zero h = absurd (h refl)
test_bit-clear_bit_ne w zero (suc j) h = ap (λ v. test_bit v j) (omega arith)
test_bit-clear_bit_ne w (suc k) zero h = ground arith
test_bit-clear_bit_ne w (suc k) (suc j) h =
    rw half_double_add (test_bit-clear_bit_ne (w / 2) k j (λ e. h (ap suc e)))
