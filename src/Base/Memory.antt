-- ===== src/Base/Memory.antt =====
-- Byte-addressed memory as a function from addresses, and what lies in it.
use Prim.Native.Nat.{ℕ, suc, ◌+◌, ◌<◌, ◌≤◌}
use mathlib.Core.Path.{◌≡◌}
use mathlib.Core.Logic.{◌≢◌, ◌⊎◌}
use mathlib.Core.List.{List, [], ◌∷◌}
use zynex_os.Base.Tests.{◌==◌, if◌then◌else◌}

abbrev pub Mem : Type 0
Mem = ℕ → ℕ

abbrev pub write : Mem → ℕ → ℕ → Mem
write m a v x = if x == a then v else m x

-- The bytes `s` lie at `p`, none of them zero, and a zero byte follows.
abbrev pub IsString : Mem → ℕ → List ℕ → Type 0
IsString m p [] = m p ≡ 0
IsString m p (c ∷ s) = (m p ≡ c) × (c ≢ 0) × IsString m (suc p) s

-- `x` is none of the `n` addresses from `p` on.
abbrev pub Outside : ℕ → ℕ → ℕ → Type 0
Outside p n x = (x < p) ⊎ (p + n ≤ x)
