-- ===== src/Kern/Lock/Time.antt =====
-- kern/riscv/time.c: the tick counter, an `unsigned int`.
use native.Mathlib.Decide.{dec_lt}
use zynex_os.Base.{
  ℕ, zero, suc, ◌+◌, ◌*◌, ◌%◌, ◌^◌, ◌<◌, ◌≤◌, ◌≡◌, refl, ◌∙◌, ap, Option, none, some, arith, ltb,
  if◌then◌else◌,
}

abbrev pub time_init : ℕ
time_init = 0

-- A panic is `none`.
pub time_tick : ℕ → Option ℕ
time_tick ticks =
    let ticks' = (ticks + 1) % 2 ^ 32 in
    if ltb (ticks' * 10 % 2 ^ 32) ticks' then none else some ticks'

pub time_msec : ℕ → ℕ
time_msec ticks = ticks * 10 % 2 ^ 32

abbrev and_tick : Option ℕ → Option ℕ
and_tick none = none
and_tick (some t) = time_tick t

-- `n` timer interrupts after time_init.
pub ticks_after : ℕ → Option ℕ
unfolding time_tick
ticks_after zero = some time_init
ticks_after (suc n) = and_tick (ticks_after n)

time_tick-some : (t : ℕ) → t < 429496729 → time_tick t ≡ some (suc t)
unfolding time_tick
time_tick-some t h = ground arith

ticks_after-some : (n : ℕ) → n ≤ 429496729 → ticks_after n ≡ some n
unfolding ticks_after
ticks_after-some zero h = refl
ticks_after-some (suc n) h =
    ap and_tick (ticks_after-some n (omega arith)) ∙ time_tick-some n (omega arith)

ticks_after-none : (n : ℕ) → 429496729 < n → ticks_after n ≡ none
unfolding ticks_after time_tick
ticks_after-none zero h = absurd (omega arith)
ticks_after-none (suc n) h = elim (dec_lt 429496729 n) [
  | yes lt ↦ ap and_tick (ticks_after-none n lt)
  | no ge ↦ ap and_tick (ticks_after-some n (omega arith)) ∙ ap time_tick (last ge) ∙ refl
]
  where
    last : ¬ (429496729 < n) → n ≡ 429496729
    last ge = omega (arith, ge, h)

-- time_tick counts every one of the first 429496729 timer interrupts, and time_msec answers ten
-- milliseconds for each; at the next one time_tick panics, so that no later time is ever answered
-- wrapped around.
pub ticks_after_lem :
    (n k : ℕ)
    → n ≤ 429496729
    → (ticks_after n ≡ some n) × (time_msec n ≡ n * 10) × (ticks_after (429496730 + k) ≡ none)
unfolding time_msec
ticks_after_lem n k h =
    (ticks_after-some n h, ground arith, ticks_after-none (429496730 + k) (omega arith))
