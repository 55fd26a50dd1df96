-- ===== src/Kern/Lock.antt =====
-- kern/riscv/spinlock.c, as several CPUs run it at once, and kern/riscv/time.c.
-- A step is one atomic access of `locked`. The debugging fields are left out.
pub mod Exclusion
pub mod Time
mod Tests
use zynex_os.Base.{ℕ, zero, suc, Bool, true, false, ◌≡◌, ◌==◌, if◌then◌else◌}

-- Where a CPU stands: outside, in the loop of spin_lock, past it, in spin_unlock.
pub data Place : Type 0 where
  outside spinning inside leaving : Place

pub record Cpus : Type 0 where
  pub locked : ℕ
  pub place : ℕ → Place

abbrev pub at_place : Cpus → ℕ → Place → Cpus
at_place s c p = record s { place = λ i. if i == c then p else s.place i }

-- `atomic_raw_xchg(&lk->locked, value)`: the old value, and the lock after it.
abbrev pub xchg : Cpus → ℕ → ℕ × Cpus
xchg s value = (s.locked, record s { locked = value })

-- `__spin_initlock`, with all CPUs outside.
abbrev pub spin_initlock : Cpus
spin_initlock = record { locked = 0; place = λ _. outside }

-- One round of `while (atomic_raw_xchg(&lk->locked, 1) != 0)`.
pub spin_lock_round : Cpus → ℕ → Cpus
spin_lock_round s c = let (old, s') = xchg s 1 in if old == 0 then at_place s' c inside else s'

pub spin_unlock : Cpus → ℕ → Cpus
spin_unlock s c = let (old, s') = xchg s 0 in at_place s' c outside

pub data Step (s : Cpus) : Cpus → Type 0 where
  call_lock : (c : ℕ) → s.place c ≡ outside → Step s (at_place s c spinning)
  round : (c : ℕ) → s.place c ≡ spinning → Step s (spin_lock_round s c)
  call_unlock : (c : ℕ) → s.place c ≡ inside → Step s (at_place s c leaving)
  unlock : (c : ℕ) → s.place c ≡ leaving → Step s (spin_unlock s c)

pub data Reach : Cpus → Type 0 where
  start : Reach spin_initlock
  later : {s t : Cpus} → Reach s → Step s t → Reach t
