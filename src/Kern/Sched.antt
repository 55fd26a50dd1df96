-- ===== src/Kern/Sched.antt =====
-- kern/riscv/sched.c: the choice of the next environment, and env_destroy of kern/riscv/env.c, which
-- ends in it. The kernel is seen from the CPU `cpu`. None of these calls comes back once it runs an
-- environment, halts, or drops into the monitor: an outcome says which, with the state left.
pub mod Choice
mod Tests
use zynex_os.Base.{
  ℕ, zero, suc, ◌-◌, Bool, true, false, not, ◌&&◌, ◌||◌, Option, none, some, ◌==◌, if◌then◌else◌,
}
use zynex_os.Kern.Env.{
  Env, Kernel, Status, free, dying, runnable, running, not_runnable, nenv, is_runnable, is_running,
  is_cur, set_env, env_run, env_free,
}

pub data Outcome : Type 0 where
  runs : Kernel → Outcome
  halts : Kernel → Outcome
  monitors : Kernel → Outcome

-- The first runnable environment among `n` from `i` on.
pub find_runnable : ℕ → (ℕ → Env) → ℕ → Option ℕ
find_runnable zero envs i = none
find_runnable (suc n) envs i =
    let rest = find_runnable n envs (suc i) in if is_runnable (envs i).status then some i else rest

abbrev pub is_live : Status → Bool
is_live runnable = true
is_live running = true
is_live dying = true
is_live _ = false

-- Whether one of `n` environments from `i` on is runnable, running or dying.
pub any_live : ℕ → (ℕ → Env) → ℕ → Bool
any_live zero envs i = false
any_live (suc n) envs i = is_live (envs i).status || any_live n envs (suc i)

pub sched_halt : Kernel → Outcome
sched_halt k = if any_live nenv k.envs 0 then halts (record k { cur = none }) else monitors k

pub sched_yield : (cpu : ℕ) → Kernel → Outcome
unfolding sched_halt
sched_yield cpu k = elim k.cur [
  | none ↦ elim (find_runnable nenv k.envs 0) [
    | none ↦ sched_halt k
    | some i ↦ runs (env_run cpu k i)
  ]
  | some c ↦ elim (find_runnable (nenv - c) k.envs c) [
    | some i ↦ runs (env_run cpu k i)
    | none ↦ elim (find_runnable c k.envs 0) [
      | some i ↦ runs (env_run cpu k i)
      | none ↦ if is_running (k.envs c).status then runs (env_run cpu k c) else sched_halt k
    ]
  ]
]

-- `env_destroy` returns, or it destroyed the current environment and yields, or it panics (`none`).
pub data Destroyed : Type 0 where
  returns : Kernel → Destroyed
  yields : Outcome → Destroyed

pub env_destroy : (cpu : ℕ) → Kernel → ℕ → Option Destroyed
unfolding sched_yield
env_destroy cpu k i =
    if is_running (k.envs i).status && not (is_cur k i)
    then some (returns (set_env k i (record (k.envs i) { status = dying })))
    else elim (env_free k i) [
      | none ↦ none
      | some k' ↦
          if is_cur k' i
          then some (yields (sched_yield cpu (record k' { cur = none })))
          else some (returns k')
    ]
