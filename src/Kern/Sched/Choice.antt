-- ===== src/Kern/Sched/Choice.antt =====
-- Which environment sched_yield of kern/riscv/sched.c runs, and what env_run does to the statuses.
use zynex_os.Base.{
  ℕ, zero, suc, ◌+◌, ◌-◌, ◌%◌, ◌≤◌, ◌<◌, ◌≡◌, subst, ◌⊎◌, inl, inr, true, false, Option, none, some,
  arith, ◌==◌, Bool-cases, Option-cases,
}
use native.Mathlib.Decide.{dec_lt}
use zynex_os.Kern.Env.{Env, Kernel, nenv, is_runnable, is_running, env_run, env_run_leave}
use zynex_os.Kern.Sched.{
  Outcome, runs, halts, monitors, find_runnable, any_live, sched_halt, sched_yield,
}

abbrev pub Runnable : (ℕ → Env) → ℕ → Type 0
Runnable envs i = is_runnable (envs i).status ≡ true

abbrev pub NotRunnable : (ℕ → Env) → ℕ → Type 0
NotRunnable envs i = is_runnable (envs i).status ≡ false

-- What a search of `n` environments from `i` on has found.
record Search (n : ℕ) (envs : ℕ → Env) (i : ℕ) (o : Option ℕ) : Type 0 where
  pub hit :
      (j : ℕ)
      → o ≡ some j
      → (i ≤ j) × (j < i + n) × Runnable envs j × ((x : ℕ) → i ≤ x → x < j → NotRunnable envs x)
  pub miss : o ≡ none → (x : ℕ) → i ≤ x → x < i + n → NotRunnable envs x

-- To prove a statement from `i` on, prove it at `i` and beyond.
from_first :
    (P : ℕ → Type 0) (i m : ℕ)
    → P i
    → ((x : ℕ) → suc i ≤ x → x < m → P x)
    → (x : ℕ) → i ≤ x
    → x < m
    → P x
from_first P i m first later x lo hi = elim (Bool-cases (x == i)) [
  | inl e ↦ subst P (eq e) first
  | inr ne ↦ later x (ground arith) hi
]
  where
    eq : (x == i) ≡ true → i ≡ x
    eq e = ground arith

find_runnable-Search : (n : ℕ) (envs : ℕ → Env) (i : ℕ) → Search n envs i (find_runnable n envs i)
unfolding find_runnable
find_runnable-Search zero envs i = record {
  hit = λ j h. cc;
  miss = λ h x lo hi. absurd (omega arith);
}
find_runnable-Search (suc n) envs i = elim (Bool-cases (is_runnable (envs i).status)) [
  | inl r ↦ rw r (record {
    hit = λ j h.
        let e : i ≡ j = ground arith in
        (omega arith, omega arith, subst (Runnable envs) e r, λ x lo hi. absurd (omega arith));
    miss = λ h x lo hi. cc;
  })
  | inr r ↦ rw r (record {
    hit = λ j h.
        let (lo, hi, found, before) = (find_runnable-Search n envs (suc i)).hit j h in
        (omega arith, omega arith, found, from_first (NotRunnable envs) i j r before);
    miss = λ h x lo hi.
        from_first (NotRunnable envs) i (i + suc n) r
          (λ y a b. (find_runnable-Search n envs (suc i)).miss h y a (omega arith)) x lo hi;
  })
]

-- How far `x` lies behind `c`, going round the table.
abbrev pub distance : ℕ → ℕ → ℕ
distance c x = (x + nenv - c) % nenv

-- `j` is the first runnable environment, going round the table from `c` on.
pub record IsNext (envs : ℕ → Env) (c j : ℕ) : Type 0 where
  pub in_table : j < nenv
  pub runnable_here : Runnable envs j
  pub first : (x : ℕ) → x < nenv → distance c x < distance c j → NotRunnable envs x

abbrev pub NoneRunnable : (ℕ → Env) → Type 0
NoneRunnable envs = (x : ℕ) → x < nenv → NotRunnable envs x

-- What sched_yield decides with a current environment `c`.
abbrev pub Decision : ℕ → Kernel → ℕ → Outcome → Type 0
Decision cpu k c out =
    ((j : ℕ) × IsNext k.envs c j × (out ≡ runs (env_run cpu k j)))
    ⊎ (NoneRunnable k.envs
        × ((is_running (k.envs c).status ≡ true) × (out ≡ runs (env_run cpu k c))
            ⊎ (is_running (k.envs c).status ≡ false) × (out ≡ sched_halt k)))

-- sched_yield with a current environment `c`: it runs the first runnable environment, going round
-- the table from `c` on, `c` itself first; if none is runnable it runs `c` again if that is running; else it halts.
pub sched_yield-Decision :
    (cpu : ℕ) (k : Kernel) (c : ℕ)
    → k.cur ≡ some c
    → c < nenv
    → Decision cpu k c (sched_yield cpu k)
unfolding sched_yield
sched_yield-Decision cpu k c cur small =
    let up = find_runnable-Search (nenv - c) k.envs c in
    let down = find_runnable-Search c k.envs 0 in
    elim (Option-cases (find_runnable (nenv - c) k.envs c)) [
      | inr (j, e) ↦
          let (lo, hi, found, before) = up.hit j e in
          inl (
            j,
            record {
              in_table = omega arith;
              runnable_here = found;
              first = λ x hx d. before x (omega arith) (omega arith);
            },
            ground (arith, cur, e),
          )
      | inl e ↦ elim (Option-cases (find_runnable c k.envs 0)) [
        | inr (j, e') ↦
            let (lo, hi, found, before) = down.hit j e' in
            inl (
              j,
              record {
                in_table = omega arith;
                runnable_here = found;
                first = λ x hx d. elim (dec_lt x c) [
                  | yes below ↦ before x (omega arith) (omega arith)
                  | no above ↦ up.miss e x (omega arith) (omega arith)
                ];
              },
              ground (arith, cur, e, e'),
            )
        | inl e' ↦ inr (
          λ x hx. elim (dec_lt x c) [
            | yes below ↦ down.miss e' x (omega arith) (omega arith)
            | no above ↦ up.miss e x (omega arith) (omega arith)
          ],
          elim (Bool-cases (is_running (k.envs c).status)) [
            | inl r ↦ inl (r, ground (arith, cur, e, e', r))
            | inr r ↦ inr (r, ground (arith, cur, e, e', r))
          ],
        )
      ]
    ]

-- On a single CPU: no environment is running but the current one.
abbrev pub OneRunning : Kernel → Type 0
OneRunning k = (j : ℕ) → is_running (k.envs j).status ≡ true → k.cur ≡ some j

-- `P` holds of the state with which the kernel leaves.
abbrev pub After {ℓ} : (Kernel → Type ℓ) → Outcome → Type ℓ
After P (runs k) = P k
After P (halts k) = P k
After P (monitors k) = P k

env_run_leave-none :
    (k : Kernel) → OneRunning k → (j : ℕ) → is_running ((env_run_leave k).envs j).status ≡ false
unfolding env_run_leave
env_run_leave-none k one j = elim (Option-cases k.cur) [
  | inl e ↦ ground (arith, e, one j)
  | inr (c, e) ↦ ground (arith, e, one j)
]

env_run-OneRunning :
    (cpu : ℕ) (k : Kernel) (i : ℕ)
    → OneRunning k
    → OneRunning (env_run cpu k i) × (is_running ((env_run cpu k i).envs i).status ≡ true)
unfolding env_run
env_run-OneRunning cpu k i one = (λ j h. ground (arith, env_run_leave-none k one j), ground arith)

sched_halt-OneRunning :
    (k : Kernel)
    → ((j : ℕ) → is_running (k.envs j).status ≡ false)
    → After OneRunning (sched_halt k)
unfolding sched_halt
sched_halt-OneRunning k idle = elim (Bool-cases (any_live nenv k.envs 0)) [
  | inl e ↦ rw e (λ j h. absurd (ground (arith, idle j)))
  | inr e ↦ rw e (λ j h. absurd (ground (arith, idle j)))
]

-- On one CPU, where no environment but the current one is running, sched_yield keeps that, whether
-- it runs an environment, halts or drops into the monitor.
pub sched_yield-OneRunning :
    (cpu : ℕ) (k : Kernel) (c : ℕ)
    → k.cur ≡ some c
    → c < nenv
    → OneRunning k
    → After OneRunning (sched_yield cpu k)
sched_yield-OneRunning cpu k c cur small one = elim (sched_yield-Decision cpu k c cur small) [
  | inl (j, next, e) ↦ rw e ((env_run-OneRunning cpu k j one).0)
  | inr (none_runnable, inl (r, e)) ↦ rw e ((env_run-OneRunning cpu k c one).0)
  | inr (none_runnable, inr (r, e)) ↦ rw e (sched_halt-OneRunning k (λ j. idle r j))
]
  where
    idle : is_running (k.envs c).status ≡ false → (j : ℕ) → is_running (k.envs j).status ≡ false
    idle r j = elim (Bool-cases (is_running (k.envs j).status)) [
      | inl h ↦ ground (arith, one j h)
      | inr h ↦ h
    ]
