-- ===== src/Kern/Syscall.antt =====
-- kern/riscv/syscall.c: the calls that create and control environments, map pages, and send messages.
-- Environment ids, addresses and permissions are the numbers that the registers hold. The calls on
-- devices, time and interrupts are not modelled.
pub mod Control
pub mod Page
pub mod Ipc
mod Tests
use Prim.Native.Nat.{bit_and}
use zynex_os.Base.{
  ℕ, zero, suc, ◌+◌, ◌-◌, ◌*◌, ◌/◌, ◌%◌, ◌^◌, Bool, true, false, not, ◌&&◌, ◌||◌, Option, none,
  some, ltb, leb, ◌==◌, ◌!=◌, if◌then◌else◌,
}
use zynex_os.Kern.Env.{
  Env, Kernel, Layout, Trapframe, Status, free, dying, runnable, running, not_runnable, Found,
  bad_env, found, envid2env, set_env, Alloc, allocated, no_free_env, no_mem, env_alloc,
}
use zynex_os.Kern.Sched.{Outcome, sched_yield, Destroyed, returns, yields, env_destroy}

pub data Errno : Type 0 where
  e_bad_env e_inval e_no_mem e_ipc_not_recv : Errno

-- How a call ends: it returns a value or the negated error, it panics or faults, or the kernel
-- leaves through the scheduler.
pub data Sys : Type 0 where
  value : ℕ → Kernel → Sys
  fails : Errno → Kernel → Sys
  panics : Sys
  leaves : Outcome → Sys

abbrev pub utop : ℕ
utop = 0xfffffd7ff0000000

abbrev pub pgsize : ℕ
pgsize = 4096

-- `PTE_SYSCALL`
abbrev pub pte_syscall : ℕ
pte_syscall = 0x31f

-- `(perm & ~PTE_SYSCALL) != 0` on an `int`
abbrev pub bad_perm : ℕ → Bool
bad_perm perm = bit_and perm (2 ^ 32 - 1 - pte_syscall) != 0

-- `x & PTE_W`
abbrev pub is_writable : ℕ → Bool
is_writable x = bit_and x 4 != 0

-- `va >= UTOP || va % PGSIZE != 0`
abbrev pub bad_va : ℕ → Bool
bad_va va = leb utop va || va % pgsize != 0

-- `if ((ret = envid2env(envid, &env, perm)) < 0) return -E_BAD_ENV;`. A NULL environment faults
-- where it is used.
abbrev pub with_env : Kernel → ℕ → Bool → (ℕ → Sys) → Sys
with_env k envid checkperm rest = elim (envid2env k envid checkperm) [
  | bad_env ↦ fails e_bad_env k
  | found o ↦ elim o [ none ↦ panics | some i ↦ rest i ]
]

abbrev pub with_some {ℓ} : {A : Type ℓ} → Option A → (A → Sys) → Sys
with_some none rest = panics
with_some (some a) rest = rest a

pub sys_getenvid : Kernel → Sys
sys_getenvid k = with_some k.cur λ c. value (k.envs c).id k

pub sys_yield : (cpu : ℕ) → Kernel → Sys
sys_yield cpu k = leaves (sched_yield cpu k)

pub sys_env_destroy : (cpu : ℕ) → Kernel → ℕ → Sys
sys_env_destroy cpu k envid = with_env k envid true λ i.
    with_some (env_destroy cpu k i)
      λ d. elim d [ returns k' ↦ value 0 k' | yields out ↦ leaves out ]

-- The child's fields, on what `env_alloc` left in `child`.
pub forked : Env → (parent : Env) → ℕ → Env
forked child parent i = record child {
  status = not_runnable;
  parent_id = parent.id;
  ipc_recving = false;
  tf = record (parent.tf) { a0 = 0; sepc = parent.tf.sepc + 4; tp = i };
  pgfault_upcall = parent.pgfault_upcall;
}

-- `sys_exofork` once `env_alloc` has answered; it panics on an error.
pub fork_from : (c : ℕ) → Alloc → Kernel → Sys
unfolding forked
fork_from c (allocated i) k = let e = forked (k.envs i) (k.envs c) i in value e.id (set_env k i e)
fork_from c no_free_env k = panics
fork_from c no_mem k = panics

pub sys_exofork : Layout → Kernel → Sys
unfolding fork_from
sys_exofork l k =
    with_some k.cur λ c. let (a, k') = env_alloc l k (k.envs c).parent_id in fork_from c a k'

-- The values of the enumeration in inc/riscv/env.h.
pub status_of_int : ℕ → Option Status
status_of_int n =
    if n == 0
    then some free
    else if n == 1
    then some dying
    else if n == 2
    then some runnable
    else if n == 3
    then some running
    else if n == 4
    then some not_runnable
    else none

abbrev pub is_settable : Status → Bool
is_settable runnable = true
is_settable not_runnable = true
is_settable _ = false

-- `status` is a 32-bit pattern: a negative one is no value of the enumeration either.
pub sys_env_set_status : Kernel → ℕ → ℕ → Sys
unfolding status_of_int
sys_env_set_status k envid status = elim (status_of_int status) [
  | none ↦ fails e_inval k
  | some st ↦ with_env k envid true λ i.
      if is_settable (k.envs i).status
      then value 0 (set_env k i (record (k.envs i) { status = st }))
      else fails e_inval k
]

pub sys_env_set_pgfault_upcall : Kernel → ℕ → ℕ → Sys
sys_env_set_pgfault_upcall k envid func = with_env k envid true λ i.
    if func == 0
    then fails e_inval k
    else value 0 (set_env k i (record (k.envs i) { pgfault_upcall = func }))

pub sys_env_set_trapframe : Kernel → ℕ → Trapframe → Sys
sys_env_set_trapframe k envid tf =
    with_env k envid true λ i. value 0 (set_env k i (record (k.envs i) { tf = tf }))
