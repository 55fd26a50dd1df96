-- ===== src/Kern/Syscall/Ipc.antt =====
-- Message passing in kern/riscv/syscall.c: sys_ipc_try_send and sys_ipc_recv.
pub mod Message
use zynex_os.Base.{
  ℕ, ◌+◌, ◌%◌, Bool, true, false, not, ◌&&◌, Option, none, some, ltb, ◌==◌, ◌!=◌, if◌then◌else◌,
}
use zynex_os.Kern.Pages.{
  Lookup, unmapped, mapped, Inserted, inserted, no_mem, page_insert, page_lookup, read_word,
}
use zynex_os.Kern.Env.{Env, Kernel, Status, not_runnable, runnable, set_env}
use zynex_os.Kern.Sched.{sched_yield}
use zynex_os.Kern.Syscall.{
  Errno, e_bad_env, e_inval, e_no_mem, e_ipc_not_recv, Sys, value, fails, panics, leaves, utop,
  pgsize, bad_perm, is_writable, with_env, with_some,
}
use zynex_os.Kern.Syscall.Page.{set_pages, map_page}

-- The receiver's fields after a message: `sepc` steps over its `ecall`, and the call returns 0.
pub received : Env → (from message perm : ℕ) → Env
received e from message perm = record e {
  ipc_from = from;
  ipc_value = message;
  ipc_perm = perm;
  tf = record (e.tf) { a0 = 0; sepc = e.tf.sepc + 4 };
  status = runnable;
  ipc_recving = false;
}

-- Steps 3 and 4 of the call.
pub deliver : Kernel → (c i message perm : ℕ) → Sys
unfolding received
deliver k c i message perm = value 0 (set_env k i (received (k.envs i) (k.envs c).id message perm))

-- Step 2 with `srcva < UTOP`, and then the rest. The page goes to the receiver's `env_ipc_dstva`,
-- whatever that is.
pub send_page : Kernel → (c i message srcva perm : ℕ) → Sys
unfolding deliver
send_page k c i message srcva perm =
    if srcva % pgsize != 0
    then fails e_inval k
    else if bad_perm perm
    then fails e_inval k
    else with_some (k.envs c).pgdir λ src. with_some (k.envs i).pgdir λ dst.
      elim (map_page k src dst srcva (k.envs i).ipc_dstva perm) [
        | value _ k' ↦ deliver k' c i message perm
        | fails e k' ↦ fails e k'
        | panics ↦ panics
        | leaves out ↦ leaves out
      ]

pub sys_ipc_try_send : Kernel → (envid message srcva perm : ℕ) → Sys
unfolding deliver send_page
sys_ipc_try_send k envid message srcva perm = with_env k envid false λ i.
    if not (k.envs i).ipc_recving
    then fails e_ipc_not_recv k
    else with_some k.cur
        λ c. if ltb srcva utop then send_page k c i message srcva perm else deliver k c i message 0

-- The environment waits: the call gives up the CPU, and comes back by a message.
abbrev pub wait : Kernel → ℕ → Kernel
wait k c = set_env k c (record (k.envs c) { status = not_runnable })

pub sys_ipc_recv : (cpu : ℕ) → Kernel → ℕ → Sys
sys_ipc_recv cpu k dstva = with_some k.cur λ c.
    let e = k.envs c in
    if e.ipc_recving
    then leaves (sched_yield cpu (wait k c))
    else if ltb dstva utop && dstva % pgsize != 0
    then fails e_inval k
    else let dst = if ltb dstva utop then dstva else e.ipc_dstva in
      let e' = record e { ipc_dstva = dst; ipc_recving = true; status = not_runnable } in
      leaves (sched_yield cpu (set_env k c e'))
