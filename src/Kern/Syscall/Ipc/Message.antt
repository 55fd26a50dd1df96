-- ===== src/Kern/Syscall/Ipc/Message.antt =====
-- What a message of sys_ipc_try_send does, and when it is refused.
use zynex_os.Base.{ℕ, ◌+◌, ◌≤◌, ◌≡◌, ◌≢◌, refl, true, false, some, arith}
use zynex_os.Kern.Env.{Kernel, runnable, found, envid2env, set_env}
use zynex_os.Kern.Env.Ids.{envid2env_same}
use zynex_os.Kern.Syscall.{e_ipc_not_recv, value, fails, utop}
use zynex_os.Kern.Syscall.Ipc.{received, deliver, sys_ipc_try_send}

sys_ipc_try_send-deliver :
    (k : Kernel) (envid message srcva perm c i : ℕ)
    → k.cur ≡ some c
    → envid2env k envid false ≡ found (some i)
    → (k.envs i).ipc_recving ≡ true
    → utop ≤ srcva
    → sys_ipc_try_send k envid message srcva perm
      ≡ value 0 (set_env k i (received (k.envs i) (k.envs c).id message 0))
unfolding sys_ipc_try_send deliver
sys_ipc_try_send-deliver k envid message srcva perm c i cur f waiting none_sent = ground arith

-- An environment that accepts a message of value `message` from `sender`, without a page.
pub record Delivered (k : Kernel) (c i message : ℕ) (k' : Kernel) : Type 0 where
  pub message_value : (k'.envs i).ipc_value ≡ message
  pub sender : (k'.envs i).ipc_from ≡ (k.envs c).id
  pub no_page : (k'.envs i).ipc_perm ≡ 0
  pub woken : (k'.envs i).status ≡ runnable
  pub closed : (k'.envs i).ipc_recving ≡ false
  pub result : ((k'.envs i).tf.a0 ≡ 0) × ((k'.envs i).tf.sepc ≡ (k.envs i).tf.sepc + 4)
  pub same_id : (k'.envs i).id ≡ (k.envs i).id
  pub others : (j : ℕ) → j ≢ i → k'.envs j ≡ k.envs j
  pub memory : k'.pages ≡ k.pages

received-Delivered :
    (k : Kernel) (c i message : ℕ)
    → Delivered k c i message (set_env k i (received (k.envs i) (k.envs c).id message 0))
unfolding received
received-Delivered k c i message = record {
  message_value = ground arith;
  sender = ground arith;
  no_page = ground arith;
  woken = ground arith;
  closed = ground arith;
  result = (ground arith, ground arith);
  same_id = ground arith;
  others = λ j ne. ground arith;
  memory = refl;
}

sys_ipc_try_send-closed :
    (k : Kernel) (envid message srcva perm i : ℕ)
    → envid2env k envid false ≡ found (some i)
    → (k.envs i).ipc_recving ≡ false
    → sys_ipc_try_send k envid message srcva perm ≡ fails e_ipc_not_recv k
unfolding sys_ipc_try_send
sys_ipc_try_send-closed k envid message srcva perm i f shut = ground arith

-- sys_ipc_try_send with no page (`srcva` at or above UTOP) to a waiting environment `i` returns 0
-- and delivers the value: the receiver has the value and the sender's id, no page, a call that
-- returns 0 past its `ecall`, and is runnable; no other environment and no memory changes. A second
-- send to the same id, before the receiver waits again, is refused with E_IPC_NOT_RECV and changes
-- nothing, with or without a page.
pub sys_ipc_try_send-Delivered :
    (k : Kernel) (envid message srcva perm c i : ℕ)
    → k.cur ≡ some c
    → envid ≢ 0
    → envid2env k envid false ≡ found (some i)
    → (k.envs i).ipc_recving ≡ true
    → utop ≤ srcva
    → (k' : Kernel) × (sys_ipc_try_send k envid message srcva perm ≡ value 0 k')
      × Delivered k c i message k'
      × ((message' srcva' perm' : ℕ)
          → sys_ipc_try_send k' envid message' srcva' perm' ≡ fails e_ipc_not_recv k')
sys_ipc_try_send-Delivered k envid message srcva perm c i cur ne f waiting none_sent =
    let k' = set_env k i (received (k.envs i) (k.envs c).id message 0) in
    let d = received-Delivered k c i message in
    (
      k',
      sys_ipc_try_send-deliver k envid message srcva perm c i cur f waiting none_sent,
      d,
      λ message' srcva' perm'.
          sys_ipc_try_send-closed k' envid message' srcva' perm' i
            (envid2env_same k k' envid i f ne d.same_id d.woken) d.closed,
    )
