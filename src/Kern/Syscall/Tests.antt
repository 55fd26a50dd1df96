-- ===== src/Kern/Syscall/Tests.antt =====
-- The system calls of kern/riscv/syscall.c with a few environments.
use zynex_os.Base.{
  ℕ, ◌≡◌, refl, ◌⊎◌, inl, inr, Bool, true, false, none, some, [], ◌∷◌, arith, ◌==◌, if◌then◌else◌,
}
use zynex_os.Kern.Pages.{PageState, frame_of_page}
use zynex_os.Kern.Pages.FreeList.{has, IsFreeList}
use zynex_os.Kern.Env.{free, running, not_runnable, user, Env, Kernel, Layout, found, envid2env}
use zynex_os.Kern.Env.Ids.{envid2env_iff}
use zynex_os.Kern.Env.Table.{IsEnvList, env_setup_vm-IsFreeList}
use zynex_os.Kern.Syscall.{e_ipc_not_recv, value, fails, utop, sys_exofork, status_of_int}
use zynex_os.Kern.Syscall.Control.{Forked, sys_exofork-Forked}
use zynex_os.Kern.Syscall.Ipc.{sys_ipc_try_send}
use zynex_os.Kern.Syscall.Ipc.Message.{Delivered, sys_ipc_try_send-Delivered}

abbrev layout : Layout
layout = record {
  upages = 508;
  uenvs = 507;
  mmio = 506;
  kernbase = 511;
  uvpt = 505;
  ustacktop = 0x8000;
  sstatus = 0;
}

abbrev blank : Env
blank = record {
  tf = record { sepc = 0; a0 = 0; sp = 0; tp = 0; status = 0; other = λ _. 0 };
  link = none;
  id = 0;
  parent_id = 0;
  env_type = user;
  status = free;
  runs = 0;
  cpunum = 0;
  pgdir = none;
  pgfault_upcall = 0;
  ipc_recving = false;
  ipc_dstva = 0;
  ipc_value = 0;
  ipc_from = 0;
  ipc_perm = 0;
}

-- Page 3 is free.
abbrev memory : PageState
memory = record { link = λ _. none; ref = λ _. 0; free = some 3; word = λ _ _. 0; npages = 8 }

-- Environment 0 runs, its child 1 waits for a message, and 2 and 3 are on the free list.
abbrev small : Kernel
small = record {
  pages = memory;
  envs = λ i.
      if i == 0
      then record blank { id = 4096; status = running }
      else if i == 1
      then record blank { id = 8193; parent_id = 4096; status = not_runnable; ipc_recving = true }
      else if i == 2
      then record blank { link = some 3 }
      else blank;
  env_free_list = some 2;
  cur = some 0;
  kern_pgdir = 9;
}

small-IsEnvList : IsEnvList small (2 ∷ 3 ∷ [])
small-IsEnvList = record {
  chain = (refl, (refl, refl));
  distinct = (refl, (refl, tt));
  members = λ i h. elim (is_member i h) [ inl e ↦ ground (arith, e) | inr e ↦ ground (arith, e) ];
}
  where
    is_member : (i : ℕ) → has i (2 ∷ 3 ∷ []) ≡ true → (i ≡ 2) ⊎ (i ≡ 3)
    is_member i h = ground arith

memory-IsFreeList : IsFreeList memory (3 ∷ [])
memory-IsFreeList = record {
  chain = (refl, refl);
  distinct = (refl, tt);
  unreferenced = λ x h. refl;
}

child_found : (checkperm : Bool) → envid2env small 8193 checkperm ≡ found (some 1)
child_found checkperm =
    (envid2env_iff small 8193 checkperm 1 0 refl (omega arith)).0.1
      (refl, λ e. ground arith, refl, inr (inr refl))

status_zero : status_of_int 0 ≡ some free
unfolding status_of_int
status_zero = refl

sys_exofork-Forked_example :
    (k' : Kernel) × (sys_exofork layout small ≡ value (k'.envs 2).id k')
    × Forked small 0 2 (3 ∷ []) k'
sys_exofork-Forked_example =
    sys_exofork-Forked layout small 0 2 (frame_of_page 3) (3 ∷ []) refl (λ e. ground arith)
      small-IsEnvList (omega arith) (env_setup_vm-IsFreeList layout memory 9 3 [] memory-IsFreeList)

sys_ipc_try_send-Delivered_example :
    (k' : Kernel) × (sys_ipc_try_send small 8193 42 utop 0 ≡ value 0 k')
    × Delivered small 0 1 42 k'
    × ((message' srcva' perm' : ℕ)
        → sys_ipc_try_send k' 8193 message' srcva' perm' ≡ fails e_ipc_not_recv k')
sys_ipc_try_send-Delivered_example =
    sys_ipc_try_send-Delivered small 8193 42 utop 0 0 1 refl (omega arith) (child_found false) refl
      (omega arith)
