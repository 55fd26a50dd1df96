-- ===== src/Kern/Env/Tests.antt =====
-- The environment table of kern/riscv/env.c with a few environments.
use zynex_os.Base.{
  ℕ, ◌≡◌, ◌≢◌, refl, ◌⊎◌, ◌↔◌, inl, inr, true, false, none, some, [], ◌∷◌, arith, ◌==◌,
  if◌then◌else◌,
}
use zynex_os.Kern.Pages.{PageState, frame_of_page, page_of_frame, page_free, page_decref}
use zynex_os.Kern.Pages.FreeList.{has}
use zynex_os.Kern.Env.{
  free, runnable, running, user, Env, Kernel, Layout, envx, bad_env, found, envid2env, env_setup_vm,
  env_alloc, env_free, free_space, free_entry, decref_frame, return_env,
}
use zynex_os.Kern.Env.Ids.{envid2env_iff}
use zynex_os.Kern.Env.Table.{IsEnvList, Answers, env_alloc-Answers}

abbrev layout : Layout
layout = record {
  upages = 508;
  uenvs = 507;
  mmio = 506;
  kernbase = 511;
  uvpt = 505;
  ustacktop = 0x8000;
  sstatus = 0;
}

abbrev blank : Env
blank = record {
  tf = record { sepc = 0; a0 = 0; sp = 0; tp = 0; status = 0; other = λ _. 0 };
  link = none;
  id = 0;
  parent_id = 0;
  env_type = user;
  status = free;
  runs = 0;
  cpunum = 0;
  pgdir = none;
  pgfault_upcall = 0;
  ipc_recving = false;
  ipc_dstva = 0;
  ipc_value = 0;
  ipc_from = 0;
  ipc_perm = 0;
}

-- Page 3 is free, and page 2 is a page directory.
abbrev memory : PageState
memory = record {
  link = λ _. none;
  ref = λ p. if p == 2 then 1 else 0;
  free = some 3;
  word = λ _ _. 0;
  npages = 8;
}

abbrev table : ℕ → Env
table i =
    if i == 0
    then record blank { id = 4096; status = running; pgdir = some (frame_of_page 2) }
    else if i == 1
    then record blank { id = 8193; parent_id = 4096; status = runnable }
    else if i == 2
    then record blank { link = some 3 }
    else blank

-- Environment 0 runs, 1 is its child, and 2 and 3 are on the free list.
abbrev small : Kernel
small = record {
  pages = memory;
  envs = table;
  env_free_list = some 2;
  cur = some 0;
  kern_pgdir = 9;
}

abbrev start : Kernel
start = record {
  pages = memory;
  envs = λ _. blank;
  env_free_list = none;
  cur = none;
  kern_pgdir = 9;
}

small-IsEnvList : IsEnvList small (2 ∷ 3 ∷ [])
small-IsEnvList = record {
  chain = (refl, (refl, refl));
  distinct = (refl, (refl, tt));
  members = λ i h. elim (is_member i h) [ inl e ↦ ground (arith, e) | inr e ↦ ground (arith, e) ];
}
  where
    is_member : (i : ℕ) → has i (2 ∷ 3 ∷ []) ≡ true → (i ≡ 2) ⊎ (i ≡ 3)
    is_member i h = ground arith

child_found : envid2env small 8193 true ≡ found (some 1)
unfolding envid2env
child_found = refl

stale_refused : envid2env small 4097 false ≡ bad_env
unfolding envid2env
stale_refused = refl

child_found_open : envid2env small 8193 false ≡ found (some 1)
unfolding envid2env
child_found_open = refl

abbrev emptied : PageState
emptied = record memory {
  ref = λ q. if q == 2 then 0 else memory.ref q;
  link = λ q. if q == 2 then some 3 else none;
  free = some 2;
}

abbrev env0_freed : Env
env0_freed = record (table 0) { pgdir = none; status = free; link = some 2 }

abbrev freed : Kernel
freed = record small {
  pages = emptied;
  envs = λ j. if j == 0 then env0_freed else table j;
  env_free_list = some 0;
}

env_free-small : env_free small 0 ≡ some freed
unfolding env_free free_space free_entry decref_frame return_env page_of_frame page_decref page_free
env_free-small = refl

envid2env_iff_example :
    ((envid2env small 8193 true ≡ found (some 1)) ↔ (
      (1 ≡ envx 8193)
      × ((table (envx 8193)).status ≢ free)
      × ((table (envx 8193)).id ≡ 8193)
      × ((true ≡ false) ⊎ ((0 ≡ envx 8193) ⊎ ((table (envx 8193)).parent_id ≡ (table 0).id)))))
    × ((envid2env small 8193 true ≡ found (some (envx 8193)))
        ⊎ (envid2env small 8193 true ≡ bad_env))
envid2env_iff_example = envid2env_iff small 8193 true 1 0 refl (omega arith)

env_alloc-Answers_example :
    Answers layout small 4096 2
      (3 ∷ [])
      (env_setup_vm layout memory 9).0
      (env_alloc layout small 4096)
env_alloc-Answers_example =
    env_alloc-Answers layout small 4096 2 (3 ∷ []) small-IsEnvList (omega arith)
