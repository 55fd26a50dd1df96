-- ===== src/Kern/Sched/Tests.antt =====
-- sched_yield of kern/riscv/sched.c with a few environments.
use zynex_os.Base.{refl, false, none, some, arith, ◌==◌, if◌then◌else◌}
use zynex_os.Kern.Env.{free, runnable, running, user, Env, Kernel}
use zynex_os.Kern.Sched.{sched_yield}
use zynex_os.Kern.Sched.Choice.{
  Decision, sched_yield-Decision, OneRunning, After, sched_yield-OneRunning,
}

abbrev blank : Env
blank = record {
  tf = record { sepc = 0; a0 = 0; sp = 0; tp = 0; status = 0; other = λ _. 0 };
  link = none;
  id = 0;
  parent_id = 0;
  env_type = user;
  status = free;
  runs = 0;
  cpunum = 0;
  pgdir = none;
  pgfault_upcall = 0;
  ipc_recving = false;
  ipc_dstva = 0;
  ipc_value = 0;
  ipc_from = 0;
  ipc_perm = 0;
}

-- Environment 1 runs, and 0 and 3 are runnable.
abbrev small : Kernel
small = record {
  pages = record { link = λ _. none; ref = λ _. 0; free = none; word = λ _ _. 0; npages = 8 };
  envs = λ i.
      if i == 1
      then record blank { status = running }
      else if i == 0
      then record blank { status = runnable }
      else if i == 3
      then record blank { status = runnable }
      else blank;
  env_free_list = none;
  cur = some 1;
  kern_pgdir = 9;
}

small-OneRunning : OneRunning small
small-OneRunning j h = ground arith

sched_yield-Decision_example : Decision 0 small 1 (sched_yield 0 small)
sched_yield-Decision_example = sched_yield-Decision 0 small 1 refl (omega arith)

sched_yield-OneRunning_example : After OneRunning (sched_yield 0 small)
sched_yield-OneRunning_example =
    sched_yield-OneRunning 0 small 1 refl (omega arith) small-OneRunning
