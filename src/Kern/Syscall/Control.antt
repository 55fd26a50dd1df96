-- ===== src/Kern/Syscall/Control.antt =====
-- sys_exofork and sys_env_set_status of kern/riscv/syscall.c.
use zynex_os.Base.{
  ℕ, ◌+◌, ◌^◌, ◌<◌, ◌≡◌, ◌≢◌, sym, ◌∙◌, ap, subst, true, false, some, List, ◌∷◌, arith,
}
use zynex_os.Kern.Pages.FreeList.{has}
use zynex_os.Kern.Env.{
  Env, Kernel, Layout, Status, free, not_runnable, found, envid2env, set_env, env_setup_vm,
  env_alloc, allocated,
}
use zynex_os.Kern.Env.Table.{IsEnvList, IsEnvList-update, Created, Answers, env_alloc-Answers}
use zynex_os.Kern.Syscall.{
  value, forked, fork_from, sys_exofork, status_of_int, is_settable, sys_env_set_status,
}

-- The child that sys_exofork leaves at `i`, for the caller `c`.
pub record Forked (k : Kernel) (c i : ℕ) (xs : List ℕ) (k' : Kernel) : Type 0 where
  pub rest : IsEnvList k' xs
  pub stopped : (k'.envs i).status ≡ not_runnable
  pub parent : (k'.envs i).parent_id ≡ (k.envs c).id
  pub returns_zero : (k'.envs i).tf.a0 ≡ 0
  pub past_call : (k'.envs i).tf.sepc ≡ (k.envs c).tf.sepc + 4
  pub registers :
      (k'.envs i).tf ≡ record ((k.envs c).tf) { a0 = 0; sepc = (k.envs c).tf.sepc + 4; tp = i }
  pub upcall : (k'.envs i).pgfault_upcall ≡ (k.envs c).pgfault_upcall
  pub new_id : (k'.envs i).id ≢ (k.envs i).id
  pub others : (j : ℕ) → j ≢ i → k'.envs j ≡ k.envs j

fork_from-Forked :
    (l : Layout) (k k1 : Kernel) (parent_id c i : ℕ) (xs : List ℕ)
    → has i xs ≡ false
    → c ≢ i
    → Created l k parent_id i xs k1
    → (k' : Kernel) × (fork_from c (allocated i) k1 ≡ value (k'.envs i).id k') × Forked k c i xs k'
unfolding fork_from forked
fork_from-Forked l k k1 parent_id c i xs out ne made =
    let e = forked (k1.envs i) (k1.envs c) i in
    let k' = set_env k1 i e in
    let at : k'.envs i ≡ e = ground arith in
    let caller : k1.envs c ≡ k.envs c = made.others c ne in
    (
      k',
      ap (λ (x : Env). value x.id k') (sym at),
      record {
        rest = record {
          chain = IsEnvList-update k1 i e k1.env_free_list xs made.rest.chain out;
          distinct = made.rest.distinct;
          members = λ j h. ground (arith, made.rest.members j);
        };
        stopped = ap (λ (x : Env). x.status) at;
        parent = ap (λ (x : Env). x.parent_id) at ∙ ap (λ (x : Env). x.id) caller;
        returns_zero = ap (λ (x : Env). x.tf.a0) at;
        past_call = ap (λ (x : Env). x.tf.sepc) at ∙ ap (λ (x : Env). x.tf.sepc + 4) caller;
        registers =
            ap (λ (x : Env). x.tf) at
            ∙ ap (λ (x : Env). record (x.tf) { a0 = 0; sepc = x.tf.sepc + 4; tp = i }) caller;
        upcall = ap (λ (x : Env). x.pgfault_upcall) at ∙ ap (λ (x : Env). x.pgfault_upcall) caller;
        new_id = λ same. made.new_id (sym (ap (λ (x : Env). x.id) at) ∙ same);
        others = λ j nj. ground (arith, made.others j nj);
      },
    )

sys_exofork-fork_from :
    (l : Layout) (k : Kernel) (c : ℕ)
    → k.cur ≡ some c
    → sys_exofork l k
      ≡ fork_from c (env_alloc l k (k.envs c).parent_id).0 (env_alloc l k (k.envs c).parent_id).1
unfolding sys_exofork
sys_exofork-fork_from l k c cur = ground (arith, cur)

-- sys_exofork by a caller `c` that is in use, with a free list `i ∷ xs` and a page directory to be
-- had, returns the id of a new environment `i`: not runnable, a child of the caller, with the
-- caller's upcall and registers, but for a 0 that its call returns past the `ecall` and `i` in its
-- thread pointer; the id is not the one that
-- the slot had, and every other environment is as it was.
pub sys_exofork-Forked :
    (l : Layout) (k : Kernel) (c i dir : ℕ) (xs : List ℕ)
    → k.cur ≡ some c
    → (k.envs c).status ≢ free
    → IsEnvList k (i ∷ xs)
    → (k.envs i).id < 2 ^ 31
    → (env_setup_vm l k.pages k.kern_pgdir).0 ≡ some dir
    → (k' : Kernel) × (sys_exofork l k ≡ value (k'.envs i).id k') × Forked k c i xs k'
sys_exofork-Forked l k c i dir xs cur used is small got =
    let p = (k.envs c).parent_id in
    let (a, made, _) =
      subst (λ o. Answers l k p i xs o (env_alloc l k p)) got
        (env_alloc-Answers l k p i xs is small) in
    let apart : c ≢ i =
      λ e. used (subst (λ j. (k.envs j).status ≡ free) (sym e) (is.members i (ground arith)).0) in
    let (k', e, f) = fork_from-Forked l k (env_alloc l k p).1 p c i xs is.distinct.0 apart made in
    (k', sys_exofork-fork_from l k c cur ∙ ap (λ o. fork_from c o (env_alloc l k p).1) a ∙ e, f)

-- sys_env_set_status for an environment `i` that the caller may change, and that is runnable or not
-- runnable, returns 0 and gives it any status of the enumeration: also ENV_FREE, ENV_DYING and
-- ENV_RUNNING. No other field and no other environment changes.
pub sys_env_set_status-any :
    (k : Kernel) (envid n i : ℕ) (st : Status)
    → status_of_int n ≡ some st
    → envid2env k envid true ≡ found (some i)
    → is_settable (k.envs i).status ≡ true
    → (k' : Kernel) × (sys_env_set_status k envid n ≡ value 0 k')
      × (k'.envs i ≡ record (k.envs i) { status = st })
      × ((j : ℕ) → j ≢ i → k'.envs j ≡ k.envs j)
unfolding sys_env_set_status
sys_env_set_status-any k envid n i st s f ok_status = (
  set_env k i (record (k.envs i) { status = st }),
  ground (arith, s, f, ok_status),
  ground arith,
  λ j ne. ground arith,
)
