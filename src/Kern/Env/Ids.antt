-- ===== src/Kern/Env/Ids.antt =====
-- Environment ids: what env_alloc of kern/riscv/env.c generates, and what envid2env makes of them.
use zynex_os.Base.{
  ℕ, ◌*◌, ◌/◌, ◌%◌, ◌^◌, ◌<◌, ◌≡◌, ◌≢◌, ◌∙◌, ap, subst, ◌⊎◌, ◌↔◌, Bool, false, some, arith,
}
use zynex_os.Kern.Env.{
  Env, Kernel, free, runnable, nenv, envx, is_free, bad_env, found, envid2env, next_generation,
  fresh_env, Layout,
}

-- A generation is a positive multiple of `nenv` below `2 ^ 31`, and is not that of the last id.
next_generation_bounds :
    (id : ℕ)
    → id < 2 ^ 31
    → (next_generation id % nenv ≡ 0)
      × (0 < next_generation id)
      × (next_generation id < 2 ^ 31)
      × (next_generation id ≢ id / nenv * nenv)
unfolding next_generation
next_generation_bounds id h = ground arith

-- The id that env_alloc gives the environment at index `i` of the table is positive and below
-- `2 ^ 31`, has `i` as its index part, and differs from the id that the slot had before.
pub fresh_env-id :
    (l : Layout) (e : Env) (i parent_id dir : ℕ)
    → e.id < 2 ^ 31
    → i < nenv
    → let id = (fresh_env l e i parent_id dir).id in
      (0 < id) × (id < 2 ^ 31) × (envx id ≡ i) × (id ≢ e.id)
unfolding fresh_env
fresh_env-id l e i parent_id dir h hi = omega (arith, next_generation_bounds e.id h)

-- With a current environment `c`, envid2env answers environment `i` for a nonzero id exactly when
-- `i` is the id's index part, is in use, has that very id (a stale id is refused), and, where
-- permission is checked, is `c` itself or a child of it. For every other nonzero id it fails.
pub envid2env_iff :
    (k : Kernel) (envid : ℕ) (checkperm : Bool) (i c : ℕ)
    → k.cur ≡ some c
    → envid ≢ 0
    → ((envid2env k envid checkperm ≡ found (some i)) ↔ (
        (i ≡ envx envid)
        × ((k.envs (envx envid)).status ≢ free)
        × ((k.envs (envx envid)).id ≡ envid)
        × ((checkperm ≡ false)
            ⊎ ((c ≡ envx envid) ⊎ ((k.envs (envx envid)).parent_id ≡ (k.envs c).id)))))
      × ((envid2env k envid checkperm ≡ found (some (envx envid)))
          ⊎ (envid2env k envid checkperm ≡ bad_env))
unfolding envid2env
envid2env_iff k envid checkperm i c cur ne = (
  (λ h. (ground arith, ground arith, ground arith, ground arith), λ h. ground arith),
  ground arith,
)

-- What a lookup without a permission check found, in the terms of the table.
pub envid2env-found :
    (k : Kernel) (envid i : ℕ)
    → envid2env k envid false ≡ found (some i)
    → envid ≢ 0
    → (i ≡ envx envid) × (is_free (k.envs i).status ≡ false) × ((k.envs i).id ≡ envid)
unfolding envid2env
envid2env-found k envid i f ne =
    let e : i ≡ envx envid = ground arith in (e, rw e (ground arith), rw e (ground arith))

pub envid2env_of_table :
    (k : Kernel) (envid i : ℕ)
    → envid ≢ 0
    → i ≡ envx envid
    → is_free (k.envs i).status ≡ false
    → (k.envs i).id ≡ envid
    → envid2env k envid false ≡ found (some i)
unfolding envid2env
envid2env_of_table k envid i ne e used same =
    let used' : is_free (k.envs (envx envid)).status ≡ false =
      subst (λ j. is_free (k.envs j).status ≡ false) e used in
    let same' : (k.envs (envx envid)).id ≡ envid = subst (λ j. (k.envs j).id ≡ envid) e same in
    ground (arith, e, used', same')

-- Such a lookup looks at the status and the id of the environment alone.
pub envid2env_same :
    (k k' : Kernel) (envid i : ℕ)
    → envid2env k envid false ≡ found (some i)
    → envid ≢ 0
    → (k'.envs i).id ≡ (k.envs i).id
    → (k'.envs i).status ≡ runnable
    → envid2env k' envid false ≡ found (some i)
envid2env_same k k' envid i f ne same_id woken =
    let (e, _, id_is) = envid2env-found k envid i f ne in
    envid2env_of_table k' envid i ne e (ap is_free woken) (same_id ∙ id_is)
