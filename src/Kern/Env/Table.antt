-- ===== src/Kern/Env/Table.antt =====
-- The free list of the environment table of kern/riscv/env.c: env_init, env_alloc, env_free.
use zynex_os.Base.{
  ℕ, zero, suc, ◌+◌, ◌^◌, ◌≤◌, ◌<◌, ◌≡◌, ◌≢◌, refl, sym, ◌∙◌, ap, subst, inl, inr, true, false,
  ◌&&◌, Option, none, some, List, [], ◌∷◌, arith, ltb, leb, if◌then◌else◌, Option-cases,
}
use zynex_os.Kern.Pages.{update, PageState, frame_of_page}
use zynex_os.Kern.Pages.FreeList.{has, Distinct, Chain, IsFreeList, page_alloc-Allocated}
use zynex_os.Kern.Env.{
  Env, Kernel, Layout, free, runnable, nenv, set_env, env_init_from, env_init, env_setup_vm,
  fresh_env, envx, env_alloc_at, Alloc, no_free_env, no_mem, allocated, env_alloc, free_space,
  return_env, env_free,
}
use zynex_os.Kern.Env.Ids.{fresh_env-id}

-- The free list holds the environments `xs`, each once, all of them in the table and marked free.
pub record IsEnvList (k : Kernel) (xs : List ℕ) : Type 0 where
  pub chain : Chain (λ i. (k.envs i).link) k.env_free_list xs
  pub distinct : Distinct xs
  pub members : (i : ℕ) → has i xs ≡ true → ((k.envs i).status ≡ free) × (i < nenv)

-- `a, a + 1, …`, `n` numbers.
pub indices : ℕ → ℕ → List ℕ
indices a zero = []
indices a (suc n) = a ∷ indices (suc a) n

has-indices : (x a n : ℕ) → has x (indices a n) ≡ (leb a x && ltb x (a + n))
unfolding indices
has-indices x a zero = ground arith
has-indices x a (suc n) = ground (arith, has-indices x (suc a) n)

Distinct-indices : (a n : ℕ) → Distinct (indices a n)
unfolding indices
Distinct-indices a zero = tt
Distinct-indices a (suc n) = (ground (arith, has-indices a (suc a) n), Distinct-indices (suc a) n)

-- The links after the loop.
env_init_from-link :
    (n : ℕ) (k : Kernel) (tail j : ℕ)
    → ((env_init_from n k (suc tail) tail).envs j).link
      ≡ (if leb tail j && ltb j (tail + n) then some (suc j) else (k.envs j).link)
unfolding env_init_from
env_init_from-link zero k tail j = ground arith
env_init_from-link (suc n) k tail j =
    let k' = set_env k (suc tail) (record (k.envs (suc tail)) { id = 0 }) in
    let k'' = set_env k' tail (record (k'.envs tail) { link = some (suc tail) }) in
    env_init_from-link n k'' (suc tail) j ∙ ground arith

env_init_from-kept :
    (n : ℕ) (k : Kernel) (i tail j : ℕ)
    → (((env_init_from n k i tail).envs j).status ≡ (k.envs j).status)
      × ((env_init_from n k i tail).env_free_list ≡ k.env_free_list)
unfolding env_init_from
env_init_from-kept zero k i tail j = (refl, refl)
env_init_from-kept (suc n) k i tail j =
    let k' = set_env k i (record (k.envs i) { id = 0 }) in
    let k'' = set_env k' tail (record (k'.envs tail) { link = some i }) in
    let (s, l) = env_init_from-kept n k'' (suc i) i j in (s ∙ ground arith, l)

env_init_from-id :
    (n : ℕ) (k : Kernel) (i tail j : ℕ)
    → ((env_init_from n k i tail).envs j).id
      ≡ (if leb i j && ltb j (i + n) then 0 else (k.envs j).id)
unfolding env_init_from
env_init_from-id zero k i tail j = ground arith
env_init_from-id (suc n) k i tail j =
    let k' = set_env k i (record (k.envs i) { id = 0 }) in
    let k'' = set_env k' tail (record (k'.envs tail) { link = some i }) in
    env_init_from-id n k'' (suc i) i j ∙ ground arith

-- Links that step by one, with none at the end, chain the indices.
Chain-indices :
    (link : ℕ → Option ℕ) (a n : ℕ)
    → ((j : ℕ) → a ≤ j → link j ≡ (if ltb j (a + n) then some (suc j) else none))
    → Chain link (some a) (indices a (suc n))
unfolding indices
Chain-indices link a zero h = (refl, h a (omega arith) ∙ ground arith)
Chain-indices link a (suc n) h =
    let step : link a ≡ some (suc a) = h a (omega arith) ∙ ground arith in
    (refl, rw step (Chain-indices link (suc a) n (λ j le. h j (omega arith) ∙ ground arith)))

env_init_from-IsEnvList :
    (n : ℕ) (k : Kernel)
    → k.env_free_list ≡ some 0
    → suc n ≤ nenv
    → ((i : ℕ) → (k.envs i).link ≡ none)
    → ((i : ℕ) → (k.envs i).status ≡ free)
    → IsEnvList (env_init_from n k 1 0) (indices 0 (suc n))
env_init_from-IsEnvList n k head small unlinked unused = record {
  chain =
      subst (λ o. Chain (λ i. ((env_init_from n k 1 0).envs i).link) o (indices 0 (suc n)))
        (sym ((env_init_from-kept n k 1 0 0).1 ∙ head))
        (Chain-indices (λ i. ((env_init_from n k 1 0).envs i).link) 0 n
          (λ j le. env_init_from-link n k 0 j ∙ ground (arith, unlinked j)));
  distinct = Distinct-indices 0 (suc n);
  members =
      λ i h. ((env_init_from-kept n k 1 0 i).0 ∙ unused i, ground (arith, has-indices i 0 (suc n)));
}

-- env_init on a table of free and unlinked environments, with an empty list, links all `nenv` of
-- them in the order of the table, each once, and zeroes their ids.
pub env_init-IsEnvList :
    (k : Kernel)
    → k.env_free_list ≡ none
    → ((i : ℕ) → (k.envs i).link ≡ none)
    → ((i : ℕ) → (k.envs i).status ≡ free)
    → IsEnvList (env_init k) (indices 0 nenv) × ((i : ℕ) → i < nenv → ((env_init k).envs i).id ≡ 0)
unfolding env_init
env_init-IsEnvList k empty unlinked unused =
    let e = record (k.envs 0) { id = 0; link = k.env_free_list } in
    let start = record k { envs = update k.envs 0 e; env_free_list = some 0 } in
    (
      env_init_from-IsEnvList 1023 start refl (omega arith) (λ i. ground (arith, empty, unlinked i))
          (λ i. ground (arith, unused i, unused 0)),
      λ i h. env_init_from-id 1023 start 1 0 i ∙ ground arith,
    )

env_alloc-env_alloc_at :
    (l : Layout) (k : Kernel) (parent_id i : ℕ)
    → k.env_free_list ≡ some i
    → env_alloc l k parent_id ≡ env_alloc_at l k parent_id i (env_setup_vm l k.pages k.kern_pgdir)
unfolding env_alloc
env_alloc-env_alloc_at l k parent_id i h = ground (arith, h)

-- Changes at an environment off the list keep the list.
pub IsEnvList-update :
    (k : Kernel) (i : ℕ) (e : Env) (o : Option ℕ) (xs : List ℕ)
    → Chain (λ j. (k.envs j).link) o xs
    → has i xs ≡ false
    → Chain (λ j. (update k.envs i e j).link) o xs
IsEnvList-update k i e o [] c out = c
IsEnvList-update k i e o (x ∷ xs) c out =
    let same : (update k.envs i e x).link ≡ (k.envs x).link = ground arith in
    (c.0, rw same (IsEnvList-update k i e ((k.envs x).link) xs c.1 (ground arith)))

-- What a successful env_alloc of environment `i` for `parent_id` leaves.
pub record Created (l : Layout) (k : Kernel) (parent_id i : ℕ) (xs : List ℕ) (k' : Kernel)
    : Type 0 where
  pub rest : IsEnvList k' xs
  pub status : (k'.envs i).status ≡ runnable
  pub parent : (k'.envs i).parent_id ≡ parent_id
  pub not_recving : (k'.envs i).ipc_recving ≡ false
  pub new_id : (k'.envs i).id ≢ (k.envs i).id
  pub index : envx (k'.envs i).id ≡ i
  pub others : (j : ℕ) → j ≢ i → k'.envs j ≡ k.envs j

-- What env_alloc answers and leaves, by what env_setup_vm answered.
abbrev pub Answers : Layout → Kernel → ℕ → ℕ → List ℕ → Option ℕ → Alloc × Kernel → Type 0
Answers l k parent_id i xs none (a, k') =
    (a ≡ no_mem) × (k'.envs ≡ k.envs) × (k'.env_free_list ≡ k.env_free_list)
Answers l k parent_id i xs (some dir) (a, k') =
    (a ≡ allocated i) × Created l k parent_id i xs k' × ((k'.envs i).pgdir ≡ some dir)

env_alloc_at-Answers :
    (l : Layout) (k : Kernel) (parent_id i : ℕ) (xs : List ℕ) (r : Option ℕ × PageState)
    → IsEnvList k (i ∷ xs)
    → (k.envs i).id < 2 ^ 31
    → Answers l k parent_id i xs r.0 (env_alloc_at l k parent_id i r)
unfolding env_alloc_at
env_alloc_at-Answers l k parent_id i xs (none, s) is small = (refl, refl, refl)
env_alloc_at-Answers l k parent_id i xs (some dir, s) is small =
    let e = fresh_env l (k.envs i) i parent_id dir in
    let at : update k.envs i e i ≡ e = ground arith in
    let ids = fresh_env-id l (k.envs i) i parent_id dir small ((is.members i (ground arith)).1) in
    (
      refl,
      record {
        rest = record {
          chain = IsEnvList-update k i e ((k.envs i).link) xs is.chain.1 is.distinct.0;
          distinct = is.distinct.1;
          members = λ j h. ground (arith, is.members j);
        };
        status = ap (λ (x : Env). x.status) at;
        parent = ap (λ (x : Env). x.parent_id) at;
        not_recving = ap (λ (x : Env). x.ipc_recving) at;
        new_id = rw at ids.3;
        index = rw at ids.2;
        others = λ j ne. ground arith;
      },
      ap (λ (x : Env). x.pgdir) at,
    )

-- env_alloc with a free list `i ∷ xs`: if env_setup_vm has a page directory it creates environment
-- `i` on it, runnable, with the given parent and a new id whose index part is `i`, and leaves the
-- list `xs` and all other environments as they are; if not, it reports E_NO_MEM and leaves the
-- table and the list.
pub env_alloc-Answers :
    (l : Layout) (k : Kernel) (parent_id i : ℕ) (xs : List ℕ)
    → IsEnvList k (i ∷ xs)
    → (k.envs i).id < 2 ^ 31
    → Answers l k parent_id i xs (env_setup_vm l k.pages k.kern_pgdir).0 (env_alloc l k parent_id)
env_alloc-Answers l k parent_id i xs is small =
    subst (Answers l k parent_id i xs (env_setup_vm l k.pages k.kern_pgdir).0)
      (sym (env_alloc-env_alloc_at l k parent_id i is.chain.0))
      (env_alloc_at-Answers l k parent_id i xs (env_setup_vm l k.pages k.kern_pgdir) is small)

-- With an empty list env_alloc reports E_NO_FREE_ENV and changes nothing.
pub env_alloc-empty :
    (l : Layout) (k : Kernel) (parent_id : ℕ)
    → IsEnvList k []
    → env_alloc l k parent_id ≡ (no_free_env, k)
unfolding env_alloc
env_alloc-empty l k parent_id is = ground (arith, is.chain)

return_env-IsEnvList :
    (k : Kernel) (i : ℕ) (s : PageState) (xs : List ℕ)
    → IsEnvList k xs
    → has i xs ≡ false
    → i < nenv
    → IsEnvList (return_env k i s) (i ∷ xs)
      × (((return_env k i s).envs i).pgdir ≡ none)
      × ((j : ℕ) → j ≢ i → (return_env k i s).envs j ≡ k.envs j)
      × ((return_env k i s).cur ≡ k.cur)
unfolding return_env
return_env-IsEnvList k i s xs is out small =
    let e = record (k.envs i) { pgdir = none; status = free; link = k.env_free_list } in
    let at : update k.envs i e i ≡ e = ground arith in
    (
      record {
        chain = (refl, rw at (IsEnvList-update k i e k.env_free_list xs is.chain out));
        distinct = (out, is.distinct);
        members = λ j h. ground (arith, is.members j);
      },
      ap (λ (x : Env). x.pgdir) at,
      λ j ne. ground arith,
      refl,
    )

env_free-return_env :
    (k k' : Kernel) (i : ℕ) → env_free k i ≡ some k' → (s : PageState) × (k' ≡ return_env k i s)
unfolding env_free
env_free-return_env k k' i h = elim (Option-cases (k.envs i).pgdir) [
  | inl lost ↦ absurd (ground (arith, lost))
  | inr (dir, d) ↦ elim (Option-cases (free_space k.pages dir)) [
    | inl lost ↦ absurd (ground (arith, d, lost))
    | inr (s, e) ↦ (s, ground (arith, d, e))
  ]
]

-- env_free of an environment off the list, when it does not panic, puts it at the head of the list,
-- marked free and without a page directory, and leaves all other environments and curenv as they
-- are.
pub env_free-IsEnvList :
    (k k' : Kernel) (i : ℕ) (xs : List ℕ)
    → IsEnvList k xs
    → has i xs ≡ false
    → i < nenv
    → env_free k i ≡ some k'
    → IsEnvList k' (i ∷ xs)
      × ((k'.envs i).pgdir ≡ none)
      × ((j : ℕ) → j ≢ i → k'.envs j ≡ k.envs j)
      × (k'.cur ≡ k.cur)
env_free-IsEnvList k k' i xs is out small h =
    let (s, e) = env_free-return_env k k' i h in
    subst
      (λ z.
        IsEnvList z (i ∷ xs)
        × ((z.envs i).pgdir ≡ none)
        × ((j : ℕ) → j ≢ i → z.envs j ≡ k.envs j)
        × (z.cur ≡ k.cur))
      (sym e) (return_env-IsEnvList k i s xs is out small)

-- With a free page env_setup_vm has a page directory: the frame of that page.
pub env_setup_vm-IsFreeList :
    (l : Layout) (s : PageState) (kern x : ℕ) (xs : List ℕ)
    → IsFreeList s (x ∷ xs)
    → (env_setup_vm l s kern).0 ≡ some (frame_of_page x)
unfolding env_setup_vm
env_setup_vm-IsFreeList l s kern x xs is =
    ground (arith, (page_alloc-Allocated s x xs true is).result)
