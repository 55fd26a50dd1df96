-- ===== src/Kern/Env.antt =====
-- kern/riscv/env.c, with the types of inc/riscv/env.h: the table of environments, its free list,
-- and the calls that create, find, run and destroy an environment.
-- A `struct Env *` is its index in `envs`. `none` as a result of a call that can panic is the panic.
-- What only the hardware sees (satp, the TLB, the jump to user mode) is not modelled.
pub mod Ids
pub mod Table
mod Tests
use Prim.Native.Nat.{bit_or}
use zynex_os.Base.{
  ℕ, zero, suc, ◌+◌, ◌-◌, ◌*◌, ◌/◌, ◌%◌, ◌^◌, Bool, true, false, not, ◌&&◌, ◌||◌, Option, none,
  some, ltb, leb, ◌==◌, ◌!=◌, if◌then◌else◌,
}
use zynex_os.Kern.Pages.{
  PageState, update, frame_of_page, frame_offset, page_alloc, page_decref, page_remove, add_ref,
  write_word, page_of_frame, pd0x, frame_of_entry, is_valid,
}

-- The registers of a `struct Trapframe` that the kernel sets by name, and the others by number.
pub record Trapframe : Type 0 where
  pub sepc : ℕ
  pub a0 : ℕ
  pub sp : ℕ
  pub tp : ℕ
  pub status : ℕ
  pub other : ℕ → ℕ

pub data Status : Type 0 where
  free dying runnable running not_runnable : Status

pub data EnvType : Type 0 where
  user fs ns : EnvType

-- `struct Env`. An `envid_t` is a non-negative number below `2 ^ 31`.
pub record Env : Type 0 where
  pub tf : Trapframe
  pub link : Option ℕ
  pub id : ℕ
  pub parent_id : ℕ
  pub env_type : EnvType
  pub status : Status
  pub runs : ℕ
  pub cpunum : ℕ
  pub pgdir : Option ℕ
  pub pgfault_upcall : ℕ
  pub ipc_recving : Bool
  pub ipc_dstva : ℕ
  pub ipc_value : ℕ
  pub ipc_from : ℕ
  pub ipc_perm : ℕ

abbrev pub nenv : ℕ
nenv = 1024

-- The kernel's state, seen from one CPU: `cur` is its `curenv`.
pub record Kernel : Type 0 where
  pub pages : PageState
  pub envs : ℕ → Env
  pub env_free_list : Option ℕ
  pub cur : Option ℕ
  pub kern_pgdir : ℕ

abbrev pub is_free : Status → Bool
is_free free = true
is_free _ = false

abbrev pub is_runnable : Status → Bool
is_runnable runnable = true
is_runnable _ = false

abbrev pub is_running : Status → Bool
is_running running = true
is_running _ = false

-- `ENVX(envid)`
abbrev pub envx : ℕ → ℕ
envx id = id % nenv

abbrev pub set_env : Kernel → ℕ → Env → Kernel
set_env k i e = record k { envs = update k.envs i e }

-- 0 and the environment, or `-E_BAD_ENV`. With `envid` 0 it is `curenv`, which may be NULL.
pub data Found : Type 0 where
  bad_env : Found
  found : Option ℕ → Found

abbrev pub is_cur : Kernel → ℕ → Bool
is_cur k i = elim k.cur [ none ↦ false | some c ↦ c == i ]

-- `e->env_parent_id != curenv->env_id`, read only where `curenv` is not NULL (else it faults).
abbrev pub is_child : Kernel → ℕ → Bool
is_child k i = elim k.cur [ none ↦ false | some c ↦ (k.envs i).parent_id == (k.envs c).id ]

pub envid2env : Kernel → ℕ → (checkperm : Bool) → Found
envid2env k envid checkperm =
    let i = envx envid in
    let e = k.envs i in
    if envid == 0
    then found k.cur
    else if is_free e.status || e.id != envid
    then bad_env
    else if checkperm && (not (is_cur k i) && not (is_child k i))
    then bad_env
    else found (some i)

-- `env_init`: ids are zeroed and the table is linked in order. `tail` is the last index linked.
pub env_init_from : ℕ → Kernel → ℕ → ℕ → Kernel
env_init_from zero k i tail = k
env_init_from (suc n) k i tail =
    let k' = set_env k i (record (k.envs i) { id = 0 }) in
    env_init_from n (set_env k' tail (record (k'.envs tail) { link = some i })) (suc i) i

pub env_init : Kernel → Kernel
env_init k =
    let e = record (k.envs 0) { id = 0; link = k.env_free_list } in
    env_init_from (nenv - 1) (record k { envs = update k.envs 0 e; env_free_list = some 0 }) 1 0

-- The kernel's part of a page directory: the slots of UPAGES, UENVS and MMIO, and those from
-- KERNBASE on, in a record, since only the slots matter here.
pub record Layout : Type 0 where
  pub upages : ℕ
  pub uenvs : ℕ
  pub mmio : ℕ
  pub kernbase : ℕ
  pub uvpt : ℕ
  pub ustacktop : ℕ
  pub sstatus : ℕ

-- The loop `for (i = PD0X(KERNBASE); i < 512; i++) e->env_pgdir[i] = kern_pgdir[i];`
pub copy_kernel_slots : ℕ → PageState → (dir kern i : ℕ) → PageState
copy_kernel_slots zero s dir kern i = s
copy_kernel_slots (suc n) s dir kern i =
    copy_kernel_slots n (write_word s (dir, i) (s.word kern i)) dir kern (suc i)

-- `env_setup_vm`: the frame of the new page directory, or `-E_NO_MEM`.
pub env_setup_vm : Layout → PageState → (kern : ℕ) → Option ℕ × PageState
unfolding copy_kernel_slots
env_setup_vm l s kern =
    let (o, s0) = page_alloc s true in
    elim o [
      | none ↦ (none, s0)
      | some pp ↦
          let dir = frame_of_page pp in
          let s1 = add_ref s0 pp in
          let s2 = write_word s1 (dir, l.upages) (s1.word kern l.upages) in
          let s3 = write_word s2 (dir, l.uenvs) (s2.word kern l.uenvs) in
          let s4 = write_word s3 (dir, l.mmio) (s3.word kern l.mmio) in
          let s5 = copy_kernel_slots (512 - l.kernbase) s4 dir kern l.kernbase in
          (some dir, write_word s5 (dir, l.uvpt) (bit_or (dir * 2 ^ 12) 1))
    ]

-- `(e->env_id + (1 << ENVGENSHIFT)) & ~(NENV - 1)` in 32 bits, with the reset of a generation that
-- is not positive.
pub next_generation : ℕ → ℕ
next_generation id =
    let g = (id + 2 ^ 12) % 2 ^ 32 / nenv * nenv in if g == 0 || leb (2 ^ 31) g then 2 ^ 12 else g

-- What `env_alloc` returns: 0 and the environment, or an error.
pub data Alloc : Type 0 where
  no_free_env no_mem : Alloc
  allocated : ℕ → Alloc

-- The fields that `env_alloc` sets. `generation | (e - envs)` is a sum, the low bits being zero.
pub fresh_env : Layout → Env → ℕ → ℕ → ℕ → Env
unfolding next_generation
fresh_env l e i parent_id dir = record e {
  pgdir = some dir;
  id = next_generation e.id + i;
  parent_id = parent_id;
  env_type = user;
  status = runnable;
  runs = 0;
  tf = record {
    sepc = 0;
    a0 = 0;
    sp = l.ustacktop;
    tp = i;
    status = bit_or l.sstatus 0x20;
    other = λ _. 0;
  };
  pgfault_upcall = 0;
  ipc_recving = false;
}

-- `env_alloc` once `env_setup_vm` has answered, for the environment `i` at the head of the list.
pub env_alloc_at : Layout → Kernel → ℕ → ℕ → Option ℕ × PageState → Alloc × Kernel
unfolding fresh_env
env_alloc_at l k parent_id i (none, s) = (no_mem, record k { pages = s })
env_alloc_at l k parent_id i (some dir, s) = (
  allocated i,
  record k {
    pages = s;
    envs = update k.envs i (fresh_env l (k.envs i) i parent_id dir);
    env_free_list = (k.envs i).link;
  },
)

pub env_alloc : Layout → Kernel → ℕ → Alloc × Kernel
unfolding env_setup_vm env_alloc_at
env_alloc l k parent_id = elim k.env_free_list [
  | none ↦ (no_free_env, k)
  | some i ↦ env_alloc_at l k parent_id i (env_setup_vm l k.pages k.kern_pgdir)
]

-- `PTE_ADDR(pte) >> 12`
abbrev pub addr_frame : ℕ → ℕ
addr_frame pte = pte / 2 ^ 10 % 2 ^ 45

-- `PGADDR(0, d1, d2, t, 0)`
abbrev pub page_address : ℕ → ℕ → ℕ → ℕ
page_address d1 d2 t = d1 * 2 ^ 30 + d2 * 2 ^ 21 + t * 2 ^ 12

-- `page_decref(pa2page(pa))`
pub decref_frame : PageState → ℕ → Option PageState
decref_frame s frame = elim (page_of_frame s frame) [ none ↦ none | some pp ↦ page_decref s pp ]

-- The innermost loop of `env_free`: the pages of one table, `n` of them from `t` on.
pub free_pages : ℕ → PageState → (dir table d1 d2 t : ℕ) → Option PageState
free_pages zero s dir table d1 d2 t = some s
free_pages (suc n) s dir table d1 d2 t =
    elim (if is_valid (s.word table t) then page_remove s dir (page_address d1 d2 t) else some s) [
      | none ↦ none
      | some s' ↦ free_pages n s' dir table d1 d2 (suc t)
    ]

-- One entry of a table: what it points to is emptied by `inner`, the entry is cleared, and the page
-- of the inner table is given back.
pub free_entry : PageState → (table i : ℕ) → (PageState → ℕ → Option PageState) → Option PageState
unfolding decref_frame
free_entry s table i inner =
    let frame = addr_frame (s.word table i) in
    let rest : Option PageState = elim (inner s frame) [
      | none ↦ none
      | some s' ↦ decref_frame (write_word s' (table, i) 0) frame
    ] in
    if is_valid (s.word table i) then rest else some s

pub free_tables : ℕ → PageState → (dir table d1 d2 : ℕ) → Option PageState
unfolding free_pages free_entry
free_tables zero s dir table d1 d2 = some s
free_tables (suc n) s dir table d1 d2 =
    elim (free_entry s table d2 (λ t f. free_pages 512 t dir f d1 d2 0)) [
      | none ↦ none
      | some s' ↦ free_tables n s' dir table d1 (suc d2)
    ]

pub free_dirs : ℕ → PageState → (dir table d1 : ℕ) → Option PageState
unfolding free_entry free_tables
free_dirs zero s dir table d1 = some s
free_dirs (suc n) s dir table d1 =
    elim (free_entry s table d1 (λ t f. free_tables 512 t dir f d1 0)) [
      | none ↦ none
      | some s' ↦ free_dirs n s' dir table (suc d1)
    ]

-- The address space below the first entry of the page directory, and then the directory's page.
pub free_space : PageState → (dir : ℕ) → Option PageState
unfolding free_entry free_dirs decref_frame
free_space s dir = elim (free_entry s dir 0 (λ t f. free_dirs 512 t dir f 0)) [
  | none ↦ none
  | some s' ↦ decref_frame s' dir
]

-- The end of `env_free`: the environment goes back to the list.
pub return_env : Kernel → ℕ → PageState → Kernel
return_env k i s =
    let e = record (k.envs i) { pgdir = none; status = free; link = k.env_free_list } in
    record k { pages = s; envs = update k.envs i e; env_free_list = some i }

-- An environment without a page directory makes `env_free` fault.
pub env_free : Kernel → ℕ → Option Kernel
unfolding return_env
env_free k i = elim (k.envs i).pgdir [
  | none ↦ none
  | some dir ↦ elim (free_space k.pages dir) [ none ↦ none | some s ↦ some (return_env k i s) ]
]

-- `curenv`, if it is running, becomes runnable.
unfoldable pub env_run_leave : Kernel → Kernel
env_run_leave k = elim k.cur [
  | none ↦ k
  | some c ↦
      if is_running (k.envs c).status
      then set_env k c (record (k.envs c) { status = runnable })
      else k
]

-- `env_pop_tf` records the CPU's number, `cpu`.
unfoldable pub env_run : (cpu : ℕ) → Kernel → ℕ → Kernel
unfolding env_run_leave
env_run cpu k i =
    let k' = env_run_leave k in
    let e = k'.envs i in
    record k' {
      envs =
          update k'.envs i
            (record e { status = running; runs = (e.runs + 1) % 2 ^ 32; cpunum = cpu });
      cur = some i;
    }
