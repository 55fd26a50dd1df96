-- ===== src/Kern/Syscall/Page.antt =====
-- The page calls of kern/riscv/syscall.c: sys_page_alloc, sys_page_map, sys_page_unmap,
-- sys_page_clear_dirty, sys_uvpt_pte and sys_copy_shared_pages.
use Prim.Native.Nat.{bit_and, bit_or}
use zynex_os.Base.{ℕ, zero, suc, ◌+◌, ◌^◌, ◌%◌, true, false, not, ◌&&◌, ◌==◌, if◌then◌else◌}
use zynex_os.Kern.Pages.{
  PageState, unmapped, mapped, inserted, no_mem, page_alloc, page_free, page_insert, page_remove,
  page_lookup, stopped, no_slot, slot_at, pgdir_walk, read_word,
}
use zynex_os.Kern.Env.{Kernel}
use zynex_os.Kern.Syscall.{
  e_inval, e_no_mem, Sys, value, fails, panics, leaves, pgsize, pte_syscall, bad_perm, is_writable,
  bad_va, with_env, with_some,
}

abbrev pub set_pages : Kernel → PageState → Kernel
set_pages k s = record k { pages = s }

-- With no free page the call faults: it uses the NULL that `page_alloc` returned.
pub sys_page_alloc : Kernel → ℕ → ℕ → ℕ → Sys
sys_page_alloc k envid va perm = with_env k envid true λ i.
    if bad_va va
    then fails e_inval k
    else if bad_perm perm
    then fails e_inval k
    else let (o, s) = page_alloc k.pages true in
      with_some o λ pp. with_some (k.envs i).pgdir λ dir.
        with_some (page_insert s dir pp va perm) λ r. elim r.0 [
          | inserted ↦ value 0 (set_pages k r.1)
          | no_mem ↦ with_some (page_free r.1 pp) λ s'. fails e_no_mem (set_pages k s')
        ]

-- The end of `sys_page_map`, and of the page transfer in `sys_ipc_try_send`: the page at `srcva`, if
-- its flags allow `perm`, is mapped at `dstva`.
pub map_page : Kernel → (src dst srcva dstva perm : ℕ) → Sys
map_page k src dst srcva dstva perm = with_some (page_lookup k.pages src srcva) λ l. elim l [
  | unmapped ↦ fails e_inval k
  | mapped pp slot ↦
      if is_writable perm && not (is_writable (read_word k.pages slot))
      then fails e_inval k
      else with_some (page_insert k.pages dst pp dstva perm) λ r. elim r.0 [
        | inserted ↦ value 0 (set_pages k r.1)
        | no_mem ↦ fails e_no_mem (set_pages k r.1)
      ]
]

pub sys_page_map : Kernel → (srcenvid srcva dstenvid dstva perm : ℕ) → Sys
unfolding map_page
sys_page_map k srcenvid srcva dstenvid dstva perm = with_env k srcenvid true λ i.
    with_env k dstenvid true λ j.
      if bad_va srcva
      then fails e_inval k
      else if bad_va dstva
      then fails e_inval k
      else with_some (k.envs i).pgdir
          λ src. with_some (k.envs j).pgdir λ dst. map_page k src dst srcva dstva perm

pub sys_page_unmap : Kernel → ℕ → ℕ → Sys
sys_page_unmap k envid va = with_env k envid true λ i.
    if bad_va va
    then fails e_inval k
    else with_some (k.envs i).pgdir
        λ dir. with_some (page_remove k.pages dir va) λ s. value 0 (set_pages k s)

-- The two environments, and the two addresses, must be equal, and the entry must be there.
pub sys_page_clear_dirty : Kernel → (srcenv srcva dstenv dstva : ℕ) → Sys
unfolding sys_page_map
sys_page_clear_dirty k srcenv srcva dstenv dstva =
    if not (srcenv == dstenv && srcva == dstva)
    then panics
    else with_some k.cur λ c. with_some (k.envs c).pgdir λ dir.
      elim (pgdir_walk k.pages dir srcva false).0 [
        | stopped ↦ panics
        | no_slot ↦ panics
        | slot_at slot ↦
            sys_page_map k srcenv srcva dstenv dstva (bit_and (read_word k.pages slot) pte_syscall)
      ]

-- The result is an `int`.
pub sys_uvpt_pte : Kernel → ℕ → Sys
sys_uvpt_pte k srcva = with_some k.cur λ c. with_some (k.envs c).pgdir λ dir.
    elim (pgdir_walk k.pages dir srcva false).0 [
      | stopped ↦ panics
      | no_slot ↦ value 0 k
      | slot_at slot ↦ value (read_word k.pages slot % 2 ^ 32) k
    ]

abbrev pub pte_share : ℕ
pte_share = 0x200

-- The loop of `sys_copy_shared_pages`, for `n` pages from `addr` on. An error of `sys_page_map` ends
-- it.
pub copy_shared_from : ℕ → Kernel → (child addr : ℕ) → Sys
unfolding sys_page_map
copy_shared_from zero k child addr = value 0 k
copy_shared_from (suc n) k child addr =
    let next = λ (k' : Kernel). copy_shared_from n k' child (addr + pgsize) in
    with_some k.cur λ c. with_some (k.envs c).pgdir λ dir.
      elim (pgdir_walk k.pages dir addr false).0 [
        | stopped ↦ panics
        | no_slot ↦ next k
        | slot_at slot ↦
            let perm = bit_and (read_word k.pages slot) pte_syscall in
            if bit_and perm pte_share == 0
            then next k
            else elim (sys_page_map k 0 addr child addr (bit_or (bit_or pte_share perm) 0x10)) [
              | value _ k' ↦ next k'
              | fails e k' ↦ fails e k'
              | panics ↦ panics
              | leaves out ↦ leaves out
            ]
      ]

pub sys_copy_shared_pages : Kernel → ℕ → Sys
unfolding copy_shared_from
sys_copy_shared_pages k child = copy_shared_from 64 k child 0xd0000000
