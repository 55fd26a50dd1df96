-- ===== src/User/Malloc.antt =====
-- lib/riscv/malloc.c. An address of the environment is a number, and a page is its address divided by
-- PGSIZE. `grants` says for which pages the kernel's sys_page_alloc succeeds; a page that it maps is
-- zero. The loop that looks for address space runs on fuel.
pub mod Space
pub mod Chunk
pub mod Free
pub mod Fresh
pub mod Page
mod Tests
use zynex_os.Base.{
  ℕ, zero, suc, ◌+◌, ◌-◌, ◌*◌, ◌/◌, ◌%◌, ◌^◌, Bool, true, false, not, ◌&&◌, ◌||◌, Option, none,
  some, ltb, leb, ◌==◌, if◌then◌else◌,
}

abbrev pub page_size : ℕ
page_size = 4096

abbrev pub maxmalloc : ℕ
maxmalloc = 1024 * 1024

abbrev pub mbegin : ℕ
mbegin = 0x08000000

abbrev pub mend : ℕ
mend = 0x10000000

-- What the environment has at each page: whether the entry has PTE_V, whether it has PTE_CONTINUED,
-- and the reference count in the last four bytes.
pub record Heap : Type 0 where
  pub mptr : ℕ
  pub mapped : ℕ → Bool
  pub continued : ℕ → Bool
  pub ref : ℕ → ℕ

abbrev pub set_at {ℓ} : {A : Type ℓ} → (ℕ → A) → ℕ → A → ℕ → A
set_at f p v q = if q == p then v else f q

-- A successful sys_page_alloc of the page `p`; what was mapped there is replaced.
abbrev pub map_new_page : Heap → ℕ → Bool → Heap
map_new_page h p cont = record h {
  mapped = set_at h.mapped p true;
  continued = set_at h.continued p cont;
  ref = set_at h.ref p 0;
}

abbrev pub unmap_page : Heap → ℕ → Heap
unmap_page h p = record h {
  mapped = set_at h.mapped p false;
  continued = set_at h.continued p false;
}

-- The loop of isfree from `va` on: where it ends, and the PTE_V bit of the last entry that it read.
pub isfree_from : ℕ → Heap → (va end_va : ℕ) → Bool → ℕ × Bool
isfree_from zero h va end_va pte = (va, pte)
isfree_from (suc rounds) h va end_va pte =
    let rest = isfree_from rounds h (va + page_size) end_va (h.mapped (va / page_size)) in
    if ltb va end_va then rest else (va, pte)

-- The loop has a round for each page that begins before `v + n`.
pub isfree : Heap → (v n : ℕ) → Bool
unfolding isfree_from
isfree h v n =
    let (va, pte) = isfree_from (n / page_size + 1) h v (v + n) false in
    if leb mend va || pte then false else true

-- `--(*ref) == 0`, with the wrap-around of the 32 bits. The count of a page that is not mapped faults
-- in the source, and the model has no fault.
abbrev pub drop_ref : Heap → ℕ → Heap
drop_ref h p =
    let r = (h.ref p + 2 ^ 32 - 1) % 2 ^ 32 in
    let h' = record h { ref = set_at h.ref p r } in if r == 0 then unmap_page h' p else h'

-- The pages from `p` on that are continued are unmapped, then a reference is dropped. An assertion that
-- fails is `none`; a run that has as many rounds as there are pages leaves the range.
pub free_from : ℕ → Heap → ℕ → Option Heap
free_from zero h p = none
free_from (suc rounds) h p =
    let rest = free_from rounds (unmap_page h p) (suc p) in
    if h.continued p
    then if ltb (suc p) (mend / page_size) then rest else none
    else some (drop_ref h p)

pub free : Heap → ℕ → Option Heap
unfolding free_from
free h v =
    if v == 0
    then some h
    else if leb mbegin v && ltb v mend
    then free_from (mend / page_size) h (v / page_size)
    else none

-- Where the scan stops: at an address with room, or after the second time round.
pub data SpaceSearch : Type 0 where
  stopped : ℕ → SpaceSearch
  no_space : ℕ → SpaceSearch
  scanning : SpaceSearch

pub find_space : ℕ → Heap → (mptr nwrap n : ℕ) → SpaceSearch
unfolding isfree
find_space zero h mptr nwrap n = scanning
find_space (suc fuel) h mptr nwrap n =
    let next = find_space fuel h (mptr + page_size) nwrap n in
    let again = find_space fuel h mbegin (nwrap + 1) n in
    if isfree h mptr (n + 4)
    then stopped mptr
    else if mptr + page_size == mend
    then if nwrap + 1 == 2 then no_space mbegin else again
    else next

-- Pages `first` to `first + k`, the last one first.
abbrev pub unmap_pages : Heap → (first k : ℕ) → Heap
unmap_pages h first zero = unmap_page h first
unmap_pages h first (suc k) = unmap_pages (unmap_page h (first + suc k)) first k

-- The loop over the pages of the chunk, from its page `k` on. `none` when the kernel has no page; then
-- those that were mapped are unmapped again.
pub alloc_pages : ℕ → (Heap → ℕ → Bool) → Heap → (first k n : ℕ) → Option ℕ × Heap
alloc_pages zero grants h first k n = (some k, h)
alloc_pages (suc rounds) grants h first k n =
    let cont = ltb (k * page_size + page_size) (n + 4) in
    let rest = alloc_pages rounds grants (map_new_page h (first + k) cont) first (suc k) n in
    if ltb (k * page_size) (n + 4)
    then if grants h (first + k) then rest else (none, unmap_pages h first k)
    else (some k, h)

pub data Malloc : Type 0 where
  returned : ℕ → Heap → Malloc
  asserts : Malloc
  searching : Malloc

-- The two references of a chunk whose pages are mapped.
abbrev pub finish_chunk : (p n : ℕ) → Option ℕ × Heap → Malloc
finish_chunk p n (none, h) = returned 0 h
finish_chunk p n (some k, h) =
    returned p (record h { mptr = p + n; ref = set_at h.ref (p / page_size + k - 1) 2 })

pub take_chunk : (Heap → ℕ → Bool) → Heap → ℕ → SpaceSearch → Malloc
unfolding alloc_pages
take_chunk grants h n scanning = searching
take_chunk grants h n (no_space p) = returned 0 (record h { mptr = p })
take_chunk grants h n (stopped p) =
    finish_chunk p n
      (alloc_pages ((n + 4) / page_size + 1) grants (record h { mptr = p }) (p / page_size) 0 n)

-- From the scan on: `n` is rounded up already.
pub malloc_fresh : ℕ → (Heap → ℕ → Bool) → Heap → ℕ → Malloc
unfolding find_space take_chunk
malloc_fresh fuel grants h n = take_chunk grants h n (find_space fuel h h.mptr 0 n)

-- The rest after the tests of the size.
pub malloc_sized : ℕ → (Heap → ℕ → Bool) → Heap → ℕ → Malloc
unfolding malloc_fresh free
malloc_sized fuel grants h n =
    let p = h.mptr / page_size in
    let fresh = malloc_fresh fuel grants h n in
    if h.mptr % page_size == 0
    then fresh
    else if p == (h.mptr + n + 4 - 1) / page_size
    then returned h.mptr
        (record h { mptr = h.mptr + n; ref = set_at h.ref p ((h.ref p + 1) % 2 ^ 32) })
    else elim (free h h.mptr) [
      | none ↦ asserts
      | some h' ↦
          malloc_fresh fuel grants
            (record h' { mptr = (h.mptr + page_size) / page_size * page_size }) n
    ]

abbrev pub started : Heap → Heap
started h = if h.mptr == 0 then record h { mptr = mbegin } else h

pub malloc : ℕ → (Heap → ℕ → Bool) → Heap → ℕ → Malloc
unfolding malloc_sized
malloc fuel grants h n =
    let size = (n + 7) % 2 ^ 64 / 8 * 8 in
    if leb maxmalloc size then returned 0 (started h) else malloc_sized fuel grants (started h) size
