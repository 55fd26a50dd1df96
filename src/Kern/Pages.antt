-- ===== src/Kern/Pages.antt =====
-- kern/riscv/pmap.c: the physical page allocator, and the four-level page tables.
-- A `struct PageInfo *` is its index in `pages`. A page directory or table is the number of the
-- physical frame that holds it, and physical memory is seen as 512 words to a frame. A `pte_t *` is
-- a slot: a frame and an index. `none` as a result of a function that can panic is the panic.
-- Flushing the TLB is not modelled.
pub mod FreeList
pub mod Init
pub mod Mapping
pub mod Remove
pub mod Check
mod Tests
use Prim.Native.Nat.{bit_or}
use zynex_os.Base.{
  ℕ, zero, suc, ◌+◌, ◌-◌, ◌*◌, ◌/◌, ◌%◌, ◌^◌, Bool, true, false, not, ◌&&◌, ◌||◌, Option, none,
  some, ltb, leb, ◌==◌, ◌!=◌, if◌then◌else◌,
}

pub record PageState : Type 0 where
  -- `pp_link` and `pp_ref` of each page
  pub link : ℕ → Option ℕ
  pub ref : ℕ → ℕ
  -- `page_free_list`
  pub free : Option ℕ
  -- the words of physical memory, by frame and index
  pub word : ℕ → ℕ → ℕ
  pub npages : ℕ

abbrev pub update {ℓ} : {A : Type ℓ} → (ℕ → A) → ℕ → A → ℕ → A
update f p v q = if q == p then v else f q

-- The frame of page 0: `PHYMEMOFF` in frames.
abbrev pub frame_offset : ℕ
frame_offset = 0x80000

-- `page2pa(pp) >> 12`, the frame that page `pp` describes.
abbrev pub frame_of_page : ℕ → ℕ
frame_of_page pp = pp + frame_offset

-- `PTE_ENTRY(page2pa(pp))`
abbrev pub entry_of_page : ℕ → ℕ
entry_of_page pp = frame_of_page pp * 2 ^ 10

-- `PTE_PHY(pte) >> 12`: the frame that an entry points to. The shift to the left drops two bits.
abbrev pub frame_of_entry : ℕ → ℕ
frame_of_entry pte = pte / 2 ^ 10 % 2 ^ 52

-- `PTE_ENTRY(page2pa(pp)) | perm | PTE_V`
abbrev pub make_entry : ℕ → ℕ → ℕ
make_entry pp perm = bit_or (bit_or (entry_of_page pp) perm) 1

-- `pte & PTE_V`
abbrev pub is_valid : ℕ → Bool
is_valid pte = pte % 2 == 1

-- `pa2page`: a panic outside `pages`.
unfoldable pub page_of_frame : PageState → ℕ → Option ℕ
page_of_frame s frame = if leb s.npages (frame % 2 ^ 19) then none else some (frame % 2 ^ 19)

abbrev pub read_word : PageState → ℕ × ℕ → ℕ
read_word s (frame, i) = s.word frame i

-- `*p_pte = v`
abbrev pub write_word : PageState → ℕ × ℕ → ℕ → PageState
write_word s (frame, i) v = record s { word = update s.word frame (update (s.word frame) i v) }

-- `pp->pp_ref++`, a 16-bit counter.
abbrev pub add_ref : PageState → ℕ → PageState
add_ref s pp = record s { ref = update s.ref pp ((s.ref pp + 1) % 2 ^ 16) }

abbrev pub push_free : PageState → ℕ → PageState
push_free s i = record s { ref = update s.ref i 0; link = update s.link i s.free; free = some i }

abbrev pub mark_used : PageState → ℕ → PageState
mark_used s i = record s { ref = update s.ref i 0; link = update s.link i none }

-- The loops of `page_init` over `[i, i + n)`: pages in use, the base memory without the page of the
-- boot code of the other CPUs, and the rest.
pub init_used : ℕ → PageState → ℕ → PageState
init_used zero s i = s
init_used (suc n) s i = init_used n (mark_used s i) (suc i)

pub init_base : ℕ → ℕ → PageState → ℕ → PageState
init_base mpentry zero s i = s
init_base mpentry (suc n) s i =
    init_base mpentry n (if mpentry == i then mark_used s i else push_free s i) (suc i)

pub init_rest : ℕ → PageState → ℕ → PageState
init_rest zero s i = s
init_rest (suc n) s i = init_rest n (push_free s i) (suc i)

-- The bounds are page numbers: the end of the firmware, the end of base memory, the start of
-- extended memory, and what `boot_alloc(0)` returns; `mpentry` is that of the boot code.
pub page_init : (firmware basemem extended kernel_end mpentry : ℕ) → PageState → PageState
unfolding init_used init_base init_rest
page_init firmware basemem extended kernel_end mpentry s =
    let s1 = init_used firmware s 0 in
    let s2 = init_base mpentry (basemem - firmware) s1 firmware in
    let s3 = init_used (kernel_end - extended) s2 extended in
    let i = if ltb extended kernel_end then kernel_end else extended in
    init_rest (s.npages - i) s3 i

-- `page_alloc`; `zeroed` is `alloc_flags & ALLOC_ZERO`.
unfoldable pub page_alloc : PageState → (zeroed : Bool) → Option ℕ × PageState
page_alloc s zeroed = elim s.free [
  | none ↦ (none, s)
  | some pp ↦
      let s' = record s { free = s.link pp; link = update s.link pp none } in
      (
        some pp,
        if zeroed then record s' { word = update s.word (frame_of_page pp) (λ _. 0) } else s',
      )
]

abbrev pub is_none {ℓ} : {A : Type ℓ} → Option A → Bool
is_none none = true
is_none (some a) = false

unfoldable pub page_free : PageState → ℕ → Option PageState
page_free s pp =
    if s.ref pp != 0
    then none
    else if is_none (s.link pp)
    then some (record s { link = update s.link pp s.free; free = some pp })
    else none

unfoldable pub page_decref : PageState → ℕ → Option PageState
unfolding page_free
page_decref s pp =
    let r = (s.ref pp + (2 ^ 16 - 1)) % 2 ^ 16 in
    let s' = record s { ref = update s.ref pp r } in if r == 0 then page_free s' pp else some s'

-- `PD0X`, `PD1X`, `PD2X` and `PTX`
abbrev pub pd0x : ℕ → ℕ
pd0x va = va / 2 ^ 39 % 2 ^ 9

abbrev pub pd1x : ℕ → ℕ
pd1x va = va / 2 ^ 30 % 2 ^ 9

abbrev pub pd2x : ℕ → ℕ
pd2x va = va / 2 ^ 21 % 2 ^ 9

abbrev pub ptx : ℕ → ℕ
ptx va = va / 2 ^ 12 % 2 ^ 9

-- What a walk gives: the slot, NULL, or a panic of `KADDR`.
pub data Walk : Type 0 where
  stopped no_slot : Walk
  slot_at : ℕ × ℕ → Walk

-- The test of `KADDR` for a frame.
abbrev pub in_memory : PageState → ℕ → Bool
in_memory s frame = ltb (frame % 2 ^ 19) s.npages

pub pgdir_walk_through : PageState → ℕ → ℕ → Walk
pgdir_walk_through s pgdir va =
    let e0 = s.word pgdir (pd0x va) in
    let e1 = s.word (frame_of_entry e0) (pd1x va) in
    let e2 = s.word (frame_of_entry e1) (pd2x va) in
    if not (is_valid e0)
    then no_slot
    else if not (in_memory s (frame_of_entry e0))
    then stopped
    else if not (is_valid e1)
    then no_slot
    else if not (in_memory s (frame_of_entry e1))
    then stopped
    else if not (is_valid e2)
    then no_slot
    else if not (in_memory s (frame_of_entry e2))
    then stopped
    else slot_at (frame_of_entry e2, ptx va)

-- A zeroed page for a table, its count raised.
pub alloc_table : PageState → Option ℕ × PageState
unfolding page_alloc
alloc_table s =
    let (o, s') = page_alloc s true in
    elim o [ none ↦ (none, s') | some pp ↦ (some pp, add_ref s' pp) ]

-- `PDE_ENTRY(paddr_) | PTE_V`
abbrev pub make_dir : ℕ → ℕ
make_dir pp = bit_or (entry_of_page pp) 1

-- One level: an invalid entry takes the table at hand, and a next one is allocated.
pub create_level : PageState → ℕ → ℕ → (fresh : ℕ) → Option ℕ × PageState
unfolding alloc_table
create_level s dir i fresh =
    if is_valid (s.word dir i)
    then (some fresh, s)
    else alloc_table (write_word s (dir, i) (make_dir fresh))

-- The last level allocates nothing more.
pub create_last : PageState → ℕ → ℕ → (fresh : ℕ) → PageState
create_last s dir i fresh =
    if is_valid (s.word dir i) then s else write_word s (dir, i) (make_dir fresh)

-- The last level and the slot, with the fresh table `f2` at hand.
pub create_slot : PageState → (dir2 va f2 : ℕ) → Walk × PageState
unfolding create_last
create_slot s dir2 va f2 =
    let s' = create_last s dir2 (pd2x va) f2 in
    let table = frame_of_entry (s'.word dir2 (pd2x va)) in
    if in_memory s' table then (slot_at (table, ptx va), s') else (stopped, s')

pub pgdir_create_page_level : PageState → ℕ → ℕ → Walk × PageState
unfolding alloc_table create_level create_slot
pgdir_create_page_level s pgdir va =
    let (o0, s0) = alloc_table s in
    elim o0 [
      | none ↦ (no_slot, s0)
      | some f0 ↦
          let (o1, s1) = create_level s0 pgdir (pd0x va) f0 in
          elim o1 [
            | none ↦ (no_slot, s1)
            | some f1 ↦
                let dir1 = frame_of_entry (s1.word pgdir (pd0x va)) in
                if not (in_memory s1 dir1)
                then (stopped, s1)
                else let (o2, s2) = create_level s1 dir1 (pd1x va) f1 in
                  elim o2 [
                    | none ↦ (no_slot, s2)
                    | some f2 ↦
                        let dir2 = frame_of_entry (s2.word dir1 (pd1x va)) in
                        if in_memory s2 dir2 then create_slot s2 dir2 va f2 else (stopped, s2)
                  ]
          ]
    ]

pub pgdir_walk : PageState → ℕ → ℕ → (create : Bool) → Walk × PageState
unfolding pgdir_walk_through pgdir_create_page_level
pgdir_walk s pgdir va create = elim (pgdir_walk_through s pgdir va) [
  | slot_at slot ↦ (slot_at slot, s)
  | stopped ↦ (stopped, s)
  | no_slot ↦ if create then pgdir_create_page_level s pgdir va else (no_slot, s)
]

-- What `page_lookup` finds: no page, or a page and its slot.
pub data Lookup : Type 0 where
  unmapped : Lookup
  mapped : ℕ → ℕ × ℕ → Lookup

pub page_lookup : PageState → ℕ → ℕ → Option Lookup
unfolding pgdir_walk page_of_frame
page_lookup s pgdir va = elim (pgdir_walk s pgdir va false).0 [
  | stopped ↦ none
  | no_slot ↦ some unmapped
  | slot_at slot ↦
      if read_word s slot == 0
      then some unmapped
      else elim (page_of_frame s (frame_of_entry (read_word s slot))) [
        | none ↦ none
        | some pp ↦ some (mapped pp slot)
      ]
]

pub page_remove : PageState → ℕ → ℕ → Option PageState
unfolding page_lookup page_decref
page_remove s pgdir va = elim (page_lookup s pgdir va) [
  | none ↦ none
  | some found ↦ elim found [
    | unmapped ↦ some s
    | mapped pp slot ↦
        if s.ref pp == 0
        then none
        else elim (page_decref s pp) [ none ↦ none | some s' ↦ some (write_word s' slot 0) ]
  ]
]

-- `*p_pte & ~0xffc00000000003ff`: bits 10 to 53.
abbrev pub entry_page_bits : ℕ → ℕ
entry_page_bits pte = pte / 2 ^ 10 % 2 ^ 44 * 2 ^ 10

-- The corner case at the end of `page_insert`.
abbrev pub drop_if_head : PageState → ℕ → PageState
drop_if_head s pp = elim s.free [
  | none ↦ s
  | some head ↦ if head == pp then record s { free = s.link head } else s
]

-- 0, or `-E_NO_MEM`
pub data Inserted : Type 0 where
  inserted no_mem : Inserted

-- `page_insert` once the walk has given the slot.
pub insert_at : PageState → ℕ → ℕ → ℕ → ℕ → ℕ × ℕ → Option (Inserted × PageState)
unfolding page_remove
insert_at s pgdir pp va perm slot =
    let fresh = λ (t : PageState). write_word (add_ref t pp) slot (make_entry pp perm) in
    if read_word s slot != 0
    then if entry_page_bits (read_word s slot) != entry_of_page pp
      then elim (page_remove s pgdir va) [
        | none ↦ none
        | some s' ↦ some (inserted, drop_if_head (fresh s') pp)
      ]
      else some (inserted, drop_if_head (write_word s slot (make_entry pp perm)) pp)
    else some (inserted, drop_if_head (fresh s) pp)

pub insert_walked : ℕ → ℕ → ℕ → ℕ → Walk × PageState → Option (Inserted × PageState)
unfolding insert_at
insert_walked pgdir pp va perm (stopped, s) = none
insert_walked pgdir pp va perm (no_slot, s) = some (no_mem, s)
insert_walked pgdir pp va perm (slot_at slot, s) = insert_at s pgdir pp va perm slot

pub page_insert : PageState → ℕ → ℕ → ℕ → ℕ → Option (Inserted × PageState)
unfolding pgdir_walk insert_walked
page_insert s pgdir pp va perm = insert_walked pgdir pp va perm (pgdir_walk s pgdir va true)
