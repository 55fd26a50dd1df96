-- ===== src/Fs.antt =====
-- fs/fs.c: the free-block bitmap and the block lists of files; the children add bytes, directories, the block cache and
-- the server.
-- The disk is seen through the block cache, as 32-bit words: the super block is block 1, and the
-- bitmap begins in block 2, so that a stray write changes them here as well. A `struct File *` is
-- the block and the index of its first word. Device I/O is not modelled: a call of flush_block is
-- noted in `flushed`.
pub mod Bitmap
pub mod Blocks
pub mod Layout
pub mod Bytes
pub mod Path
pub mod Cache
pub mod Serve
mod Tests
use zynex_os.Base.{
  ℕ, zero, suc, ◌+◌, ◌-◌, ◌*◌, ◌/◌, ◌%◌, ◌^◌, Bool, true, false, not, ◌&&◌, ◌||◌, Option, none,
  some, List, [], ◌∷◌, ltb, leb, ◌==◌, ◌!=◌, if◌then◌else◌,
}
use zynex_os.Base.Bits.{test_bit, set_bit, clear_bit}

pub record Disk : Type 0 where
  pub word : ℕ → ℕ → ℕ
  pub flushed : List ℕ

abbrev pub set_word : Disk → ℕ × ℕ → ℕ → Disk
set_word d (b, i) v = record d { word = λ b' i'. if b' == b && i' == i then v else d.word b' i' }

-- `flush_block` of an address in block `b`
abbrev pub flush_block : Disk → ℕ → Disk
flush_block d b = record d { flushed = b ∷ d.flushed }

-- `super->s_nblocks`
abbrev pub nblocks : Disk → ℕ
nblocks d = d.word 1 1

-- The words of a block: `BLKSIZE / 4`, which is also `NINDIRECT`.
abbrev pub nindirect : ℕ
nindirect = 1024

abbrev pub ndirect : ℕ
ndirect = 10

abbrev pub blksize : ℕ
blksize = 4096

-- `-E_NO_DISK` in a `uint32_t`
abbrev pub no_disk_word : ℕ
no_disk_word = 2 ^ 32 - 9

-- `&bitmap[w]`
abbrev pub bitmap_slot : ℕ → ℕ × ℕ
bitmap_slot w = (2 + w / nindirect, w % nindirect)

abbrev pub read : Disk → ℕ × ℕ → ℕ
read d (b, i) = d.word b i

-- `bitmap[blockno / 32] & (1 << (blockno % 32))`
abbrev pub free_bit : Disk → ℕ → Bool
free_bit d blockno = test_bit (read d (bitmap_slot (blockno / 32))) (blockno % 32)

pub block_is_free : Disk → ℕ → Bool
block_is_free d blockno = if leb (nblocks d) blockno then false else free_bit d blockno

-- A panic is `none`.
pub free_block : Disk → ℕ → Option Disk
free_block d blockno =
    let slot = bitmap_slot (blockno / 32) in
    if blockno == 0 then none else some (set_word d slot (set_bit (read d slot) (blockno % 32)))

-- The search of `alloc_block` among `n` blocks from `i` on.
pub find_free : ℕ → Disk → ℕ → Option ℕ
find_free zero d i = none
find_free (suc n) d i = let rest = find_free n d (suc i) in if free_bit d i then some i else rest

abbrev pub take_block : Disk → ℕ → Disk
take_block d i =
    let slot = bitmap_slot (i / 32) in
    flush_block (set_word d slot (clear_bit (read d slot) (i % 32))) slot.0

pub alloc_found : Disk → Option ℕ → Option ℕ × Disk
alloc_found d none = (none, d)
alloc_found d (some i) = (some i, take_block d i)

-- The block, or `-E_NO_DISK`.
pub alloc_block : Disk → Option ℕ × Disk
unfolding find_free alloc_found
alloc_block d = alloc_found d (find_free (nblocks d) d 0)

-- `check_super`, with the disk's size in blocks: whether it does not panic.
pub check_super : Disk → ℕ → Bool
check_super d disk_blocks = d.word 1 0 == 0x4A0530AE && leb (nblocks d) disk_blocks

-- The loop of `check_bitmap` over the bitmap's blocks, `n` of them from `i` on.
pub bitmap_in_use : ℕ → Disk → ℕ → Bool
unfolding block_is_free
bitmap_in_use zero d i = true
bitmap_in_use (suc n) d i = not (block_is_free d (2 + i)) && bitmap_in_use n d (suc i)

pub check_bitmap : Disk → Bool
unfolding block_is_free bitmap_in_use
check_bitmap d =
    let bits = blksize * 8 in
    bitmap_in_use ((nblocks d + bits - 1) / bits) d 0
    && (not (block_is_free d 0) && not (block_is_free d 1))

-- Whether `diskaddr` does not panic.
abbrev pub is_block : Disk → ℕ → Bool
is_block d blockno = not (blockno == 0 || leb (nblocks d) blockno)

-- The fields of a `struct File` by their words: 32 words of name, the size, the type, the
-- direct blocks, the indirect block.
abbrev pub size_slot : ℕ × ℕ → ℕ × ℕ
size_slot (b, i) = (b, i + 32)

abbrev pub direct_slot : ℕ × ℕ → ℕ → ℕ × ℕ
direct_slot (b, i) n = (b, i + 34 + n)

abbrev pub indirect_slot : ℕ × ℕ → ℕ × ℕ
indirect_slot (b, i) = (b, i + 44)

-- `f->f_size`; sizes are not negative, and below `2 ^ 31 - blksize`.
abbrev pub file_size : Disk → ℕ × ℕ → ℕ
file_size d f = read d (size_slot f)

-- What a walk gives: a slot, an error, or a panic.
pub data Walk : Type 0 where
  slot_at : ℕ × ℕ → Walk
  not_found no_disk inval stopped : Walk

-- `blk = diskaddr(f->f_indirect); return &blk[n]`
abbrev pub in_indirect : Disk → ℕ × ℕ → ℕ → Walk
in_indirect d f n =
    let b = read d (indirect_slot f) in if is_block d b then slot_at (b, n) else stopped

abbrev pub clear_block : Disk → ℕ → Disk
clear_block d b = record d { word = λ b' i. if b' == b then 0 else d.word b' i }

-- The indirect block is missing, and `alloc_block` has answered: the answer goes to `f_indirect`
-- before it is tested.
pub walk_new : (f : ℕ × ℕ) → ℕ → Option ℕ × Disk → Walk × Disk
walk_new f n (none, d) = (no_disk, set_word d (indirect_slot f) no_disk_word)
walk_new f n (some b, d) =
    let d' = set_word d (indirect_slot f) b in
    let d'' = clear_block d' b in
    if is_block d' b then (in_indirect d'' f n, d'') else (stopped, d')

pub file_block_walk : Disk → (f : ℕ × ℕ) → (filebno : ℕ) → (alloc : Bool) → Walk × Disk
unfolding alloc_block walk_new
file_block_walk d f filebno alloc =
    if ltb filebno ndirect
    then (slot_at (direct_slot f filebno), d)
    else if not (ltb (filebno - ndirect) nindirect)
    then (inval, d)
    else if read d (indirect_slot f) != 0
    then (in_indirect d f (filebno - ndirect), d)
    else if alloc
    then walk_new f (filebno - ndirect) (alloc_block d)
    else (not_found, d)

-- What `file_get_block` gives: a block, an error, or a panic.
pub data Got : Type 0 where
  block : ℕ → Got
  fails : Walk → Got

abbrev pub at_block : Disk → ℕ → Got
at_block d b = if is_block d b then block b else fails stopped

-- The slot is empty, and `alloc_block` has answered.
pub get_new : (slot : ℕ × ℕ) → Option ℕ × Disk → Got × Disk
get_new slot (none, d) = (fails no_disk, set_word d slot no_disk_word)
get_new slot (some b, d) = let d' = set_word d slot b in (at_block d' (read d' slot), d')

pub get_at : Walk × Disk → Got × Disk
unfolding alloc_block get_new
get_at (slot_at slot, d) =
    if read d slot == 0 then get_new slot (alloc_block d) else (at_block d (read d slot), d)
get_at (w, d) = (fails w, d)

pub file_get_block : Disk → (f : ℕ × ℕ) → (filebno : ℕ) → Got × Disk
unfolding file_block_walk get_at
file_get_block d f filebno =
    if ltb (nblocks d) filebno then (fails inval, d) else get_at (file_block_walk d f filebno true)

-- `file_free_block` without the code that it returns, which its caller only prints: on an error of
-- the walk nothing changes. A panic is `none`.
pub free_at : Walk × Disk → Option Disk
unfolding free_block
free_at (slot_at slot, d) =
    if read d slot == 0
    then some d
    else elim (free_block d (read d slot)) [ none ↦ none | some d' ↦ some (set_word d' slot 0) ]
free_at (stopped, d) = none
free_at (w, d) = some d

pub file_free_block : Disk → (f : ℕ × ℕ) → ℕ → Option Disk
unfolding file_block_walk free_at
file_free_block d f filebno = free_at (file_block_walk d f filebno false)

-- The loop of `file_truncate_blocks`, `n` blocks from `bno` on.
pub free_blocks : ℕ → Disk → (f : ℕ × ℕ) → ℕ → Option Disk
unfolding file_free_block
free_blocks zero d f bno = some d
free_blocks (suc n) d f bno = elim (file_free_block d f bno) [
  | none ↦ none
  | some d' ↦ free_blocks n d' f (suc bno)
]

abbrev pub blocks_of : ℕ → ℕ
blocks_of size = (size + blksize - 1) / blksize

-- The indirect block is given back where a short file has one.
pub free_indirect : Disk → (f : ℕ × ℕ) → ℕ → Option Disk
unfolding free_block
free_indirect d f new_nblocks =
    let b = read d (indirect_slot f) in
    if leb new_nblocks ndirect && b != 0
    then elim (free_block d b) [ none ↦ none | some d' ↦ some (set_word d' (indirect_slot f) 0) ]
    else some d

pub file_truncate_blocks : Disk → (f : ℕ × ℕ) → ℕ → Option Disk
unfolding free_blocks free_indirect
file_truncate_blocks d f newsize =
    let new = blocks_of newsize in
    elim (free_blocks (blocks_of (file_size d f) - new) d f new) [
      | none ↦ none
      | some d' ↦ free_indirect d' f new
    ]

pub file_set_size : Disk → (f : ℕ × ℕ) → ℕ → Option Disk
unfolding file_truncate_blocks
file_set_size d f newsize =
    elim (if ltb newsize (file_size d f) then file_truncate_blocks d f newsize else some d) [
      | none ↦ none
      | some d' ↦ some (flush_block (set_word d' (size_slot f) newsize) f.0)
    ]

-- One round of `file_flush`.
pub flush_at : Walk × Disk → Option Disk
flush_at (slot_at slot, d) =
    if read d slot == 0
    then some d
    else if is_block d (read d slot)
    then some (flush_block d (read d slot))
    else none
flush_at (stopped, d) = none
flush_at (w, d) = some d

pub flush_blocks : ℕ → Disk → (f : ℕ × ℕ) → ℕ → Option Disk
unfolding file_block_walk flush_at
flush_blocks zero d f i = some d
flush_blocks (suc n) d f i = elim (flush_at (file_block_walk d f i false)) [
  | none ↦ none
  | some d' ↦ flush_blocks n d' f (suc i)
]

pub file_flush : Disk → (f : ℕ × ℕ) → Option Disk
unfolding flush_blocks
file_flush d f = elim (flush_blocks (blocks_of (file_size d f)) d f 0) [
  | none ↦ none
  | some d' ↦
      let d'' = flush_block d' f.0 in
      let b = read d'' (indirect_slot f) in
      if b == 0 then some d'' else if is_block d'' b then some (flush_block d'' b) else none
]

-- The loop of `fs_sync`, `n` blocks from `i` on.
pub flush_range : ℕ → Disk → ℕ → Disk
flush_range zero d i = d
flush_range (suc n) d i = flush_range n (flush_block d i) (suc i)

pub fs_sync : Disk → Disk
unfolding flush_range
fs_sync d = flush_range (nblocks d - 1) d 1
