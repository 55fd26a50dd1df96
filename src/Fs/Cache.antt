-- ===== src/Fs/Cache.antt =====
-- fs/bc.c and the sector routines of fs/cfi_flash.c: the cache of disk blocks in the memory of the file
-- server. Memory and the flash chip hold bytes by address; a page is its address divided by the block
-- size. The chip's buffered write stores the bytes it is given. A load or a store that faults runs
-- bc_pgfault, and a panic is `none`. Whether the kernel has a page, and whether the bitmap is there and
-- says that a block is free, are parameters.
pub mod Sectors
pub mod View
pub mod Flat
pub mod Flush
mod Tests
use zynex_os.Base.{
  ℕ, zero, suc, ◌+◌, ◌-◌, ◌*◌, ◌/◌, ◌%◌, Bool, true, false, not, ◌&&◌, ◌||◌, Option, none, some,
  ltb, leb, ◌==◌, if◌then◌else◌,
}
use zynex_os.Base.Memory.{Mem, write}

abbrev pub diskmap : ℕ
diskmap = 0x10000000

abbrev pub disksize : ℕ
disksize = 0xC0000000

abbrev pub sectsize : ℕ
sectsize = 512

-- BLKSIZE / SECTSIZE
abbrev pub blksects : ℕ
blksects = 8

abbrev pub fs_nor_offset : ℕ
fs_nor_offset = 0x800000

abbrev pub cfiflash_capacity : ℕ
cfiflash_capacity = 32 * 1024 * 1024

-- `n` bytes from `s` of `src` to `d` of `dst`.
abbrev pub copy_bytes : Mem → (d : ℕ) → Mem → (s n : ℕ) → Mem
copy_bytes dst d src s n x = if leb d x && ltb x (d + n) then src (s + (x - d)) else dst x

-- CfiFlashRead and CfiFlashWrite: past the capacity they do nothing and report an error.
abbrev pub cfi_read_range : Mem → Mem → (buffer offset nbytes : ℕ) → Mem
cfi_read_range flash mem buffer offset nbytes =
    if ltb cfiflash_capacity (offset + nbytes)
    then mem
    else copy_bytes mem buffer flash offset nbytes

abbrev pub cfi_write_range : Mem → Mem → (buffer offset nbytes : ℕ) → Mem
cfi_write_range flash mem buffer offset nbytes =
    if ltb cfiflash_capacity (offset + nbytes)
    then flash
    else copy_bytes flash offset mem buffer nbytes

-- The memory after the sectors are read. The error of a sector is not looked at.
pub cfi_flash_read : (nsecs : ℕ) → Mem → Mem → (secno dst : ℕ) → Mem
cfi_flash_read zero flash mem secno dst = mem
cfi_flash_read (suc nsecs) flash mem secno dst =
    cfi_flash_read nsecs flash
      (cfi_read_range flash mem dst (fs_nor_offset + secno * sectsize) sectsize) (suc secno)
      (dst + sectsize)

-- The chip after the sectors are written.
pub cfi_flash_write : (nsecs : ℕ) → Mem → Mem → (secno src : ℕ) → Mem
cfi_flash_write zero flash mem secno src = flash
cfi_flash_write (suc nsecs) flash mem secno src =
    cfi_flash_write nsecs
      (cfi_write_range flash mem src (fs_nor_offset + secno * sectsize) sectsize) mem (suc secno)
      (src + sectsize)

-- `s_nblocks` is `none` before the super block is mapped. `mapped` and `dirty` are PTE_V and PTE_D by page.
pub record Cache : Type 0 where
  pub mem : Mem
  pub mapped : ℕ → Bool
  pub dirty : ℕ → Bool
  pub flash : Mem
  pub s_nblocks : Option ℕ

abbrev pub set_bit : (ℕ → Bool) → ℕ → Bool → ℕ → Bool
set_bit f p v q = if q == p then v else f q

abbrev pub past_super : Cache → ℕ → Bool
past_super c blockno = elim c.s_nblocks [ none ↦ false | some n ↦ leb n blockno ]

pub diskaddr : Cache → ℕ → Option ℕ
diskaddr c blockno =
    if blockno == 0 || past_super c blockno then none else some (diskmap + blockno * 4096)

abbrev pub in_cache : ℕ → Bool
in_cache va = leb diskmap va && ltb va (diskmap + disksize)

abbrev pub va_is_mapped : Cache → ℕ → Bool
va_is_mapped c va = c.mapped (va / 4096)

-- The entry of a page that is not mapped is 0.
abbrev pub va_is_dirty : Cache → ℕ → Bool
va_is_dirty c va = c.mapped (va / 4096) && c.dirty (va / 4096)

-- The page of a block is mapped, zero first, filled from the chip, and marked clean.
abbrev pub load_block : Cache → ℕ → Cache
load_block c blockno =
    let va = diskmap + blockno * 4096 in
    let fresh = copy_bytes c.mem va (λ x. 0) 0 4096 in
    record c {
      mem = cfi_flash_read blksects c.flash fresh (blksects * blockno) va;
      mapped = set_bit c.mapped (va / 4096) true;
      dirty = set_bit c.dirty (va / 4096) false;
    }

module _ (grants : Cache → Bool) (is_free : Cache → ℕ → Bool) where
  pub bc_pgfault : Cache → ℕ → Option Cache
  unfolding cfi_flash_read
  bc_pgfault c addr =
      let blockno = (addr - diskmap) / 4096 in
      let c' = load_block c blockno in
      if not (in_cache addr) || past_super c blockno || not (grants c) || is_free c' blockno
      then none
      else some c'

  -- A load of the byte at `addr` by the server.
  pub load : Cache → ℕ → Option (ℕ × Cache)
  unfolding bc_pgfault
  load c addr =
      if va_is_mapped c addr
      then some (c.mem addr, c)
      else elim (bc_pgfault c addr) [ none ↦ none | some c' ↦ some (c'.mem addr, c') ]

  -- A store; the hardware marks the page dirty.
  pub store : Cache → ℕ → ℕ → Option Cache
  unfolding bc_pgfault
  store c addr v =
      if va_is_mapped c addr
      then some (stored c)
      else elim (bc_pgfault c addr) [ none ↦ none | some c' ↦ some (stored c') ]
    where
      stored : Cache → Cache
      stored k = record k { mem = write k.mem addr v; dirty = set_bit k.dirty (addr / 4096) true }

pub flush_block : Cache → ℕ → Option Cache
unfolding cfi_flash_write
flush_block c addr =
    let blockno = (addr - diskmap) / 4096 in
    let va = addr / 4096 * 4096 in
    if not (in_cache addr)
    then none
    else if not (va_is_mapped c va)
    then some c
    else if not (va_is_dirty c va)
    then some c
    else some (record c {
      flash = cfi_flash_write blksects c.flash c.mem (blksects * blockno) va;
      dirty = set_bit c.dirty (va / 4096) false;
    })
