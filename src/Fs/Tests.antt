-- ===== src/Fs/Tests.antt =====
-- The bitmap and a file of fs/fs.c on a disk of 40 blocks.
use zynex_os.Base.{
  ℕ, zero, suc, ◌%◌, ◌≡◌, refl, true, false, some, [], arith, ◌==◌, ◌&&◌, if◌then◌else◌,
}
use zynex_os.Base.Bits.{test_bit, clear_bit}
use zynex_os.Fs.{
  Disk, block_is_free, find_free, alloc_found, alloc_block, check_bitmap, bitmap_in_use,
  file_block_walk, block, get_new, get_at, file_get_block,
}
use zynex_os.Fs.Bitmap.{Answers, alloc_block-Answers}

-- Blocks 5 and 6 are free. The root's file is at word 2 of block 1, and its second block is 7;
-- another file, at the start of block 3, has the indirect block 4.
abbrev small : Disk
small = record {
  word = λ b i.
      if b == 1 && i == 1
      then 40
      else if b == 2 && i == 0
      then 96
      else if b == 1 && i == 34
      then 8192
      else if b == 1 && i == 37
      then 7
      else if b == 3 && i == 44
      then 4
      else 0;
  flushed = [];
}

abbrev root : ℕ × ℕ
root = (1, 2)

-- No block is free.
abbrev full : Disk
full = record { word = λ b i. if b == 1 && i == 1 then 40 else 0; flushed = [] }

small_alloc : (alloc_block small).0 ≡ some 5
unfolding alloc_block find_free alloc_found test_bit
small_alloc = refl

small_check : check_bitmap small ≡ true
unfolding check_bitmap bitmap_in_use block_is_free test_bit
small_check = refl

small_get : file_get_block small root 0 ≡ (block 5, (file_get_block small root 0).1)
unfolding file_get_block file_block_walk get_at get_new alloc_block find_free alloc_found test_bit
    clear_bit
small_get = refl

test_bit-zero : (k : ℕ) → test_bit 0 k ≡ false
unfolding test_bit
test_bit-zero zero = refl
test_bit-zero (suc k) = test_bit-zero k

full_disk : (j : ℕ) → block_is_free full j ≡ false
unfolding block_is_free
full_disk j = ground (arith, test_bit-zero (j % 32))

alloc_block-Answers_example : Answers small (alloc_block small)
alloc_block-Answers_example = alloc_block-Answers small
