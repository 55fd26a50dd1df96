-- ===== src/Fs/Bytes.antt =====
-- file_read and file_write of fs/fs.c: the bytes of a file, four in each word of the disk.
-- The buffer is a list of bytes; sizes and offsets stay below `2 ^ 31`. What a read that fails has
-- put into the buffer is left out. The loops run on fuel, one more than the number of bytes.
pub mod Words
pub mod Content
pub mod Write
pub mod Transfer
mod Tests
use zynex_os.Base.{
  ℕ, zero, suc, ◌+◌, ◌-◌, ◌*◌, ◌/◌, ◌%◌, ◌^◌, min, Option, none, some, List, [], ◌∷◌, ◌++◌, ltb,
  leb, ◌==◌, if◌then◌else◌, Bool, length, take, drop,
}
use zynex_os.Fs.{
  Disk, set_word, blksize, file_size, Walk, stopped, block, fails, file_get_block, file_set_size,
}

-- The byte `i` of a word, the lowest first, and the word with another byte there.
abbrev pub word_byte : ℕ → ℕ → ℕ
word_byte w zero = w % 256
word_byte w (suc zero) = w / 2 ^ 8 % 256
word_byte w (suc (suc zero)) = w / 2 ^ 16 % 256
word_byte w _ = w / 2 ^ 24 % 256

abbrev pub set_word_byte : ℕ → ℕ → ℕ → ℕ
set_word_byte w zero v = w - w % 256 + v
set_word_byte w (suc zero) v = w - w / 2 ^ 8 % 256 * 2 ^ 8 + v * 2 ^ 8
set_word_byte w (suc (suc zero)) v = w - w / 2 ^ 16 % 256 * 2 ^ 16 + v * 2 ^ 16
set_word_byte w _ v = w - w / 2 ^ 24 % 256 * 2 ^ 24 + v * 2 ^ 24

-- `blk[k]` of the block `b`
abbrev pub get_byte : Disk → ℕ → ℕ → ℕ
get_byte d b k = word_byte (d.word b (k / 4)) (k % 4)

abbrev pub put_byte : Disk → ℕ → ℕ → ℕ → Disk
put_byte d b k v = set_word d (b, k / 4) (set_word_byte (d.word b (k / 4)) (k % 4) v)

-- The two `memmove`s, between the block and a buffer elsewhere.
pub get_bytes : Disk → ℕ → ℕ → ℕ → List ℕ
get_bytes d b k zero = []
get_bytes d b k (suc n) = get_byte d b k ∷ get_bytes d b (suc k) n

pub put_bytes : Disk → ℕ → ℕ → List ℕ → Disk
put_bytes d b k [] = d
put_bytes d b k (x ∷ xs) = put_bytes (put_byte d b k x) b (suc k) xs

pub data Transferred : Type 0 where
  bytes : List ℕ → Transferred
  written : ℕ → Transferred
  refused : Walk → Transferred

-- `bn`
abbrev pub chunk : ℕ → ℕ → ℕ
chunk pos left = min (blksize - pos % blksize) left

abbrev pub before_bytes : List ℕ → Option (Transferred × Disk) → Option (Transferred × Disk)
before_bytes xs (some (bytes ys, d)) = some (bytes (xs ++ ys), d)
before_bytes xs r = r

-- The loop of `file_read`, with `left` bytes to read.
pub read_loop : ℕ → Disk → (f : ℕ × ℕ) → (pos left : ℕ) → Option (Transferred × Disk)
unfolding file_get_block get_bytes
read_loop zero d f pos left = none
read_loop (suc fuel) d f pos zero = some (bytes [], d)
read_loop (suc fuel) d f pos (suc left) =
    let (got, d') = file_get_block d f (pos / blksize) in
    let bn = chunk pos (suc left) in
    elim got [
      | fails w ↦ some (refused w, d')
      | block b ↦
          before_bytes (get_bytes d' b (pos % blksize) bn)
            (read_loop fuel d' f (pos + bn) (suc left - bn))
    ]

pub file_read : Disk → (f : ℕ × ℕ) → (count offset : ℕ) → Option (Transferred × Disk)
unfolding read_loop
file_read d f count offset =
    let n = min count (file_size d f - offset) in
    if leb (file_size d f) offset then some (bytes [], d) else read_loop (suc n) d f offset n

-- The loop of `file_write`, with the bytes that are left to write.
pub write_loop : ℕ → Disk → (f : ℕ × ℕ) → (count pos : ℕ) → List ℕ → Option (Transferred × Disk)
unfolding file_get_block put_bytes
write_loop zero d f count pos xs = none
write_loop (suc fuel) d f count pos [] = some (written count, d)
write_loop (suc fuel) d f count pos (x ∷ xs) =
    let (got, d') = file_get_block d f (pos / blksize) in
    let bn = chunk pos (length (x ∷ xs)) in
    elim got [
      | fails w ↦ some (refused w, d')
      | block b ↦
          write_loop fuel (put_bytes d' b (pos % blksize) (take bn (x ∷ xs))) f count (pos + bn)
            (drop bn (x ∷ xs))
    ]

-- The loop, on the disk that the extension has left; `none` is its panic.
abbrev pub write_from :
    (f : ℕ × ℕ) → List ℕ → (offset : ℕ) → Option Disk → Option (Transferred × Disk)
write_from f xs offset none = none
write_from f xs offset (some d) = write_loop (suc (length xs)) d f (length xs) offset xs

-- The file is extended if necessary. Besides the loop's fuel, a panic of file_set_size is `none`.
pub file_write : Disk → (f : ℕ × ℕ) → List ℕ → (offset : ℕ) → Option (Transferred × Disk)
unfolding file_set_size write_loop
file_write d f xs offset =
    let end = offset + length xs in
    write_from f xs offset (if ltb (file_size d f) end then file_set_size d f end else some d)
