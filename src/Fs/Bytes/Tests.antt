-- ===== src/Fs/Bytes/Tests.antt =====
-- file_read and file_write of fs/fs.c across the border of two blocks.
use zynex_os.Base.{
  ℕ, zero, suc, ◌+◌, ◌≡◌, inl, some, List, [], ◌∷◌, arith, ◌==◌, ◌&&◌, if◌then◌else◌,
}
use zynex_os.Fs.{Disk}
use zynex_os.Fs.Layout.{IsLaid}
use zynex_os.Fs.Bytes.{bytes, written, file_read, file_write}
use zynex_os.Fs.Bytes.Words.{IsBytes}
use zynex_os.Fs.Bytes.Transfer.{Updated, file_write-Updated, file_read-file_write}

-- A file of 4097 bytes, at the start of block 3, in the blocks 5 and 6.
abbrev small : Disk
small = record {
  word = λ b i.
      if b == 1 && i == 1
      then 40
      else if b == 3 && i == 32
      then 4097
      else if b == 3 && i == 34
      then 5
      else if b == 3 && i == 35
      then 6
      else 0;
  flushed = [];
}

abbrev file : ℕ × ℕ
file = (3, 0)

abbrev at : ℕ → ℕ
at m = m + 5

small-IsLaid : IsLaid small file at 2
small-IsLaid = record {
  few = omega arith;
  short = omega arith;
  holds = λ m lt. ground (arith, lt);
  is = λ m lt. ground (arith, lt);
  distinct = λ m m' lt lt' e. omega (arith, e);
  not_super = λ m lt e. omega (arith, e);
  not_file = λ m lt e. omega (arith, e);
  not_indirect = λ m lt e. omega (arith, e);
  indirect = inl (omega arith);
}

abbrev some_bytes : List ℕ
some_bytes = 1 ∷ 2 ∷ 3 ∷ []

some_bytes-IsBytes : IsBytes some_bytes
some_bytes-IsBytes zero = omega arith
some_bytes-IsBytes (suc zero) = omega arith
some_bytes-IsBytes (suc (suc zero)) = omega arith
some_bytes-IsBytes (suc (suc (suc i))) = omega arith

file_write-Updated_example :
    (d' : Disk) × (file_write small file some_bytes 4095 ≡ some (written 3, d'))
    × Updated small file at 2 4095 some_bytes d'
file_write-Updated_example =
    file_write-Updated small file at 2 4095 some_bytes small-IsLaid some_bytes-IsBytes (omega arith)

file_read-file_write_example :
    (d' : Disk) × (file_write small file some_bytes 4095 ≡ some (written 3, d'))
    × (file_read d' file 3 4095 ≡ some (bytes some_bytes, d'))
file_read-file_write_example =
    file_read-file_write small file at 2 4095 some_bytes small-IsLaid some_bytes-IsBytes
      (omega arith) (omega arith)
