-- ===== src/Fs/Serve/Tests.antt =====
-- The open-file table of fs/serv.c, with a file of two blocks, and a full disk.
use zynex_os.Base.{
  ℕ, zero, suc, ◌+◌, ◌-◌, ◌%◌, ◌^◌, ◌≢◌, ◌≡◌, refl, inl, false, none, some, [], ◌∷◌, arith, ◌==◌,
  ◌&&◌, if◌then◌else◌,
}
use zynex_os.Base.Bits.{test_bit}
use zynex_os.Fs.{Disk, set_word, direct_slot, no_disk_word, no_disk, block_is_free}
use zynex_os.Fs.Layout.{IsLaid}
use zynex_os.Fs.Bytes.{bytes, file_read}
use zynex_os.Fs.Bytes.Words.{IsBytes}
use zynex_os.Fs.Path.{of_walk}
use zynex_os.Fs.Serve.{
  errno, Server, failed, from_fs, ok, fresh_entry, openfile_lookup, serve_read, serve_write,
}
use zynex_os.Fs.Serve.Table.{IsTable, shared, openfile_lookup-fresh_entry}
use zynex_os.Fs.Serve.Writes.{serve_write-serve_write}
use zynex_os.Fs.Blocks.{file_get_block-no_disk}
use zynex_os.Fs.Serve.Reads.{serve_read-fails}

-- A file of 4097 bytes, at the start of block 3, in the blocks 5 and 6.
abbrev disk : Disk
disk = record {
  word = λ b i.
      if b == 1 && i == 1
      then 40
      else if b == 3 && i == 32
      then 4097
      else if b == 3 && i == 34
      then 5
      else if b == 3 && i == 35
      then 6
      else 0;
  flushed = [];
}

-- A client has the file open as entry 7, just before the border of its blocks.
abbrev server : Server
server = record {
  disk = disk;
  opentab = λ i. record {
    fileid = i;
    o_file = (3, 0);
    mode = 0;
    fd_id = i;
    fd_omode = 0;
    fd_dev_id = 102;
    fd_offset = 4095;
  };
  refs = λ i. if i == 7 then 2 else 0;
}

server-IsTable : IsTable server
server-IsTable = record { own = λ i lt. omega arith; small = λ i lt. omega arith }

abbrev at : ℕ → ℕ
at m = m + 5

disk-IsLaid : IsLaid disk (3, 0) at 2
disk-IsLaid = record {
  few = omega arith;
  short = omega arith;
  holds = λ m lt. ground (arith, lt);
  is = λ m lt. ground (arith, lt);
  distinct = λ m m' lt lt' e. omega (arith, e);
  not_super = λ m lt e. omega (arith, e);
  not_file = λ m lt e. omega (arith, e);
  not_indirect = λ m lt e. omega (arith, e);
  indirect = inl (omega arith);
}

byte-IsBytes : IsBytes (1 ∷ [])
byte-IsBytes zero = omega arith
byte-IsBytes (suc i) = omega arith

-- The same file without its blocks, on a disk with no free block.
abbrev full : Server
full = record server {
  disk = record {
    word = λ b i. if b == 1 && i == 1 then 40 else if b == 3 && i == 32 then 4097 else 0;
    flushed = [];
  };
  opentab = λ i. record {
    fileid = i;
    o_file = (3, 0);
    mode = 0;
    fd_id = i;
    fd_omode = 0;
    fd_dev_id = 102;
    fd_offset = 0;
  };
}

test_bit-zero : (k : ℕ) → test_bit 0 k ≡ false
unfolding test_bit
test_bit-zero zero = refl
test_bit-zero (suc k) = test_bit-zero k

full_disk : (j : ℕ) → block_is_free full.disk j ≡ false
unfolding block_is_free
full_disk j = ground (arith, test_bit-zero (j % 32))

openfile_lookup-fresh_entry_example :
    let t = shared (fresh_entry server 2) 2 in
    (openfile_lookup t 1026 ≡ some 2)
    × (openfile_lookup t 2 ≡ none)
    × (openfile_lookup t 7 ≡ openfile_lookup server 7)
    × IsTable t
openfile_lookup-fresh_entry_example =
    openfile_lookup-fresh_entry server 2 7 server-IsTable (omega arith) (omega arith)

serve_write-serve_write_example :
    (s' s'' : Server) × (serve_write server 7 (1 ∷ []) ≡ some (ok 1, s'))
    × (serve_write s' 7 (1 ∷ []) ≡ some (ok 1, s''))
    × ((s''.opentab 7).fd_offset ≡ 4097)
    × (file_read s''.disk (3, 0) 2 4095 ≡ some (bytes (1 ∷ 1 ∷ []), s''.disk))
unfolding openfile_lookup
serve_write-serve_write_example =
    serve_write-serve_write server 7 7 at 2 (1 ∷ []) (1 ∷ []) refl disk-IsLaid byte-IsBytes
      byte-IsBytes (omega arith) (omega arith)

-- The first block of the file is missing and the disk is full.
serve_read-fails_example :
    (s' : Server) × (serve_read full 7 10 ≡ some (failed (from_fs (of_walk no_disk)), s'))
    × ((s'.opentab 7).fd_offset ≡ ((full.opentab 7).fd_offset + (2 ^ 32 - errno no_disk)) % 2 ^ 32)
    × (s'.disk ≡ set_word full.disk (direct_slot (full.opentab 7).o_file 0) no_disk_word)
    × ((j : ℕ) → j ≢ 7 → s'.opentab j ≡ full.opentab j)
unfolding openfile_lookup
serve_read-fails_example =
    serve_read-fails full 7 7 10 no_disk
      (set_word full.disk (direct_slot (full.opentab 7).o_file 0) no_disk_word) refl (omega arith)
      (file_get_block-no_disk full.disk (full.opentab 7).o_file full_disk refl) (omega arith)
      (omega arith)
