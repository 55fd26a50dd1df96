-- ===== src/Fs/Serve/Reads.antt =====
-- serve_read of fs/serv.c, when the file system fails.
use zynex_os.Base.{
  ℕ, ◌+◌, ◌-◌, ◌/◌, ◌≢◌, refl, ◌%◌, ◌^◌, ◌<◌, ◌≡◌, ◌∙◌, ap, Option, none, some, arith,
}
use zynex_os.Fs.{Disk, Walk, fails, file_size, file_get_block, blksize}
use zynex_os.Fs.Bytes.{refused, file_read}
use zynex_os.Fs.Bytes.Content.{file_read-fails}
use zynex_os.Fs.Path.{of_walk}
use zynex_os.Fs.Serve.{
  errno, Server, OpenFile, Reply, failed, bad_id, from_fs, after_read, moved, openfile_lookup,
  serve_read,
}

-- A read of an open file, from inside the file, whose first block file_get_block cannot give, for whatever
-- error code but not a panic: the request reports that error, the seek position of the file is moved back by its code, in 32
-- bits, the disk is as file_get_block left it, and the other entries of the table are as they were.
pub serve_read-fails :
    (s : Server) (id i n : ℕ) (w : Walk) (d' : Disk)
    → openfile_lookup s id ≡ some i
    → (s.opentab i).fd_offset < file_size s.disk (s.opentab i).o_file
    → file_get_block s.disk (s.opentab i).o_file ((s.opentab i).fd_offset / blksize) ≡ (fails w, d')
    → 0 < errno w
    → 0 < n
    → (s' : Server) × (serve_read s id n ≡ some (failed (from_fs (of_walk w)), s'))
      × ((s'.opentab i).fd_offset ≡ ((s.opentab i).fd_offset + (2 ^ 32 - errno w)) % 2 ^ 32)
      × (s'.disk ≡ d')
      × ((j : ℕ) → j ≢ i → s'.opentab j ≡ s.opentab j)
unfolding serve_read
serve_read-fails s id i n w d' found inside refuses_block code some_n =
    let f = (s.opentab i).o_file in
    (
      moved s i (refused w) d',
      ap
            (λ o. elim o as (λ _. Option (Reply × Server)) [
              | none ↦ some (failed bad_id, s)
              | some i ↦
                  after_read s i (file_read s.disk (s.opentab i).o_file n (s.opentab i).fd_offset)
            ])
            found
          ∙ ap (after_read s i)
              (file_read-fails s.disk d' f n (s.opentab i).fd_offset w some_n inside refuses_block),
      ap (λ (o : OpenFile). o.fd_offset) entry,
      refl,
      λ j ne. others j ne,
    )
  where
    entry : (moved s i (refused w) d').opentab i ≡ record (s.opentab i) {
      fd_offset = ((s.opentab i).fd_offset + (2 ^ 32 - errno w)) % 2 ^ 32;
    }
    entry = ground arith

    others : (j : ℕ) → j ≢ i → (moved s i (refused w) d').opentab j ≡ s.opentab j
    others j ne = ground (arith, ne)
