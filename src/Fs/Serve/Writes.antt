-- ===== src/Fs/Serve/Writes.antt =====
-- serve_write of fs/serv.c: writes of one open file, one after the other.
use zynex_os.Base.{
  ℕ, ◌+◌, ◌-◌, ◌*◌, ◌%◌, ◌^◌, ◌<◌, ◌≤◌, ◌≡◌, refl, ◌∙◌, ap, ap₂, subst, inl, Option, none, some,
  List, ◌++◌, arith, leb, ◌!=◌, ◌||◌, if◌then◌else◌, Bool, true, false, length, min,
}
use zynex_os.Fs.{Disk, file_size, blksize}
use zynex_os.Fs.Layout.{IsLaid}
use zynex_os.Fs.Bytes.{bytes, written, file_read, file_write}
use zynex_os.Fs.Bytes.Words.{IsBytes}
use zynex_os.Fs.Bytes.Content.{content, range_same, range-append, file_read-range}
use zynex_os.Fs.Bytes.Transfer.{file_write-Updated, range-list}
use zynex_os.Fs.Serve.{
  maxopen, OpenFile, Server, Reply, ok, failed, bad_id, after_write, moved, openfile_lookup,
  serve_write,
}
use zynex_os.Fs.Serve.Table.{openfile_lookup-own}

abbrev value : Option ℕ → ℕ
value none = 0
value (some k) = k

if_some : (b : Bool) (k i : ℕ) → (if b then none else some k) ≡ some i → (b ≡ false) × (k ≡ i)
if_some true k i e = absurd (cc e)
if_some false k i e = (refl, ap value e)

openfile_lookup-some :
    (s : Server) (id i : ℕ)
    → openfile_lookup s id ≡ some i
    → (id % maxopen ≡ i) × (1 < s.refs i) × ((s.opentab i).fileid ≡ id)
unfolding openfile_lookup
openfile_lookup-some s id i e =
    let k = id % maxopen in
    let (passed, own) = if_some (leb (s.refs k) 1 || (s.opentab k).fileid != id) k i e in
    (
      own,
      subst (λ j. 1 < s.refs j) own (ground (arith, passed)),
      subst (λ j. (s.opentab j).fileid ≡ id) own (ground (arith, passed)),
    )

-- The server after a write of `n` bytes has left the disk `d`.
abbrev wrote : Server → ℕ → ℕ → Disk → Server
wrote s i n d = moved s i (written n) d

serve_write-some :
    (s : Server) (id i : ℕ) (xs : List ℕ) (d : Disk)
    → openfile_lookup s id ≡ some i
    → file_write s.disk (s.opentab i).o_file xs (s.opentab i).fd_offset
      ≡ some (written (length xs), d)
    → serve_write s id xs ≡ some (ok (length xs), wrote s i (length xs) d)
unfolding serve_write
serve_write-some s id i xs d e run =
    ap
      (λ o. elim o as (λ _. Option (Reply × Server)) [
        | none ↦ some (failed bad_id, s)
        | some i ↦
            after_write s i (file_write s.disk (s.opentab i).o_file xs (s.opentab i).fd_offset)
      ])
      e
    ∙ ap (after_write s i) run

-- The entry after a write.
wrote-entry :
    (s : Server) (i n : ℕ) (d : Disk)
    → (wrote s i n d).opentab i
      ≡ record (s.opentab i) { fd_offset = ((s.opentab i).fd_offset + n) % 2 ^ 32 }
wrote-entry s i n d = ground arith

wrote-openfile_lookup :
    (s : Server) (id i n : ℕ) (d : Disk)
    → openfile_lookup s id ≡ some i
    → openfile_lookup (wrote s i n d) id ≡ some i
wrote-openfile_lookup s id i n d e =
    let (own, many, same) = openfile_lookup-some s id i e in
    openfile_lookup-own (wrote s i n d) i id own many
      (ap (λ (o : OpenFile). o.fileid) (wrote-entry s i n d) ∙ same)

-- Two writes of an open file whose blocks are all there answer the numbers of their bytes; the offset
-- is then past both, and the file holds the bytes of the first followed by those of the second from
-- where the offset was.
pub serve_write-serve_write :
    (s : Server) (id i : ℕ) (at : ℕ → ℕ) (n : ℕ) (xs ys : List ℕ)
    → openfile_lookup s id ≡ some i
    → IsLaid s.disk (s.opentab i).o_file at n
    → IsBytes xs
    → IsBytes ys
    → file_size s.disk (s.opentab i).o_file ≤ n * blksize
    → (s.opentab i).fd_offset + length xs + length ys ≤ n * blksize
    → (s' s'' : Server) × (serve_write s id xs ≡ some (ok (length xs), s'))
      × (serve_write s' id ys ≡ some (ok (length ys), s''))
      × ((s''.opentab i).fd_offset ≡ (s.opentab i).fd_offset + length xs + length ys)
      × (file_read s''.disk (s.opentab i).o_file (length xs + length ys) (s.opentab i).fd_offset
          ≡ some (bytes (xs ++ ys), s''.disk))
serve_write-serve_write s id i at n xs ys found laid are are' size fits =
    let off = (s.opentab i).fd_offset in
    let f = (s.opentab i).o_file in
    let (d1, run1, u1) = file_write-Updated s.disk f at n off xs laid are (omega (arith, fits)) in
    let (d2, run2, u2) =
      file_write-Updated d1 f at n (off + length xs) ys u1.laid are' (omega (arith, fits)) in
    let s' = wrote s i (length xs) d1 in
    let s'' = wrote s' i (length ys) d2 in
    let entry = wrote-entry s i (length xs) d1 in
    let moved_to : (s'.opentab i).fd_offset ≡ off + length xs =
      ap (λ (o : OpenFile). o.fd_offset) entry
      ∙ no_wrap (off + length xs) (omega (arith, fits, laid.short)) in
    (
      s',
      s'',
      serve_write-some s id i xs d1 found run1,
      serve_write-some s' id i ys d2 (wrote-openfile_lookup s id i (length xs) d1 found) (
          ap₂ (λ g o. file_write d1 g ys o) (ap (λ (o : OpenFile). o.o_file) entry) moved_to
          ∙ run2),
      ap (λ (o : OpenFile). o.fd_offset) (wrote-entry s' i (length ys) d2)
          ∙ ap (λ o. (o + length ys) % 2 ^ 32) moved_to
          ∙ no_wrap (off + length xs + length ys) (omega (arith, fits, laid.short)),
      file_read-range d2 f at n (length xs + length ys) off u2.laid
            (omega (arith, u1.size, u2.size, size, fits))
          ∙ ap (λ zs. some (bytes zs, d2))
              (range_same (content d2 at) off off
                  (min (length xs + length ys) (file_size d2 f - off)) (length xs + length ys) refl
                  (omega (arith, u2.size))
                ∙ range-append (content d2 at) off (length xs) (length ys) (length xs + length ys)
                    refl
                ∙ ap₂ ◌++◌
                    (range-list (content d2 at) off xs (λ k lt.
                      u2.outside (off + k) (omega (arith, fits)) (inl (omega arith))
                      ∙ u1.inside k lt))
                    (range-list (content d2 at) (off + length xs) ys u2.inside)),
    )
  where
    no_wrap : (k : ℕ) → k < 2 ^ 32 → k % 2 ^ 32 ≡ k
    no_wrap k lt = omega arith
