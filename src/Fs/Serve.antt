-- ===== src/Fs/Serve.antt =====
-- fs/serv.c: the table of open files and the handlers of the requests.
-- `refs i` is what `pageref` answers for the Fd page of entry `i`: the kernel changes it when clients
-- map and unmap the page. Whether `sys_page_alloc` has a page is an argument. The fields of the Fd
-- page stand in the entry. A panic is the error `stopped`; the result is `none` only if the fuel of a
-- loop of fs/fs.c ran out, or file_set_size panicked under file_write.
pub mod Table
pub mod Writes
pub mod Reads
mod Tests
use zynex_os.Base.{
  ℕ, zero, suc, ◌+◌, ◌-◌, ◌*◌, ◌%◌, ◌^◌, Option, none, some, List, [], ◌∷◌, ltb, leb, ◌==◌, ◌!=◌,
  ◌&&◌, ◌||◌, not, if◌then◌else◌, Bool, true, false, length, take,
}
use zynex_os.Base.Bits.{test_bit}
use zynex_os.Fs.{
  Disk, Walk, not_found, no_disk, inval, stopped, slot_at, file_size, file_set_size, file_flush,
  fs_sync,
}
use zynex_os.Fs.Bytes.{get_byte, Transferred, bytes, written, refused, file_read, file_write}
use zynex_os.Fs.Path.{
  Error, of_walk, bad_path, file_exists, FoundFile, file, error, is_dir, file_create, file_open,
  maxnamelen,
}

abbrev pub maxopen : ℕ
maxopen = 1024

pub record OpenFile : Type 0 where
  pub fileid : ℕ
  pub o_file : ℕ × ℕ
  pub mode : ℕ
  pub fd_id : ℕ
  pub fd_omode : ℕ
  pub fd_dev_id : ℕ
  pub fd_offset : ℕ

pub record Server : Type 0 where
  pub disk : Disk
  pub opentab : ℕ → OpenFile
  pub refs : ℕ → ℕ

abbrev pub set_entry : Server → ℕ → OpenFile → Server
set_entry s i o = record s { opentab = λ j. if j == i then o else s.opentab j }

-- `serve_init`: the file ids are the indices.
pub serve_init : Server → Server
serve_init s = record s { opentab = λ i. record (s.opentab i) { fileid = i } }

pub data ServeError : Type 0 where
  max_open no_mem bad_id : ServeError
  from_fs : Error → ServeError

pub data Reply : Type 0 where
  ok : ℕ → Reply
  data_read : List ℕ → Reply
  failed : ServeError → Reply

-- A free entry: a new id, a clear Fd page, and `sys_page_alloc` if nobody has the page.
abbrev pub fresh_entry : Server → ℕ → Server
fresh_entry s i =
    let s' = set_entry s i (record (s.opentab i) {
      fileid = ((s.opentab i).fileid + maxopen) % 2 ^ 32;
      fd_id = 0;
      fd_omode = 0;
      fd_dev_id = 0;
      fd_offset = 0;
    }) in
    record s' { refs = λ j. if j == i then 1 else s.refs j }

pub data EntryAlloc : Type 0 where
  entry_at : ℕ → EntryAlloc
  refuses : ServeError → EntryAlloc

-- The loop of openfile_alloc, `n` entries from `i` on.
pub openfile_alloc_from : ℕ → (page : Bool) → Server → ℕ → EntryAlloc × Server
openfile_alloc_from zero page s i = (refuses max_open, s)
openfile_alloc_from (suc n) page s i =
    let rest = openfile_alloc_from n page s (suc i) in
    if s.refs i == 0
    then (if page then (entry_at i, fresh_entry s i) else (refuses no_mem, s))
    else if s.refs i == 1
    then (entry_at i, fresh_entry s i)
    else rest

pub openfile_alloc : (page : Bool) → Server → EntryAlloc × Server
unfolding openfile_alloc_from
openfile_alloc page s = openfile_alloc_from maxopen page s 0

-- The entry, or `-E_INVAL`.
pub openfile_lookup : Server → (fileid : ℕ) → Option ℕ
openfile_lookup s fileid =
    let i = fileid % maxopen in
    if leb (s.refs i) 1 || (s.opentab i).fileid != fileid then none else some i

-- `O_CREAT`, `O_TRUNC` and `O_EXCL`
abbrev pub wants_create : ℕ → Bool
wants_create omode = test_bit omode 8

abbrev pub wants_trunc : ℕ → Bool
wants_trunc omode = test_bit omode 9

abbrev pub wants_excl : ℕ → Bool
wants_excl omode = test_bit omode 10

-- What `file_create` has answered: a file that exists is opened, but for `O_EXCL`.
abbrev pub after_create :
    (path : List ℕ) → (omode : ℕ) → FoundFile → Disk → Option (FoundFile × Disk)
after_create path omode (error file_exists) d =
    if wants_excl omode then some (error file_exists, d) else file_open d path
after_create path omode r d = some (r, d)

pub open_or_create : Disk → (path : List ℕ) → (omode : ℕ) → Option (FoundFile × Disk)
open_or_create d path omode =
    if wants_create omode
    then elim (file_create d path) [ none ↦ none | some (r, d') ↦ after_create path omode r d' ]
    else file_open d path

-- The truncation, and the second `file_open`.
abbrev pub truncate_open :
    (path : List ℕ) → (omode : ℕ) → FoundFile → Disk → Option (FoundFile × Disk)
truncate_open path omode (error e) d = some (error e, d)
truncate_open path omode (file f) d =
    elim (if wants_trunc omode then file_set_size d f 0 else some d) [
      | none ↦ some (error (of_walk stopped), d)
      | some d' ↦ file_open d' path
    ]

pub open_file : Disk → (path : List ℕ) → (omode : ℕ) → Option (FoundFile × Disk)
unfolding open_or_create
open_file d path omode = elim (open_or_create d path omode) [
  | none ↦ none
  | some (r, d') ↦ truncate_open path omode r d'
]

abbrev pub with_disk : Server → Disk → Server
with_disk s d = record s { disk = d }

-- The entry and its Fd page describe the file that is open.
abbrev pub fill_entry : Server → ℕ → (f : ℕ × ℕ) → (omode : ℕ) → Server
fill_entry s i f omode =
    let o = s.opentab i in
    set_entry s i (record o {
      o_file = f;
      fd_id = o.fileid;
      fd_omode = omode % 4;
      fd_dev_id = 102;
      mode = omode;
    })

abbrev pub opened : ℕ → (omode : ℕ) → Server → Option (FoundFile × Disk) → Option (Reply × Server)
opened i omode s none = none
opened i omode s (some (error e, d)) = some (failed (from_fs e), with_disk s d)
opened i omode s (some (file f, d)) = some (ok 0, fill_entry (with_disk s d) i f omode)

-- The path is cut to `MAXPATHLEN - 1` characters. The id is answered as an `int` in the source: the
-- model has no negative one, so it stands for the ids below 2 ^ 31.
pub serve_open : (page : Bool) → Server → (path : List ℕ) → (omode : ℕ) → Option (Reply × Server)
unfolding openfile_alloc open_file
serve_open page s path omode =
    let (r, s') = openfile_alloc page s in
    elim r [
      | refuses e ↦ some (failed e, s')
      | entry_at i ↦ opened i omode s' (open_file s'.disk (take 1023 path) omode)
    ]

-- A handler that begins with `openfile_lookup`.
abbrev pub on_entry :
    Server → (fileid : ℕ) → (ℕ → Option (Reply × Server)) → Option (Reply × Server)
on_entry s fileid handler = elim (openfile_lookup s fileid) [
  | none ↦ some (failed bad_id, s)
  | some i ↦ handler i
]

pub serve_set_size : Server → (fileid size : ℕ) → Option (Reply × Server)
unfolding openfile_lookup file_set_size
serve_set_size s fileid size = on_entry s fileid (λ i.
    elim (file_set_size s.disk (s.opentab i).o_file size) [
      | none ↦ some (failed (from_fs (of_walk stopped)), s)
      | some d ↦ some (ok 0, with_disk s d)
    ])

-- The codes of inc/riscv/error.h; a panic has none.
abbrev pub errno : Walk → ℕ
errno inval = 3
errno no_disk = 9
errno not_found = 11
errno w = 0

-- `o->o_fd->fd_offset += r`, in 32 bits, with the negated code of an error.
abbrev pub advanced : ℕ → Transferred → ℕ
advanced offset (bytes xs) = (offset + length xs) % 2 ^ 32
advanced offset (written n) = (offset + n) % 2 ^ 32
advanced offset (refused w) = (offset + (2 ^ 32 - errno w)) % 2 ^ 32

abbrev pub reply_of : Transferred → Reply
reply_of (bytes xs) = data_read xs
reply_of (written n) = ok n
reply_of (refused w) = failed (from_fs (of_walk w))

abbrev pub moved : Server → ℕ → Transferred → Disk → Server
moved s i r d =
    let o = s.opentab i in
    set_entry (with_disk s d) i (record o { fd_offset = advanced o.fd_offset r })

-- serve_read moves the offset whatever file_read has answered, serve_write only if it has written.
abbrev pub after_read : Server → ℕ → Option (Transferred × Disk) → Option (Reply × Server)
after_read s i none = none
after_read s i (some (r, d)) = some (reply_of r, moved s i r d)

abbrev pub after_write : Server → ℕ → Option (Transferred × Disk) → Option (Reply × Server)
after_write s i none = none
after_write s i (some (refused w, d)) = some (reply_of (refused w), with_disk s d)
after_write s i (some (r, d)) = some (reply_of r, moved s i r d)

pub serve_read : Server → (fileid n : ℕ) → Option (Reply × Server)
unfolding openfile_lookup
serve_read s fileid n =
    on_entry s fileid
      (λ i. after_read s i (file_read s.disk (s.opentab i).o_file n (s.opentab i).fd_offset))

pub serve_write : Server → (fileid : ℕ) → List ℕ → Option (Reply × Server)
unfolding openfile_lookup
serve_write s fileid xs =
    on_entry s fileid
      (λ i. after_write s i (file_write s.disk (s.opentab i).o_file xs (s.opentab i).fd_offset))

pub serve_flush : Server → (fileid : ℕ) → Option (Reply × Server)
unfolding openfile_lookup file_flush
serve_flush s fileid = on_entry s fileid (λ i. elim (file_flush s.disk (s.opentab i).o_file) [
  | none ↦ some (failed (from_fs (of_walk stopped)), s)
  | some d ↦ some (ok 0, with_disk s d)
])

pub serve_sync : Server → Option (Reply × Server)
unfolding fs_sync
serve_sync s = some (ok 0, with_disk s (fs_sync s.disk))

-- The requests by their page. `FSREQ_STAT`, which copies fields to the page, is left out.
pub data Request : Type 0 where
  open_request : (path : List ℕ) → (omode : ℕ) → Request
  set_size_request : (fileid size : ℕ) → Request
  read_request : (fileid n : ℕ) → Request
  write_request : (fileid : ℕ) → List ℕ → Request
  flush_request : (fileid : ℕ) → Request
  sync_request : Request
  unknown_request : Request

-- One round of the loop of `serve`, up to the reply.
pub serve_request : (page : Bool) → Server → Request → Option (Reply × Server)
unfolding serve_open serve_set_size serve_read serve_write serve_flush serve_sync
serve_request page s (open_request path omode) = serve_open page s path omode
serve_request page s (set_size_request fileid size) = serve_set_size s fileid size
serve_request page s (read_request fileid n) = serve_read s fileid n
serve_request page s (write_request fileid xs) = serve_write s fileid xs
serve_request page s (flush_request fileid) = serve_flush s fileid
serve_request page s sync_request = serve_sync s
serve_request page s unknown_request = some (failed bad_id, s)
