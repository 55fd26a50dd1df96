-- ===== src/Fs/Path.antt =====
-- Directories and paths of fs/fs.c: dir_lookup, dir_alloc_file, walk_path, file_create, file_open.
-- A path or a name is the list of its characters, none of them NUL. The names in a directory are the
-- bytes at the start of its `struct File`s, 16 of 64 words in a block.
pub mod Words
pub mod Lookup
pub mod Name
pub mod Create
mod Tests
use zynex_os.Base.{
  ℕ, zero, suc, ◌+◌, ◌-◌, ◌*◌, ◌/◌, ◌%◌, Option, none, some, List, [], ◌∷◌, ◌++◌, ltb, leb, ◌==◌,
  ◌!=◌, ◌&&◌, if◌then◌else◌, Bool, true, false, length,
}
use zynex_os.Fs.{
  Disk, set_word, read, size_slot, file_size, blksize, Walk, not_found, stopped, block, fails,
  file_get_block, file_flush,
}
use zynex_os.Fs.Bytes.{get_byte, put_bytes}

abbrev pub blkfiles : ℕ
blkfiles = 16

abbrev pub maxnamelen : ℕ
maxnamelen = 128

-- '/'
abbrev pub slash : ℕ
slash = 47

-- `&super->s_root`
abbrev pub root : ℕ × ℕ
root = (1, 2)

-- `f->f_type == FTYPE_DIR`
abbrev pub is_dir : Disk → ℕ × ℕ → Bool
is_dir d (b, i) = d.word b (i + 33) == 1

-- `strcmp(f_name, name) == 0`, for the name at the byte `k` of a block.
pub name_from : Disk → (b k : ℕ) → List ℕ → Bool
name_from d b k [] = get_byte d b k == 0
name_from d b k (c ∷ name) = get_byte d b k == c && name_from d b (suc k) name

abbrev pub name_is : List ℕ → Disk → ℕ × ℕ → Bool
name_is name d (b, i) = name_from d b (i * 4) name

-- `f[j].f_name[0] == '\0'`
abbrev pub is_unused : Disk → ℕ × ℕ → Bool
is_unused d (b, i) = get_byte d b (i * 4) == 0

-- `&f[j]`
abbrev pub entry_in : ℕ → ℕ → ℕ × ℕ
entry_in b j = (b, j * 64)

-- The inner loop of both searches, `n` entries from `j` on.
pub scan_entries : (Disk → ℕ × ℕ → Bool) → ℕ → Disk → (b j : ℕ) → Option (ℕ × ℕ)
scan_entries test zero d b j = none
scan_entries test (suc n) d b j =
    let rest = scan_entries test n d b (suc j) in
    if test d (entry_in b j) then some (entry_in b j) else rest

pub data Scan : Type 0 where
  entry : ℕ × ℕ → Scan
  no_entry : Scan
  scan_fails : Walk → Scan

-- The outer loop, `n` blocks from `i` on.
pub scan_blocks : (Disk → ℕ × ℕ → Bool) → ℕ → Disk → (dir : ℕ × ℕ) → ℕ → Scan × Disk
unfolding file_get_block scan_entries
scan_blocks test zero d dir i = (no_entry, d)
scan_blocks test (suc n) d dir i =
    let (got, d') = file_get_block d dir i in
    elim got [
      | fails w ↦ (scan_fails w, d')
      | block b ↦ elim (scan_entries test blkfiles d' b 0) [
        | some s ↦ (entry s, d')
        | none ↦ scan_blocks test n d' dir (suc i)
      ]
    ]

pub data Error : Type 0 where
  of_walk : Walk → Error
  bad_path file_exists : Error

pub data FoundFile : Type 0 where
  file : ℕ × ℕ → FoundFile
  error : Error → FoundFile

abbrev pub lookup_found : Scan × Disk → FoundFile × Disk
lookup_found (entry s, d) = (file s, d)
lookup_found (no_entry, d) = (error (of_walk not_found), d)
lookup_found (scan_fails w, d) = (error (of_walk w), d)

-- An assertion that fails stops the server.
pub dir_lookup : Disk → (dir : ℕ × ℕ) → (name : List ℕ) → FoundFile × Disk
unfolding scan_blocks name_from
dir_lookup d dir name =
    if file_size d dir % blksize == 0
    then lookup_found (scan_blocks (name_is name) (file_size d dir / blksize) d dir 0)
    else (error (of_walk stopped), d)

-- No entry is free: the directory grows by a block.
pub dir_extend : Disk → (dir : ℕ × ℕ) → FoundFile × Disk
unfolding file_get_block
dir_extend d dir =
    let (got, d') =
      file_get_block (set_word d (size_slot dir) (file_size d dir + blksize)) dir
        (file_size d dir / blksize) in
    elim got [ fails w ↦ (error (of_walk w), d') | block b ↦ (file (b, 0), d') ]

abbrev pub alloc_file : (dir : ℕ × ℕ) → Scan × Disk → FoundFile × Disk
unfolding dir_extend
alloc_file dir (entry s, d) = (file s, d)
alloc_file dir (scan_fails w, d) = (error (of_walk w), d)
alloc_file dir (no_entry, d) = dir_extend d dir

pub dir_alloc_file : Disk → (dir : ℕ × ℕ) → FoundFile × Disk
unfolding scan_blocks alloc_file
dir_alloc_file d dir =
    if file_size d dir % blksize == 0
    then alloc_file dir (scan_blocks is_unused (file_size d dir / blksize) d dir 0)
    else (error (of_walk stopped), d)

pub skip_slash : List ℕ → List ℕ
skip_slash [] = []
skip_slash (c ∷ p) = let rest = skip_slash p in if c == slash then rest else c ∷ p

-- The characters up to the next slash, and the rest.
pub component : List ℕ → List ℕ × List ℕ
component [] = ([], [])
component (c ∷ p) =
    let (name, rest) = component p in if c == slash then ([], c ∷ p) else (c ∷ name, rest)

-- What walk_path returns and stores: a null `*pdir` is `none`.
pub record Walked : Type 0 where
  pub found : FoundFile
  pub pdir : Option (ℕ × ℕ)
  pub lastelem : List ℕ
  pub disk : Disk

abbrev pub walk_fails : Error → Disk → Walked
walk_fails e d = record { found = error e; pdir = none; lastelem = []; disk = d }

-- The lookup of `name` in `dir` has failed; `left` is what is left of the path.
abbrev pub lookup_failed :
    {A : Type 0} → (dir : ℕ × ℕ) → (name : List ℕ) → (left : List A) → Error → Disk → Walked
lookup_failed dir name [] (of_walk not_found) d = record {
  found = error (of_walk not_found);
  pdir = some dir;
  lastelem = name;
  disk = d;
}
lookup_failed dir name left e d = walk_fails e d

-- The loop of walk_path, at the file `f` in the directory `dir`. It runs on fuel, one more than the
-- length of the path.
pub walk_loop : ℕ → Disk → (f : ℕ × ℕ) → (dir : Option (ℕ × ℕ)) → List ℕ → Option Walked
unfolding component skip_slash dir_lookup
walk_loop zero d f dir path = none
walk_loop (suc fuel) d f dir [] =
    some (record { found = file f; pdir = dir; lastelem = []; disk = d })
walk_loop (suc fuel) d f dir (c ∷ p) =
    let (name, after) = component (c ∷ p) in
    let left = skip_slash after in
    let (found, d') = dir_lookup d f name in
    elim (leb maxnamelen (length name)) [
      | true ↦ some (walk_fails bad_path d)
      | false ↦ elim (is_dir d f) [
        | false ↦ some (walk_fails (of_walk not_found) d)
        | true ↦ elim found [
          | error e ↦ some (lookup_failed f name left e d')
          | file f' ↦ walk_loop fuel d' f' (some f) left
        ]
      ]
    ]

pub walk_path : Disk → List ℕ → Option Walked
unfolding walk_loop skip_slash
walk_path d path = let p = skip_slash path in walk_loop (suc (length p)) d root none p

-- `*pf`, and the disk.
pub file_open : Disk → List ℕ → Option (FoundFile × Disk)
unfolding walk_path
file_open d path = elim (walk_path d path) [ none ↦ none | some w ↦ some (w.found, w.disk) ]

-- The name is put into the entry with its NUL, and the directory is flushed; a panic there is
-- `stopped`.
pub name_entry : (dir : ℕ × ℕ) → (name : List ℕ) → FoundFile × Disk → FoundFile × Disk
unfolding file_flush
name_entry dir name (error e, d) = (error e, d)
name_entry dir name (file (b, i), d) =
    let d' = put_bytes d b (i * 4) (name ++ 0 ∷ []) in
    elim (file_flush d' dir) [
      | none ↦ (error (of_walk stopped), d')
      | some d'' ↦ (file (b, i), d'')
    ]

pub create_at : FoundFile → Option (ℕ × ℕ) → (name : List ℕ) → Disk → FoundFile × Disk
unfolding name_entry dir_alloc_file
create_at (file f) pdir name d = (error file_exists, d)
create_at (error (of_walk not_found)) (some dir) name d = name_entry dir name (dir_alloc_file d dir)
create_at (error e) pdir name d = (error e, d)

pub file_create : Disk → List ℕ → Option (FoundFile × Disk)
unfolding walk_path create_at
file_create d path = elim (walk_path d path) [
  | none ↦ none
  | some w ↦ some (create_at w.found w.pdir w.lastelem w.disk)
]
