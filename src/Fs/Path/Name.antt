-- ===== src/Fs/Path/Name.antt =====
-- Names in a directory of fs/fs.c: how they are written, read back and searched for.
use zynex_os.Base.{
  ℕ, suc, ◌+◌, ◌*◌, ◌/◌, ◌<◌, ◌≤◌, ◌≡◌, ◌≢◌, refl, sym, ◌∙◌, ap, ap₂, inl, inr, Bool, true, false,
  Option, none, some, List, [], ◌∷◌, ◌++◌, arith, leb, ◌==◌, ◌&&◌, if◌then◌else◌, length,
  length-append, get_or, eq→==, Bool-cases,
}
use mathlib.Core.List.{append_assoc, append-nil}
use zynex_os.Fs.{Disk, file_size, blksize, not_found, stopped}
use zynex_os.Fs.Layout.{IsLaid}
use zynex_os.Fs.Bytes.{get_byte}
use zynex_os.Fs.Bytes.Words.{IsBytes}
use zynex_os.Fs.Path.{
  blkfiles, maxnamelen, slash, root, is_dir, name_from, is_unused, FoundFile, file, error, of_walk,
  dir_lookup, dir_alloc_file, scan_blocks, walk_fails, bad_path, lookup_failed, alloc_file,
  walk_path, Walked,
}
use zynex_os.Fs.Path.Words.{words_from, resolve, walk_path-resolve}
use zynex_os.Fs.Path.Lookup.{
  entry_at, first_entry, first_entry-IsFirst, IsFirst, there, nowhere, scanned, scan_blocks-whole,
  aligned,
}

-- A name that fits, of characters that are neither NUL nor slashes.
pub record IsName (name : List ℕ) : Type 0 where
  pub some_char : 0 < length name
  pub fits : length name < maxnamelen
  pub no_nul : (i : ℕ) → i < length name → get_or name i 0 ≢ 0
  pub no_slash : (i : ℕ) → i < length name → get_or name i 0 ≢ slash
  pub are : IsBytes name

words_from-name :
    (cur p : List ℕ)
    → 0 < length (cur ++ p)
    → ((i : ℕ) → i < length p → get_or p i 0 ≢ slash)
    → words_from cur p ≡ (cur ++ p) ∷ []
unfolding words_from
words_from-name [] [] h ne = absurd (omega arith)
words_from-name (c ∷ cur) [] h ne = ap (λ w. w ∷ []) (sym (append-nil (c ∷ cur)))
words_from-name cur (c ∷ p) h ne = rw (other (ne 0 (omega arith))) (
    words_from-name (cur ++ c ∷ []) p
      (omega (arith, length-append cur (c ∷ []), length-append (cur ++ c ∷ []) p))
      (λ i lt. ne (suc i) (omega arith))
    ∙ ap (λ w. w ∷ []) (append_assoc cur (c ∷ []) p))
  where
    other : c ≢ slash → (c == slash) ≡ false
    other ne = ground (arith, ne)

-- The bytes of a name and its NUL are read back as the name.
pub name_from-bytes :
    (d : Disk) (b k : ℕ) (name : List ℕ)
    → ((i : ℕ) → i ≤ length name → get_byte d b (k + i) ≡ get_or (name ++ 0 ∷ []) i 0)
    → name_from d b k name ≡ true
unfolding name_from
name_from-bytes d b k [] same =
    eq→== (get_byte d b k) 0 (ap (get_byte d b) (omega arith) ∙ same 0 (omega arith))
name_from-bytes d b k (c ∷ name) same =
    rw (eq→== (get_byte d b k) c (ap (get_byte d b) (omega arith) ∙ same 0 (omega arith))) (
      name_from-bytes d b (suc k) name
        (λ i le. ap (get_byte d b) (omega arith) ∙ same (suc i) (omega arith)))

pub name_from-same :
    (d d' : Disk) (b k : ℕ) (name : List ℕ)
    → ((i : ℕ) → i ≤ length name → get_byte d' b (k + i) ≡ get_byte d b (k + i))
    → name_from d' b k name ≡ name_from d b k name
unfolding name_from
name_from-same d d' b k [] same =
    ap (λ x. x == 0)
      (ap (get_byte d' b) (omega arith) ∙ same 0 (omega arith) ∙ ap (get_byte d b) (omega arith))
name_from-same d d' b k (c ∷ name) same =
    ap₂ (λ x y. x == c && y)
      (ap (get_byte d' b) (omega arith) ∙ same 0 (omega arith) ∙ ap (get_byte d b) (omega arith))
      (name_from-same d d' b (suc k) name (λ i le.
        ap (get_byte d' b) (omega arith)
        ∙ same (suc i) (omega arith)
        ∙ ap (get_byte d b) (omega arith)))

-- What the walk along a single component gives, by the answer of dir_lookup.
abbrev pub walked : List ℕ → FoundFile × Disk → Walked
walked name (error e, d) = lookup_failed {A = List ℕ} root name [] e d
walked name (file f, d) = record { found = file f; pdir = some root; lastelem = []; disk = d }

resolve-one :
    (d : Disk) (name : List ℕ)
    → length name < maxnamelen
    → is_dir d root ≡ true
    → resolve d root none (name ∷ []) ≡ walked name (dir_lookup d root name)
unfolding resolve
resolve-one d name short dir =
    let (found, d') = dir_lookup d root name in
    by_tests (leb maxnamelen (length name)) (is_dir d root) found d' (fits short) dir
  where
    fits : length name < maxnamelen → leb maxnamelen (length name) ≡ false
    fits h = ground (arith, h)

    by_tests :
        (long dir : Bool) (r : FoundFile) (d' : Disk)
        → long ≡ false
        → dir ≡ true
        → elim long as (λ _. Walked) [
          | true ↦ walk_fails bad_path d
          | false ↦ elim dir as (λ _. Walked) [
            | false ↦ walk_fails (of_walk not_found) d
            | true ↦ elim r as (λ _. Walked) [
              | error e ↦ lookup_failed {A = List ℕ} root name [] e d'
              | file f' ↦ resolve d' f' (some root) []
            ]
          ]
        ]
          ≡ walked name (r, d')
    by_tests true dir r d' h h' = absurd (cc h)
    by_tests false false r d' h h' = absurd (cc h')
    by_tests false true (error e) d' h h' = refl
    by_tests false true (file f) d' h h' = refl

pub walk_path-name :
    (d : Disk) (name : List ℕ)
    → IsName name
    → is_dir d root ≡ true
    → walk_path d name ≡ some (walked name (dir_lookup d root name))
walk_path-name d name is dir =
    walk_path-resolve d name
    ∙ ap (λ ws. some (resolve d root none ws)) (words_from-name [] name is.some_char is.no_slash)
    ∙ ap some (resolve-one d name is.fits dir)

-- A search for an entry that only `j` passes.
pub first_entry-only :
    (passes : ℕ → Bool) (n j : ℕ) (r : Option ℕ)
    → j < n
    → passes j ≡ true
    → ((i : ℕ) → i < n → i ≢ j → passes i ≡ false)
    → IsFirst passes 0 n r
    → r ≡ some j
first_entry-only passes n j none lt y only (nowhere h) =
    absurd (cc (sym y ∙ h j (omega arith) (omega arith)))
first_entry-only passes n j (some i) lt y only (there m le m_lt found before) =
    elim (Bool-cases (m == j)) [
      | inl e ↦ ap some (ground (arith, e))
      | inr e ↦ absurd (cc (sym found ∙ only m (omega arith) (ground (arith, e))))
    ]

-- dir_alloc_file in a directory of blocks that are all there, with a free entry.
pub dir_alloc_file-unused :
    (d : Disk) (dir : ℕ × ℕ) (at : ℕ → ℕ) (n k : ℕ)
    → IsLaid d dir at n
    → file_size d dir ≡ n * blksize
    → k < n * blkfiles
    → is_unused d (entry_at at k) ≡ true
    → (j : ℕ) × (j < n * blkfiles) × (dir_alloc_file d dir ≡ (file (entry_at at j), d))
unfolding dir_alloc_file
dir_alloc_file-unused d dir at n k laid size lt unused =
    let (j, j_lt, e) =
      is_there (first_entry (λ i. is_unused d (entry_at at i)) 0 (n * blkfiles))
        (first_entry-IsFirst (λ i. is_unused d (entry_at at i)) 0 (n * blkfiles)) in
    (
      j,
      j_lt,
      ap
            (λ b.
              if b
              then alloc_file dir (scan_blocks is_unused (file_size d dir / blksize) d dir 0)
              else (error (of_walk stopped), d))
            (aligned d dir n size)
          ∙ ap (alloc_file dir)
              (scan_blocks-whole is_unused d dir at n laid size ∙ ap (λ r. (scanned at r, d)) e),
    )
  where
    is_there :
        (r : Option ℕ)
        → IsFirst (λ i. is_unused d (entry_at at i)) 0 (n * blkfiles) r
        → (j : ℕ) × (j < n * blkfiles) × (r ≡ some j)
    is_there none (nowhere h) = absurd (cc (sym unused ∙ h k (omega arith) (omega arith)))
    is_there (some j) (there m le m_lt y h) = (j, omega arith, refl)
