-- ===== src/Fs/Path/Create.antt =====
-- file_create and file_open of fs/fs.c, for a name in the root directory.
use zynex_os.Base.{
  ℕ, zero, suc, ◌+◌, ◌*◌, ◌/◌, ◌%◌, ◌<◌, ◌≤◌, ◌≡◌, ◌≢◌, refl, sym, ◌∙◌, ap, ap₂, ◌⊎◌, inl, inr,
  true, false, Option, none, some, List, [], ◌∷◌, ◌++◌, arith, ◌==◌, ◌||◌, not, leb, length,
  length-append, Bool-cases,
}
use zynex_os.Fs.{Disk, read, file_size, blksize, blocks_of, is_block, indirect_slot, stopped}
use zynex_os.Fs.Layout.{IsLaid, IsLaid-Keeps, IsLaid-flushed, file_flush-IsLaid}
use zynex_os.Fs.Bytes.{put_bytes}
use zynex_os.Fs.Bytes.Words.{IsBytes, put_bytes-word, put_bytes-other, put_bytes_self}
use zynex_os.Fs.Path.{
  blkfiles, root, is_dir, name_is, is_unused, FoundFile, file, error, file_exists, of_walk,
  dir_lookup, name_entry, create_at, file_create, file_open,
}
use zynex_os.Fs.Path.Lookup.{entry_at, dir_lookup-IsFirst, IsFirst, there, found_at}
use zynex_os.Fs.Path.Name.{
  IsName, name_from-bytes, name_from-same, walked, walk_path-name, first_entry-only,
  dir_alloc_file-unused,
}

append-IsBytes : (name : List ℕ) → IsBytes name → IsBytes (name ++ 0 ∷ [])
append-IsBytes [] are zero = omega arith
append-IsBytes [] are (suc i) = omega arith
append-IsBytes (c ∷ name) are zero = are 0
append-IsBytes (c ∷ name) are (suc i) = append-IsBytes name (λ k. are (suc k)) i

-- `strcpy(f->f_name, name)` into entry `j`.
abbrev named : Disk → (ℕ → ℕ) → ℕ → List ℕ → Disk
named d at j name = put_bytes d (at (j / blkfiles)) (j % blkfiles * 64 * 4) (name ++ 0 ∷ [])

named_self :
    (d : Disk) (at : ℕ → ℕ) (j : ℕ) (name : List ℕ)
    → IsName name
    → name_is name (named d at j name) (entry_at at j) ≡ true
named_self d at j name is =
    name_from-bytes (named d at j name) (at (j / blkfiles)) (j % blkfiles * 64 * 4) name (λ i le.
      put_bytes_self d (at (j / blkfiles)) (j % blkfiles * 64 * 4) (name ++ 0 ∷ []) i
        (append-IsBytes name is.are) (omega (arith, length-append name (0 ∷ []))))

named-other :
    (d : Disk) (dir : ℕ × ℕ) (at : ℕ → ℕ) (n i j : ℕ) (name : List ℕ)
    → IsName name
    → IsLaid d dir at n
    → i < n * blkfiles
    → j < n * blkfiles
    → i ≢ j
    → name_is name (named d at j name) (entry_at at i) ≡ name_is name d (entry_at at i)
named-other d dir at n i j name is laid i_lt j_lt ne =
    name_from-same d (named d at j name) (at (i / blkfiles)) (i % blkfiles * 64 * 4) name (λ x le.
      put_bytes-other d (at (j / blkfiles)) (j % blkfiles * 64 * 4) (name ++ 0 ∷ [])
        (at (i / blkfiles)) (i % blkfiles * 64 * 4 + x) (append-IsBytes name is.are) (apart x le))
  where
    differ : (i / blkfiles == j / blkfiles) ≡ false → i / blkfiles ≢ j / blkfiles
    differ f e = ground (arith, f, e)

    apart :
        (x : ℕ)
        → x ≤ length name
        → (at (i / blkfiles) ≢ at (j / blkfiles))
          ⊎ ((i % blkfiles * 64 * 4 + x < j % blkfiles * 64 * 4)
              ⊎ (j % blkfiles * 64 * 4 + length (name ++ 0 ∷ []) ≤ i % blkfiles * 64 * 4 + x))
    apart x le = elim (Bool-cases (i / blkfiles == j / blkfiles)) [
      | inl e ↦ inr (ground (arith, e, ne, le, is.fits, length-append name (0 ∷ [])))
      | inr f ↦ inl (λ e.
          differ f (laid.distinct (i / blkfiles) (j / blkfiles) (omega arith) (omega arith) e))
    ]

-- The disk after the name is written and the directory flushed.
abbrev flushed_named : Disk → (ℕ → ℕ) → ℕ → List ℕ → List ℕ → Disk
flushed_named d at j name l = record (named d at j name) { flushed = l }

name_is-flushed :
    (d : Disk) (l name : List ℕ) (s : ℕ × ℕ)
    → name_is name (record d { flushed = l }) s ≡ name_is name d s
name_is-flushed d l name (b, i) =
    name_from-same d (record d { flushed = l }) b (i * 4) name (λ x le. refl)

-- The words of the super block, with the root's `struct File`, are as before.
super_same :
    (d : Disk) (at : ℕ → ℕ) (n j : ℕ) (name : List ℕ) (i : ℕ)
    → IsLaid d root at n
    → j < n * blkfiles
    → (named d at j name).word 1 i ≡ d.word 1 i
super_same d at n j name i laid lt =
    put_bytes-word d (at (j / blkfiles)) (j % blkfiles * 64 * 4) (name ++ 0 ∷ []) 1 i
      (λ e. laid.not_super (j / blkfiles) (omega arith) (sym e))

named-IsLaid :
    (d : Disk) (at : ℕ → ℕ) (n j : ℕ) (name : List ℕ)
    → IsLaid d root at n
    → j < n * blkfiles
    → IsLaid (named d at j name) root at n
named-IsLaid d at n j name laid lt =
    IsLaid-Keeps d root at n (named d at j name) laid (λ b i apart ne.
      put_bytes-word d (at (j / blkfiles)) (j % blkfiles * 64 * 4) (name ++ 0 ∷ []) b i
        (λ e. apart (j / blkfiles) (omega arith) (sym e)))

-- The new name is found, in its entry.
dir_lookup-named :
    (d : Disk) (at : ℕ → ℕ) (n j : ℕ) (name l : List ℕ)
    → IsName name
    → IsLaid d root at n
    → file_size d root ≡ n * blksize
    → ((i : ℕ) → i < n * blkfiles → name_is name d (entry_at at i) ≡ false)
    → j < n * blkfiles
    → let d' = flushed_named d at j name l in dir_lookup d' root name ≡ (file (entry_at at j), d')
dir_lookup-named d at n j name l is laid size missing lt =
    let d' = flushed_named d at j name l in
    let (r, run, first) =
      dir_lookup-IsFirst d' root at n name
        (IsLaid-flushed (named d at j name) root at n l (named-IsLaid d at n j name laid lt))
        (super_same d at n j name 34 laid lt ∙ size) in
    run
    ∙ ap (λ k. (found_at at k, d'))
        (first_entry-only (λ i. name_is name d' (entry_at at i)) (n * blkfiles) j r lt
          (name_is-flushed (named d at j name) l name (entry_at at j) ∙ named_self d at j name is)
          (λ i i_lt ne.
            name_is-flushed (named d at j name) l name (entry_at at i)
            ∙ named-other d root at n i j name is laid i_lt lt ne
            ∙ missing i i_lt)
          first)

dir_lookup-missing :
    (d : Disk) (at : ℕ → ℕ) (n : ℕ) (name : List ℕ)
    → IsLaid d root at n
    → file_size d root ≡ n * blksize
    → ((i : ℕ) → i < n * blkfiles → name_is name d (entry_at at i) ≡ false)
    → dir_lookup d root name ≡ (found_at at none, d)
dir_lookup-missing d at n name laid size missing =
    let (r, run, first) = dir_lookup-IsFirst d root at n name laid size in
    run ∙ ap (λ k. (found_at at k, d)) (nothing r first)
  where
    nothing :
        (r : Option ℕ) → IsFirst (λ i. name_is name d (entry_at at i)) 0 (n * blkfiles) r → r ≡ none
    nothing none h = refl
    nothing (some j) (there m le m_lt y h) = absurd (cc (sym y ∙ missing j (omega arith)))

-- file_create and file_open of a single name, by the answer of dir_lookup.
file_create-name :
    (d : Disk) (name : List ℕ) (r : FoundFile × Disk)
    → IsName name
    → is_dir d root ≡ true
    → dir_lookup d root name ≡ r
    → let w = walked name r in
      (file_create d name ≡ some (create_at w.found w.pdir w.lastelem w.disk))
      × (file_open d name ≡ some (w.found, w.disk))
unfolding file_create file_open
file_create-name d name r is dir e =
    let run = walk_path-name d name is dir ∙ ap (λ r. some (walked name r)) e in
    (
      ap
          (λ o. elim o as (λ _. Option (FoundFile × Disk)) [
            | none ↦ none
            | some w ↦ some (create_at w.found w.pdir w.lastelem w.disk)
          ])
          run,
      ap
          (λ o. elim o as (λ _. Option (FoundFile × Disk)) [
            | none ↦ none
            | some w ↦ some (w.found, w.disk)
          ])
          run,
    )

name_entry-flushed :
    (d : Disk) (at : ℕ → ℕ) (n j : ℕ) (name : List ℕ)
    → IsLaid d root at n
    → file_size d root ≡ n * blksize
    → (read d (indirect_slot root) ≡ 0) ⊎ (is_block d (read d (indirect_slot root)) ≡ true)
    → j < n * blkfiles
    → (l : List ℕ) × (name_entry root name (file (entry_at at j), d)
        ≡ (file (entry_at at j), flushed_named d at j name l))
unfolding name_entry
name_entry-flushed d at n j name laid size ok lt =
    let d1 = named d at j name in
    let (l, run) =
      file_flush-IsLaid d1 root at n (named-IsLaid d at n j name laid lt)
        (few (super_same d at n j name 34 laid lt)) (kept ok) in
    (
      l,
      ap
          (λ o. elim o as (λ _. FoundFile × Disk) [
            | none ↦ (error (of_walk stopped), d1)
            | some d'' ↦ (file (entry_at at j), d'')
          ])
          run,
    )
  where
    few :
        file_size (named d at j name) root ≡ file_size d root
        → blocks_of (file_size (named d at j name) root) ≤ n
    few e = omega (arith, e, size)

    kept :
        (read d (indirect_slot root) ≡ 0) ⊎ (is_block d (read d (indirect_slot root)) ≡ true)
        → (read (named d at j name) (indirect_slot root) ≡ 0)
          ⊎ (is_block (named d at j name) (read (named d at j name) (indirect_slot root)) ≡ true)
    kept (inl z) = inl (super_same d at n j name 46 laid lt ∙ z)
    kept (inr y) = inr (
        ap₂ (λ b m. not (b == 0 || leb m b)) (super_same d at n j name 46 laid lt)
          (super_same d at n j name 1 laid lt)
        ∙ y)

-- In the root directory, whose blocks are all there, with a free entry and no file of that name,
-- file_create makes a file that file_open with the same name then finds, and creating it again
-- reports E_FILE_EXISTS.
pub file_create-file_open :
    (d : Disk) (at : ℕ → ℕ) (n k : ℕ) (name : List ℕ)
    → IsName name
    → IsLaid d root at n
    → file_size d root ≡ n * blksize
    → is_dir d root ≡ true
    → (read d (indirect_slot root) ≡ 0) ⊎ (is_block d (read d (indirect_slot root)) ≡ true)
    → ((i : ℕ) → i < n * blkfiles → name_is name d (entry_at at i) ≡ false)
    → k < n * blkfiles
    → is_unused d (entry_at at k) ≡ true
    → (f : ℕ × ℕ) × (d' : Disk) × (file_create d name ≡ some (file f, d'))
      × (file_open d' name ≡ some (file f, d'))
      × (file_create d' name ≡ some (error file_exists, d'))
unfolding create_at
file_create-file_open d at n k name is laid size dir ok missing lt unused =
    let (j, j_lt, alloc) = dir_alloc_file-unused d root at n k laid size lt unused in
    let (l, entered) = name_entry-flushed d at n j name laid size ok j_lt in
    let d' = flushed_named d at j name l in
    let (created, _) =
      file_create-name d name (found_at at none, d) is dir
        (dir_lookup-missing d at n name laid size missing) in
    let (again, opened) =
      file_create-name d' name (file (entry_at at j), d') is
        (ap (λ t. t == 1) (super_same d at n j name 35 laid j_lt) ∙ dir)
        (dir_lookup-named d at n j name l is laid size missing j_lt) in
    (
      entry_at at j,
      d',
      created ∙ ap some (ap (name_entry root name) alloc ∙ entered),
      opened,
      again,
    )
