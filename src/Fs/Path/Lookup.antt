-- ===== src/Fs/Path/Lookup.antt =====
-- dir_lookup of fs/fs.c, in a directory whose blocks are all there.
use zynex_os.Base.{
  ℕ, zero, suc, ◌+◌, ◌*◌, ◌/◌, ◌%◌, ◌<◌, ◌≤◌, ◌≡◌, refl, sym, ◌∙◌, ap, ap₂, ◌⊎◌, inl, inr, Bool,
  true, false, Option, none, some, List, arith, ◌==◌, if◌then◌else◌, Bool-cases,
}
use zynex_os.Fs.{Disk, file_size, blksize, not_found, stopped, block, fails, Got, file_get_block}
use zynex_os.Fs.Layout.{IsLaid, file_get_block-IsLaid}
use zynex_os.Fs.Path.{
  blkfiles, name_is, entry_in, scan_entries, Scan, entry, no_entry, scan_fails, scan_blocks,
  FoundFile, file, error, of_walk, dir_lookup, lookup_found,
}

-- Entry `k` of a directory with the blocks `at`.
abbrev pub entry_at : (ℕ → ℕ) → ℕ → ℕ × ℕ
entry_at at k = entry_in (at (k / blkfiles)) (k % blkfiles)

-- The first of the entries `k`, ..., `k + n - 1` that passes.
unfoldable pub first_entry : (ℕ → Bool) → ℕ → ℕ → Option ℕ
first_entry passes k zero = none
first_entry passes k (suc n) =
    let rest = first_entry passes (suc k) n in if passes k then some k else rest

abbrev pub scanned : (ℕ → ℕ) → Option ℕ → Scan
scanned at none = no_entry
scanned at (some k) = entry (entry_at at k)

-- The description of `first_entry`.
pub data IsFirst (passes : ℕ → Bool) (k n : ℕ) : Option ℕ → Type 0 where
  there :
      (j : ℕ)
      → k ≤ j
      → j < k + n
      → passes j ≡ true
      → ((i : ℕ) → k ≤ i → i < j → passes i ≡ false)
      → IsFirst passes k n (some j)
  nowhere : ((i : ℕ) → k ≤ i → i < k + n → passes i ≡ false) → IsFirst passes k n none

pub first_entry-IsFirst :
    (passes : ℕ → Bool) (k n : ℕ) → IsFirst passes k n (first_entry passes k n)
unfolding first_entry
first_entry-IsFirst passes k zero = nowhere (λ i le lt. absurd (omega arith))
first_entry-IsFirst passes k (suc n) = elim (Bool-cases (passes k)) [
  | inl y ↦ rw y (there k (omega arith) (omega arith) y (λ i le lt. absurd (omega arith)))
  | inr not_k ↦
      rw not_k (shift not_k (first_entry passes (suc k) n) (first_entry-IsFirst passes (suc k) n))
]
  where
    earlier :
        passes k ≡ false
        → (j : ℕ) → ((i : ℕ) → suc k ≤ i → i < j → passes i ≡ false)
        → (i : ℕ) → k ≤ i
        → i < j
        → passes i ≡ false
    earlier not_k j h i le lt = elim (Bool-cases (i == k)) [
      | inl e ↦ ap passes (ground (arith, e)) ∙ not_k
      | inr e ↦ h i (ground (arith, e)) lt
    ]

    shift :
        passes k ≡ false → (r : Option ℕ) → IsFirst passes (suc k) n r → IsFirst passes k (suc n) r
    shift not_k r (there j le lt y h) = there j (omega arith) (omega arith) y (earlier not_k j h)
    shift not_k r (nowhere h) = nowhere (λ i le lt. earlier not_k (suc k + n) h i le (omega arith))

abbrev or_else : Option ℕ → Option ℕ → Option ℕ
or_else none r = r
or_else (some k) r = some k

first_entry-append :
    (passes : ℕ → Bool) (k a b n : ℕ)
    → n ≡ a + b
    → first_entry passes k n ≡ or_else (first_entry passes k a) (first_entry passes (k + a) b)
unfolding first_entry
first_entry-append passes k zero b n e = first_same k (k + 0) n b (omega arith) (omega (arith, e))
  where
    first_same :
        (k k' n n' : ℕ) → k ≡ k' → n ≡ n' → first_entry passes k n ≡ first_entry passes k' n'
    first_same k k' n n' e e' = ap₂ (first_entry passes) e e'
first_entry-append passes k (suc a) b zero e = absurd (omega arith)
first_entry-append passes k (suc a) b (suc n) e =
    go (first_entry-append passes (suc k) a b n (omega arith)) (Bool-cases (passes k))
  where
    go :
        first_entry passes (suc k) n
          ≡ or_else (first_entry passes (suc k) a) (first_entry passes (suc k + a) b)
        → (passes k ≡ true) ⊎ (passes k ≡ false)
        → first_entry passes k (suc n)
          ≡ or_else (first_entry passes k (suc a)) (first_entry passes (k + suc a) b)
    go again (inl y) = rw y refl
    go again (inr z) =
        rw z (
          again ∙ ap (λ m. or_else (first_entry passes (suc k) a) (first_entry passes m b)) shifted)
      where
        shifted : suc k + a ≡ k + suc a
        shifted = omega arith

abbrev placed : (ℕ → ℕ) → Option ℕ → Option (ℕ × ℕ)
placed at none = none
placed at (some k) = some (entry_at at k)

-- The inner loop, in a block that is there.
scan_entries-first_entry :
    (test : Disk → ℕ × ℕ → Bool) (d : Disk) (at : ℕ → ℕ) (n b j k : ℕ)
    → ((i : ℕ) → i < n → entry_at at (k + i) ≡ entry_in b (j + i))
    → scan_entries test n d b j ≡ placed at (first_entry (λ k. test d (entry_at at k)) k n)
unfolding scan_entries first_entry
scan_entries-first_entry test d at zero b j k same = refl
scan_entries-first_entry test d at (suc n) b j k same =
    go
      (scan_entries-first_entry test d at n b (suc j) (suc k) (λ i lt.
        ap (entry_at at) (omega arith)
        ∙ same (suc i) (omega arith)
        ∙ ap (entry_in b) (omega arith)))
      (Bool-cases (test d (entry_in b j)))
  where
    here : entry_at at k ≡ entry_in b j
    here = ap (entry_at at) (omega arith) ∙ same 0 (omega arith) ∙ ap (entry_in b) (omega arith)

    go :
        scan_entries test n d b (suc j)
          ≡ placed at (first_entry (λ k. test d (entry_at at k)) (suc k) n)
        → (test d (entry_in b j) ≡ true) ⊎ (test d (entry_in b j) ≡ false)
        → scan_entries test (suc n) d b j
          ≡ placed at (first_entry (λ k. test d (entry_at at k)) k (suc n))
    go again (inl y) = rw (y, ap (test d) here ∙ y) (ap some (sym here))
    go again (inr z) = rw (z, ap (test d) here ∙ z) again

abbrev after_block : Option (ℕ × ℕ) → Disk → Scan × Disk → Scan × Disk
after_block (some s) d r = (entry s, d)
after_block none d r = r

scan_blocks-block :
    (test : Disk → ℕ × ℕ → Bool) (n : ℕ) (d : Disk) (dir : ℕ × ℕ) (i b : ℕ)
    → file_get_block d dir i ≡ (block b, d)
    → scan_blocks test (suc n) d dir i
      ≡ after_block (scan_entries test blkfiles d b 0) d (scan_blocks test n d dir (suc i))
unfolding scan_blocks
scan_blocks-block test n d dir i b e =
    ap
      (λ (r : Got × Disk). elim r.0 as (λ _. Scan × Disk) [
        | fails w ↦ (scan_fails w, r.1)
        | block b ↦ elim (scan_entries test blkfiles r.1 b 0) as (λ _. Scan × Disk) [
          | some s ↦ (entry s, r.1)
          | none ↦ scan_blocks test n r.1 dir (suc i)
        ]
      ])
      e
    ∙ by_entry (scan_entries test blkfiles d b 0)
  where
    by_entry :
        (s : Option (ℕ × ℕ))
        → elim s as (λ _. Scan × Disk) [
          | some s ↦ (entry s, d)
          | none ↦ scan_blocks test n d dir (suc i)
        ]
          ≡ after_block s d (scan_blocks test n d dir (suc i))
    by_entry none = refl
    by_entry (some s) = refl

-- Both loops, from block `i` of a directory whose blocks are all there.
pub scan_blocks-first_entry :
    (test : Disk → ℕ × ℕ → Bool) (m : ℕ) (d : Disk) (dir : ℕ × ℕ) (at : ℕ → ℕ) (n i : ℕ)
    → IsLaid d dir at n
    → i + m ≤ n
    → scan_blocks test m d dir i
      ≡ (scanned at (first_entry (λ k. test d (entry_at at k)) (i * blkfiles) (m * blkfiles)), d)
unfolding scan_blocks first_entry
scan_blocks-first_entry test zero d dir at n i laid h = refl
scan_blocks-first_entry test (suc m) d dir at n i laid h =
    scan_blocks-block test m d dir i (at i) (file_get_block-IsLaid d dir at n i laid (omega arith))
    ∙ ap₂ (λ s r. after_block s d r)
        (scan_entries-first_entry test d at blkfiles (at i) 0 (i * blkfiles)
          (λ j lt. ap₂ (λ q r. entry_in (at q) r) (omega arith) (omega arith)))
        (scan_blocks-first_entry test m d dir at n (suc i) laid (omega arith))
    ∙ joined (first_entry (λ k. test d (entry_at at k)) (i * blkfiles) blkfiles)
        (first_entry (λ k. test d (entry_at at k)) (suc i * blkfiles) (m * blkfiles))
    ∙ ap (λ r. (scanned at r, d))
        (ap
            (λ k.
              or_else (first_entry (λ k. test d (entry_at at k)) (i * blkfiles) blkfiles)
                (first_entry (λ k. test d (entry_at at k)) k (m * blkfiles)))
            next
          ∙ sym (
              first_entry-append (λ k. test d (entry_at at k)) (i * blkfiles) blkfiles
                (m * blkfiles) (suc m * blkfiles) (omega arith)))
  where
    next : suc i * blkfiles ≡ i * blkfiles + blkfiles
    next = omega arith

    joined :
        (a b : Option ℕ)
        → after_block (placed at a) d (scanned at b, d) ≡ (scanned at (or_else a b), d)
    joined none b = refl
    joined (some k) b = refl

pub aligned :
    (d : Disk) (dir : ℕ × ℕ) (n : ℕ)
    → file_size d dir ≡ n * blksize
    → (file_size d dir % blksize == 0) ≡ true
aligned d dir n size = ground (arith, size)

-- Both loops over a whole directory.
pub scan_blocks-whole :
    (test : Disk → ℕ × ℕ → Bool) (d : Disk) (dir : ℕ × ℕ) (at : ℕ → ℕ) (n : ℕ)
    → IsLaid d dir at n
    → file_size d dir ≡ n * blksize
    → scan_blocks test (file_size d dir / blksize) d dir 0
      ≡ (scanned at (first_entry (λ k. test d (entry_at at k)) 0 (n * blkfiles)), d)
scan_blocks-whole test d dir at n laid size =
    ap (λ m. scan_blocks test m d dir 0) blocks
    ∙ scan_blocks-first_entry test n d dir at n 0 laid (omega arith)
    ∙ ap (λ k. (scanned at (first_entry (λ k. test d (entry_at at k)) k (n * blkfiles)), d))
        (omega arith)
  where
    blocks : file_size d dir / blksize ≡ n
    blocks = omega (arith, size)

abbrev pub found_at : (ℕ → ℕ) → Option ℕ → FoundFile
found_at at none = error (of_walk not_found)
found_at at (some k) = file (entry_at at k)

-- dir_lookup in a directory of `n` blocks that are all there: it changes nothing, and answers the
-- first entry whose name is `name`, or, exactly if no entry has it, E_NOT_FOUND.
pub dir_lookup-IsFirst :
    (d : Disk) (dir : ℕ × ℕ) (at : ℕ → ℕ) (n : ℕ) (name : List ℕ)
    → IsLaid d dir at n
    → file_size d dir ≡ n * blksize
    → (k : Option ℕ) × (dir_lookup d dir name ≡ (found_at at k, d))
      × IsFirst (λ i. name_is name d (entry_at at i)) 0 (n * blkfiles) k
unfolding dir_lookup
dir_lookup-IsFirst d dir at n name laid size =
    let passes = λ (i : ℕ). name_is name d (entry_at at i) in
    (
      first_entry passes 0 (n * blkfiles),
      ap
            (λ b.
              if b
              then lookup_found (scan_blocks (name_is name) (file_size d dir / blksize) d dir 0)
              else (error (of_walk stopped), d))
            (aligned d dir n size)
          ∙ ap lookup_found (scan_blocks-whole (name_is name) d dir at n laid size)
          ∙ answered (first_entry passes 0 (n * blkfiles)),
      first_entry-IsFirst passes 0 (n * blkfiles),
    )
  where
    answered : (k : Option ℕ) → lookup_found (scanned at k, d) ≡ (found_at at k, d)
    answered none = refl
    answered (some k) = refl
