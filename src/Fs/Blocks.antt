-- ===== src/Fs/Blocks.antt =====
-- file_block_walk and file_get_block of fs/fs.c: where a file's blocks are, and what a full disk does.
use zynex_os.Base.{
  ℕ, ◌+◌, ◌-◌, ◌≤◌, ◌<◌, ◌≡◌, ◌≢◌, refl, sym, ◌∙◌, ap, subst, inl, inr, Bool, true, false, Option,
  none, some, arith, ltb, ◌==◌, if◌then◌else◌, Bool-cases,
}
use zynex_os.Fs.{
  Disk, set_word, nblocks, nindirect, ndirect, no_disk_word, read, is_block, block_is_free,
  alloc_block, direct_slot, indirect_slot, slot_at, no_disk, inval, stopped, walk_new,
  file_block_walk, block, fails, at_block, get_new, get_at, file_get_block,
}
use zynex_os.Fs.Bitmap.{Answers, alloc_block-Answers}

-- file_block_walk of a file whose indirect block is a block of the disk, other than the one that
-- holds the file: for every block number below NDIRECT + NINDIRECT it gives a slot, with or without
-- `alloc`, and changes nothing; two numbers never give the same slot; beyond, it reports E_INVAL.
pub file_block_walk-slot_at :
    (d : Disk) (f : ℕ × ℕ) (n n' : ℕ) (alloc : Bool)
    → is_block d (read d (indirect_slot f)) ≡ true
    → read d (indirect_slot f) ≢ f.0
    → n < ndirect + nindirect
    → n' < ndirect + nindirect
    → n ≢ n'
    → (s s' : ℕ × ℕ) × (file_block_walk d f n alloc ≡ (slot_at s, d))
      × (file_block_walk d f n' alloc ≡ (slot_at s', d))
      × (s ≢ s')
      × (file_block_walk d f (ndirect + nindirect) alloc ≡ (inval, d))
unfolding file_block_walk
file_block_walk-slot_at d f n n' alloc is apart lt lt' ne =
    let place = λ (x : ℕ).
      if ltb x ndirect then direct_slot f x else (read d (indirect_slot f), x - ndirect) in
    (
      place n,
      place n',
      ground (arith, is),
      ground (arith, is),
      λ e. ne (ground (arith, ap (λ s. s.0) e, ap (λ s. s.1) e)),
      ground arith,
    )

-- A slot that holds a block of the disk is what file_get_block answers, and nothing changes.
file_get_block-settled :
    (d : Disk) (f : ℕ × ℕ) (n b : ℕ)
    → n < ndirect
    → n ≤ nblocks d
    → read d (direct_slot f n) ≡ b
    → is_block d b ≡ true
    → file_get_block d f n ≡ (block b, d)
unfolding file_get_block file_block_walk get_at
file_get_block-settled d f n b lt le e is = ground (arith, e, is)

at_block-block : (d : Disk) (x b : ℕ) → at_block d x ≡ block b → (x ≡ b) × (is_block d b ≡ true)
at_block-block d x b e = (ground (arith, e), ground (arith, e))

-- What a get of a missing direct block leaves, by the answer of alloc_block.
get_new-settled :
    (d : Disk) (f : ℕ × ℕ) (n b : ℕ) (d' : Disk) (r : Option ℕ × Disk)
    → Answers d r
    → get_new (direct_slot f n) r ≡ (block b, d')
    → (nblocks d' ≡ nblocks d) × (read d' (direct_slot f n) ≡ b) × (is_block d' b ≡ true)
unfolding get_new
get_new-settled d f n b d' (none, d1) a e = absurd (cc (ap (λ r. r.0) e))
get_new-settled d f n b d' (some x, d1) a e =
    let d2 = set_word d1 (direct_slot f n) x in
    let put : read d2 (direct_slot f n) ≡ x = ground arith in
    let (same, is) = at_block-block d2 x b (ap (λ v. at_block d2 v) (sym put) ∙ ap (λ r. r.0) e) in
    let size : nblocks d2 ≡ nblocks d = ground (arith, a.word_same 1 1 (omega arith)) in
    subst (λ y. (nblocks y ≡ nblocks d) × (read y (direct_slot f n) ≡ b) × (is_block y b ≡ true))
      (ap (λ r. r.1) e) (size, put ∙ same, is)

-- With no free block alloc_block reports E_NO_DISK.
alloc_block-full : (d : Disk) → ((j : ℕ) → block_is_free d j ≡ false) → alloc_block d ≡ (none, d)
alloc_block-full d full = answered (alloc_block d) (alloc_block-Answers d)
  where
    answered : (r : Option ℕ × Disk) → Answers d r → r ≡ (none, d)
    answered (none, d') a = ap (λ x. (none, x)) a.1
    answered (some i, d') a = absurd (ground (arith, full i, a.was_free))

-- A missing direct block on a full disk.
pub file_get_block-no_disk :
    (d : Disk) (f : ℕ × ℕ)
    → ((j : ℕ) → block_is_free d j ≡ false)
    → read d (direct_slot f 0) ≡ 0
    → file_get_block d f 0 ≡ (fails no_disk, set_word d (direct_slot f 0) no_disk_word)
unfolding file_get_block file_block_walk get_at get_new
file_get_block-no_disk d f full missing =
    run ∙ ap (get_new (direct_slot f 0)) (alloc_block-full d full)
  where
    run : file_get_block d f 0 ≡ get_new (direct_slot f 0) (alloc_block d)
    run = ground (arith, missing)

-- A block number out of range in `f_indirect` makes file_get_block panic.
file_get_block-stopped :
    (d : Disk) (f : ℕ × ℕ) (n : ℕ)
    → ndirect ≤ n
    → n < ndirect + nindirect
    → n ≤ nblocks d
    → nblocks d ≤ no_disk_word
    → read d (indirect_slot f) ≡ no_disk_word
    → file_get_block d f n ≡ (fails stopped, d)
unfolding file_get_block file_block_walk get_at
file_get_block-stopped d f n lo hi le small e =
    let walk : file_block_walk d f n true ≡ (stopped, d) = ground (arith, e) in
    let run : file_get_block d f n ≡ get_at (file_block_walk d f n true) = ground arith in
    run ∙ ap get_at walk

-- On a full disk, file_get_block of a block beyond the direct ones, for a file without an indirect
-- block, reports E_NO_DISK, but leaves the negated error in `f_indirect`: the same call then panics.
pub file_get_block-full :
    (d : Disk) (f : ℕ × ℕ) (n : ℕ)
    → ((j : ℕ) → block_is_free d j ≡ false)
    → read d (indirect_slot f) ≡ 0
    → ndirect ≤ n
    → n < ndirect + nindirect
    → n ≤ nblocks d
    → nblocks d ≤ no_disk_word
    → (d' : Disk) × (file_get_block d f n ≡ (fails no_disk, d'))
      × (read d' (indirect_slot f) ≡ no_disk_word)
      × (file_get_block d' f n ≡ (fails stopped, d'))
unfolding file_get_block file_block_walk get_at walk_new
file_get_block-full d f n full none_yet lo hi le small =
    let d' = set_word d (indirect_slot f) no_disk_word in
    let unfolded : file_get_block d f n ≡ get_at (walk_new f (n - ndirect) (alloc_block d)) =
      ground (arith, none_yet) in
    let there : read d' (indirect_slot f) ≡ no_disk_word = ground arith in
    let size : nblocks d' ≡ nblocks d = ground arith in
    (
      d',
      unfolded ∙ ap (λ r. get_at (walk_new f (n - ndirect) r)) (alloc_block-full d full),
      there,
      file_get_block-stopped d' f n lo hi (rw size le) (rw size small) there,
    )

-- The case of file_get_block's second step: what it leaves, for a direct block.
get_at-settled :
    (d : Disk) (f : ℕ × ℕ) (n b : ℕ) (d' : Disk)
    → get_at (slot_at (direct_slot f n), d) ≡ (block b, d')
    → (nblocks d' ≡ nblocks d) × (read d' (direct_slot f n) ≡ b) × (is_block d' b ≡ true)
unfolding get_at
get_at-settled d f n b d' e = elim (Bool-cases (read d (direct_slot f n) == 0)) [
  | inl z ↦ get_new-settled d f n b d' (alloc_block d) (alloc_block-Answers d) (sym (missing z) ∙ e)
  | inr z ↦
      let r = sym (there z) ∙ e in
      let (same, is) = at_block-block d (read d (direct_slot f n)) b (ap (λ x. x.0) r) in
      subst (λ y. (nblocks y ≡ nblocks d) × (read y (direct_slot f n) ≡ b) × (is_block y b ≡ true))
        (ap (λ x. x.1) r) (refl, same, is)
]
  where
    missing :
        (read d (direct_slot f n) == 0) ≡ true
        → get_at (slot_at (direct_slot f n), d) ≡ get_new (direct_slot f n) (alloc_block d)
    missing z = ground (arith, z)

    there :
        (read d (direct_slot f n) == 0) ≡ false
        → get_at (slot_at (direct_slot f n), d) ≡ (at_block d (read d (direct_slot f n)), d)
    there z = ground (arith, z)

-- When file_get_block of a direct block succeeds, the block it answers is a block of the disk, it
-- stands in the file's slot, and asking again gives the same block and changes nothing.
pub file_get_block-again :
    (d : Disk) (f : ℕ × ℕ) (n b : ℕ) (d' : Disk)
    → n < ndirect
    → file_get_block d f n ≡ (block b, d')
    → (read d' (direct_slot f n) ≡ b)
      × (is_block d' b ≡ true)
      × (file_get_block d' f n ≡ (block b, d'))
unfolding file_get_block file_block_walk
file_get_block-again d f n b d' lt e = elim (Bool-cases (ltb (nblocks d) n)) [
  | inl far ↦ absurd (cc (sym (refused far) ∙ e))
  | inr near ↦
      let (size, at, is) = get_at-settled d f n b d' (found near) in
      (at, is, file_get_block-settled d' f n b lt (ground (arith, size)) at is)
]
  where
    refused : ltb (nblocks d) n ≡ true → file_get_block d f n ≡ (fails inval, d)
    refused far = ground (arith, far)

    run : ltb (nblocks d) n ≡ false → file_get_block d f n ≡ get_at (slot_at (direct_slot f n), d)
    run near = ground (arith, near)

    found : ltb (nblocks d) n ≡ false → get_at (slot_at (direct_slot f n), d) ≡ (block b, d')
    found near = sym (run near) ∙ e
