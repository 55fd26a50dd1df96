-- ===== src/Fs/Bitmap.antt =====
-- alloc_block and free_block of fs/fs.c on the set of free blocks.
use zynex_os.Base.{
  ℕ, zero, suc, ◌+◌, ◌/◌, ◌%◌, ◌≤◌, ◌<◌, ◌≡◌, ◌≢◌, refl, sym, ◌∙◌, ap, subst, inl, inr, true, false,
  Option, none, some, arith, leb, if◌then◌else◌, Bool-cases, Option-cases,
}
use native.Mathlib.Decide.{ℕ_discrete}
use zynex_os.Base.Bits.{
  test_bit, set_bit, clear_bit, test_bit-set_bit, test_bit-clear_bit, test_bit-set_bit_ne,
  test_bit-clear_bit_ne,
}
use zynex_os.Fs.{
  Disk, set_word, nblocks, nindirect, bitmap_slot, read, free_bit, block_is_free, free_block,
  find_free, take_block, alloc_found, alloc_block,
}

-- The disk with word `w` of the bitmap set to `v`.
abbrev pub set_bitmap : Disk → ℕ → ℕ → Disk
set_bitmap d w v = set_word d (bitmap_slot w) v

read-set_bitmap : (d : Disk) (w v : ℕ) → read (set_bitmap d w v) (bitmap_slot w) ≡ v
read-set_bitmap d w v = ground arith

read-set_bitmap_ne :
    (d : Disk) (w v x : ℕ)
    → x ≢ w
    → read (set_bitmap d w v) (bitmap_slot x) ≡ read d (bitmap_slot x)
read-set_bitmap_ne d w v x ne = ground arith

free_bit-set_bitmap_self :
    (d : Disk) (i v : ℕ) → free_bit (set_bitmap d (i / 32) v) i ≡ test_bit v (i % 32)
free_bit-set_bitmap_self d i v = ap (λ w. test_bit w (i % 32)) (read-set_bitmap d (i / 32) v)

-- A word that differs from the old one in bit `i % 32` alone.
free_bit-set_bitmap_ne :
    (d : Disk) (i j v : ℕ)
    → ((k : ℕ) → i % 32 ≢ k → test_bit v k ≡ test_bit (read d (bitmap_slot (i / 32))) k)
    → j ≢ i
    → free_bit (set_bitmap d (i / 32) v) j ≡ free_bit d j
free_bit-set_bitmap_ne d i j v same ne = elim (ℕ_discrete (j / 32) (i / 32)) [
  | yes e ↦
      subst
        (λ w.
          test_bit (read (set_bitmap d (i / 32) v) (bitmap_slot w)) (j % 32)
          ≡ test_bit (read d (bitmap_slot w)) (j % 32))
        (sym e)
        (ap (λ w. test_bit w (j % 32)) (read-set_bitmap d (i / 32) v) ∙ same (j % 32) (omega arith))
  | no n ↦ ap (λ w. test_bit w (j % 32)) (read-set_bitmap_ne d (i / 32) v (j / 32) n)
]

-- What a search of `n` blocks from `i` on has found.
record Search (n : ℕ) (d : Disk) (i : ℕ) (o : Option ℕ) : Type 0 where
  pub hit :
      (j : ℕ)
      → o ≡ some j
      → (i ≤ j)
        × (j < i + n)
        × (free_bit d j ≡ true)
        × ((x : ℕ) → i ≤ x → x < j → free_bit d x ≡ false)
  pub miss : o ≡ none → (x : ℕ) → i ≤ x → x < i + n → free_bit d x ≡ false

from_first :
    (P : ℕ → Type 0) (i m : ℕ)
    → P i
    → ((x : ℕ) → suc i ≤ x → x < m → P x)
    → (x : ℕ) → i ≤ x
    → x < m
    → P x
from_first P i m first later x lo hi = elim (ℕ_discrete x i) [
  | yes e ↦ subst P (sym e) first
  | no ne ↦ later x (omega arith) hi
]

find_free-Search : (n : ℕ) (d : Disk) (i : ℕ) → Search n d i (find_free n d i)
unfolding find_free
find_free-Search zero d i = record { hit = λ j h. cc; miss = λ h x lo hi. absurd (omega arith) }
find_free-Search (suc n) d i = elim (Bool-cases (free_bit d i)) [
  | inl r ↦ rw r (record {
    hit = λ j h.
        let e : i ≡ j = ground arith in
        (
          omega arith,
          omega arith,
          subst (λ x. free_bit d x ≡ true) e r,
          λ x lo hi. absurd (omega arith),
        );
    miss = λ h x lo hi. cc;
  })
  | inr r ↦ rw r (record {
    hit = λ j h.
        let (lo, hi, found, before) = (find_free-Search n d (suc i)).hit j h in
        (omega arith, omega arith, found, from_first (λ x. free_bit d x ≡ false) i j r before);
    miss = λ h x lo hi.
        from_first (λ y. free_bit d y ≡ false) i (i + suc n) r
          (λ y a b. (find_free-Search n d (suc i)).miss h y a (omega arith)) x lo hi;
  })
]

-- alloc_block took block `i`, the first free one.
pub record Taken (d : Disk) (i : ℕ) (d' : Disk) : Type 0 where
  pub in_range : i < nblocks d
  pub was_free : block_is_free d i ≡ true
  pub first : (x : ℕ) → x < i → block_is_free d x ≡ false
  pub in_use : block_is_free d' i ≡ false
  pub others : (j : ℕ) → j ≢ i → block_is_free d' j ≡ block_is_free d j
  pub word_same : (b w : ℕ) → b ≢ 2 + i / 32 / nindirect → d'.word b w ≡ d.word b w

abbrev pub Answers : Disk → Option ℕ × Disk → Type 0
Answers d (none, d') = ((j : ℕ) → block_is_free d j ≡ false) × (d' ≡ d)
Answers d (some i, d') = Taken d i d'

take_block-Taken :
    (d : Disk) (i : ℕ)
    → i < nblocks d
    → free_bit d i ≡ true
    → ((x : ℕ) → x < i → free_bit d x ≡ false)
    → Taken d i (take_block d i)
unfolding block_is_free
take_block-Taken d i lt is before =
    let old = read d (bitmap_slot (i / 32)) in
    let gone : free_bit (take_block d i) i ≡ false =
      free_bit-set_bitmap_self d i (clear_bit old (i % 32)) ∙ test_bit-clear_bit old (i % 32) in
    let kept : (j : ℕ) → j ≢ i → free_bit (take_block d i) j ≡ free_bit d j =
      λ j ne. free_bit-set_bitmap_ne d i j _ (λ k h. test_bit-clear_bit_ne old (i % 32) k h) ne in
    let size : nblocks (take_block d i) ≡ nblocks d = ground arith in
    record {
      in_range = lt;
      was_free = ground (arith, is);
      first = λ x h. ground (arith, before x h);
      in_use = rw size (ground (arith, gone));
      others = λ j ne. rw size (ap (λ f. if leb (nblocks d) j then false else f) (kept j ne));
      word_same = λ b w ne. ground arith;
    }

-- alloc_block answers the first free block and marks it as used: every other block is as free as it
-- was, and no word outside that block of the bitmap changes. It reports E_NO_DISK, and leaves the
-- disk, only if no block is free.
pub alloc_block-Answers : (d : Disk) → Answers d (alloc_block d)
unfolding alloc_block alloc_found block_is_free
alloc_block-Answers d =
    let search = find_free-Search (nblocks d) d 0 in
    elim (Option-cases (find_free (nblocks d) d 0)) [
      | inl e ↦
          subst (λ o. Answers d (alloc_found d o)) (sym e)
            (λ j. ground (arith, search.miss e j), refl)
      | inr (i, e) ↦
          let (lo, hi, found, before) = search.hit i e in
          subst (λ o. Answers d (alloc_found d o)) (sym e)
            (take_block-Taken d i (omega arith) found (λ x h. before x (omega arith) h))
    ]

-- free_block panics on block 0 alone; any other block below the disk's size is free after it, and
-- every other block is as free as it was.
pub free_block-block_is_free :
    (d : Disk) (i : ℕ)
    → i < nblocks d
    → i ≢ 0
    → (d' : Disk) × (free_block d i ≡ some d')
      × (free_block d 0 ≡ none)
      × (block_is_free d' i ≡ true)
      × ((j : ℕ) → j ≢ i → block_is_free d' j ≡ block_is_free d j)
unfolding free_block block_is_free
free_block-block_is_free d i lt nz =
    let old = read d (bitmap_slot (i / 32)) in
    let d' = set_bitmap d (i / 32) (set_bit old (i % 32)) in
    let size : nblocks d' ≡ nblocks d = ground arith in
    let there : free_bit d' i ≡ true =
      free_bit-set_bitmap_self d i (set_bit old (i % 32)) ∙ test_bit-set_bit old (i % 32) in
    let kept : (j : ℕ) → j ≢ i → free_bit d' j ≡ free_bit d j =
      λ j ne. free_bit-set_bitmap_ne d i j _ (λ k h. test_bit-set_bit_ne old (i % 32) k h) ne in
    (
      d',
      ground arith,
      refl,
      rw size (ground (arith, there)),
      λ j ne. rw size (ap (λ f. if leb (nblocks d) j then false else f) (kept j ne)),
    )

-- Freeing the block that alloc_block gave, which is not block 0, makes exactly the blocks free that
-- were free before.
pub free_block-alloc_block :
    (d : Disk) (i : ℕ)
    → (alloc_block d).0 ≡ some i
    → i ≢ 0
    → (d' : Disk) × (free_block (alloc_block d).1 i ≡ some d')
      × ((j : ℕ) → block_is_free d' j ≡ block_is_free d j)
free_block-alloc_block d i e nz =
    let t = answered (alloc_block d) e (alloc_block-Answers d) in
    let (d', run, _, free_now, others) =
      free_block-block_is_free (alloc_block d).1 i (same_size t) nz in
    (
      d',
      run,
      λ j. elim (ℕ_discrete j i) [
        | yes at ↦
            subst (λ x. block_is_free d' x ≡ block_is_free d x) (sym at) (free_now ∙ sym t.was_free)
        | no ne ↦ others j ne ∙ t.others j ne
      ],
    )
  where
    answered : (r : Option ℕ × Disk) → r.0 ≡ some i → Answers d r → Taken d i r.1
    answered (none, d1) h a = cc
    answered (some x, d1) h a = subst (λ y. Taken d y d1) (ground (arith, h)) a

    same_size : Taken d i (alloc_block d).1 → i < nblocks (alloc_block d).1
    same_size t = rw (t.word_same 1 1 (omega arith)) t.in_range
