-- ===== src/Fs/Bytes/Transfer.antt =====
-- file_write of fs/fs.c: what it changes, and that file_read reads it back.
use zynex_os.Base.{
  ℕ, suc, ◌+◌, ◌-◌, ◌*◌, ◌/◌, ◌%◌, ◌<◌, ◌≤◌, ◌≡◌, ◌≢◌, refl, ◌∙◌, ap, ap₂, ◌⊎◌, inl, inr, true,
  false, some, List, [], ◌∷◌, arith, ltb, if◌then◌else◌, min, max, length, get_or, Bool-cases,
}
use zynex_os.Fs.{Disk, file_size, blksize, file_set_size, set_word, flush_block, size_slot}
use zynex_os.Fs.Layout.{IsLaid, IsLaid-Keeps}
use zynex_os.Fs.Bytes.{word_byte, write_from, bytes, written, write_loop, file_read, file_write}
use zynex_os.Fs.Bytes.Words.{IsBytes}
use zynex_os.Fs.Bytes.Content.{content, range, range_same, file_read-range}
use zynex_os.Fs.Bytes.Write.{Wrote, write_loop-Wrote}

abbrev sized : Disk → ℕ × ℕ → ℕ → Disk
sized d f size = flush_block (set_word d (size_slot f) size) f.0

sized-word :
    (d : Disk) (f : ℕ × ℕ) (size b i : ℕ)
    → (b ≢ f.0) ⊎ (i ≢ f.1 + 32)
    → (sized d f size).word b i ≡ d.word b i
sized-word d f size b i ne = ground (arith, ne)

sized_self : (d : Disk) (f : ℕ × ℕ) (size : ℕ) → file_size (sized d f size) f ≡ size
sized_self d f size = ground arith

-- The disk on which the loop of file_write begins.
file_set_size-grow :
    (d : Disk) (f : ℕ × ℕ) (size : ℕ)
    → file_size d f ≤ size
    → file_set_size d f size ≡ some (sized d f size)
unfolding file_set_size
file_set_size-grow d f size le = ground (arith, le)

file_write-grow :
    (d : Disk) (f : ℕ × ℕ) (xs : List ℕ) (offset : ℕ)
    → ltb (file_size d f) (offset + length xs) ≡ true
    → file_write d f xs offset
      ≡ write_loop (suc (length xs)) (sized d f (offset + length xs)) f (length xs) offset xs
unfolding file_write
file_write-grow d f xs offset grows = ap (write_from f xs offset) (
    ap (λ b. if b then file_set_size d f (offset + length xs) else some d) grows
    ∙ file_set_size-grow d f (offset + length xs) (ground (arith, grows)))

file_write-fits :
    (d : Disk) (f : ℕ × ℕ) (xs : List ℕ) (offset : ℕ)
    → ltb (file_size d f) (offset + length xs) ≡ false
    → file_write d f xs offset ≡ write_loop (suc (length xs)) d f (length xs) offset xs
unfolding file_write
file_write-fits d f xs offset fits =
    ap (λ b. write_from f xs offset (if b then file_set_size d f (offset + length xs) else some d))
      fits

-- A file's content and size after a write of `xs` at `offset`.
pub record Updated (d : Disk) (f : ℕ × ℕ) (at : ℕ → ℕ) (n offset : ℕ) (xs : List ℕ) (d' : Disk)
    : Type 0 where
  pub laid : IsLaid d' f at n
  pub size : file_size d' f ≡ max (file_size d f) (offset + length xs)
  pub inside : (i : ℕ) → i < length xs → content d' at (offset + i) ≡ get_or xs i 0
  pub outside :
      (j : ℕ)
      → j < n * blksize
      → (j < offset) ⊎ (offset + length xs ≤ j)
      → content d' at j ≡ content d at j
  -- Outside the file's blocks, only its size is written.
  pub others :
      (b i : ℕ)
      → ((m : ℕ) → m < n → at m ≢ b)
      → (b ≢ f.0) ⊎ (i ≢ f.1 + 32)
      → d'.word b i ≡ d.word b i

Wrote-Updated :
    (d d1 d' : Disk) (f : ℕ × ℕ) (at : ℕ → ℕ) (n offset : ℕ) (xs : List ℕ)
    → IsLaid d f at n
    → ((b i : ℕ) → (b ≢ f.0) ⊎ (i ≢ f.1 + 32) → d1.word b i ≡ d.word b i)
    → file_size d1 f ≡ max (file_size d f) (offset + length xs)
    → Wrote d1 f at n offset xs d'
    → Updated d f at n offset xs d'
Wrote-Updated d d1 d' f at n offset xs laid same size w = record {
  laid = w.laid;
  size = w.others f.0 (f.1 + 32) laid.not_file ∙ size;
  inside = w.inside;
  outside = λ j lt away.
      w.outside j lt away
      ∙ ap (λ v. word_byte v (j % blksize % 4))
          (same (at (j / blksize)) (j % blksize / 4)
            (inl (laid.not_file (j / blksize) (omega arith))));
  others = λ b i apart ne. w.others b i apart ∙ same b i ne;
}

-- file_write of bytes that end within the `n` blocks of a file writes them all and answers their
-- number: the file then holds them at `offset`, across the borders of blocks, its other bytes are as
-- before, its size is the larger of the old size and the end of the bytes, and of all other words
-- of the disk none is changed.
pub file_write-Updated :
    (d : Disk) (f : ℕ × ℕ) (at : ℕ → ℕ) (n offset : ℕ) (xs : List ℕ)
    → IsLaid d f at n
    → IsBytes xs
    → offset + length xs ≤ n * blksize
    → (d' : Disk) × (file_write d f xs offset ≡ some (written (length xs), d'))
      × Updated d f at n offset xs d'
unfolding file_write
file_write-Updated d f at n offset xs laid are h =
    elim (Bool-cases (ltb (file_size d f) (offset + length xs))) [
      | inl grows ↦
          let d1 = sized d f (offset + length xs) in
          let (d', run, w) =
            write_loop-Wrote (suc (length xs)) d1 f at n (length xs) offset xs
              (IsLaid-Keeps d f at n d1 laid
                (λ b i apart ne. sized-word d f (offset + length xs) b i ne))
              are h (omega arith) in
          (
            d',
            file_write-grow d f xs offset grows ∙ run,
            Wrote-Updated d d1 d' f at n offset xs laid (sized-word d f (offset + length xs))
                (sized_self d f (offset + length xs) ∙ ground (arith, grows)) w,
          )
      | inr fits ↦
          let (d', run, w) =
            write_loop-Wrote (suc (length xs)) d f at n (length xs) offset xs laid are h
              (omega arith) in
          (
            d',
            file_write-fits d f xs offset fits ∙ run,
            Wrote-Updated d d d' f at n offset xs laid (λ b i ne. refl) (ground (arith, fits)) w,
          )
    ]

pub range-list :
    (g : ℕ → ℕ) (pos : ℕ) (xs : List ℕ)
    → ((i : ℕ) → i < length xs → g (pos + i) ≡ get_or xs i 0)
    → range g pos (length xs) ≡ xs
unfolding range
range-list g pos [] same = refl
range-list g pos (x ∷ xs) same =
    ap₂ ◌∷◌ (ap g (omega arith) ∙ same 0 (omega arith))
      (range-list g (suc pos) xs (λ i lt. ap g (omega arith) ∙ same (suc i) (omega arith)))

-- What file_write has written, file_read reads back, also where the write has extended the file.
pub file_read-file_write :
    (d : Disk) (f : ℕ × ℕ) (at : ℕ → ℕ) (n offset : ℕ) (xs : List ℕ)
    → IsLaid d f at n
    → IsBytes xs
    → file_size d f ≤ n * blksize
    → offset + length xs ≤ n * blksize
    → (d' : Disk) × (file_write d f xs offset ≡ some (written (length xs), d'))
      × (file_read d' f (length xs) offset ≡ some (bytes xs, d'))
file_read-file_write d f at n offset xs laid are size_le h =
    let (d', run, u) = file_write-Updated d f at n offset xs laid are h in
    (
      d',
      run,
      file_read-range d' f at n (length xs) offset u.laid (omega (arith, u.size))
          ∙ ap (λ ys. some (bytes ys, d'))
              (range_same (content d' at) offset offset (min (length xs) (file_size d' f - offset))
                  (length xs) refl (omega (arith, u.size))
                ∙ range-list (content d' at) offset xs u.inside),
    )
