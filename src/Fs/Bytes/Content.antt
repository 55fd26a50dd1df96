-- ===== src/Fs/Bytes/Content.antt =====
-- file_read of fs/fs.c: a file as a sequence of bytes.
use zynex_os.Base.{
  if◌then◌else◌, ℕ, zero, suc, ◌+◌, ◌-◌, ◌*◌, ◌/◌, ◌%◌, ◌<◌, ◌≤◌, ◌≡◌, refl, sym, ◌∙◌, ap, ap₂, inl,
  inr, true, false, Option, some, List, [], ◌∷◌, ◌++◌, arith, leb, min, Bool-cases,
}
use zynex_os.Fs.{Walk, Disk, file_size, blksize, block, fails, Got, file_get_block}
use zynex_os.Fs.Layout.{IsLaid, file_get_block-IsLaid}
use zynex_os.Fs.Bytes.{
  get_byte, get_bytes, chunk, Transferred, bytes, refused, before_bytes, read_loop, file_read,
}

-- The byte `j` of a file with the blocks `at`.
abbrev pub content : Disk → (ℕ → ℕ) → ℕ → ℕ
content d at j = get_byte d (at (j / blksize)) (j % blksize)

-- `n` values of a sequence from `pos` on.
unfoldable pub range : (ℕ → ℕ) → ℕ → ℕ → List ℕ
range g pos zero = []
range g pos (suc n) = g pos ∷ range g (suc pos) n

pub range_same : (g : ℕ → ℕ) (p q a b : ℕ) → p ≡ q → a ≡ b → range g p a ≡ range g q b
range_same g p q a b e e' = ap₂ (range g) e e'

pub range-append :
    (g : ℕ → ℕ) (pos a b n : ℕ) → n ≡ a + b → range g pos n ≡ range g pos a ++ range g (pos + a) b
unfolding range
range-append g pos zero b n e = range_same g pos (pos + 0) n b (omega arith) (omega (arith, e))
range-append g pos (suc a) b zero e = absurd (omega arith)
range-append g pos (suc a) b (suc n) e =
    ap (λ r. g pos ∷ r)
      (range-append g (suc pos) a b n (omega arith)
        ∙ ap (λ p. range g (suc pos) a ++ range g p b) (omega arith))

get_bytes-range :
    (d : Disk) (b k n pos : ℕ) (g : ℕ → ℕ)
    → ((i : ℕ) → i < n → get_byte d b (k + i) ≡ g (pos + i))
    → get_bytes d b k n ≡ range g pos n
unfolding get_bytes range
get_bytes-range d b k zero pos g same = refl
get_bytes-range d b k (suc n) pos g same =
    ap₂ ◌∷◌ (ap (get_byte d b) (omega arith) ∙ same 0 (omega arith) ∙ ap g (omega arith)) (
      get_bytes-range d b (suc k) n (suc pos) g
        (λ i lt. ap (get_byte d b) (omega arith) ∙ same (suc i) (omega arith) ∙ ap g (omega arith)))

-- Within a block, the bytes of the file are those of the block.
pub content-block :
    (d : Disk) (at : ℕ → ℕ) (pos i : ℕ)
    → pos % blksize + i < blksize
    → content d at (pos + i) ≡ get_byte d (at (pos / blksize)) (pos % blksize + i)
content-block d at pos i h = ap₂ (λ q r. get_byte d (at q) r) (omega arith) (omega arith)

read_loop-block :
    (fuel : ℕ) (d : Disk) (f : ℕ × ℕ) (pos left b : ℕ)
    → file_get_block d f (pos / blksize) ≡ (block b, d)
    → let bn = chunk pos (suc left) in
      read_loop (suc fuel) d f pos (suc left)
      ≡ before_bytes
          (get_bytes d b (pos % blksize) bn)
          (read_loop fuel d f (pos + bn) (suc left - bn))
unfolding read_loop
read_loop-block fuel d f pos left b e =
    let bn = chunk pos (suc left) in
    ap
      (λ (r : Got × Disk). elim r.0 as (λ _. Option (Transferred × Disk)) [
        | fails w ↦ some (refused w, r.1)
        | block b ↦
            before_bytes (get_bytes r.1 b (pos % blksize) bn)
              (read_loop fuel r.1 f (pos + bn) (suc left - bn))
      ])
      e

-- A block that cannot be had ends the loop.
read_loop-fails :
    (fuel : ℕ) (d d' : Disk) (f : ℕ × ℕ) (pos left : ℕ) (w : Walk)
    → file_get_block d f (pos / blksize) ≡ (fails w, d')
    → read_loop (suc fuel) d f pos (suc left) ≡ some (refused w, d')
unfolding read_loop
read_loop-fails fuel d d' f pos left w e =
    let bn = chunk pos (suc left) in
    ap
      (λ (r : Got × Disk). elim r.0 as (λ _. Option (Transferred × Disk)) [
        | fails w ↦ some (refused w, r.1)
        | block b ↦
            before_bytes (get_bytes r.1 b (pos % blksize) bn)
              (read_loop fuel r.1 f (pos + bn) (suc left - bn))
      ])
      e

-- The loop reads the bytes of the file, and changes nothing.
read_loop-range :
    (fuel : ℕ) (d : Disk) (f : ℕ × ℕ) (at : ℕ → ℕ) (n pos left : ℕ)
    → IsLaid d f at n
    → pos + left ≤ n * blksize
    → left < fuel
    → read_loop fuel d f pos left ≡ some (bytes (range (content d at) pos left), d)
unfolding read_loop range
read_loop-range zero d f at n pos left laid h lt = absurd (omega arith)
read_loop-range (suc fuel) d f at n pos zero laid h lt = refl
read_loop-range (suc fuel) d f at n pos (suc left) laid h lt =
    let bn = chunk pos (suc left) in
    read_loop-block fuel d f pos left (at (pos / blksize))
      (file_get_block-IsLaid d f at n (pos / blksize) laid (omega arith))
    ∙ ap₂ before_bytes
        (get_bytes-range d (at (pos / blksize)) (pos % blksize) bn pos (content d at)
          (λ i i_lt. sym (content-block d at pos i (omega arith))))
        (read_loop-range fuel d f at n (pos + bn) (suc left - bn) laid (omega arith) (omega arith))
    ∙ ap (λ xs. some (bytes xs, d))
        (sym (range-append (content d at) pos bn (suc left - bn) (suc left) (omega arith)))

-- file_read of a file whose blocks are all there gives the bytes of the file from `offset` on, `count`
-- of them or as many as the size leaves, across the borders of blocks, and changes nothing.
pub file_read-range :
    (d : Disk) (f : ℕ × ℕ) (at : ℕ → ℕ) (n count offset : ℕ)
    → IsLaid d f at n
    → file_size d f ≤ n * blksize
    → file_read d f count offset
      ≡ some (bytes (range (content d at) offset (min count (file_size d f - offset))), d)
unfolding file_read range
file_read-range d f at n count offset laid h = elim (Bool-cases (leb (file_size d f) offset)) [
  | inl past ↦ rw past (ap (λ xs. some (bytes xs, d)) (nothing past))
  | inr in_file ↦ rw in_file (
      read_loop-range (suc (min count (file_size d f - offset))) d f at n offset
        (min count (file_size d f - offset)) laid (inside in_file) (omega arith))
]
  where
    nothing :
        leb (file_size d f) offset ≡ true
        → [] ≡ range (content d at) offset (min count (file_size d f - offset))
    nothing past =
        range_same (content d at) offset offset 0 (min count (file_size d f - offset)) refl
          (ground (arith, past))

    inside :
        leb (file_size d f) offset ≡ false
        → offset + min count (file_size d f - offset) ≤ n * blksize
    inside in_file = ground (arith, in_file, h)

pub file_read-fails :
    (d d' : Disk) (f : ℕ × ℕ) (count offset : ℕ) (w : Walk)
    → 0 < count
    → offset < file_size d f
    → file_get_block d f (offset / blksize) ≡ (fails w, d')
    → file_read d f count offset ≡ some (refused w, d')
unfolding file_read
file_read-fails d d' f zero offset w some_count lt e = absurd (omega arith)
file_read-fails d d' f (suc count) offset w some_count lt e =
    ap (λ b. if b then some (bytes [], d) else read_loop (suc n) d f offset n) inside
    ∙ ap (λ m. read_loop (suc n) d f offset m) one_more
    ∙ read_loop-fails n d d' f offset (min count (file_size d f - offset - 1)) w e
  where
    n : ℕ
    n = min (suc count) (file_size d f - offset)

    inside : leb (file_size d f) offset ≡ false
    inside = ground arith

    one_more : n ≡ suc (min count (file_size d f - offset - 1))
    one_more = omega arith
