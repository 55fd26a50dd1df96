-- ===== src/Fs/Bytes/Words.antt =====
-- The bytes in the words of the disk: what a write of bytes changes.
use zynex_os.Base.{
  ℕ, zero, suc, ◌+◌, ◌/◌, ◌%◌, ◌<◌, ◌≤◌, ◌≡◌, ◌≢◌, refl, sym, ◌∙◌, ap, ap₂, ◌⊎◌, inl, inr, List, [],
  ◌∷◌, arith, length, get_or,
}
use zynex_os.Fs.{Disk}
use zynex_os.Fs.Bytes.{word_byte, set_word_byte, get_byte, put_byte, put_bytes}

pub word_byte-set_self : (w i v : ℕ) → i < 4 → v < 256 → word_byte (set_word_byte w i v) i ≡ v
word_byte-set_self w zero v h lt = omega arith
word_byte-set_self w (suc zero) v h lt = omega arith
word_byte-set_self w (suc (suc zero)) v h lt = omega arith
word_byte-set_self w (suc (suc (suc zero))) v h lt = omega arith
word_byte-set_self w (suc (suc (suc (suc i)))) v h lt = absurd (omega arith)

pub word_byte-set_other :
    (w i j v : ℕ)
    → i < 4
    → j < 4
    → i ≢ j
    → v < 256
    → word_byte (set_word_byte w i v) j ≡ word_byte w j
word_byte-set_other w zero zero v h k ne lt = absurd (ne refl)
word_byte-set_other w zero (suc zero) v h k ne lt = omega arith
word_byte-set_other w zero (suc (suc zero)) v h k ne lt = omega arith
word_byte-set_other w zero (suc (suc (suc j))) v h k ne lt = omega arith
word_byte-set_other w (suc zero) zero v h k ne lt = omega arith
word_byte-set_other w (suc zero) (suc zero) v h k ne lt = absurd (ne refl)
word_byte-set_other w (suc zero) (suc (suc zero)) v h k ne lt = omega arith
word_byte-set_other w (suc zero) (suc (suc (suc j))) v h k ne lt = omega arith
word_byte-set_other w (suc (suc zero)) zero v h k ne lt = omega arith
word_byte-set_other w (suc (suc zero)) (suc zero) v h k ne lt = omega arith
word_byte-set_other w (suc (suc zero)) (suc (suc zero)) v h k ne lt = absurd (ne refl)
word_byte-set_other w (suc (suc zero)) (suc (suc (suc j))) v h k ne lt = omega arith
word_byte-set_other w (suc (suc (suc i))) zero v h k ne lt = omega arith
word_byte-set_other w (suc (suc (suc i))) (suc zero) v h k ne lt = omega arith
word_byte-set_other w (suc (suc (suc i))) (suc (suc zero)) v h k ne lt = omega arith
word_byte-set_other w (suc (suc (suc i))) (suc (suc (suc j))) v h k ne lt =
    absurd (ne (omega arith))

abbrev pub IsBytes : List ℕ → Type 0
IsBytes xs = (i : ℕ) → get_or xs i 0 < 256

pub get_byte-put_self : (d : Disk) (b k v : ℕ) → v < 256 → get_byte (put_byte d b k v) b k ≡ v
get_byte-put_self d b k v lt =
    ap (λ w. word_byte w (k % 4)) here
    ∙ word_byte-set_self (d.word b (k / 4)) (k % 4) v (omega arith) lt
  where
    here : (put_byte d b k v).word b (k / 4) ≡ set_word_byte (d.word b (k / 4)) (k % 4) v
    here = ground arith

pub get_byte-put_other :
    (d : Disk) (b k v b' k' : ℕ)
    → v < 256
    → (b' ≢ b) ⊎ (k' ≢ k)
    → get_byte (put_byte d b k v) b' k' ≡ get_byte d b' k'
get_byte-put_other d b k v b' k' lt apart = elim (same_word apart) [
  | inr ne ↦ ap (λ w. word_byte w (k' % 4)) (elsewhere ne)
  | inl (e, e', ne) ↦
      ap (λ w. word_byte w (k' % 4)) (here e e')
      ∙ word_byte-set_other (d.word b (k / 4)) (k % 4) (k' % 4) v (omega arith) (omega arith) ne lt
      ∙ ap₂ (λ x y. word_byte (d.word x y) (k' % 4)) (sym e) (sym e')
]
  where
    same_word :
        (b' ≢ b) ⊎ (k' ≢ k)
        → ((b' ≡ b) × (k' / 4 ≡ k / 4) × (k % 4 ≢ k' % 4)) ⊎ ((b' ≢ b) ⊎ (k' / 4 ≢ k / 4))
    same_word h = ground (arith, h)

    elsewhere :
        (b' ≢ b) ⊎ (k' / 4 ≢ k / 4) → (put_byte d b k v).word b' (k' / 4) ≡ d.word b' (k' / 4)
    elsewhere ne = ground (arith, ne)

    here :
        b' ≡ b
        → k' / 4 ≡ k / 4
        → (put_byte d b k v).word b' (k' / 4) ≡ set_word_byte (d.word b (k / 4)) (k % 4) v
    here e e' = ground (arith, e, e')

-- Other blocks keep their words.
pub put_bytes-word :
    (d : Disk) (b k : ℕ) (xs : List ℕ) (b' i : ℕ)
    → b' ≢ b
    → (put_bytes d b k xs).word b' i ≡ d.word b' i
unfolding put_bytes
put_bytes-word d b k [] b' i ne = refl
put_bytes-word d b k (x ∷ xs) b' i ne =
    put_bytes-word (put_byte d b k x) b (suc k) xs b' i ne ∙ first
  where
    first : (put_byte d b k x).word b' i ≡ d.word b' i
    first = ground (arith, ne)

pub put_bytes-other :
    (d : Disk) (b k : ℕ) (xs : List ℕ) (b' k' : ℕ)
    → IsBytes xs
    → (b' ≢ b) ⊎ ((k' < k) ⊎ (k + length xs ≤ k'))
    → get_byte (put_bytes d b k xs) b' k' ≡ get_byte d b' k'
unfolding put_bytes
put_bytes-other d b k [] b' k' are h = refl
put_bytes-other d b k (x ∷ xs) b' k' are h =
    put_bytes-other (put_byte d b k x) b (suc k) xs b' k' (λ i. are (suc i)) (ground (arith, h))
    ∙ get_byte-put_other d b k x b' k' (are 0) (ground (arith, h))

pub put_bytes_self :
    (d : Disk) (b k : ℕ) (xs : List ℕ) (i : ℕ)
    → IsBytes xs
    → i < length xs
    → get_byte (put_bytes d b k xs) b (k + i) ≡ get_or xs i 0
unfolding put_bytes
put_bytes_self d b k [] i are h = absurd (omega arith)
put_bytes_self d b k (x ∷ xs) zero are h =
    put_bytes-other (put_byte d b k x) b (suc k) xs b (k + 0) (λ i. are (suc i))
      (inr (inl (omega arith)))
    ∙ ap (get_byte (put_byte d b k x) b) (omega arith)
    ∙ get_byte-put_self d b k x (are 0)
put_bytes_self d b k (x ∷ xs) (suc i) are h =
    ap (get_byte (put_bytes (put_byte d b k x) b (suc k) xs) b) (omega arith)
    ∙ put_bytes_self (put_byte d b k x) b (suc k) xs i (λ i. are (suc i)) (omega arith)
