-- ===== src/Fs/Bytes/Write.antt =====
-- The loop of file_write of fs/fs.c: what it changes in a file.
use zynex_os.Base.{
  ℕ, zero, suc, ◌+◌, ◌-◌, ◌*◌, ◌/◌, ◌%◌, ◌<◌, ◌≤◌, ◌≡◌, ◌≢◌, refl, sym, ◌∙◌, ap, subst, ◌⊎◌, inl,
  inr, false, Option, some, List, [], ◌∷◌, arith, ◌==◌, min, length, take, drop, get_or, Bool-cases,
}
use native.Mathlib.Decide.{dec_lt}
use zynex_os.Fs.{Disk, blksize, block, fails, Got, file_get_block}
use zynex_os.Fs.Layout.{IsLaid, file_get_block-IsLaid, IsLaid-Keeps}
use zynex_os.Fs.Bytes.{put_bytes, chunk, Transferred, written, refused, write_loop}
use zynex_os.Fs.Bytes.Words.{IsBytes, put_bytes-word, put_bytes-other, put_bytes_self}
use zynex_os.Fs.Bytes.Content.{content, content-block}

length-take : (n : ℕ) (xs : List ℕ) → length (take n xs) ≡ min n (length xs)
length-take zero xs = omega arith
length-take (suc n) [] = omega arith
length-take (suc n) (x ∷ xs) = omega (arith, length-take n xs)

length-drop : (n : ℕ) (xs : List ℕ) → length (drop n xs) ≡ length xs - n
length-drop zero xs = omega arith
length-drop (suc n) [] = omega arith
length-drop (suc n) (x ∷ xs) = omega (arith, length-drop n xs)

get_or-take : (n : ℕ) (xs : List ℕ) (i : ℕ) → i < n → get_or (take n xs) i 0 ≡ get_or xs i 0
get_or-take zero xs i h = absurd (omega arith)
get_or-take (suc n) [] i h = refl
get_or-take (suc n) (x ∷ xs) zero h = refl
get_or-take (suc n) (x ∷ xs) (suc i) h = get_or-take n xs i (omega arith)

get_or-drop : (n : ℕ) (xs : List ℕ) (i : ℕ) → get_or (drop n xs) i 0 ≡ get_or xs (n + i) 0
get_or-drop zero xs i = ap (λ k. get_or xs k 0) (omega arith)
get_or-drop (suc n) [] i = refl
get_or-drop (suc n) (x ∷ xs) i = get_or-drop n xs i ∙ ap (λ k. get_or (x ∷ xs) k 0) later
  where
    later : suc (n + i) ≡ suc n + i
    later = omega arith

take-IsBytes : (n : ℕ) (xs : List ℕ) → IsBytes xs → IsBytes (take n xs)
take-IsBytes zero xs are i = omega arith
take-IsBytes (suc n) [] are i = omega arith
take-IsBytes (suc n) (x ∷ xs) are zero = are 0
take-IsBytes (suc n) (x ∷ xs) are (suc i) = take-IsBytes n xs (λ k. are (suc k)) i

-- The bytes `xs` stand in the file from `pos` on; nothing else is changed, in the file or outside.
pub record Wrote (d : Disk) (f : ℕ × ℕ) (at : ℕ → ℕ) (n pos : ℕ) (xs : List ℕ) (d' : Disk)
    : Type 0 where
  pub laid : IsLaid d' f at n
  pub inside : (i : ℕ) → i < length xs → content d' at (pos + i) ≡ get_or xs i 0
  pub outside :
      (j : ℕ)
      → j < n * blksize
      → (j < pos) ⊎ (pos + length xs ≤ j)
      → content d' at j ≡ content d at j
  pub others : (b i : ℕ) → ((m : ℕ) → m < n → at m ≢ b) → d'.word b i ≡ d.word b i

-- One round of the loop, with a chunk that fits into its block.
put_bytes-Wrote :
    (d : Disk) (f : ℕ × ℕ) (at : ℕ → ℕ) (n pos : ℕ) (xs : List ℕ)
    → IsLaid d f at n
    → IsBytes xs
    → pos / blksize < n
    → pos % blksize + length xs ≤ blksize
    → Wrote d f at n pos xs (put_bytes d (at (pos / blksize)) (pos % blksize) xs)
put_bytes-Wrote d f at n pos xs laid are lt fits =
    let d' = put_bytes d (at (pos / blksize)) (pos % blksize) xs in
    let others = λ (b i : ℕ) (apart : (m : ℕ) → m < n → at m ≢ b).
      put_bytes-word d (at (pos / blksize)) (pos % blksize) xs b i
        (λ e. apart (pos / blksize) lt (sym e)) in
    record {
      laid = IsLaid-Keeps d f at n d' laid (λ b i apart k. others b i apart);
      inside = λ i i_lt.
          content-block d' at pos i (omega arith)
          ∙ put_bytes_self d (at (pos / blksize)) (pos % blksize) xs i are i_lt;
      outside = λ j j_lt away.
          put_bytes-other d (at (pos / blksize)) (pos % blksize) xs (at (j / blksize)) (j % blksize)
            are (elsewhere j j_lt away);
      others = others;
    }
  where
    differ : (j : ℕ) → (j / blksize == pos / blksize) ≡ false → (j / blksize ≢ pos / blksize)
    differ j ne e = ground (arith, ne, e)

    elsewhere :
        (j : ℕ)
        → j < n * blksize
        → (j < pos) ⊎ (pos + length xs ≤ j)
        → (at (j / blksize) ≢ at (pos / blksize))
          ⊎ ((j % blksize < pos % blksize) ⊎ (pos % blksize + length xs ≤ j % blksize))
    elsewhere j j_lt away = elim (Bool-cases (j / blksize == pos / blksize)) [
      | inl e ↦ inr (ground (arith, e, away))
      | inr ne ↦
          inl (λ e. differ j ne (laid.distinct (j / blksize) (pos / blksize) (omega arith) lt e))
    ]

write_loop-block :
    (fuel : ℕ) (d : Disk) (f : ℕ × ℕ) (count pos x : ℕ) (xs : List ℕ) (b : ℕ)
    → file_get_block d f (pos / blksize) ≡ (block b, d)
    → let bn = chunk pos (suc (length xs)) in
      write_loop (suc fuel) d f count pos (x ∷ xs)
      ≡ write_loop fuel
          (put_bytes d b (pos % blksize) (take bn (x ∷ xs)))
          f
          count
          (pos + bn)
          (drop bn (x ∷ xs))
unfolding write_loop
write_loop-block fuel d f count pos x xs b e =
    let bn = chunk pos (suc (length xs)) in
    ap
      (λ (r : Got × Disk). elim r.0 as (λ _. Option (Transferred × Disk)) [
        | fails w ↦ some (refused w, r.1)
        | block b ↦
            write_loop fuel (put_bytes r.1 b (pos % blksize) (take bn (x ∷ xs))) f count (pos + bn)
              (drop bn (x ∷ xs))
      ])
      e

-- A chunk, then the rest.
Wrote-append :
    (d d' d'' : Disk) (f : ℕ × ℕ) (at : ℕ → ℕ) (n pos bn : ℕ) (xs : List ℕ)
    → bn ≤ length xs
    → Wrote d f at n pos (take bn xs) d'
    → Wrote d' f at n (pos + bn) (drop bn xs) d''
    → pos + length xs ≤ n * blksize
    → Wrote d f at n pos xs d''
Wrote-append d d' d'' f at n pos bn xs le w w' fits = record {
  laid = w'.laid;
  inside = λ i i_lt. elim (dec_lt i bn) [
    | yes lt ↦
        w'.outside (pos + i) (omega arith) (inl (omega arith))
        ∙ w.inside i (omega (arith, length-take bn xs))
        ∙ get_or-take bn xs i lt
    | no ge ↦
        ap (content d'' at) (again i ge)
        ∙ w'.inside (i - bn) (omega (arith, length-drop bn xs, ge))
        ∙ get_or-drop bn xs (i - bn)
        ∙ ap (λ k. get_or xs k 0) (omega (arith, ge))
  ];
  outside = λ j j_lt away. w'.outside j j_lt (later j away) ∙ w.outside j j_lt (first j away);
  others = λ b i apart. w'.others b i apart ∙ w.others b i apart;
}
  where
    again : (i : ℕ) → ¬ (i < bn) → pos + i ≡ pos + bn + (i - bn)
    again i ge = omega (arith, ge)

    later :
        (j : ℕ)
        → (j < pos) ⊎ (pos + length xs ≤ j)
        → (j < pos + bn) ⊎ (pos + bn + length (drop bn xs) ≤ j)
    later j h = omega (arith, h, length-drop bn xs)

    first :
        (j : ℕ) → (j < pos) ⊎ (pos + length xs ≤ j) → (j < pos) ⊎ (pos + length (take bn xs) ≤ j)
    first j h = omega (arith, h, length-take bn xs)

pub write_loop-Wrote :
    (fuel : ℕ) (d : Disk) (f : ℕ × ℕ) (at : ℕ → ℕ) (n count pos : ℕ) (xs : List ℕ)
    → IsLaid d f at n
    → IsBytes xs
    → pos + length xs ≤ n * blksize
    → length xs < fuel
    → (d' : Disk) × (write_loop fuel d f count pos xs ≡ some (written count, d'))
      × Wrote d f at n pos xs d'
unfolding write_loop
write_loop-Wrote zero d f at n count pos xs laid are h lt = absurd (omega arith)
write_loop-Wrote (suc fuel) d f at n count pos [] laid are h lt = (
  d,
  refl,
  record {
    laid = laid;
    inside = λ i i_lt. absurd (omega arith);
    outside = λ j j_lt away. refl;
    others = λ b i apart. refl;
  },
)
write_loop-Wrote (suc fuel) d f at n count pos (x ∷ xs) laid are h lt =
    let bn = chunk pos (suc (length xs)) in
    let w =
      put_bytes-Wrote d f at n pos (take bn (x ∷ xs)) laid (take-IsBytes bn (x ∷ xs) are)
        (omega arith) (omega (arith, length-take bn (x ∷ xs))) in
    let (d'', run, w') =
      write_loop-Wrote fuel (put_bytes d (at (pos / blksize)) (pos % blksize) (take bn (x ∷ xs))) f
        at n count (pos + bn) (drop bn (x ∷ xs)) w.laid
        (λ i. subst (λ v. v < 256) (sym (get_or-drop bn (x ∷ xs) i)) (are (bn + i)))
        (omega (arith, length-drop bn (x ∷ xs))) (omega (arith, length-drop bn (x ∷ xs))) in
    (
      d'',
      write_loop-block fuel d f count pos x xs (at (pos / blksize))
            (file_get_block-IsLaid d f at n (pos / blksize) laid (omega arith))
          ∙ run,
      Wrote-append d (put_bytes d (at (pos / blksize)) (pos % blksize) (take bn (x ∷ xs))) d'' f at
          n pos bn (x ∷ xs) (omega arith) w w' h,
    )
