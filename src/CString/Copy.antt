-- ===== src/CString/Copy.antt =====
-- The routines of lib/riscv/string.c that write: memmove, memset, strcpy, strlcpy.
use zynex_os.Base.{
  ℕ, zero, suc, ◌+◌, ◌-◌, ◌≤◌, ◌<◌, ◌^◌, ◌%◌, ◌≡◌, refl, ◌⊎◌, inl, inr, ◌≢◌, ◌∙◌, ap, true, ◌&&◌,
  some, List, [], ◌∷◌, arith, ltb, ◌==◌, ◌!=◌, length, take, min, Bool-cases,
}
use zynex_os.Base.Memory.{Mem, write, IsString, Outside}
use zynex_os.CString.{
  copy_up, copy_down, memmove, fill, memset, int_rounds, strcpy_from, strcpy, strlcpy_from, strlcpy,
}

write-ne : (m : Mem) (a v x : ℕ) → x ≢ a → write m a v x ≡ m x
write-ne m a v x h = ground arith

write_self : (m : Mem) (a v : ℕ) → write m a v a ≡ v
write_self m a v = ground arith

copy_up-Outside : (n : ℕ) (m : Mem) (d s x : ℕ) → Outside d n x → copy_up n m d s x ≡ m x
unfolding copy_up
copy_up-Outside zero m d s x h = refl
copy_up-Outside (suc n) m d s x h =
    copy_up-Outside n (write m d (m s)) (suc d) (suc s) x (omega arith)
    ∙ write-ne m d (m s) x (omega arith)

-- Upward copying is right when no source byte is overwritten before it is read.
copy_up-inside :
    (n : ℕ) (m : Mem) (d s x y : ℕ)
    → (d ≤ s) ⊎ (s + n ≤ d)
    → d ≤ x
    → x < d + n
    → y + d ≡ x + s
    → copy_up n m d s x ≡ m y
unfolding copy_up
copy_up-inside zero m d s x y h lo hi e = absurd (omega arith)
copy_up-inside (suc n) m d s x y h lo hi e = elim (Bool-cases (x == d)) [
  | inl at ↦
      copy_up-Outside n (write m d (m s)) (suc d) (suc s) x (ground arith)
      ∙ ground (arith, ap m (eq_at at))
  | inr past ↦
      copy_up-inside n (write m d (m s)) (suc d) (suc s) x y (omega arith) (ground arith)
        (omega arith) (omega arith)
      ∙ write-ne m d (m s) y (ground arith)
]
  where
    eq_at : (x == d) ≡ true → s ≡ y
    eq_at at = ground arith

copy_down-Outside :
    (n : ℕ) (m : Mem) (d s x : ℕ) → n ≤ d → (x < d - n) ⊎ (d ≤ x) → copy_down n m d s x ≡ m x
unfolding copy_down
copy_down-Outside zero m d s x k h = refl
copy_down-Outside (suc n) m d s x k h =
    copy_down-Outside n (write m (d - 1) (m (s - 1))) (d - 1) (s - 1) x (omega arith) (omega arith)
    ∙ write-ne m (d - 1) (m (s - 1)) x (omega arith)

-- Downward copying is right when the source starts below.
copy_down-inside :
    (n : ℕ) (m : Mem) (d s x y : ℕ)
    → s < d
    → n ≤ s
    → d ≤ x + n
    → x < d
    → y + d ≡ x + s
    → copy_down n m d s x ≡ m y
unfolding copy_down
copy_down-inside zero m d s x y below k lo hi e = absurd (omega arith)
copy_down-inside (suc n) m d s x y below k lo hi e = elim (Bool-cases (x == d - 1)) [
  | inl at ↦
      copy_down-Outside n (write m (d - 1) (m (s - 1))) (d - 1) (s - 1) x (omega arith)
        (ground arith)
      ∙ ground (arith, ap m (eq_at at))
  | inr past ↦
      copy_down-inside n (write m (d - 1) (m (s - 1))) (d - 1) (s - 1) x y (omega arith)
        (omega arith) (omega arith) (ground arith) (omega arith)
      ∙ write-ne m (d - 1) (m (s - 1)) y (omega arith)
]
  where
    eq_at : (x == d - 1) ≡ true → s - 1 ≡ y
    eq_at at = ground arith

-- memmove returns `dst`, leaves there the bytes that lay at `src` before the call, also where the
-- two ranges overlap, and changes no byte outside the `n` bytes at `dst`.
pub memmove_lem :
    (m : Mem) (dst src n : ℕ)
    → ((memmove m dst src n).0 ≡ dst)
      × ((i : ℕ) → i < n → (memmove m dst src n).1 (dst + i) ≡ m (src + i))
      × ((x : ℕ) → Outside dst n x → (memmove m dst src n).1 x ≡ m x)
unfolding memmove
memmove_lem m dst src n = elim (Bool-cases (ltb src dst && ltb dst (src + n))) [
  | inl overlap ↦ rw overlap (
    refl,
    λ i h.
        copy_down-inside n m (dst + n) (src + n) (dst + i) (src + i) (ground arith) (omega arith)
          (omega arith) (omega arith) (omega arith),
    λ x h. copy_down-Outside n m (dst + n) (src + n) x (omega arith) (omega arith),
  )
  | inr free ↦ rw free (
    refl,
    λ i h.
        copy_up-inside n m dst src (dst + i) (src + i) (ground arith) (omega arith) (omega arith)
          (omega arith),
    λ x h. copy_up-Outside n m dst src x h,
  )
]

fill-Outside : (n : ℕ) (m : Mem) (p c x : ℕ) → Outside p n x → fill n m p c x ≡ m x
unfolding fill
fill-Outside zero m p c x h = refl
fill-Outside (suc n) m p c x h =
    fill-Outside n (write m p (c % 2 ^ 8)) (suc p) c x (omega arith)
    ∙ write-ne m p (c % 2 ^ 8) x (omega arith)

fill-inside : (n : ℕ) (m : Mem) (p c x : ℕ) → p ≤ x → x < p + n → fill n m p c x ≡ c % 2 ^ 8
unfolding fill
fill-inside zero m p c x lo hi = absurd (omega arith)
fill-inside (suc n) m p c x lo hi = elim (Bool-cases (x == p)) [
  | inl at ↦ fill-Outside n (write m p (c % 2 ^ 8)) (suc p) c x (ground arith) ∙ ground arith
  | inr past ↦ fill-inside n (write m p (c % 2 ^ 8)) (suc p) c x (ground arith) (omega arith)
]

-- memset of fewer than `2 ^ 31` bytes returns `v`, sets each of them to the low byte of `c`, and
-- changes no other byte.
pub memset_lem :
    (m : Mem) (v c n : ℕ)
    → n < 2 ^ 31
    → ((memset m v c n).0 ≡ v)
      × ((i : ℕ) → i < n → (memset m v c n).1 (v + i) ≡ c % 2 ^ 8)
      × ((x : ℕ) → Outside v n x → (memset m v c n).1 x ≡ m x)
unfolding memset
memset_lem m v c n small = rw rounds (
  refl,
  λ i h. fill-inside n m v c (v + i) (omega arith) (omega arith),
  λ x h. fill-Outside n m v c x h,
)
  where
    rounds : int_rounds n ≡ n
    rounds = ground arith

-- A write elsewhere keeps a string.
IsString-write :
    (m : Mem) (a v p : ℕ) (s : List ℕ)
    → Outside p (suc (length s)) a
    → IsString m p s
    → IsString (write m a v) p s
IsString-write m a v p [] h is = write-ne m a v p (omega arith) ∙ is
IsString-write m a v p (c ∷ s) h is =
    (write-ne m a v p (omega arith) ∙ is.0, is.1, IsString-write m a v (suc p) s (omega arith) is.2)

-- What a copy of `s` to `dst` leaves behind.
record Copied (m : Mem) (dst : ℕ) (s : List ℕ) (m' : Mem) : Type 0 where
  pub placed : IsString m' dst s
  pub same : (x : ℕ) → Outside dst (suc (length s)) x → m' x ≡ m x

Copied-cons :
    (m m' : Mem) (dst c : ℕ) (s : List ℕ)
    → c ≢ 0
    → Copied (write m dst c) (suc dst) s m'
    → Copied m dst (c ∷ s) m'
Copied-cons m m' dst c s ne r = record {
  placed = (r.same dst (omega arith) ∙ write_self m dst c, ne, r.placed);
  same = λ x h. r.same x (omega arith) ∙ write-ne m dst c x (omega arith);
}

Copied-nil : (m : Mem) (dst : ℕ) → Copied m dst [] (write m dst 0)
Copied-nil m dst = record {
  placed = write_self m dst 0;
  same = λ x h. write-ne m dst 0 x (omega arith);
}

test_ne_zero : (c : ℕ) → c ≢ 0 → (c != 0) ≡ true
test_ne_zero c h = ground arith

strcpy_from-Copied :
    (fuel : ℕ) (m : Mem) (dst src : ℕ) (s : List ℕ)
    → IsString m src s
    → (dst ≤ src) ⊎ (src + length s < dst)
    → length s < fuel
    → (m' : Mem) × (strcpy_from fuel m dst src ≡ some m') × Copied m dst s m'
unfolding strcpy_from
strcpy_from-Copied zero m dst src s is h f = absurd (omega arith)
strcpy_from-Copied (suc fuel) m dst src [] is h f = (write m dst 0, rw is, Copied-nil m dst)
strcpy_from-Copied (suc fuel) m dst src (c ∷ s) is h f =
    let (m', e, r) =
      strcpy_from-Copied fuel (write m dst c) (suc dst) (suc src) s
        (IsString-write m dst c (suc src) s (omega arith) is.2) (omega arith) (omega arith) in
    (m', rw (is.0, test_ne_zero c is.1) e, Copied-cons m m' dst c s is.1 r)

-- strcpy of a string `s` at `src`, to a `dst` that no read of it follows a write of (`dst` at or
-- below `src`, or past its terminator): with fuel for its bytes it returns `dst`, leaves the whole
-- string with its terminator there, and changes no other byte.
pub strcpy_lem :
    (fuel : ℕ) (m : Mem) (dst src : ℕ) (s : List ℕ)
    → IsString m src s
    → (dst ≤ src) ⊎ (src + length s < dst)
    → length s < fuel
    → (m' : Mem) × (strcpy fuel m dst src ≡ some (dst, m'))
      × IsString m' dst s
      × ((x : ℕ) → Outside dst (suc (length s)) x → m' x ≡ m x)
unfolding strcpy
strcpy_lem fuel m dst src s is h f =
    let (m', e, r) = strcpy_from-Copied fuel m dst src s is h f in
    (m', rw (e, strcpy), r.placed, r.same)

strlcpy_from-Copied :
    (left : ℕ) (m : Mem) (dst src : ℕ) (s : List ℕ)
    → IsString m src s
    → (dst ≤ src) ⊎ (src + length s < dst)
    → ((strlcpy_from left m dst src).0 ≡ dst + min left (length s))
      × Copied m dst (take left s) (strlcpy_from left m dst src).1
unfolding strlcpy_from
strlcpy_from-Copied zero m dst src s is h = (omega arith, Copied-nil m dst)
strlcpy_from-Copied (suc left) m dst src [] is h = rw is (omega arith, Copied-nil m dst)
strlcpy_from-Copied (suc left) m dst src (c ∷ s) is h =
    let (e, r) =
      strlcpy_from-Copied left (write m dst c) (suc dst) (suc src) s
        (IsString-write m dst c (suc src) s (omega arith) is.2) (omega arith) in
    rw (is.0, test_ne_zero c is.1) (omega (arith, e), Copied-cons m _ dst c (take left s) is.1 r)

length-take-le : (n : ℕ) (s : List ℕ) → length (take n s) ≤ n
length-take-le zero s = omega arith
length-take-le (suc n) [] = omega arith
length-take-le (suc n) (c ∷ s) = omega (arith, length-take-le n s)

-- strlcpy of a string `s` at `src` into a buffer of `suc left` bytes: the result is the number of
-- bytes copied, the first `left` of `s` at most; they stand at `dst` with a terminator, and no other
-- byte changes, so at most `suc left` bytes are written. With no room nothing is written.
pub strlcpy_lem :
    (left : ℕ) (m : Mem) (dst src : ℕ) (s : List ℕ)
    → IsString m src s
    → (dst ≤ src) ⊎ (src + length s < dst)
    → ((strlcpy m dst src (suc left)).0 ≡ min left (length s))
      × IsString (strlcpy m dst src (suc left)).1 dst (take left s)
      × ((x : ℕ)
          → Outside dst (suc (length (take left s))) x
          → (strlcpy m dst src (suc left)).1 x ≡ m x)
      × (length (take left s) ≤ left)
      × (strlcpy m dst src 0 ≡ (0, m))
unfolding strlcpy
strlcpy_lem left m dst src s is h =
    let (e, r) = strlcpy_from-Copied left m dst src s is h in
    (omega (arith, e), r.placed, r.same, length-take-le left s, ap (λ k. (k, m)) (omega arith))
