-- ===== src/CString/Compare.antt =====
-- The comparisons of lib/riscv/string.c: strcmp, strncmp, memcmp.
use zynex_os.Base.{
  ℕ, zero, suc, ◌+◌, ◌<◌, ◌≡◌, refl, ◌≢◌, ◌∙◌, sym, ap, ◌↔◌, some, List, [], ◌∷◌, arith, ◌==◌,
  if◌then◌else◌, length, take,
}
use zynex_os.Base.Int.{ℤ, pos, sub_ℕ}
use zynex_os.Base.Memory.{Mem, IsString}
use zynex_os.CString.{strcmp, strncmp, memcmp}

-- The difference of the first bytes that differ, the terminator counting as 0.
diff : List ℕ → List ℕ → ℤ
diff [] [] = pos 0
diff [] (d ∷ t) = sub_ℕ 0 d
diff (c ∷ s) [] = sub_ℕ c 0
diff (c ∷ s) (d ∷ t) = if c == d then diff s t else sub_ℕ c d

sub_ℕ-eq-zero : (a b : ℕ) → sub_ℕ a b ≡ pos 0 → a ≡ b
sub_ℕ-eq-zero a b h = ground arith

-- No byte of the list is the terminator.
abbrev NoNul : List ℕ → Type 0
NoNul [] = Unit {0}
NoNul (c ∷ s) = (c ≢ 0) × NoNul s

NoNul-IsString : (m : Mem) (p : ℕ) (s : List ℕ) → IsString m p s → NoNul s
NoNul-IsString m p [] is = tt
NoNul-IsString m p (c ∷ s) is = (is.1, NoNul-IsString m (suc p) s is.2)

diff-eq : (s t : List ℕ) → NoNul s → NoNul t → diff s t ≡ pos 0 → s ≡ t
unfolding diff
diff-eq [] [] hs ht e = refl
diff-eq [] (d ∷ t) hs ht e = absurd (ht.0 (sym (sub_ℕ-eq-zero 0 d e)))
diff-eq (c ∷ s) [] hs ht e = absurd (hs.0 (sub_ℕ-eq-zero c 0 e))
diff-eq (c ∷ s) (d ∷ t) hs ht e = ground (arith, diff-eq s t hs.1 ht.1, sub_ℕ-eq-zero c d)

diff_self : (s : List ℕ) → diff s s ≡ pos 0
unfolding diff
diff_self [] = refl
diff_self (c ∷ s) = ground (arith, diff_self s)

strcmp-diff :
    (fuel : ℕ) (m : Mem) (p q : ℕ) (s t : List ℕ)
    → IsString m p s
    → IsString m q t
    → length s < fuel
    → strcmp fuel m p q ≡ some (diff s t)
unfolding strcmp diff
strcmp-diff zero m p q s t hs ht f = absurd (omega arith)
strcmp-diff (suc fuel) m p q [] [] hs ht f = ground arith
strcmp-diff (suc fuel) m p q [] (d ∷ t) hs ht f = ground arith
strcmp-diff (suc fuel) m p q (c ∷ s) [] hs ht f = ground arith
strcmp-diff (suc fuel) m p q (c ∷ s) (d ∷ t) hs ht f =
    ground (arith, strcmp-diff fuel m (suc p) (suc q) s t hs.2 ht.2)

strncmp-diff :
    (n : ℕ) (m : Mem) (p q : ℕ) (s t : List ℕ)
    → IsString m p s
    → IsString m q t
    → strncmp m p q n ≡ diff (take n s) (take n t)
unfolding strncmp diff
strncmp-diff zero m p q s t hs ht = refl
strncmp-diff (suc n) m p q [] [] hs ht = ground arith
strncmp-diff (suc n) m p q [] (d ∷ t) hs ht = ground arith
strncmp-diff (suc n) m p q (c ∷ s) [] hs ht = ground arith
strncmp-diff (suc n) m p q (c ∷ s) (d ∷ t) hs ht =
    ground (arith, strncmp-diff n m (suc p) (suc q) s t hs.2 ht.2)

NoNul-take : (n : ℕ) (s : List ℕ) → NoNul s → NoNul (take n s)
NoNul-take zero s h = tt
NoNul-take (suc n) [] h = tt
NoNul-take (suc n) (c ∷ s) h = (h.0, NoNul-take n s h.1)

-- On strings `s` and `t`, strcmp ends, given fuel for the bytes of `s`, and its result is 0 exactly
-- when the strings are equal; that of strncmp is 0 exactly when their first `n` bytes are.
pub strcmp_iff :
    (fuel n : ℕ) (m : Mem) (p q : ℕ) (s t : List ℕ)
    → IsString m p s
    → IsString m q t
    → length s < fuel
    → (r : ℤ) × (strcmp fuel m p q ≡ some r)
      × ((r ≡ pos 0) ↔ (s ≡ t))
      × ((strncmp m p q n ≡ pos 0) ↔ (take n s ≡ take n t))
strcmp_iff fuel n m p q s t hs ht f =
    let a = NoNul-IsString m p s hs in
    let b = NoNul-IsString m q t ht in
    let e = strncmp-diff n m p q s t hs ht in
    (
      diff s t,
      strcmp-diff fuel m p q s t hs ht f,
      (diff-eq s t a b, λ same. rw same (diff_self t)),
      (
        λ zero_result.
            diff-eq (take n s) (take n t) (NoNul-take n s a) (NoNul-take n t b)
              (sym e ∙ zero_result),
        λ same. e ∙ rw same (diff_self (take n t)),
      ),
    )

at_zero : (m : Mem) (p : ℕ) → m (p + 0) ≡ m p
at_zero m p = ap m (omega arith)

at_suc : (m : Mem) (p i : ℕ) → m (p + suc i) ≡ m (suc p + i)
at_suc m p i = ap m (omega arith)

memcmp-eq : (n : ℕ) (m : Mem) (p q i : ℕ) → memcmp m p q n ≡ pos 0 → i < n → m (p + i) ≡ m (q + i)
unfolding memcmp
memcmp-eq zero m p q i e h = absurd (omega arith)
memcmp-eq (suc n) m p q zero e h =
    at_zero m p ∙ ground (arith, sub_ℕ-eq-zero (m p) (m q)) ∙ sym (at_zero m q)
memcmp-eq (suc n) m p q (suc i) e h =
    at_suc m p i
    ∙ memcmp-eq n m (suc p) (suc q) i (ground (arith, sub_ℕ-eq-zero (m p) (m q))) (omega arith)
    ∙ sym (at_suc m q i)

memcmp_same :
    (n : ℕ) (m : Mem) (p q : ℕ) → ((i : ℕ) → i < n → m (p + i) ≡ m (q + i)) → memcmp m p q n ≡ pos 0
unfolding memcmp
memcmp_same zero m p q same = refl
memcmp_same (suc n) m p q same =
    let first : m p ≡ m q = sym (at_zero m p) ∙ same 0 (omega arith) ∙ at_zero m q in
    let rest : memcmp m (suc p) (suc q) n ≡ pos 0 =
      memcmp_same n m (suc p) (suc q)
        (λ i h. sym (at_suc m p i) ∙ same (suc i) (omega arith) ∙ at_suc m q i) in
    ground (arith, first, rest)

-- memcmp of `n` bytes is 0 exactly when all of them are equal.
pub memcmp_iff :
    (n : ℕ) (m : Mem) (p q : ℕ)
    → (memcmp m p q n ≡ pos 0) ↔ ((i : ℕ) → i < n → m (p + i) ≡ m (q + i))
memcmp_iff n m p q = (λ e i h. memcmp-eq n m p q i e h, memcmp_same n m p q)
