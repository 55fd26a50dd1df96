-- ===== src/CString/Number.antt =====
-- strtol of lib/riscv/string.c on a string of digits.
use zynex_os.Base.{
  ℕ, zero, suc, ◌+◌, ◌-◌, ◌*◌, ◌≤◌, ◌<◌, ◌≡◌, ◌≢◌, refl, sym, ◌∙◌, ap, Bool, false, some, List, [],
  ◌∷◌, arith, ltb, leb, if◌then◌else◌, length,
}
use zynex_os.Base.Int.{pos}
use zynex_os.Base.Memory.{Mem, IsString}
use zynex_os.CString.{skip_blanks, sign, base_prefix, digit_value, digits_loop, negate_if, strtol}

-- The number that digits stand for, the most significant first, after `acc`.
abbrev pub number : ℕ → ℕ → List ℕ → ℕ
number base acc [] = acc
number base acc (d ∷ ds) = number base (acc * base + d) ds

-- The characters `s` are the digits `ds` in `base`.
abbrev pub Digits : ℕ → List ℕ → List ℕ → Type 0
Digits base [] [] = Unit {0}
Digits base [] (c ∷ s) = ⊥
Digits base (d ∷ ds) [] = ⊥
Digits base (d ∷ ds) (c ∷ s) = (digit_value c ≡ some d) × (d < base) × Digits base ds s

digits_loop_end :
    (fuel : ℕ) (m : Mem) (p base acc : ℕ)
    → m p ≡ 0
    → digits_loop (suc fuel) m p base acc ≡ some (acc, p)
unfolding digits_loop
digits_loop_end fuel m p base acc e = rw (e, digits_loop) refl

digits_loop_step :
    (fuel : ℕ) (m : Mem) (p base acc d : ℕ)
    → digit_value (m p) ≡ some d
    → d < base
    → digits_loop (suc fuel) m p base acc ≡ digits_loop fuel m (suc p) base (acc * base + d)
unfolding digits_loop
digits_loop_step fuel m p base acc d e lt = rw (e, digits_loop) (rw out refl)
  where
    out : leb base d ≡ false
    out = ground arith

digits_loop-number :
    (fuel : ℕ) (m : Mem) (p base acc : ℕ) (ds s : List ℕ)
    → IsString m p s
    → Digits base ds s
    → length s < fuel
    → digits_loop fuel m p base acc ≡ some (number base acc ds, p + length s)
digits_loop-number zero m p base acc ds s is dg h = absurd (omega arith)
digits_loop-number (suc fuel) m p base acc [] (c ∷ s) is dg h = absurd dg
digits_loop-number (suc fuel) m p base acc (d ∷ ds) [] is dg h = absurd dg
digits_loop-number (suc fuel) m p base acc [] [] is dg h =
    digits_loop_end fuel m p base acc is ∙ ap (λ q. some (acc, q)) (omega arith)
digits_loop-number (suc fuel) m p base acc (d ∷ ds) (c ∷ s) is dg h =
    digits_loop_step fuel m p base acc d (ap digit_value is.0 ∙ dg.0) dg.1
    ∙ digits_loop-number fuel m (suc p) base (acc * base + d) ds s is.2 dg.2 (omega arith)
    ∙ ap (λ q. some (number base acc (d ∷ ds), q)) (omega arith)

-- The first character of a number is a digit.
head_digit : (c d : ℕ) → digit_value c ≡ some d → (b'0' ≤ c) × (d < 16 → c ≢ b'x')
unfolding digit_value
head_digit c d e = (ground (arith, e), λ lt x. ground (arith, e))

second_char :
    (m : Mem) (q base : ℕ) (ds s : List ℕ)
    → IsString m q s
    → Digits base ds s
    → base ≤ 16
    → m q ≢ b'x'
second_char m q base [] [] is dg hi e = omega arith
second_char m q base [] (c ∷ s) is dg hi e = absurd dg
second_char m q base (d ∷ ds) [] is dg hi e = absurd dg
second_char m q base (d ∷ ds) (c ∷ s) is dg hi e =
    (head_digit c d dg.0).1 (omega arith) (sym is.0 ∙ e)

skip_blanks_digit : (fuel : ℕ) (m : Mem) (p : ℕ) → b'0' ≤ m p → skip_blanks (suc fuel) m p ≡ some p
unfolding skip_blanks
skip_blanks_digit fuel m p h = ground arith

sign_digit : (m : Mem) (p : ℕ) → b'0' ≤ m p → sign m p ≡ (p, false)
unfolding sign
sign_digit m p h = ground arith

base_prefix_given :
    (m : Mem) (p base : ℕ) → 2 ≤ base → m (suc p) ≢ b'x' → base_prefix m p base ≡ (p, base)
unfolding base_prefix
base_prefix_given m p base lo ne = ground (arith, ne)

strtol-digits_loop :
    (fuel : ℕ) (m : Mem) (p base v end : ℕ)
    → skip_blanks fuel m p ≡ some p
    → sign m p ≡ (p, false)
    → base_prefix m p base ≡ (p, base)
    → digits_loop fuel m p base 0 ≡ some (v, end)
    → strtol fuel m p base ≡ some (pos v, end)
unfolding strtol
strtol-digits_loop fuel m p base v end blanks plus prefix digits =
    rw (blanks, strtol)
      (rw plus (rw prefix (rw digits (ap (λ (x : ℕ × Bool). some (negate_if x.1 v, end)) plus))))

-- strtol of the digits `d ∷ ds` in a base from 2 to 16, with fuel for their characters, is the
-- number that they stand for, and its end pointer is at the terminator.
pub strtol-number :
    (fuel : ℕ) (m : Mem) (p base d : ℕ) (ds s : List ℕ)
    → IsString m p s
    → Digits base (d ∷ ds) s
    → 2 ≤ base
    → base ≤ 16
    → length s < fuel
    → strtol fuel m p base ≡ some (pos (number base 0 (d ∷ ds)), p + length s)
strtol-number fuel m p base d ds [] is dg lo hi h = absurd dg
strtol-number zero m p base d ds (c ∷ s) is dg lo hi h = absurd (omega arith)
strtol-number (suc fuel) m p base d ds (c ∷ s) is dg lo hi h =
    let big : b'0' ≤ m p = omega (arith, is.0, (head_digit c d dg.0).0) in
    let prefix = base_prefix_given m p base lo (second_char m (suc p) base ds s is.2 dg.2 hi) in
    let digits = digits_loop-number (suc fuel) m p base 0 (d ∷ ds) (c ∷ s) is dg h in
    strtol-digits_loop (suc fuel) m p base _ _ (skip_blanks_digit fuel m p big) (sign_digit m p big)
      prefix digits

-- The characters 0 to 9 and a to f have the values 0 to 15.
pub digit_value-char :
    (d : ℕ) → d < 16 → digit_value (if ltb d 10 then b'0' + d else b'a' + d - 10) ≡ some d
unfolding digit_value
digit_value-char d h = ground arith
