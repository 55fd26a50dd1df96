-- ===== src/Printf/Number.antt =====
-- printnum of lib/riscv/printfmt.c, and strtol of lib/riscv/string.c, which reads the number back.
use zynex_os.Base.{
  ℕ, zero, suc, ◌+◌, ◌*◌, ◌/◌, ◌%◌, ◌^◌, ◌≤◌, ◌<◌, ◌≡◌, refl, sym, ◌∙◌, ap, subst, ◌⊎◌, inl, inr,
  true, false, Option, some, List, [], ◌∷◌, ◌++◌, arith, leb, length,
}
use native.Mathlib.Decide.{dec_lt}
use zynex_os.Base.Int.{pos}
use zynex_os.Base.Memory.{Mem, IsString}
use zynex_os.CString.{digit_value, strtol}
use zynex_os.CString.Number.{strtol-number, number, Digits, digit_value-char}
use zynex_os.Printf.{digit_char, printnum}

-- The bases that vprintfmt prints in.
abbrev pub IsBase : ℕ → Type 0
IsBase base = (base ≡ 8) ⊎ ((base ≡ 10) ⊎ (base ≡ 16))

record Divides (base n : ℕ) : Type 0 where
  pub whole : n / base * base + n % base ≡ n
  pub small : n % base < base
  pub half : n / base ≤ n / 2
  pub range : (2 ≤ base) × (base ≤ 16)
  pub more : base ≤ n → 0 < n / base
  pub less : n < base → n % base ≡ n

IsBase-Divides : (base n : ℕ) → IsBase base → Divides base n
IsBase-Divides base n (inl e) =
    subst (λ b. Divides b n) (sym e)
      (record {
        whole = omega arith;
        small = omega arith;
        half = omega arith;
        range = (omega arith, omega arith);
        more = λ h. omega arith;
        less = λ h. omega arith;
      })
IsBase-Divides base n (inr (inl e)) =
    subst (λ b. Divides b n) (sym e)
      (record {
        whole = omega arith;
        small = omega arith;
        half = omega arith;
        range = (omega arith, omega arith);
        more = λ h. omega arith;
        less = λ h. omega arith;
      })
IsBase-Divides base n (inr (inr e)) =
    subst (λ b. Divides b n) (sym e)
      (record {
        whole = omega arith;
        small = omega arith;
        half = omega arith;
        range = (omega arith, omega arith);
        more = λ h. omega arith;
        less = λ h. omega arith;
      })

number-append :
    (base acc d : ℕ) (ds : List ℕ) → number base acc (ds ++ d ∷ []) ≡ number base acc ds * base + d
number-append base acc d [] = refl
number-append base acc d (x ∷ ds) = number-append base (acc * base + x) d ds

Digits-append :
    (base d c : ℕ) (ds s : List ℕ)
    → Digits base ds s
    → digit_value c ≡ some d
    → d < base
    → Digits base (ds ++ d ∷ []) (s ++ c ∷ [])
Digits-append base d c [] [] dg e lt = (e, lt, tt)
Digits-append base d c [] (x ∷ s) dg e lt = absurd dg
Digits-append base d c (x ∷ ds) [] dg e lt = absurd dg
Digits-append base d c (x ∷ ds) (y ∷ s) dg e lt =
    (dg.0, dg.1, Digits-append base d c ds s dg.2 e lt)

-- What printnum emits for `num` without padding: the digits of `num`, at least one.
pub record Printed (base num : ℕ) (o : Option (List ℕ)) : Type 0 where
  pub first : ℕ
  pub digits : List ℕ
  pub text : List ℕ
  pub emitted : o ≡ some text
  pub spelled : Digits base (first ∷ digits) text
  pub value : number base 0 (first ∷ digits) ≡ num

printnum_last :
    (fuel num base : ℕ)
    → num < base
    → printnum (suc fuel) num base 0 0 ≡ some (digit_char (num % base) ∷ [])
unfolding printnum
printnum_last fuel num base lt = rw out refl
  where
    out : leb base num ≡ false
    out = ground arith

printnum_more :
    (fuel num base : ℕ) (s : List ℕ)
    → base ≤ num
    → printnum fuel (num / base) base 0 0 ≡ some s
    → printnum (suc fuel) num base 0 0 ≡ some (s ++ digit_char (num % base) ∷ [])
unfolding printnum
printnum_more fuel num base s le e = rw (more, printnum) (rw e refl)
  where
    more : leb base num ≡ true
    more = ground arith

printnum_last-Printed :
    (fuel num base : ℕ)
    → Divides base num
    → num < base
    → Printed base num (printnum (suc fuel) num base 0 0)
printnum_last-Printed fuel num base d lt = record {
  first = num % base;
  digits = [];
  text = digit_char (num % base) ∷ [];
  emitted = printnum_last fuel num base lt;
  spelled = (digit_value-char (num % base) (omega (arith, d.small, d.range.1)), d.small, tt);
  value = omega (arith, d.less lt);
}

printnum_more-Printed :
    (fuel num base : ℕ)
    → Divides base num
    → base ≤ num
    → Printed base (num / base) (printnum fuel (num / base) base 0 0)
    → Printed base num (printnum (suc fuel) num base 0 0)
printnum_more-Printed fuel num base d le p = record {
  first = p.first;
  digits = p.digits ++ num % base ∷ [];
  text = p.text ++ digit_char (num % base) ∷ [];
  emitted = printnum_more fuel num base p.text le p.emitted;
  spelled =
      Digits-append base (num % base) (digit_char (num % base)) (p.first ∷ p.digits) p.text
        p.spelled (digit_value-char (num % base) (omega (arith, d.small, d.range.1))) d.small;
  value =
      number-append base 0 (num % base) (p.first ∷ p.digits)
      ∙ ap (λ v. v * base + num % base) p.value
      ∙ d.whole;
}

-- printnum without padding, in a base that vprintfmt uses, and with fuel for the bits of `num`, ends
-- and emits the digits of `num`, the most significant first: at least one, each below the base.
pub printnum-Printed :
    (fuel num base : ℕ)
    → IsBase base
    → num < 2 ^ suc fuel
    → Printed base num (printnum (suc fuel) num base 0 0)
printnum-Printed zero num base is h =
    let d = IsBase-Divides base num is in
    printnum_last-Printed zero num base d (omega (arith, d.range.0))
printnum-Printed (suc fuel) num base is h =
    let d = IsBase-Divides base num is in
    elim (dec_lt num base) [
      | yes lt ↦ printnum_last-Printed (suc fuel) num base d lt
      | no ge ↦
          printnum_more-Printed (suc fuel) num base d (omega arith)
            (printnum-Printed fuel (num / base) base is (omega (arith, d.half)))
    ]

-- The text `s` of a number, printed by printnum without padding in a base that vprintfmt uses, is
-- read back from memory by strtol in that base, which stops at the terminator.
pub strtol-printnum :
    (fuel num base : ℕ) (s : List ℕ) (m : Mem) (p : ℕ)
    → IsBase base
    → num < 2 ^ suc fuel
    → printnum (suc fuel) num base 0 0 ≡ some s
    → IsString m p s
    → strtol (suc (length s)) m p base ≡ some (pos num, p + length s)
strtol-printnum fuel num base s m p is h e at =
    let r = printnum-Printed fuel num base is h in
    let (lo, hi) = (IsBase-Divides base num is).range in
    let same : r.text ≡ s = some_inj (sym r.emitted ∙ e) in
    strtol-number (suc (length s)) m p base r.first r.digits s at
      (subst (Digits base (r.first ∷ r.digits)) same r.spelled) lo hi (omega arith)
    ∙ ap (λ v. some (pos v, p + length s)) r.value
  where
    some_inj : {x y : List ℕ} → some x ≡ some y → x ≡ y
    some_inj q = cc
