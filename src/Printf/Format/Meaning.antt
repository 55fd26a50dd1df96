-- ===== src/Printf/Format/Meaning.antt =====
-- What vprintfmt of lib/riscv/printfmt.c emits for a format of known pieces.
use zynex_os.Base.{
  ℕ, zero, suc, ◌-◌, ◌/◌, ◌%◌, ◌^◌, ◌≤◌, ◌<◌, ◌≡◌, refl, sym, ◌∙◌, ap, Bool, true, false, ◌&&◌,
  ◌==◌, if◌then◌else◌, Option, none, some, List, [], ◌∷◌, ◌++◌, arith, leb, ltb, length, replicate,
  length-append,
}
use native.Mathlib.Decide.{dec_lt}
use zynex_os.Base.Int.{pos, negsuc, pos_part, ltb_ℤ}
use zynex_os.CString.Number.{number, Digits}
use zynex_os.Printf.{digit_char, printnum}
use zynex_os.Printf.Number.{IsBase, printnum-Printed}
use zynex_os.Printf.Format.{no_flags, print_string, string_chars, print_number}
use zynex_os.Printf.Format.Directive.{Pad, spaces, zeros, dashes, pad_char, width_or, flags_of}

-- `s` are the digits of `n`, the most significant first, at least one.
pub record Numeral (base n : ℕ) (s : List ℕ) : Type 0 where
  pub first : ℕ
  pub digits : List ℕ
  pub spelled : Digits base (first ∷ digits) s
  pub value : number base 0 (first ∷ digits) ≡ n

-- Padding on the left up to the width.
abbrev pub padded : ℕ → ℕ → List ℕ → List ℕ
padded c w s = replicate (w - length s) c ++ s

length-snoc : (s : List ℕ) (c : ℕ) → length (s ++ c ∷ []) ≡ suc (length s)
length-snoc s c = length-append s (c ∷ []) ∙ omega arith

append_assoc : (a b c : List ℕ) → (a ++ b) ++ c ≡ a ++ (b ++ c)
append_assoc [] b c = refl
append_assoc (x ∷ a) b c = ap (λ t. x ∷ t) (append_assoc a b c)

padded-snoc :
    (c w : ℕ) (s : List ℕ) (d : ℕ) → padded c (w - 1) s ++ d ∷ [] ≡ padded c w (s ++ d ∷ [])
padded-snoc c w s d =
    append_assoc (replicate (w - 1 - length s) c) s (d ∷ [])
    ∙ ap (λ k. replicate k c ++ (s ++ d ∷ [])) (omega (arith, length-snoc s d))

abbrev pub padded_out : ℕ → ℕ → Option (List ℕ) → Option (List ℕ)
padded_out c w none = none
padded_out c w (some s) = some (padded c w s)

abbrev digit_after : ℕ → Option (List ℕ) → Option (List ℕ)
digit_after d none = none
digit_after d (some s) = some (s ++ d ∷ [])

digit_after-padded_out :
    (c w d : ℕ) (o : Option (List ℕ))
    → digit_after d (padded_out c (w - 1) o) ≡ padded_out c w (digit_after d o)
digit_after-padded_out c w d none = refl
digit_after-padded_out c w d (some s) = ap some (padded-snoc c w s d)

printnum_last :
    (fuel num base w c : ℕ)
    → num < base
    → printnum (suc fuel) num base w c ≡ some (padded c w (digit_char (num % base) ∷ []))
unfolding printnum
printnum_last fuel num base w c lt = rw out refl
  where
    out : leb base num ≡ false
    out = ground arith

printnum_more :
    (fuel num base w c : ℕ)
    → base ≤ num
    → printnum (suc fuel) num base w c
      ≡ digit_after (digit_char (num % base)) (printnum fuel (num / base) base (w - 1) c)
unfolding printnum
printnum_more fuel num base w c le = rw (more, printnum) refl
  where
    more : leb base num ≡ true
    more = ground arith

-- printnum with a width is printnum without one, padded on the left.
pub printnum-padded_out :
    (fuel num base w c : ℕ)
    → printnum fuel num base w c ≡ padded_out c w (printnum fuel num base 0 0)
unfolding printnum
printnum-padded_out zero num base w c = refl
printnum-padded_out (suc fuel) num base w c = elim (dec_lt num base) [
  | yes lt ↦
      printnum_last fuel num base w c lt
      ∙ ap (padded_out c w) (sym (printnum_last fuel num base 0 0 lt))
  | no ge ↦
      printnum_more fuel num base w c (omega arith)
      ∙ ap (digit_after (digit_char (num % base)))
          (printnum-padded_out fuel (num / base) base (w - 1) c)
      ∙ digit_after-padded_out c w (digit_char (num % base)) (printnum fuel (num / base) base 0 0)
      ∙ ap (padded_out c w) (sym (printnum_more fuel num base 0 0 (omega arith)))
]

width_value : (w : List ℕ) → pos_part (width_or (negsuc 0) w) ≡ number 10 0 w
width_value [] = refl
width_value (d ∷ ds) = refl

-- What `number` prints: a numeral, padded.
pub record Shown (p : Pad) (w : List ℕ) (n base : ℕ) (o : Option (List ℕ)) : Type 0 where
  pub text : List ℕ
  pub numeral : Numeral base n text
  pub shown : o ≡ some (padded (pad_char p) (number 10 0 w) text)

pub print_number-Shown :
    (p : Pad) (w : List ℕ) (l n base : ℕ)
    → IsBase base
    → n < 2 ^ 64
    → Shown p w n base (print_number (flags_of p w l) n base)
unfolding print_number
print_number-Shown p w l n base is lt =
    let r = printnum-Printed 63 n base is lt in
    record {
      text = r.text;
      numeral = record { first = r.first; digits = r.digits; spelled = r.spelled; value = r.value };
      shown =
          ap (λ k. printnum 64 n base k (pad_char p)) (width_value w)
          ∙ printnum-padded_out 64 n base (number 10 0 w) (pad_char p)
          ∙ ap (padded_out (pad_char p) (number 10 0 w)) r.emitted;
    }

-- The characters of a string field: padded on the left, or with `-` on the right.
abbrev pub aligned : Pad → ℕ → List ℕ → List ℕ
aligned spaces w s = padded b' ' w s
aligned zeros w s = padded b'0' w s
aligned dashes w s = s ++ replicate (w - length s) b' '

string_chars_all : (s : List ℕ) → string_chars false s (negsuc 0) ≡ s
unfolding string_chars
string_chars_all [] = refl
string_chars_all (c ∷ s) = ap (λ t. c ∷ t) (string_chars_all s)

append_nil : (s : List ℕ) → s ++ [] ≡ s
append_nil [] = refl
append_nil (c ∷ s) = ap (λ t. c ∷ t) (append_nil s)

shape_left :
    (b : Bool) (n c : ℕ) (s t : List ℕ)
    → t ≡ s
    → b ≡ ltb 0 n
    → replicate (if b then n - length s else 0) c
        ++ t
        ++ replicate (if b then 0 else n - length t) b' '
      ≡ padded c n s
shape_left true n c s t e h =
    append_nil (replicate (n - length s) c ++ t) ∙ ap (λ u. replicate (n - length s) c ++ u) e
shape_left false n c s t e h =
    ap (λ k. t ++ replicate k b' ') (none_left (length t))
    ∙ append_nil t
    ∙ e
    ∙ ap (λ k. replicate k c ++ s) (sym (none_left (length s)))
  where
    none_left : (k : ℕ) → n - k ≡ 0
    none_left k = ground (arith, h)

pad_test :
    (w : List ℕ)
    → (ltb_ℤ (pos 0) (width_or (negsuc 0) w) && true) ≡ ltb 0 (pos_part (width_or (negsuc 0) w))
pad_test [] = refl
pad_test (d ∷ ds) = ground arith

print_string_left :
    (w : List ℕ) (l c : ℕ) (s : List ℕ)
    → (c == b'-') ≡ false
    → print_string (record no_flags { padc = c; width = width_or (negsuc 0) w; lflag = l }) s
      ≡ padded c (number 10 0 w) s
unfolding print_string
print_string_left w l c s h = rw h (
    shape_left (ltb_ℤ (pos 0) (width_or (negsuc 0) w) && true) (pos_part (width_or (negsuc 0) w)) c
      s (string_chars false s (negsuc 0)) (string_chars_all s) (pad_test w)
    ∙ ap (λ n. padded c n s) (width_value w))

and_false : (b : Bool) → (b && false) ≡ false
and_false true = refl
and_false false = refl

print_string_right :
    (w : List ℕ) (l : ℕ) (s : List ℕ)
    → print_string (flags_of dashes w l) s ≡ s ++ replicate (number 10 0 w - length s) b' '
unfolding print_string
print_string_right w l s =
    rw (and_false (ltb_ℤ (pos 0) (width_or (negsuc 0) w)), string_chars_all s, width_value w) refl

pub print_string-aligned :
    (p : Pad) (w : List ℕ) (l : ℕ) (s : List ℕ)
    → print_string (flags_of p w l) s ≡ aligned p (number 10 0 w) s
unfolding print_string
print_string-aligned spaces w l s = print_string_left w l b' ' s refl
print_string-aligned zeros w l s = print_string_left w l b'0' s refl
print_string-aligned dashes w l s = print_string_right w l s
