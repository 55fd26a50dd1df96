-- ===== src/Printf/Format/Directive.antt =====
-- The part of a directive of vprintfmt of lib/riscv/printfmt.c that stands before its last character.
use zynex_os.Base.{
  ℕ, zero, suc, ◌+◌, ◌-◌, ◌*◌, ◌<◌, ◌≡◌, refl, ◌∙◌, ap, Bool, true, false, ◌||◌, List, [], ◌∷◌,
  ◌++◌, arith, ◌==◌, length, replicate, length-append,
}
use zynex_os.Base.Int.{ℤ, pos, negsuc}
use zynex_os.CString.Number.{number}
use zynex_os.Printf.Format.{
  VaArg, Run, ended, Flags, is_digit, width_field, reswitch, no_flags, convert, emit, append_to,
  vprintfmt,
}

-- A width is the list of its digits, the first of them not 0; the empty one is no width.
abbrev pub IsDigits : List ℕ → Type 0
IsDigits [] = Unit {0}
IsDigits (d ∷ ds) = (d < 10) × IsDigits ds

abbrev pub IsWidth : List ℕ → Type 0
IsWidth [] = Unit {0}
IsWidth (d ∷ ds) = (0 < d) × (d < 10) × IsDigits ds

abbrev pub digits_text : List ℕ → List ℕ
digits_text [] = []
digits_text (d ∷ ds) = (b'0' + d) ∷ digits_text ds

abbrev pub width_or : ℤ → List ℕ → ℤ
width_or w [] = w
width_or w (d ∷ ds) = pos (number 10 0 (d ∷ ds))

-- What stands between the `%` and the `l`s: nothing, `0` or `-`.
pub data Pad : Type 0 where
  spaces : Pad
  zeros : Pad
  dashes : Pad

abbrev pub pad_text : Pad → List ℕ
pad_text spaces = []
pad_text zeros = b'0' ∷ []
pad_text dashes = b'-' ∷ []

abbrev pub pad_char : Pad → ℕ
pad_char spaces = b' '
pad_char zeros = b'0'
pad_char dashes = b'-'

-- The characters that the switch reads on after.
abbrev pub is_flag : ℕ → Bool
is_flag c =
    (c == b'-')
    || (c == b'0')
    || is_digit c
    || (c == b'*')
    || (c == b'.')
    || (c == b'#')
    || (c == b'l')

pub reswitch-final :
    (fuel c : ℕ) (fmt : List ℕ) (s : Flags) (args : List VaArg)
    → is_flag c ≡ false
    → reswitch (suc fuel) (c ∷ fmt) s args
      ≡ ended (record { ch = c; flags = s; fmt = fmt; ap = args })
unfolding reswitch
reswitch-final fuel c fmt s args h = ground (arith, h)

width_field-digits :
    (n : ℕ) (ds : List ℕ) (c : ℕ) (fmt : List ℕ)
    → IsDigits ds
    → is_digit c ≡ false
    → width_field n (digits_text ds ++ c ∷ fmt) ≡ (number 10 n ds, c ∷ fmt)
unfolding width_field
width_field-digits n [] c fmt is e = rw e refl
width_field-digits n (d ∷ ds) c fmt is e = rw digit (
    ap (λ k. width_field (n * 10 + k) (digits_text ds ++ c ∷ fmt)) value
    ∙ width_field-digits (n * 10 + d) ds c fmt is.1 e)
  where
    digit : is_digit (b'0' + d) ≡ true
    digit = ground (arith, is.0)

    value : b'0' + d - b'0' ≡ d
    value = omega arith

reswitch-longs :
    (l fuel : ℕ) (c : ℕ) (fmt : List ℕ) (s : Flags) (args : List VaArg)
    → is_flag c ≡ false
    → l < fuel
    → reswitch fuel (replicate l b'l' ++ c ∷ fmt) s args
      ≡ ended (record { ch = c; flags = record s { lflag = l + s.lflag }; fmt = fmt; ap = args })
unfolding reswitch
reswitch-longs l zero c fmt s args h lt = absurd (omega arith)
reswitch-longs zero (suc fuel) c fmt s args h lt =
    reswitch-final fuel c fmt s args h
    ∙ ap (λ k. ended (record { ch = c; flags = record s { lflag = k }; fmt = fmt; ap = args }))
        (omega arith)
reswitch-longs (suc l) (suc fuel) c fmt s args h lt =
    reswitch-longs l fuel c fmt (record s { lflag = suc s.lflag }) args h (omega arith)
    ∙ ap (λ k. ended (record { ch = c; flags = record s { lflag = k }; fmt = fmt; ap = args }))
        (omega arith)

width_field-longs :
    (n : ℕ) (ds : List ℕ) (l c : ℕ) (fmt : List ℕ)
    → IsDigits ds
    → is_flag c ≡ false
    → width_field n (digits_text ds ++ (replicate l b'l' ++ c ∷ fmt))
      ≡ (number 10 n ds, replicate l b'l' ++ c ∷ fmt)
width_field-longs n ds zero c fmt is h = width_field-digits n ds c fmt is (ground (arith, h))
width_field-longs n ds (suc l) c fmt is h =
    width_field-digits n ds b'l' (replicate l b'l' ++ c ∷ fmt) is refl

reswitch-width :
    (w : List ℕ) (l fuel c : ℕ) (fmt : List ℕ) (padc : ℕ) (args : List VaArg)
    → IsWidth w
    → is_flag c ≡ false
    → length w + l < fuel
    → reswitch fuel
        (digits_text w ++ (replicate l b'l' ++ c ∷ fmt))
        (record no_flags { padc = padc })
        args
      ≡ ended (record {
        ch = c;
        flags = record no_flags { padc = padc; width = width_or (negsuc 0) w; lflag = l };
        fmt = fmt;
        ap = args;
      })
unfolding reswitch
reswitch-width w l zero c fmt padc args is h lt = absurd (omega arith)
reswitch-width [] l (suc fuel) c fmt padc args is h lt =
    reswitch-longs l (suc fuel) c fmt (record no_flags { padc = padc }) args h (omega arith)
    ∙ ap
        (λ k. ended (record {
          ch = c;
          flags = record no_flags { padc = padc; lflag = k };
          fmt = fmt;
          ap = args;
        }))
        (omega arith)
reswitch-width (d ∷ ds) l (suc fuel) c fmt padc args is h lt =
    rw (no_minus, no_zero, digit)
      (ap (λ r. reswitch fuel r.1 (record no_flags { padc = padc; width = pos r.0 }) args) field
        ∙ reswitch-longs l fuel c fmt
            (record no_flags { padc = padc; width = pos (number 10 (0 * 10 + d) ds) }) args h
            (omega arith)
        ∙ ap
            (λ k. ended (record {
              ch = c;
              flags = record no_flags {
                padc = padc;
                width = pos (number 10 (0 * 10 + d) ds);
                lflag = k;
              };
              fmt = fmt;
              ap = args;
            }))
            (omega arith))
  where
    field :
        width_field (b'0' + d - b'0') (digits_text ds ++ (replicate l b'l' ++ c ∷ fmt))
        ≡ (number 10 (0 * 10 + d) ds, replicate l b'l' ++ c ∷ fmt)
    field =
        ap (λ k. width_field k (digits_text ds ++ (replicate l b'l' ++ c ∷ fmt))) (omega arith)
        ∙ width_field-longs (0 * 10 + d) ds l c fmt is.2 h

    no_minus : (b'0' + d == b'-') ≡ false
    no_minus = ground arith

    no_zero : (b'0' + d == b'0') ≡ false
    no_zero = ground (arith, is.0)

    digit : is_digit (b'0' + d) ≡ true
    digit = ground (arith, is.1)

-- The flags that a directive's text sets.
abbrev pub flags_of : Pad → List ℕ → ℕ → Flags
flags_of p w l = record no_flags { padc = pad_char p; width = width_or (negsuc 0) w; lflag = l }

abbrev pub flags_text : Pad → List ℕ → ℕ → List ℕ → List ℕ
flags_text p w l fmt = pad_text p ++ (digits_text w ++ (replicate l b'l' ++ fmt))

pub reswitch-flags_of :
    (p : Pad) (w : List ℕ) (l c fuel : ℕ) (fmt : List ℕ) (args : List VaArg)
    → IsWidth w
    → is_flag c ≡ false
    → length (pad_text p) + (length w + l) < fuel
    → reswitch fuel (flags_text p w l (c ∷ fmt)) no_flags args
      ≡ ended (record { ch = c; flags = flags_of p w l; fmt = fmt; ap = args })
unfolding reswitch
reswitch-flags_of p w l c zero fmt args is h lt = absurd (omega arith)
reswitch-flags_of spaces w l c (suc fuel) fmt args is h lt =
    reswitch-width w l (suc fuel) c fmt b' ' args is h (omega arith)
reswitch-flags_of zeros w l c (suc fuel) fmt args is h lt =
    reswitch-width w l fuel c fmt b'0' args is h (omega arith)
reswitch-flags_of dashes w l c (suc fuel) fmt args is h lt =
    reswitch-width w l fuel c fmt b'-' args is h (omega arith)

length-digits_text :
    (w : List ℕ) (fmt : List ℕ) → length (digits_text w ++ fmt) ≡ length w + length fmt
length-digits_text [] fmt = omega arith
length-digits_text (d ∷ w) fmt = omega (arith, length-digits_text w fmt)

length-longs : (l : ℕ) (fmt : List ℕ) → length (replicate l b'l' ++ fmt) ≡ l + length fmt
length-longs zero fmt = omega arith
length-longs (suc l) fmt = omega (arith, length-longs l fmt)

length-flags_text :
    (p : Pad) (w : List ℕ) (l : ℕ) (fmt : List ℕ)
    → length (flags_text p w l fmt) ≡ length (pad_text p) + (length w + (l + length fmt))
length-flags_text p w l fmt =
    length-append (pad_text p) (digits_text w ++ (replicate l b'l' ++ fmt))
    ∙ ap (λ k. length (pad_text p) + k)
        (length-digits_text w (replicate l b'l' ++ fmt)
          ∙ ap (λ k. length w + k) (length-longs l fmt))

-- A directive whose conversion emits `out` and leaves the arguments `rest`.
pub vprintfmt-flags_of :
    (p : Pad) (w : List ℕ) (l c fuel : ℕ) (fmt : List ℕ) (out : List ℕ) (args rest : List VaArg)
    → IsWidth w
    → is_flag c ≡ false
    → ((printfmt : List ℕ → List VaArg → Run (List ℕ))
        → convert printfmt (record { ch = c; flags = flags_of p w l; fmt = fmt; ap = args })
          ≡ emit out rest)
    → vprintfmt (suc fuel) (b'%' ∷ flags_text p w l (c ∷ fmt)) args
      ≡ append_to out (vprintfmt fuel fmt rest)
unfolding vprintfmt
vprintfmt-flags_of p w l c fuel fmt out args rest is h e =
    rw
      (reswitch-flags_of p w l c (suc (length (flags_text p w l (c ∷ fmt)))) fmt args is h
        (omega (arith, length-flags_text p w l (c ∷ fmt))))
      (rw (e (vprintfmt fuel)) refl)
