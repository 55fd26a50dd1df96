-- ===== src/Printf/Format/Fuel.antt =====
-- vprintfmt of lib/riscv/printfmt.c comes to the end of every format.
use zynex_os.Base.{
  ℕ, zero, suc, ◌+◌, ◌-◌, ◌*◌, ◌^◌, ◌≤◌, ◌<◌, ◌≡◌, refl, ◌∙◌, ap, ap₂, subst, Bool, true, false,
  Option, none, some, List, [], ◌∷◌, arith, ◌==◌, leb, ◌||◌, if◌then◌else◌, length, get_or,
}
use zynex_os.Base.Int.{ℤ, pos, negsuc}
use zynex_os.Printf.Format.{
  VaArg, Run, ended, breaks, running, unfinished, word, string, codes, Flags, no_flags, Conversion,
  Action, undefined, emit, literal, is_digit, width_field, process_precision, getint, error_string,
  maxerror, reswitch, emit_run, print_error, print_errno, convert, after_conversion, at_percent,
  append_to, vprintfmt,
}

pub if_case {ℓ κ} :
    {A : Type ℓ} (P : A → Type κ) (b : Bool) (x y : A) → P x → P y → P (if b then x else y)
if_case P true x y p q = p
if_case P false x y p q = q

-- The format that is left is not longer than `n`.
abbrev pub Within : ℕ → Run Conversion → Type 0
Within n running = ⊥
Within n breaks = Unit {0}
Within n (ended d) = length d.fmt ≤ n

width_field-length : (k : ℕ) (fmt : List ℕ) → length (width_field k fmt).1 ≤ length fmt
unfolding width_field
width_field-length k [] = omega arith
width_field-length k (c ∷ fmt) =
    if_case (λ (r : ℕ × List ℕ). length r.1 ≤ suc (length fmt)) (is_digit c)
      (width_field (k * 10 + (c - b'0')) fmt) (k, c ∷ fmt)
      (omega (arith, width_field-length (k * 10 + (c - b'0')) fmt)) (omega arith)

pub reswitch-Within :
    (fuel n : ℕ) (fmt : List ℕ) (s : Flags) (args : List VaArg)
    → length fmt ≤ n
    → length fmt < fuel
    → Within n (reswitch fuel fmt s args)
unfolding reswitch
reswitch-Within zero n fmt s args h lt = absurd (omega arith)
reswitch-Within (suc fuel) n [] s args h lt = omega arith
reswitch-Within (suc fuel) n (c ∷ fmt) s args h lt =
    let r = width_field-length (c - b'0') fmt in
    if_case (Within n) (c == b'-') _ _
      (reswitch-Within fuel n fmt _ args (omega arith) (omega arith))
      (if_case (Within n) (c == b'0') _ _
        (reswitch-Within fuel n fmt _ args (omega arith) (omega arith))
        (if_case (Within n) (is_digit c) _ _
          (reswitch-Within fuel n _ _ args (omega arith) (omega arith))
          (if_case (Within n) (c == b'*') _ _
            (star (getint args 0) (λ r.
              reswitch-Within fuel n fmt (process_precision r.0 s) r.1 (omega arith) (omega arith)))
            (if_case (Within n) (c == b'.') _ _
              (reswitch-Within fuel n fmt _ args (omega arith) (omega arith))
              (if_case (Within n) (c == b'#') _ _
                (reswitch-Within fuel n fmt _ args (omega arith) (omega arith))
                (if_case (Within n) (c == b'l') _ _
                  (reswitch-Within fuel n fmt _ args (omega arith) (omega arith))
                  (omega arith)))))))
  where
    star :
        (o : Option (ℤ × List VaArg))
        → ((r : ℤ × List VaArg) → Within n (reswitch fuel fmt (process_precision r.0 s) r.1))
        → Within n
            (elim o [ none ↦ breaks | some r ↦ reswitch fuel fmt (process_precision r.0 s) r.1 ])
    star none f = tt
    star (some r) f = f r

-- The two formats that `case 'e'` prints with.
abbrev pub error_format : List ℕ
error_format = codes "error %d"

abbrev pub text_format : List ℕ
text_format = codes "%s"

-- Two recursive calls that agree on these two formats.
record Agree (f g : List ℕ → List VaArg → Run (List ℕ)) : Type 0 where
  on_error : (n : ℕ) → f error_format (word n ∷ []) ≡ g error_format (word n ∷ [])
  on_text : (p : List ℕ) → f text_format (string p ∷ []) ≡ g text_format (string p ∷ [])

print_error-Agree :
    (f g : List ℕ → List VaArg → Run (List ℕ)) (n : ℕ) (args : List VaArg)
    → Agree f g
    → print_error f n args ≡ print_error g n args
print_error-Agree f g n args a =
    ap₂
      (λ x y.
        emit_run (if leb maxerror n || (length (get_or error_string n []) == 0) then x else y) args)
      (a.on_error n) (a.on_text (get_or error_string n []))

print_errno-Agree :
    (f g : List ℕ → List VaArg → Run (List ℕ)) (o : Option (ℤ × List VaArg))
    → Agree f g
    → print_errno f o ≡ print_errno g o
print_errno-Agree f g none a = refl
print_errno-Agree f g (some (pos n, args)) a = print_error-Agree f g n args a
print_errno-Agree f g (some (negsuc n, args)) a =
    ap (λ x. if suc n == 2 ^ 31 then undefined else x) (print_error-Agree f g (suc n) args a)

convert-Agree :
    (f g : List ℕ → List VaArg → Run (List ℕ)) (d : Conversion)
    → Agree f g
    → convert f d ≡ convert g d
unfolding convert
convert-Agree f g d a = rw (print_errno-Agree f g (getint d.ap 0) a) refl

abbrev nine_more : ℕ → ℕ
nine_more k = suc (suc (suc (suc (suc (suc (suc (suc (suc k))))))))

nine_more-Agree : (k k' : ℕ) → Agree (vprintfmt (nine_more k)) (vprintfmt (nine_more k'))
unfolding vprintfmt
nine_more-Agree k k' = record { on_error = λ n. refl; on_text = λ p. refl }

vprintfmt-Agree : (k k' : ℕ) → 9 ≤ k → 9 ≤ k' → Agree (vprintfmt k) (vprintfmt k')
vprintfmt-Agree k k' h h' =
    subst (λ x. Agree (vprintfmt x) (vprintfmt k')) (omega arith)
      (subst (λ x. Agree (vprintfmt (nine_more (k - 9))) (vprintfmt x)) (omega arith)
        (nine_more-Agree (k - 9) (k' - 9)))

after_conversion-same :
    (f g : List ℕ → List VaArg → Run (List ℕ)) (fmt : List ℕ) (d : Conversion) (x : Action)
    → length d.fmt ≤ length fmt
    → ((s : List ℕ) (args : List VaArg) → length s ≤ length fmt → f s args ≡ g s args)
    → after_conversion f fmt d x ≡ after_conversion g fmt d x
after_conversion-same f g fmt d undefined h same = refl
after_conversion-same f g fmt d unfinished h same = refl
after_conversion-same f g fmt d (emit out rest) h same = ap (append_to out) (same d.fmt rest h)
after_conversion-same f g fmt d literal h same =
    ap (append_to (b'%' ∷ [])) (same fmt d.ap (omega arith))

at_percent-same :
    (f g : List ℕ → List VaArg → Run (List ℕ)) (fmt : List ℕ) (o : Run Conversion)
    → Within (length fmt) o
    → Agree f g
    → ((s : List ℕ) (args : List VaArg) → length s ≤ length fmt → f s args ≡ g s args)
    → at_percent f fmt o ≡ at_percent g fmt o
unfolding at_percent
at_percent-same f g fmt breaks h a same = refl
at_percent-same f g fmt running h a same = refl
at_percent-same f g fmt (ended d) h a same =
    after_conversion-same f g fmt d (convert f d) h same
    ∙ ap (after_conversion g fmt d) (convert-Agree f g d a)

-- More fuel than nine units and one for each character of the format changes nothing.
pub vprintfmt-enough :
    (k k' : ℕ) (fmt : List ℕ) (args : List VaArg)
    → 9 + length fmt < k
    → 9 + length fmt < k'
    → vprintfmt k fmt args ≡ vprintfmt k' fmt args
unfolding vprintfmt
vprintfmt-enough zero k' fmt args h h' = absurd (omega arith)
vprintfmt-enough (suc k) zero fmt args h h' = absurd (omega arith)
vprintfmt-enough (suc k) (suc k') [] args h h' = refl
vprintfmt-enough (suc k) (suc k') (c ∷ fmt) args h h' =
    ap₂ (λ x y. if c == b'%' then x else append_to (c ∷ []) y)
      (at_percent-same (vprintfmt k) (vprintfmt k') fmt
        (reswitch (suc (length fmt)) fmt no_flags args)
        (reswitch-Within (suc (length fmt)) (length fmt) fmt no_flags args (omega arith)
          (omega arith))
        (vprintfmt-Agree k k' (omega arith) (omega arith))
        (λ s rest le. vprintfmt-enough k k' s rest (omega arith) (omega arith)))
      (vprintfmt-enough k k' fmt args (omega arith) (omega arith))
