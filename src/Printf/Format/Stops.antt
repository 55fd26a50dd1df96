-- ===== src/Printf/Format/Stops.antt =====
-- vprintfmt of lib/riscv/printfmt.c comes back from every call that C defines.
use zynex_os.Base.{
  ℕ, zero, suc, ◌+◌, ◌-◌, ◌^◌, ◌≤◌, ◌<◌, ◌≡◌, ◌≢◌, refl, sym, ◌∙◌, ap, subst, inl, inr, Option,
  none, some, List, [], ◌∷◌, arith, leb, ◌==◌, ◌||◌, length, Bool, true, false, Bool-cases, ◌⊎◌,
  if◌then◌else◌, get_or,
}
use zynex_os.Base.Int.{ℤ, pos, negsuc, pos_part, neg_part}
use zynex_os.Printf.Number.{IsBase, printnum-Printed}
use zynex_os.Printf.Format.{
  VaArg, Run, ended, breaks, running, word, string, null, Flags, no_flags, Conversion, Action,
  undefined, emit, literal, unfinished, signed, long_bits, getuint, getint, error_string, maxerror,
  print_number, emit_run, print_unsigned, print_signed, print_error, print_errno, print_text,
  print_char, convert, append_to, after_conversion, at_percent, reswitch, vprintfmt,
}
use zynex_os.Printf.Format.Directive.{spaces}
use zynex_os.Printf.Format.Meaning.{padded_out, printnum-padded_out}
use zynex_os.Printf.Format.Pieces.{
  Piece, plain, text, signed_number, vprintfmt-RendersAll, signed_small, unsigned_small,
}
use zynex_os.Printf.Format.Fuel.{
  if_case, Within, reswitch-Within, error_format, text_format, vprintfmt-enough,
}

-- Not out of fuel.
abbrev Stops : Run (List ℕ) → Type 0
Stops (ended out) = Unit {0}
Stops breaks = Unit {0}
Stops running = ⊥

abbrev Decided : Action → Type 0
Decided unfinished = ⊥
Decided undefined = Unit {0}
Decided (emit out ap) = Unit {0}
Decided literal = Unit {0}

print_number-some :
    (fl : Flags) (n base : ℕ)
    → IsBase base
    → n < 2 ^ 64
    → (out : List ℕ) × (print_number fl n base ≡ some out)
unfolding print_number
print_number-some fl n base is lt =
    let r = printnum-Printed 63 n base is lt in
    (
      _,
      printnum-padded_out 64 n base (pos_part fl.width) fl.padc
          ∙ ap (padded_out fl.padc (pos_part fl.width)) r.emitted,
    )

abbrev Small : Option (ℕ × List VaArg) → Type 0
Small none = Unit {0}
Small (some r) = r.0 < 2 ^ 64

abbrev SmallInt : Option (ℤ × List VaArg) → Type 0
SmallInt none = Unit {0}
SmallInt (some r) = (pos_part r.0 < 2 ^ 64) × (neg_part r.0 < 2 ^ 64)

getuint-Small : (args : List VaArg) (l : ℕ) → Small (getuint args l)
unfolding getuint
getuint-Small [] l = tt
getuint-Small (word n ∷ args) l = unsigned_small l n
getuint-Small (string s ∷ args) l = tt
getuint-Small (null ∷ args) l = tt

getint-SmallInt : (args : List VaArg) (l : ℕ) → SmallInt (getint args l)
unfolding getint
getint-SmallInt [] l = tt
getint-SmallInt (word n ∷ args) l = signed_small l n
getint-SmallInt (string s ∷ args) l = tt
getint-SmallInt (null ∷ args) l = tt

print_unsigned-Decided :
    (prefix : List ℕ) (fl : Flags) (base : ℕ) (o : Option (ℕ × List VaArg))
    → IsBase base
    → Small o
    → Decided (print_unsigned prefix fl base o)
print_unsigned-Decided prefix fl base none is lt = tt
print_unsigned-Decided prefix fl base (some (n, args)) is lt =
    rw ((print_number-some fl n base is lt).1, print_unsigned) tt

print_signed-Decided :
    (fl : Flags) (o : Option (ℤ × List VaArg)) → SmallInt o → Decided (print_signed fl o)
print_signed-Decided fl none lt = tt
print_signed-Decided fl (some (pos n, args)) lt =
    rw ((print_number-some fl n 10 (inr (inl refl)) lt.0).1, print_signed) tt
print_signed-Decided fl (some (negsuc n, args)) lt =
    if_case Decided (suc n == 2 ^ 63) undefined _ tt
      (rw ((print_number-some fl (suc n) 10 (inr (inl refl)) lt.1).1) tt)

emit_run-Decided : (r : Run (List ℕ)) (args : List VaArg) → Stops r → Decided (emit_run r args)
emit_run-Decided (ended out) args s = tt
emit_run-Decided breaks args s = tt
emit_run-Decided running args s = absurd s

-- The two calls of `case 'e'` come back.
record Nested (f : List ℕ → List VaArg → Run (List ℕ)) : Type 0 where
  on_error : (n : ℕ) → Stops (f error_format (word n ∷ []))
  on_text : (p : List ℕ) → Stops (f text_format (string p ∷ []))

print_error-Decided :
    (f : List ℕ → List VaArg → Run (List ℕ)) (n : ℕ) (args : List VaArg)
    → Nested f
    → Decided (print_error f n args)
print_error-Decided f n args h =
    if_case (λ r. Decided (emit_run r args))
      (leb maxerror n || (length (get_or error_string n []) == 0)) _ _
      (emit_run-Decided (f error_format (word n ∷ [])) args (h.on_error n))
      (emit_run-Decided (f text_format (string (get_or error_string n []) ∷ [])) args
        (h.on_text (get_or error_string n [])))

print_errno-Decided :
    (f : List ℕ → List VaArg → Run (List ℕ)) (o : Option (ℤ × List VaArg))
    → Nested f
    → Decided (print_errno f o)
print_errno-Decided f none h = tt
print_errno-Decided f (some (pos n, args)) h = print_error-Decided f n args h
print_errno-Decided f (some (negsuc n, args)) h =
    if_case Decided (suc n == 2 ^ 31) undefined _ tt (print_error-Decided f (suc n) args h)

print_text-Decided : (fl : Flags) (args : List VaArg) → Decided (print_text fl args)
unfolding print_text
print_text-Decided fl [] = tt
print_text-Decided fl (word n ∷ args) = tt
print_text-Decided fl (string p ∷ args) = tt
print_text-Decided fl (null ∷ args) = tt

print_char-Decided : (o : Option (ℕ × List VaArg)) → Decided (print_char o)
print_char-Decided none = tt
print_char-Decided (some r) = tt

convert-Decided :
    (f : List ℕ → List VaArg → Run (List ℕ)) (d : Conversion) → Nested f → Decided (convert f d)
unfolding convert
convert-Decided f d h =
    let u = getuint-Small d.ap d.flags.lflag in
    if_case Decided (d.ch == b'c') _ _ (print_char-Decided (getuint d.ap 0)) (
      if_case Decided (d.ch == b'e') _ _ (print_errno-Decided f (getint d.ap 0) h) (
        if_case Decided (d.ch == b's') _ _ (print_text-Decided d.flags d.ap) (
          if_case Decided (d.ch == b'd') _ _
            (print_signed-Decided d.flags (getint d.ap d.flags.lflag)
              (getint-SmallInt d.ap d.flags.lflag))
            (if_case Decided (d.ch == b'u') _ _
              (print_unsigned-Decided [] d.flags 10 (getuint d.ap d.flags.lflag) (inr (inl refl)) u)
              (if_case Decided (d.ch == b'o') _ _
                (print_unsigned-Decided [] d.flags 8 (getuint d.ap d.flags.lflag) (inl refl) u)
                (if_case Decided (d.ch == b'p') _ _
                  (print_unsigned-Decided (b'0' ∷ b'x' ∷ []) d.flags 16 (getuint d.ap 2)
                    (inr (inr refl)) (getuint-Small d.ap 2))
                  (if_case Decided (d.ch == b'x') _ _
                    (print_unsigned-Decided [] d.flags 16 (getuint d.ap d.flags.lflag)
                      (inr (inr refl)) u)
                    (if_case Decided (d.ch == b'%') _ _ tt tt))))))))

-- The nested formats, as formats of known pieces.
ended-Stops : (r : Run (List ℕ)) (out : List ℕ) → r ≡ ended out → Stops r
ended-Stops r out e = subst Stops (sym e) tt

not_least : (n : ℕ) → signed (long_bits 0) n ≢ negsuc (2 ^ 63 - 1)
not_least n e = absurd (omega (arith, small, ap neg_part e))
  where
    small : neg_part (signed (long_bits 0) n) ≤ 2 ^ 31
    small = ground arith

error_pieces : ℕ → List Piece
error_pieces n =
    plain b'e'
    ∷ plain b'r'
    ∷ plain b'r'
    ∷ plain b'o'
    ∷ plain b'r'
    ∷ plain b' '
    ∷ signed_number spaces [] 0 n
    ∷ []

vprintfmt-Nested : (k : ℕ) → 9 ≤ k → Nested (vprintfmt k)
unfolding error_pieces
vprintfmt-Nested k le = record {
  on_error = λ n.
      let r =
        vprintfmt-RendersAll (error_pieces n) k
          (
            omega arith,
            (
              omega arith,
              (omega arith, (omega arith, (omega arith, (omega arith, ((tt, not_least n), tt))))),
            ),
          )
          (omega (arith, le)) in
      ended-Stops (vprintfmt k error_format (word n ∷ [])) r.0 r.1;
  on_text = λ p.
      let r = vprintfmt-RendersAll (text spaces [] p ∷ []) k (tt, tt) (omega (arith, le)) in
      ended-Stops (vprintfmt k text_format (string p ∷ [])) r.0 r.1;
}

append_to-Stops : (out : List ℕ) (r : Run (List ℕ)) → Stops r → Stops (append_to out r)
append_to-Stops out (ended rest) s = tt
append_to-Stops out breaks s = tt
append_to-Stops out running s = absurd s

after_conversion-Stops :
    (f : List ℕ → List VaArg → Run (List ℕ)) (fmt : List ℕ) (d : Conversion) (x : Action)
    → length d.fmt ≤ length fmt
    → Decided x
    → ((s : List ℕ) (args : List VaArg) → length s ≤ length fmt → Stops (f s args))
    → Stops (after_conversion f fmt d x)
after_conversion-Stops f fmt d undefined h k all = tt
after_conversion-Stops f fmt d unfinished h k all = absurd k
after_conversion-Stops f fmt d (emit out rest) h k all =
    append_to-Stops out (f d.fmt rest) (all d.fmt rest h)
after_conversion-Stops f fmt d literal h k all =
    append_to-Stops (b'%' ∷ []) (f fmt d.ap) (all fmt d.ap (omega arith))

at_percent-Stops :
    (f : List ℕ → List VaArg → Run (List ℕ)) (fmt : List ℕ) (o : Run Conversion)
    → Within (length fmt) o
    → Nested f
    → ((s : List ℕ) (args : List VaArg) → length s ≤ length fmt → Stops (f s args))
    → Stops (at_percent f fmt o)
unfolding at_percent
at_percent-Stops f fmt breaks h n all = tt
at_percent-Stops f fmt running h n all = absurd h
at_percent-Stops f fmt (ended d) h n all =
    after_conversion-Stops f fmt d (convert f d) h (convert-Decided f d n) all

vprintfmt_comes_back :
    (k : ℕ) (fmt : List ℕ) (args : List VaArg) → 9 + length fmt < k → Stops (vprintfmt k fmt args)
unfolding vprintfmt
vprintfmt_comes_back zero fmt args h = absurd (omega arith)
vprintfmt_comes_back (suc k) [] args h = tt
vprintfmt_comes_back (suc k) (c ∷ fmt) args h =
    if_case Stops (c == b'%') _ _
      (at_percent-Stops (vprintfmt k) fmt (reswitch (suc (length fmt)) fmt no_flags args)
        (reswitch-Within (suc (length fmt)) (length fmt) fmt no_flags args (omega arith)
          (omega arith))
        (vprintfmt-Nested k (omega arith))
        (λ s rest le. vprintfmt_comes_back k s rest (omega arith)))
      (append_to-Stops (c ∷ []) (vprintfmt k fmt args)
        (vprintfmt_comes_back k fmt args (omega arith)))

abbrev has_percent : List ℕ → Bool
has_percent [] = false
has_percent (c ∷ fmt) = if c == b'%' then true else has_percent fmt

-- How a call can end: with its characters, which are the format's own if that has no `%`, or where C
-- leaves it undefined, which takes a `%`.
pub data ComesBack (fmt : List ℕ) : Run (List ℕ) → Type 0 where
  ends : (out : List ℕ) → (has_percent fmt ≡ true) ⊎ (out ≡ fmt) → ComesBack fmt (ended out)
  is_undefined : has_percent fmt ≡ true → ComesBack fmt breaks

vprintfmt_no_percent :
    (k : ℕ) (fmt : List ℕ) (args : List VaArg)
    → length fmt < k
    → has_percent fmt ≡ false
    → vprintfmt k fmt args ≡ ended fmt
unfolding vprintfmt
vprintfmt_no_percent zero fmt args h e = absurd (omega arith)
vprintfmt_no_percent (suc k) [] args h e = refl
vprintfmt_no_percent (suc k) (c ∷ fmt) args h e = ground (arith, vprintfmt_no_percent k fmt args)

Stops-ComesBack :
    (fmt : List ℕ) (r : Run (List ℕ))
    → Stops r
    → (has_percent fmt ≡ true) ⊎ (r ≡ ended fmt)
    → ComesBack fmt r
Stops-ComesBack fmt (ended out) s (inl t) = ends out (inl t)
Stops-ComesBack fmt (ended out) s (inr e) = ends out (inr (cc e))
Stops-ComesBack fmt breaks s (inl t) = is_undefined t
Stops-ComesBack fmt breaks s (inr e) = absurd (cc e)
Stops-ComesBack fmt running s e = absurd s

-- vprintfmt comes to the end of every format, whatever it holds and whatever the arguments are: with more
-- fuel than nine units and one for each character of the format it is never out of fuel, so it has
-- emitted its characters or met a call that C leaves undefined, and more fuel changes nothing. A format
-- without `%` is never undefined and is emitted as it is.
pub vprintfmt-Stops :
    (k k' : ℕ) (fmt : List ℕ) (args : List VaArg)
    → 9 + length fmt < k
    → k ≤ k'
    → ComesBack fmt (vprintfmt k fmt args) × (vprintfmt k' fmt args ≡ vprintfmt k fmt args)
vprintfmt-Stops k k' fmt args h le = (
  Stops-ComesBack fmt (vprintfmt k fmt args) (vprintfmt_comes_back k fmt args h)
      (elim (Bool-cases (has_percent fmt)) [
        | inl t ↦ inl t
        | inr f ↦ inr (vprintfmt_no_percent k fmt args (omega arith) f)
      ]),
  vprintfmt-enough k' k fmt args (omega arith) h,
)
