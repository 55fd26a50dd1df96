-- ===== src/Printf/Format.antt =====
-- vprintfmt, printfmt and snprintf of lib/riscv/printfmt.c. A string, the format too, is the list of
-- its characters before the terminator. A variable argument has the type it was passed with: a word of
-- 64 bits, a string, or NULL. What C leaves undefined (a missing argument, one of another type, the
-- negation of the least `int` or `long`) is `none` or `breaks`; a run that is out of fuel is `running`.
-- An overflow of a width is not modelled.
pub mod Directive
pub mod Meaning
pub mod Pieces
pub mod Fuel
pub mod Stops
mod Tests
use Prim.Native.Char.{code}
use Prim.Native.String.{String}
use zynex_os.Base.{
  ℕ, zero, suc, ◌+◌, ◌-◌, ◌*◌, ◌/◌, ◌%◌, ◌^◌, Bool, true, false, ◌&&◌, ◌||◌, Option, none, some,
  List, [], ◌∷◌, ◌++◌, ltb, leb, ◌==◌, if◌then◌else◌, length, get_or, replicate,
}
use zynex_os.Base.Int.{ℤ, pos, negsuc, pos_part, neg_part, sub_ℕ, ltb_ℤ}
use zynex_os.Base.Memory.{Mem}
use zynex_os.Printf.{printnum, vsnprintf}

-- A run that has ended, one that C leaves undefined, and one that is out of fuel.
pub data Run (A : Type 0) : Type 0 where
  ended : A → Run A
  breaks : Run A
  running : Run A

pub data VaArg : Type 0 where
  word : ℕ → VaArg
  string : List ℕ → VaArg
  null : VaArg

abbrev pub codes : String → List ℕ
codes String.[] = []
codes (String.◌∷◌ c s) = code c ∷ codes s

-- The strings by error code; the empty one is NULL.
abbrev pub error_string : List (List ℕ)
error_string =
    []
    ∷ codes "unspecified error"
    ∷ codes "bad environment"
    ∷ codes "invalid parameter"
    ∷ codes "out of memory"
    ∷ codes "out of environments"
    ∷ codes "segmentation fault"
    ∷ codes "env is not recving"
    ∷ codes "unexpected end of file"
    ∷ codes "no free space on disk"
    ∷ codes "too many files are open"
    ∷ codes "file or block not found"
    ∷ codes "invalid path"
    ∷ codes "file already exists"
    ∷ codes "file is not a valid executable"
    ∷ codes "operation not supported"
    ∷ []
    ∷ []

abbrev pub maxerror : ℕ
maxerror = 17

-- A register of `w` bits as a signed number.
abbrev pub signed : ℕ → ℕ → ℤ
signed w n = if ltb (n % 2 ^ w) (2 ^ (w - 1)) then pos (n % 2 ^ w) else sub_ℕ (n % 2 ^ w) (2 ^ w)

-- The number of bits that `lflag` asks for: `long` and `long long` have 64.
abbrev pub long_bits : ℕ → ℕ
long_bits lflag = if lflag == 0 then 32 else 64

-- The value that is read, and the arguments that are left.
pub getuint : List VaArg → ℕ → Option (ℕ × List VaArg)
getuint [] lflag = none
getuint (word n ∷ ap) lflag = some (n % 2 ^ long_bits lflag, ap)
getuint (string s ∷ ap) lflag = none
getuint (null ∷ ap) lflag = none

pub getint : List VaArg → ℕ → Option (ℤ × List VaArg)
getint [] lflag = none
getint (word n ∷ ap) lflag = some (signed (long_bits lflag) n, ap)
getint (string s ∷ ap) lflag = none
getint (null ∷ ap) lflag = none

-- The local variables that a directive sets.
pub record Flags : Type 0 where
  pub padc : ℕ
  pub width : ℤ
  pub precision : ℤ
  pub lflag : ℕ
  pub altflag : Bool

abbrev pub no_flags : Flags
no_flags = record {
  padc = b' ';
  width = negsuc 0;
  precision = negsuc 0;
  lflag = 0;
  altflag = false;
}

abbrev pub is_digit : ℕ → Bool
is_digit c = leb b'0' c && leb c b'9'

-- The loop of the width field: the number, and the format from the first other character on.
pub width_field : ℕ → List ℕ → ℕ × List ℕ
width_field n [] = (n, [])
width_field n (c ∷ fmt) = if is_digit c then width_field (n * 10 + (c - b'0')) fmt else (n, c ∷ fmt)

-- `process_precision` on the number `n`.
abbrev pub process_precision : ℤ → Flags → Flags
process_precision n s =
    if ltb_ℤ s.width (pos 0)
    then record s { width = n; precision = negsuc 0 }
    else record s { precision = n }

-- Where the switch is left: the character that decides, the flags, the format after it, the arguments.
pub record Conversion : Type 0 where
  pub ch : ℕ
  pub flags : Flags
  pub fmt : List ℕ
  pub ap : List VaArg

-- From `reswitch` to the first case that does not go back to it. The terminator is the character 0.
pub reswitch : ℕ → List ℕ → Flags → List VaArg → Run Conversion
unfolding getint width_field
reswitch zero fmt s ap = running
reswitch (suc fuel) [] s ap = ended (record { ch = 0; flags = s; fmt = []; ap = ap })
reswitch (suc fuel) (c ∷ fmt) s ap =
    if c == b'-'
    then reswitch fuel fmt (record s { padc = b'-' }) ap
    else if c == b'0'
    then reswitch fuel fmt (record s { padc = b'0' }) ap
    else if is_digit c
    then (let (n, fmt') = width_field (c - b'0') fmt in
        reswitch fuel fmt' (process_precision (pos n) s) ap)
    else if c == b'*'
    then elim (getint ap 0) [
      | none ↦ breaks
      | some r ↦ reswitch fuel fmt (process_precision r.0 s) r.1
    ]
    else if c == b'.'
    then reswitch fuel fmt (if ltb_ℤ s.width (pos 0) then record s { width = pos 0 } else s) ap
    else if c == b'#'
    then reswitch fuel fmt (record s { altflag = true }) ap
    else if c == b'l'
    then reswitch fuel fmt (record s { lflag = suc s.lflag }) ap
    else ended (record { ch = c; flags = s; fmt = fmt; ap = ap })

-- strnlen with a precision below 0, which becomes a `size_t` beyond any length, is strlen.
abbrev pub string_length : List ℕ → ℤ → ℕ
string_length p (pos n) = if leb (length p) n then length p else n
string_length p (negsuc n) = length p

-- The characters of a string that are printed.
pub string_chars : Bool → List ℕ → ℤ → List ℕ
string_chars alt [] precision = []
string_chars alt (c ∷ p) (negsuc n) =
    (if alt && (ltb c b' ' || ltb b'~' c) then b'?' else c) ∷ string_chars alt p (negsuc n)
string_chars alt (c ∷ p) (pos zero) = []
string_chars alt (c ∷ p) (pos (suc n)) =
    (if alt && (ltb c b' ' || ltb b'~' c) then b'?' else c) ∷ string_chars alt p (pos n)

-- `case 's'`: the padding on the left, the string, and the padding on the right.
pub print_string : Flags → List ℕ → List ℕ
unfolding string_chars
print_string s p =
    let pad_left = ltb_ℤ (pos 0) s.width && not_minus s.padc in
    let left = if pad_left then pos_part s.width - string_length p s.precision else 0 in
    let out = string_chars s.altflag p s.precision in
    let right = if pad_left then 0 else pos_part s.width - length out in
    replicate left s.padc ++ out ++ replicate right b' '
  where
    not_minus : ℕ → Bool
    not_minus c = if c == b'-' then false else true

abbrev number_fuel : ℕ
number_fuel = 64

-- `number`
pub print_number : Flags → ℕ → ℕ → Option (List ℕ)
unfolding printnum
print_number s num base = printnum number_fuel num base (pos_part s.width) s.padc

-- What a conversion does: the characters and the arguments left, or the literal text of the directive.
pub data Action : Type 0 where
  undefined : Action
  emit : List ℕ → List VaArg → Action
  literal : Action
  unfinished : Action

abbrev pub emit_number : Option (List ℕ) → List VaArg → Action
emit_number none ap = unfinished
emit_number (some out) ap = emit out ap

abbrev pub emit_run : Run (List ℕ) → List VaArg → Action
emit_run (ended out) ap = emit out ap
emit_run breaks ap = undefined
emit_run running ap = unfinished

abbrev pub print_unsigned : List ℕ → Flags → ℕ → Option (ℕ × List VaArg) → Action
print_unsigned prefix s base none = undefined
print_unsigned prefix s base (some (n, ap)) = elim (print_number s n base) [
  | none ↦ unfinished
  | some out ↦ emit (prefix ++ out) ap
]

abbrev pub print_signed : Flags → Option (ℤ × List VaArg) → Action
print_signed s none = undefined
print_signed s (some (pos n, ap)) = emit_number (print_number s n 10) ap
print_signed s (some (negsuc n, ap)) =
    if suc n == 2 ^ 63
    then undefined
    else elim (print_number s (suc n) 10) [ none ↦ unfinished | some out ↦ emit (b'-' ∷ out) ap ]

-- `case 'e'`; `printfmt` is the recursive call.
abbrev pub print_error : (List ℕ → List VaArg → Run (List ℕ)) → ℕ → List VaArg → Action
print_error printfmt err ap =
    let p = get_or error_string err [] in
    let missing = leb maxerror err || (length p == 0) in
    emit_run
      (if missing
        then printfmt (codes "error %d") (word err ∷ [])
        else printfmt (codes "%s") (string p ∷ []))
      ap

abbrev pub print_errno : (List ℕ → List VaArg → Run (List ℕ)) → Option (ℤ × List VaArg) → Action
print_errno printfmt none = undefined
print_errno printfmt (some (pos n, ap)) = print_error printfmt n ap
print_errno printfmt (some (negsuc n, ap)) =
    if suc n == 2 ^ 31 then undefined else print_error printfmt (suc n) ap

pub print_text : Flags → List VaArg → Action
unfolding print_string
print_text s [] = undefined
print_text s (word n ∷ ap) = undefined
print_text s (string p ∷ ap) = emit (print_string s p) ap
print_text s (null ∷ ap) = emit (print_string s (codes "(null)")) ap

abbrev pub print_char : Option (ℕ × List VaArg) → Action
print_char none = undefined
print_char (some (n, ap)) = emit (n ∷ []) ap

-- The cases of the switch that end it.
pub convert : (List ℕ → List VaArg → Run (List ℕ)) → Conversion → Action
unfolding getuint getint print_number print_text
convert printfmt c =
    if c.ch == b'c'
    then print_char (getuint c.ap 0)
    else if c.ch == b'e'
    then print_errno printfmt (getint c.ap 0)
    else if c.ch == b's'
    then print_text c.flags c.ap
    else if c.ch == b'd'
    then print_signed c.flags (getint c.ap c.flags.lflag)
    else if c.ch == b'u'
    then print_unsigned [] c.flags 10 (getuint c.ap c.flags.lflag)
    else if c.ch == b'o'
    then print_unsigned [] c.flags 8 (getuint c.ap c.flags.lflag)
    else if c.ch == b'p'
    then print_unsigned (b'0' ∷ b'x' ∷ []) c.flags 16 (getuint c.ap 2)
    else if c.ch == b'x'
    then print_unsigned [] c.flags 16 (getuint c.ap c.flags.lflag)
    else if c.ch == b'%'
    then emit (b'%' ∷ []) c.ap
    else literal

abbrev pub append_to : List ℕ → Run (List ℕ) → Run (List ℕ)
append_to out (ended rest) = ended (out ++ rest)
append_to out breaks = breaks
append_to out running = running

-- After the switch: the rest of the format, or the text `fmt` of the directive `d` and what follows it.
abbrev pub after_conversion :
    (List ℕ → List VaArg → Run (List ℕ)) → List ℕ → Conversion → Action → Run (List ℕ)
after_conversion printfmt fmt d undefined = breaks
after_conversion printfmt fmt d unfinished = running
after_conversion printfmt fmt d (emit out ap) = append_to out (printfmt d.fmt ap)
after_conversion printfmt fmt d literal = append_to (b'%' ∷ []) (printfmt fmt d.ap)

pub at_percent : (List ℕ → List VaArg → Run (List ℕ)) → List ℕ → Run Conversion → Run (List ℕ)
unfolding convert
at_percent printfmt fmt breaks = breaks
at_percent printfmt fmt running = running
at_percent printfmt fmt (ended d) = after_conversion printfmt fmt d (convert printfmt d)

-- The characters that are passed to `putch`, in order. `printfmt` is vprintfmt on the arguments given.
pub vprintfmt : ℕ → List ℕ → List VaArg → Run (List ℕ)
unfolding reswitch at_percent
vprintfmt zero fmt ap = running
vprintfmt (suc fuel) [] ap = ended []
vprintfmt (suc fuel) (c ∷ fmt) ap =
    if c == b'%'
    then at_percent (vprintfmt fuel) fmt (reswitch (suc (length fmt)) fmt no_flags ap)
    else append_to (c ∷ []) (vprintfmt fuel fmt ap)

pub snprintf : ℕ → Mem → (buf n : ℕ) → List ℕ → List VaArg → Run (Option ℕ × Mem)
unfolding vprintfmt vsnprintf
snprintf fuel m buf n fmt ap = elim (vprintfmt fuel fmt ap) [
  | breaks ↦ breaks
  | running ↦ running
  | ended out ↦ ended (vsnprintf m buf n out)
]
