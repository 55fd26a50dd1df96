-- ===== src/Printf/Format/Pieces.antt =====
-- vprintfmt of lib/riscv/printfmt.c on formats that are made of the pieces it documents.
use zynex_os.Base.{
  ℕ, zero, suc, ◌-◌, ◌%◌, ◌^◌, ◌<◌, ◌≡◌, ◌≢◌, refl, ◌∙◌, ap, inl, inr, false, some, List, [], ◌∷◌,
  ◌++◌, arith, ◌==◌, length,
}
use zynex_os.Base.Int.{ℤ, pos, negsuc, pos_part, neg_part}
use zynex_os.CString.Number.{number}
use zynex_os.Printf.Number.{IsBase}
use zynex_os.Printf.Format.{
  VaArg, Run, ended, word, string, signed, long_bits, getuint, getint, Flags, print_text,
  print_number, print_signed, print_unsigned, convert, emit, append_to, vprintfmt,
}
use zynex_os.Printf.Format.Directive.{
  Pad, spaces, pad_char, is_flag, IsWidth, flags_of, flags_text, vprintfmt-flags_of,
}
use zynex_os.Printf.Format.Meaning.{
  Numeral, padded, aligned, print_number-Shown, print_string-aligned,
}

pub data Radix : Type 0 where
  octal : Radix
  decimal : Radix
  hexadecimal : Radix

abbrev pub radix_base : Radix → ℕ
radix_base octal = 8
radix_base decimal = 10
radix_base hexadecimal = 16

abbrev pub radix_char : Radix → ℕ
radix_char octal = b'o'
radix_char decimal = b'u'
radix_char hexadecimal = b'x'

-- `signed_number` and `unsigned_number` have the padding, the digits of the width, the number of `l`s
-- and the argument; `text` has the padding, the digits of the width and the string.
pub data Piece : Type 0 where
  plain : ℕ → Piece
  percent : Piece
  character : ℕ → Piece
  text : Pad → List ℕ → List ℕ → Piece
  signed_number : Pad → List ℕ → ℕ → ℕ → Piece
  unsigned_number : Radix → Pad → List ℕ → ℕ → ℕ → Piece

-- The text of a piece in a format, before the text `fmt`.
abbrev pub spell : Piece → List ℕ → List ℕ
spell (plain c) fmt = c ∷ fmt
spell percent fmt = b'%' ∷ b'%' ∷ fmt
spell (character n) fmt = b'%' ∷ b'c' ∷ fmt
spell (text p w s) fmt = b'%' ∷ flags_text p w 0 (b's' ∷ fmt)
spell (signed_number p w l n) fmt = b'%' ∷ flags_text p w l (b'd' ∷ fmt)
spell (unsigned_number r p w l n) fmt = b'%' ∷ flags_text p w l (radix_char r ∷ fmt)

abbrev pub spell_all : List Piece → List ℕ
spell_all [] = []
spell_all (p ∷ ps) = spell p (spell_all ps)

-- The arguments that a piece takes, before others.
abbrev pub args_of : Piece → List VaArg → List VaArg
args_of (plain c) ap = ap
args_of percent ap = ap
args_of (character n) ap = word n ∷ ap
args_of (text p w s) ap = string s ∷ ap
args_of (signed_number p w l n) ap = word n ∷ ap
args_of (unsigned_number r p w l n) ap = word n ∷ ap

abbrev pub all_args : List Piece → List VaArg
all_args [] = []
all_args (p ∷ ps) = args_of p (all_args ps)

-- A width does not begin with 0, and the least `long long` is not negated.
abbrev pub IsPiece : Piece → Type 0
IsPiece (plain c) = c ≢ b'%'
IsPiece percent = Unit {0}
IsPiece (character n) = Unit {0}
IsPiece (text p w s) = IsWidth w
IsPiece (signed_number p w l n) = IsWidth w × (signed (long_bits l) n ≢ negsuc (2 ^ 63 - 1))
IsPiece (unsigned_number r p w l n) = IsWidth w

abbrev pub IsFormat : List Piece → Type 0
IsFormat [] = Unit {0}
IsFormat (p ∷ ps) = IsPiece p × IsFormat ps

-- The digits of the magnitude, padded on the left; the sign stands before the padding.
abbrev pub ShowsSigned : Pad → ℕ → ℤ → List ℕ → Type 0
ShowsSigned p w (pos n) out = (s : List ℕ) × Numeral 10 n s × (out ≡ padded (pad_char p) w s)
ShowsSigned p w (negsuc n) out =
    (s : List ℕ) × Numeral 10 (suc n) s × (out ≡ b'-' ∷ padded (pad_char p) w s)

-- The characters that stand for a piece.
abbrev pub Renders : Piece → List ℕ → Type 0
Renders (plain c) out = out ≡ c ∷ []
Renders percent out = out ≡ b'%' ∷ []
Renders (character n) out = out ≡ n % 2 ^ 32 ∷ []
Renders (text p w s) out = out ≡ aligned p (number 10 0 w) s
Renders (signed_number p w l n) out = ShowsSigned p (number 10 0 w) (signed (long_bits l) n) out
Renders (unsigned_number r p w l n) out =
    (s : List ℕ) × Numeral (radix_base r) (n % 2 ^ long_bits l) s
    × (out ≡ padded (pad_char p) (number 10 0 w) s)

abbrev pub RendersAll : List Piece → List ℕ → Type 0
RendersAll [] out = out ≡ []
RendersAll (p ∷ ps) out =
    (a : List ℕ) × (b : List ℕ) × Renders p a × RendersAll ps b × (out ≡ a ++ b)

-- What vprintfmt does at a piece.
record Emits (p : Piece) : Type 0 where
  out : List ℕ
  renders : Renders p out
  step :
      (fuel : ℕ) (fmt : List ℕ) (rest : List VaArg)
      → vprintfmt (suc fuel) (spell p fmt) (args_of p rest)
        ≡ append_to out (vprintfmt fuel fmt rest)

plain-Emits : (c : ℕ) → c ≢ b'%' → Emits (plain c)
unfolding vprintfmt
plain-Emits c h = record { out = c ∷ []; renders = refl; step = λ fuel fmt rest. rw other refl }
  where
    other : (c == b'%') ≡ false
    other = ground (arith, h)

percent-Emits : Emits percent
unfolding convert
percent-Emits = record {
  out = b'%' ∷ [];
  renders = refl;
  step = λ fuel fmt rest.
      vprintfmt-flags_of spaces [] 0 b'%' fuel fmt (b'%' ∷ []) rest rest tt refl (λ k. refl);
}

character-Emits : (n : ℕ) → Emits (character n)
unfolding convert getuint
character-Emits n = record {
  out = n % 2 ^ 32 ∷ [];
  renders = refl;
  step = λ fuel fmt rest.
      vprintfmt-flags_of spaces [] 0 b'c' fuel fmt (n % 2 ^ 32 ∷ []) (word n ∷ rest) rest tt refl
        (λ k. refl);
}

text-Emits : (p : Pad) (w s : List ℕ) → IsWidth w → Emits (text p w s)
unfolding convert print_text
text-Emits p w s is = record {
  out = aligned p (number 10 0 w) s;
  renders = refl;
  step = λ fuel fmt rest.
      vprintfmt-flags_of p w 0 b's' fuel fmt (aligned p (number 10 0 w) s) (string s ∷ rest) rest is
        refl (λ k. ap (λ t. emit t rest) (print_string-aligned p w 0 s));
}

pub signed_small :
    (l n : ℕ)
    → (pos_part (signed (long_bits l) n) < 2 ^ 64) × (neg_part (signed (long_bits l) n) < 2 ^ 64)
signed_small zero n = (ground arith, ground arith)
signed_small (suc l) n = (ground arith, ground arith)

pub unsigned_small : (l n : ℕ) → n % 2 ^ long_bits l < 2 ^ 64
unsigned_small zero n = ground arith
unsigned_small (suc l) n = ground arith

record Prints (p : Pad) (w : List ℕ) (l : ℕ) (v : ℤ) : Type 0 where
  out : List ℕ
  shows : ShowsSigned p (number 10 0 w) v out
  prints : (rest : List VaArg) → print_signed (flags_of p w l) (some (v, rest)) ≡ emit out rest

print_signed-Prints :
    (p : Pad) (w : List ℕ) (l : ℕ) (v : ℤ)
    → pos_part v < 2 ^ 64
    → neg_part v < 2 ^ 64
    → v ≢ negsuc (2 ^ 63 - 1)
    → Prints p w l v
print_signed-Prints p w l (pos n) lt lt' h =
    let r = print_number-Shown p w l n 10 (inr (inl refl)) lt in
    record {
      out = padded (pad_char p) (number 10 0 w) r.text;
      shows = (r.text, r.numeral, refl);
      prints = λ rest. rw r.shown refl;
    }
print_signed-Prints p w l (negsuc n) lt lt' h =
    let r = print_number-Shown p w l (suc n) 10 (inr (inl refl)) lt' in
    record {
      out = b'-' ∷ padded (pad_char p) (number 10 0 w) r.text;
      shows = (r.text, r.numeral, refl);
      prints = λ rest. rw (other, r.shown) refl;
    }
  where
    other : (suc n == 2 ^ 63) ≡ false
    other = ground (arith, λ (e : n ≡ 2 ^ 63 - 1). h (ap negsuc e))

signed_number-Emits :
    (p : Pad) (w : List ℕ) (l n : ℕ)
    → IsWidth w
    → signed (long_bits l) n ≢ negsuc (2 ^ 63 - 1)
    → Emits (signed_number p w l n)
unfolding convert getint
signed_number-Emits p w l n is h =
    let (a, b) = signed_small l n in
    let r = print_signed-Prints p w l (signed (long_bits l) n) a b h in
    record {
      out = r.out;
      renders = r.shows;
      step = λ fuel fmt rest.
          vprintfmt-flags_of p w l b'd' fuel fmt r.out (word n ∷ rest) rest is refl
            (λ k. r.prints rest);
    }

print_unsigned-shown :
    (p : Pad) (w : List ℕ) (l n base : ℕ) (out : List ℕ) (rest : List VaArg)
    → print_number (flags_of p w l) n base ≡ some out
    → print_unsigned [] (flags_of p w l) base (some (n, rest)) ≡ emit out rest
print_unsigned-shown p w l n base out rest e = rw (e, print_unsigned) refl

radix-IsBase : (r : Radix) → IsBase (radix_base r)
radix-IsBase octal = inl refl
radix-IsBase decimal = inr (inl refl)
radix-IsBase hexadecimal = inr (inr refl)

radix-is_flag : (r : Radix) → is_flag (radix_char r) ≡ false
radix-is_flag octal = refl
radix-is_flag decimal = refl
radix-is_flag hexadecimal = refl

convert-radix :
    (r : Radix) (k : List ℕ → List VaArg → Run (List ℕ)) (fl : Flags) (fmt : List ℕ) (n : ℕ)
    (rest : List VaArg)
    → convert k (record { ch = radix_char r; flags = fl; fmt = fmt; ap = word n ∷ rest })
      ≡ print_unsigned [] fl (radix_base r) (some (n % 2 ^ long_bits fl.lflag, rest))
unfolding convert getuint
convert-radix octal k fl fmt n rest = refl
convert-radix decimal k fl fmt n rest = refl
convert-radix hexadecimal k fl fmt n rest = refl

unsigned_number-Emits :
    (r : Radix) (p : Pad) (w : List ℕ) (l n : ℕ) → IsWidth w → Emits (unsigned_number r p w l n)
unsigned_number-Emits r p w l n is =
    let s =
      print_number-Shown p w l (n % 2 ^ long_bits l) (radix_base r) (radix-IsBase r)
        (unsigned_small l n) in
    let out = padded (pad_char p) (number 10 0 w) s.text in
    record {
      out = out;
      renders = (s.text, s.numeral, refl);
      step = λ fuel fmt rest.
          vprintfmt-flags_of p w l (radix_char r) fuel fmt out (word n ∷ rest) rest is
            (radix-is_flag r)
            (λ k.
              convert-radix r k (flags_of p w l) fmt n rest
              ∙ print_unsigned-shown p w l (n % 2 ^ long_bits l) (radix_base r) out rest s.shown);
    }

piece-Emits : (p : Piece) → IsPiece p → Emits p
piece-Emits (plain c) h = plain-Emits c h
piece-Emits percent h = percent-Emits
piece-Emits (character n) h = character-Emits n
piece-Emits (text p w s) h = text-Emits p w s h
piece-Emits (signed_number p w l n) h = signed_number-Emits p w l n h.0 h.1
piece-Emits (unsigned_number r p w l n) h = unsigned_number-Emits r p w l n h

-- A format that is made of plain characters, `%%`, `%c`, and `%s`, `%d`, `%u`, `%o` and `%x` with an
-- optional `0` or `-`, an optional width and any number of `l`s: vprintfmt ends, with one unit of fuel for each piece and one
-- more, and what it emits is the renderings of the pieces, one after the other.
pub vprintfmt-RendersAll :
    (ps : List Piece) (fuel : ℕ)
    → IsFormat ps
    → length ps < fuel
    → (out : List ℕ) × (vprintfmt fuel (spell_all ps) (all_args ps) ≡ ended out) × RendersAll ps out
unfolding vprintfmt
vprintfmt-RendersAll ps zero is lt = absurd (omega arith)
vprintfmt-RendersAll [] (suc fuel) is lt = ([], refl, refl)
vprintfmt-RendersAll (p ∷ ps) (suc fuel) is lt =
    let e = piece-Emits p is.0 in
    let (out, eq, all) = vprintfmt-RendersAll ps fuel is.1 (omega arith) in
    (
      e.out ++ out,
      e.step fuel (spell_all ps) (all_args ps) ∙ ap (append_to e.out) eq,
      (e.out, out, e.renders, all, refl),
    )
