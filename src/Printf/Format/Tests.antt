-- ===== src/Printf/Format/Tests.antt =====
-- vprintfmt of lib/riscv/printfmt.c on small inputs.
use zynex_os.Base.{ℕ, ◌-◌, ◌^◌, ◌≡◌, refl, arith, List, [], ◌∷◌}
use zynex_os.Printf.Format.{ended, breaks, running, word, string, null, codes, vprintfmt}
use zynex_os.Printf.Format.Directive.{spaces, zeros, dashes}
use zynex_os.Printf.Format.Stops.{ComesBack, vprintfmt-Stops}
use zynex_os.Printf.Format.Pieces.{
  Piece, plain, text, signed_number, unsigned_number, hexadecimal, spell_all, all_args, IsFormat,
  RendersAll, vprintfmt-RendersAll,
}

prints_number : vprintfmt 9 (codes "a%5d%%|") (word 42 ∷ []) ≡ ended (codes "a   42%|")
unfolding vprintfmt
prints_number = refl

-- The flag that stands for padding on the right is used as the padding character on the left.
prints_dashes : vprintfmt 9 (codes "%-5d") (word 42 ∷ []) ≡ ended (codes "---42")
unfolding vprintfmt
prints_dashes = refl

prints_negative : vprintfmt 9 (codes "%05d") (word (2 ^ 32 - 42) ∷ []) ≡ ended (codes "-00042")
unfolding vprintfmt
prints_negative = refl

prints_left : vprintfmt 9 (codes "[%-5.2s]") (string (codes "abcd") ∷ []) ≡ ended (codes "[ab   ]")
unfolding vprintfmt
prints_left = refl

-- `0` is always a flag: a precision of zero is not read.
prints_all : vprintfmt 9 (codes "[%.0s]") (string (codes "abcd") ∷ []) ≡ ended (codes "[abcd]")
unfolding vprintfmt
prints_all = refl

prints_null : vprintfmt 9 (codes "[%8s]") (null ∷ []) ≡ ended (codes "[  (null)]")
unfolding vprintfmt
prints_null = refl

prints_error : vprintfmt 20 (codes "%e") (word (2 ^ 32 - 4) ∷ []) ≡ ended (codes "out of memory")
unfolding vprintfmt
prints_error = refl

prints_no_error : vprintfmt 20 (codes "%e!") (word 16 ∷ []) ≡ ended (codes "error 16!")
unfolding vprintfmt
prints_no_error = refl

prints_literal : vprintfmt 9 (codes "%l5q%") [] ≡ ended (codes "%l5q%")
unfolding vprintfmt
prints_literal = refl

-- "n=%05ld: %-4s|%x"
abbrev sample : List Piece
sample =
    plain b'n'
    ∷ signed_number zeros (5 ∷ []) 1 (2 ^ 64 - 42)
    ∷ text dashes (4 ∷ []) (codes "ab")
    ∷ unsigned_number hexadecimal spaces [] 0 255
    ∷ []

sample_text : spell_all sample ≡ codes "n%05ld%-4s%x"
sample_text = refl

sample_out : vprintfmt 5 (spell_all sample) (all_args sample) ≡ ended (codes "n-00042ab  ff")
unfolding vprintfmt
sample_out = refl

vprintfmt-RendersAll_example :
    (out : List ℕ) × (vprintfmt 5 (spell_all sample) (all_args sample) ≡ ended out)
    × RendersAll sample out
vprintfmt-RendersAll_example = vprintfmt-RendersAll sample 5 sample-IsFormat (omega arith)
  where
    sample-IsFormat : IsFormat sample
    sample-IsFormat = (
      omega arith,
      (((omega arith, omega arith, tt), ground arith), ((omega arith, omega arith, tt), (tt, tt))),
    )

vprintfmt-Stops_example :
    ComesBack (codes "%e%") (vprintfmt 20 (codes "%e%") (word 16 ∷ []))
    × (vprintfmt 30 (codes "%e%") (word 16 ∷ []) ≡ vprintfmt 20 (codes "%e%") (word 16 ∷ []))
vprintfmt-Stops_example =
    vprintfmt-Stops 20 30 (codes "%e%") (word 16 ∷ []) (omega arith) (omega arith)

-- A missing argument, and too little fuel.
breaks_off : vprintfmt 9 (codes "%d") [] ≡ breaks
unfolding vprintfmt
breaks_off = refl

runs_on : vprintfmt 2 (codes "abc") [] ≡ running
unfolding vprintfmt
runs_on = refl
