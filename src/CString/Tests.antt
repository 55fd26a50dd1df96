-- ===== src/CString/Tests.antt =====
-- The routines of lib/riscv/string.c on small strings.
use zynex_os.Base.{ℕ, ◌+◌, ◌<◌, ◌≡◌, refl, some, List, [], ◌∷◌, arith, ◌==◌, if◌then◌else◌}
use zynex_os.Base.Int.{negsuc}
use zynex_os.Base.Memory.{Mem, IsString, Outside}
use zynex_os.CString.{
  strcmp, memmove, memfind, strtol, skip_blanks, sign, base_prefix, digits_loop, digit_value,
}
use zynex_os.CString.Copy.{memmove_lem}
use zynex_os.CString.Number.{Digits}

-- "hi" at 10, "ho" at 20, " -0x1f" at 30
abbrev sample : Mem
sample x =
    if x == 10
    then b'h'
    else if x == 11
    then b'i'
    else if x == 20
    then b'h'
    else if x == 21
    then b'o'
    else if x == 30
    then b' '
    else if x == 31
    then b'-'
    else if x == 32
    then b'0'
    else if x == 33
    then b'x'
    else if x == 34
    then b'1'
    else if x == 35
    then b'f'
    else 0

abbrev hi : List ℕ
hi = b'h' ∷ b'i' ∷ []

abbrev ho : List ℕ
ho = b'h' ∷ b'o' ∷ []

hi_at : IsString sample 10 hi
hi_at = ground arith

ho_at : IsString sample 20 ho
ho_at = ground arith

strtol_hex : strtol 9 sample 30 0 ≡ some (negsuc 30, 36)
unfolding strtol skip_blanks sign base_prefix digits_loop digit_value
strtol_hex = refl

strcmp_run : strcmp 3 sample 10 20 ≡ some (negsuc 5)
unfolding strcmp
strcmp_run = refl

memfind_run : memfind sample 10 b'i' 5 ≡ 11
unfolding memfind
memfind_run = refl

memmove_lem_example :
    ((memmove sample 11 10 2).0 ≡ 11)
    × ((i : ℕ) → i < 2 → (memmove sample 11 10 2).1 (11 + i) ≡ sample (10 + i))
    × ((x : ℕ) → Outside 11 2 x → (memmove sample 11 10 2).1 x ≡ sample x)
memmove_lem_example = memmove_lem sample 11 10 2

abbrev hex_text : List ℕ
hex_text = b'1' ∷ b'f' ∷ []

-- The digits of "1f", past the sign and the prefix.
sample-Digits : Digits 16 (1 ∷ 15 ∷ []) hex_text
unfolding digit_value
sample-Digits = (refl, omega arith, (refl, omega arith, tt))
