-- ===== src/CString.antt =====
-- lib/riscv/string.c: the routines over byte-addressed memory.
-- A pointer is an address; a loop that ends at a NUL byte runs on fuel, and `none` says that the
-- fuel ran out before the loop ended. A loop over a count recurs on it. A routine that writes
-- returns its result beside the new memory. Lengths stay below `2 ^ 31`, so that `int` holds them.
pub mod Copy
pub mod Scan
pub mod Compare
pub mod Number
mod Tests
use zynex_os.Base.{
  ℕ, zero, suc, ◌+◌, ◌-◌, ◌*◌, ◌%◌, ◌^◌, Bool, true, false, ◌&&◌, ◌||◌, Option, none, some, ltb,
  leb, ◌==◌, ◌!=◌, if◌then◌else◌,
}
use zynex_os.Base.Int.{ℤ, pos, negsuc, sub_ℕ}
use zynex_os.Base.Memory.{Mem, write}

-- `for (n = 0; *s != '\0'; s++) n++;`
pub strlen_from : ℕ → Mem → ℕ → ℕ → Option ℕ
strlen_from zero m s n = none
strlen_from (suc fuel) m s n =
    let rest = strlen_from fuel m (suc s) (n + 1) in if m s != 0 then rest else some n

pub strlen : ℕ → Mem → ℕ → Option ℕ
unfolding strlen_from
strlen fuel m s = strlen_from fuel m s 0

pub strnlen_from : Mem → ℕ → ℕ → ℕ → ℕ
strnlen_from m s zero n = n
strnlen_from m s (suc size) n =
    let rest = strnlen_from m (suc s) size (n + 1) in if m s != 0 then rest else n

pub strnlen : Mem → ℕ → ℕ → ℕ
unfolding strnlen_from
strnlen m s size = strnlen_from m s size 0

-- `while ((*dst++ = *src++) != '\0');`
pub strcpy_from : ℕ → Mem → ℕ → ℕ → Option Mem
strcpy_from zero m dst src = none
strcpy_from (suc fuel) m dst src =
    let m' = write m dst (m src) in
    let rest = strcpy_from fuel m' (suc dst) (suc src) in if m src != 0 then rest else some m'

pub strcpy : ℕ → Mem → ℕ → ℕ → Option (ℕ × Mem)
unfolding strcpy_from
strcpy fuel m dst src = elim (strcpy_from fuel m dst src) [ none ↦ none | some m' ↦ some (dst, m') ]

pub strcat : ℕ → Mem → ℕ → ℕ → Option (ℕ × Mem)
unfolding strlen strcpy
strcat fuel m dst src = elim (strlen fuel m dst) [
  | none ↦ none
  | some len ↦ elim (strcpy fuel m (dst + len) src) [ none ↦ none | some (_, m') ↦ some (dst, m') ]
]

-- The test of `*src` comes after the write.
pub strncpy_from : ℕ → Mem → ℕ → ℕ → Mem
strncpy_from zero m dst src = m
strncpy_from (suc size) m dst src =
    let m' = write m dst (m src) in
    strncpy_from size m' (suc dst) (if m' src != 0 then suc src else src)

pub strncpy : Mem → ℕ → ℕ → ℕ → ℕ × Mem
unfolding strncpy_from
strncpy m dst src size = (dst, strncpy_from size m dst src)

-- `while (--size > 0 && *src != '\0') *dst++ = *src++; *dst = '\0';`, where `left` is what
-- `--size` leaves.
pub strlcpy_from : ℕ → Mem → ℕ → ℕ → ℕ × Mem
strlcpy_from zero m dst src = (dst, write m dst 0)
strlcpy_from (suc left) m dst src =
    let rest = strlcpy_from left (write m dst (m src)) (suc dst) (suc src) in
    if m src != 0 then rest else (dst, write m dst 0)

pub strlcpy : Mem → ℕ → ℕ → ℕ → ℕ × Mem
unfolding strlcpy_from
strlcpy m dst src zero = (dst - dst, m)
strlcpy m dst src (suc left) = let (d, m') = strlcpy_from left m dst src in (d - dst, m')

pub strcmp : ℕ → Mem → ℕ → ℕ → Option ℤ
strcmp zero m p q = none
strcmp (suc fuel) m p q =
    let rest = strcmp fuel m (suc p) (suc q) in
    if m p != 0 && m p == m q then rest else some (sub_ℕ (m p) (m q))

pub strncmp : Mem → ℕ → ℕ → ℕ → ℤ
strncmp m p q zero = pos 0
strncmp m p q (suc n) =
    let rest = strncmp m (suc p) (suc q) n in
    if m p != 0 && m p == m q then rest else sub_ℕ (m p) (m q)

-- The null pointer is 0.
pub strchr : ℕ → Mem → ℕ → ℕ → Option ℕ
strchr zero m s c = none
strchr (suc fuel) m s c =
    let rest = strchr fuel m (suc s) c in
    if m s != 0 then (if m s == c then some s else rest) else some 0

pub strfind : ℕ → Mem → ℕ → ℕ → Option ℕ
strfind zero m s c = none
strfind (suc fuel) m s c =
    let rest = strfind fuel m (suc s) c in
    if m s != 0 then (if m s == c then some s else rest) else some s

-- `int m = n; while (--m >= 0)`: the count is cut to 32 bits, and a negative one makes no round.
abbrev pub int_rounds : ℕ → ℕ
int_rounds n = if ltb (n % 2 ^ 32) (2 ^ 31) then n % 2 ^ 32 else 0

pub fill : ℕ → Mem → ℕ → ℕ → Mem
fill zero m p c = m
fill (suc n) m p c = fill n (write m p (c % 2 ^ 8)) (suc p) c

pub memset : Mem → ℕ → ℕ → ℕ → ℕ × Mem
unfolding fill
memset m v c n = (v, fill (int_rounds n) m v c)

pub copy_up : ℕ → Mem → ℕ → ℕ → Mem
copy_up zero m d s = m
copy_up (suc n) m d s = copy_up n (write m d (m s)) (suc d) (suc s)

pub copy_down : ℕ → Mem → ℕ → ℕ → Mem
copy_down zero m d s = m
copy_down (suc n) m d s = copy_down n (write m (d - 1) (m (s - 1))) (d - 1) (s - 1)

-- The second `memmove` of the file (`ASM` is 0).
pub memmove : Mem → ℕ → ℕ → ℕ → ℕ × Mem
unfolding copy_up copy_down
memmove m dst src n =
    if ltb src dst && ltb dst (src + n)
    then (dst, copy_down n m (dst + n) (src + n))
    else (dst, copy_up n m dst src)

pub memcpy : Mem → ℕ → ℕ → ℕ → ℕ × Mem
unfolding memmove
memcpy m dst src n = memmove m dst src n

pub memcmp : Mem → ℕ → ℕ → ℕ → ℤ
memcmp m s1 s2 zero = pos 0
memcmp m s1 s2 (suc n) =
    let rest = memcmp m (suc s1) (suc s2) n in if m s1 != m s2 then sub_ℕ (m s1) (m s2) else rest

pub memfind : Mem → ℕ → ℕ → ℕ → ℕ
memfind m s c zero = s
memfind m s c (suc n) = let rest = memfind m (suc s) c n in if m s == c % 2 ^ 8 then s else rest

-- `while (*s == ' ' || *s == '\t') s++;`
pub skip_blanks : ℕ → Mem → ℕ → Option ℕ
skip_blanks zero m s = none
skip_blanks (suc fuel) m s =
    let rest = skip_blanks fuel m (suc s) in if m s == b' ' || m s == 9 then rest else some s

-- The value of a digit character, or `none` where the chain of tests ends in `break`.
pub digit_value : ℕ → Option ℕ
digit_value c =
    if leb b'0' c && leb c b'9'
    then some (c - b'0')
    else if leb b'a' c && leb c b'z'
    then some (c - b'a' + 10)
    else if leb b'A' c && leb c b'Z'
    then some (c - b'A' + 10)
    else none

-- The digits loop. A `val` beyond `long` is undefined behaviour in C; here it just grows.
pub digits_loop : ℕ → Mem → ℕ → ℕ → ℕ → Option (ℕ × ℕ)
unfolding digit_value
digits_loop zero m s base val = none
digits_loop (suc fuel) m s base val = elim (digit_value (m s)) [
  | none ↦ some (val, s)
  | some dig ↦ elim (leb base dig) [
    | true ↦ some (val, s)
    | false ↦ digits_loop fuel m (suc s) base (val * base + dig)
  ]
]

-- The sign: the new `s`, and `neg`.
pub sign : Mem → ℕ → ℕ × Bool
sign m s = if m s == b'+' then (suc s, false) else if m s == b'-' then (suc s, true) else (s, false)

-- The base prefix: the new `s` and `base`.
pub base_prefix : Mem → ℕ → ℕ → ℕ × ℕ
base_prefix m s base =
    if (base == 0 || base == 16) && (m s == b'0' && m (s + 1) == b'x')
    then (s + 2, 16)
    else if base == 0 && m s == b'0'
    then (s + 1, 8)
    else if base == 0
    then (s, 10)
    else (s, base)

abbrev pub negate_if : Bool → ℕ → ℤ
negate_if true val = sub_ℕ 0 val
negate_if false val = pos val

-- The value, and what goes to `*endptr`.
pub strtol : ℕ → Mem → ℕ → ℕ → Option (ℤ × ℕ)
unfolding skip_blanks sign base_prefix digits_loop
strtol fuel m s base = elim (skip_blanks fuel m s) [
  | none ↦ none
  | some s1 ↦
      let (s2, neg) = sign m s1 in
      let (s3, base') = base_prefix m s2 base in
      elim (digits_loop fuel m s3 base' 0) [
        | none ↦ none
        | some (val, end) ↦ some (negate_if neg val, end)
      ]
]
