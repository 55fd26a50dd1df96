-- ===== src/CString/Scan.antt =====
-- The routines of lib/riscv/string.c that look along memory: strlen, strnlen, strchr, memfind.
use zynex_os.Base.{
  ℕ, zero, suc, ◌+◌, ◌<◌, ◌≡◌, refl, ◌∙◌, ap, Bool, true, false, some, List, [], ◌∷◌, arith, ◌==◌,
  if◌then◌else◌, length, min,
}
use zynex_os.Base.Memory.{Mem, IsString}
use zynex_os.CString.{strlen_from, strlen, strnlen_from, strnlen, strchr, strfind}

strlen_from-length :
    (fuel : ℕ) (m : Mem) (p n : ℕ) (s : List ℕ)
    → IsString m p s
    → length s < fuel
    → strlen_from fuel m p n ≡ some (n + length s)
unfolding strlen_from
strlen_from-length zero m p n s is h = absurd (omega arith)
strlen_from-length (suc fuel) m p n [] is h = rw is (ap some (omega arith))
strlen_from-length (suc fuel) m p n (c ∷ s) is h =
    ground (arith, strlen_from-length fuel m (suc p) (n + 1) s is.2)

strnlen_from-length :
    (m : Mem) (p size n : ℕ) (s : List ℕ)
    → IsString m p s
    → strnlen_from m p size n ≡ n + min size (length s)
unfolding strnlen_from
strnlen_from-length m p zero n s is = omega arith
strnlen_from-length m p (suc size) n [] is = rw is (omega arith)
strnlen_from-length m p (suc size) n (c ∷ s) is =
    ground (arith, strnlen_from-length m (suc p) size (n + 1) s is.2)

-- On a string `s`, strlen returns its length, given fuel for its bytes, and strnlen returns the
-- smaller of that and its bound.
pub strlen-length :
    (fuel size : ℕ) (m : Mem) (p : ℕ) (s : List ℕ)
    → IsString m p s
    → length s < fuel
    → (strlen fuel m p ≡ some (length s)) × (strnlen m p size ≡ min size (length s))
unfolding strlen strnlen
strlen-length fuel size m p s is h = (
  strlen_from-length fuel m p 0 s is h ∙ ap some (omega arith),
  strnlen_from-length m p size 0 s is ∙ omega arith,
)

-- The first index of `c` in a list, or the length.
pub index_of : ℕ → List ℕ → ℕ
index_of c [] = 0
index_of c (x ∷ xs) = if x == c then 0 else suc (index_of c xs)

pub contains : ℕ → List ℕ → Bool
contains c [] = false
contains c (x ∷ xs) = if x == c then true else contains c xs

-- On a string `s` at `p`, with fuel for its bytes: strchr returns the address of the first `c` in
-- it, or null if it has none, and strfind the address of the first `c`, or of the terminator.
pub strchr-index_of :
    (fuel : ℕ) (m : Mem) (p c : ℕ) (s : List ℕ)
    → IsString m p s
    → length s < fuel
    → (strchr fuel m p c ≡ some (if contains c s then p + index_of c s else 0))
      × (strfind fuel m p c ≡ some (p + index_of c s))
unfolding strchr strfind index_of contains
strchr-index_of zero m p c s is h = absurd (omega arith)
strchr-index_of (suc fuel) m p c [] is h = rw is (refl, ap some (omega arith))
strchr-index_of (suc fuel) m p c (x ∷ s) is h =
    ground (arith, strchr-index_of fuel m (suc p) c s is.2)
