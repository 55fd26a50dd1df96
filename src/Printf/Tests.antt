-- ===== src/Printf/Tests.antt =====
-- Numbers and buffers of lib/riscv/printfmt.c on small inputs.
use zynex_os.Base.{
  ℕ, suc, ◌≡◌, refl, none, some, List, [], ◌∷◌, arith, ◌==◌, if◌then◌else◌, length, take,
}
use zynex_os.Base.Memory.{Mem, IsString, Outside}
use zynex_os.Printf.{printnum, vsnprintf}
use zynex_os.Printf.Buffer.{vsnprintf_lem}

abbrev ok_text : List ℕ
ok_text = b'o' ∷ b'k' ∷ []

abbrev hex_text : List ℕ
hex_text = b'1' ∷ b'f' ∷ []

-- "1f" at 10
abbrev sample : Mem
sample x = if x == 10 then b'1' else if x == 11 then b'f' else 0

printed : printnum 8 31 16 0 0 ≡ some hex_text
unfolding printnum
printed = refl

padded : printnum 8 31 16 4 b'0' ≡ some (b'0' ∷ b'0' ∷ b'1' ∷ b'f' ∷ [])
unfolding printnum
padded = refl

vsnprintf_lem_example :
    ((vsnprintf sample 20 (suc 1) ok_text).0 ≡ some (length ok_text))
    × IsString (vsnprintf sample 20 (suc 1) ok_text).1 20 (take 1 ok_text)
    × ((x : ℕ) → Outside 20 (suc 1) x → (vsnprintf sample 20 (suc 1) ok_text).1 x ≡ sample x)
    × (vsnprintf sample 20 0 ok_text ≡ (none, sample))
    × (vsnprintf sample 0 (suc 1) ok_text ≡ (none, sample))
vsnprintf_lem_example =
    vsnprintf_lem sample 20 1 ok_text (omega arith)
      (omega arith, omega arith, (omega arith, omega arith, tt))
