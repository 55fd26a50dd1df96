-- ===== src/Printf.antt =====
-- lib/riscv/printfmt.c: the printing of numbers, and the buffer of vsnprintf.
-- What a routine passes to `putch` is the list of the characters, in order. `vsnprintf` takes the
-- characters that vprintfmt emits, which is Printf/Format.
pub mod Number
pub mod Buffer
pub mod Format
mod Tests
use zynex_os.Base.{
  ℕ, zero, suc, ◌+◌, ◌-◌, ◌/◌, ◌%◌, ◌^◌, ◌<◌, Bool, Option, none, some, List, [], ◌∷◌, ◌++◌, ltb,
  leb, ◌==◌, ◌||◌, if◌then◌else◌, replicate,
}
use zynex_os.Base.Memory.{Mem, write}

-- `"0123456789abcdef"[d]`
abbrev pub digit_char : ℕ → ℕ
digit_char d = if ltb d 10 then b'0' + d else b'a' + d - 10

-- A `width` that is not positive acts as 0. The recursion runs on fuel.
pub printnum : ℕ → (num base width padc : ℕ) → Option (List ℕ)
printnum zero num base width padc = none
printnum (suc fuel) num base width padc =
    let rest = printnum fuel (num / base) base (width - 1) padc in
    let digit = digit_char (num % base) in
    if leb base num
    then elim rest [ none ↦ none | some s ↦ some (s ++ digit ∷ []) ]
    else some (replicate (width - 1) padc ++ digit ∷ [])

-- `struct sprintbuf`; `cnt` is an `int` in the source, so the model stands for fewer than 2 ^ 31
-- characters.
pub record SprintBuf : Type 0 where
  pub buf : ℕ
  pub ebuf : ℕ
  pub cnt : ℕ

pub sprintputch : ℕ → SprintBuf → Mem → SprintBuf × Mem
sprintputch ch b m =
    if ltb b.buf b.ebuf
    then (record b { cnt = b.cnt + 1; buf = suc b.buf }, write m b.buf (ch % 2 ^ 8))
    else (record b { cnt = b.cnt + 1 }, m)

-- `sprintputch` of each character in turn.
pub put_all : List ℕ → SprintBuf → Mem → SprintBuf × Mem
unfolding sprintputch
put_all [] b m = (b, m)
put_all (c ∷ out) b m = let (b', m') = sprintputch c b m in put_all out b' m'

-- `-E_INVAL` is `none`; else the count, with the new memory.
pub vsnprintf : Mem → (buf n : ℕ) → List ℕ → Option ℕ × Mem
unfolding put_all
vsnprintf m buf n out =
    let (b, m') = put_all out (record { buf = buf; ebuf = buf + n - 1; cnt = 0 }) m in
    if buf == 0 || ltb n 1 then (none, m) else (some b.cnt, write m' b.buf 0)
