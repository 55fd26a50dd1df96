-- ===== src/Kern/Trap.antt =====
-- page_fault_handler of kern/riscv/trap.c: the page-fault upcall of an environment. The user's memory is
-- seen as words of 8 bytes at their addresses. Which pages the kernel can write in the environment's
-- address space, and what user_mem_check accepts, are parameters. A page fault of the kernel is a panic.
pub mod Frame
mod Tests
use zynex_os.Base.{
  ℕ, zero, suc, ◌+◌, ◌-◌, ◌*◌, ◌/◌, ◌%◌, Bool, true, false, not, ◌&&◌, ◌||◌, Option, none, some,
  List, [], ◌∷◌, ltb, leb, ◌==◌, if◌then◌else◌,
}
use zynex_os.Base.Memory.{Mem, write}
use zynex_os.Kern.Env.{Trapframe}

abbrev pub uxstacktop : ℕ
uxstacktop = 0xfffffbfff0000000

-- A register of the trapframe by its number, which is its place among the words of `struct Trapframe`.
abbrev pub reg : Trapframe → ℕ → ℕ
reg tf i = if i == 2 then tf.sp else if i == 4 then tf.tp else if i == 10 then tf.a0 else tf.other i

abbrev pub stval : Trapframe → ℕ
stval tf = tf.other 33

abbrev pub scause : Trapframe → ℕ
scause tf = tf.other 34

-- SSTATUS_SPP: whether the trap is from kernel mode.
abbrev pub from_kernel : Trapframe → Bool
from_kernel tf = tf.status / 256 % 2 == 1

-- Registers `n` to 1, in the order in which they are pushed, and then the address of the fault.
abbrev pub reg_pushes : Trapframe → ℕ → List ℕ
reg_pushes tf zero = stval tf ∷ []
reg_pushes tf (suc n) = reg tf (suc n) ∷ reg_pushes tf n

-- What is pushed, in order.
abbrev pub pushes : Trapframe → List ℕ
pushes tf = tf.sp ∷ tf.sepc ∷ scause tf ∷ reg_pushes tf 31

-- `*(--sp) = w` for each word; `none` is a fault of the kernel.
pub push_all : (ℕ → Bool) → List ℕ → ℕ → Mem → Option (ℕ × Mem)
push_all writable [] sp m = some (sp, m)
push_all writable (w ∷ ws) sp m =
    let rest = push_all writable ws (sp - 8) (write m (sp - 8) w) in
    if writable ((sp - 8) / 4096) then rest else none

pub data Outcome : Type 0 where
  panics : Outcome
  destroys : Outcome
  resumes : Trapframe → Mem → Outcome

-- A fault while the handler runs on the exception stack.
abbrev pub on_uxstack : Trapframe → Bool
on_uxstack tf = leb (uxstacktop - 4096) tf.sp && ltb tf.sp uxstacktop

abbrev pub push_frame : (ℕ → Bool) → Trapframe → Mem → Option (ℕ × Mem)
push_frame writable tf m =
    if on_uxstack tf
    then push_all writable (0 ∷ pushes tf) tf.sp m
    else push_all writable (pushes tf) uxstacktop m

-- `may_write va` and `may_run va`: user_mem_assert of 4 bytes with PTE_W, and with PTE_U, PTE_W, PTE_X and
-- PTE_R, comes back.
pub page_fault_handler :
    (writable : ℕ → Bool) (may_write may_run : ℕ → Bool) (upcall : ℕ) → Trapframe → Mem → Outcome
unfolding push_all
page_fault_handler writable may_write may_run upcall tf m =
    let frame = push_frame writable tf m in
    if from_kernel tf
    then panics
    else if upcall == 0
    then destroys
    else if not (may_write (uxstacktop - 4))
    then destroys
    else elim frame [
      | none ↦ panics
      | some r ↦
          if may_run upcall
          then resumes
              (record tf {
                sp = r.0;
                sepc = upcall;
                other = λ i. if i == 35 then 0 else tf.other i;
              })
              r.1
          else destroys
    ]
