-- ===== src/Kern/Trap/Frame.antt =====
-- The frame that page_fault_handler of kern/riscv/trap.c puts on the exception stack.
use zynex_os.Base.{
  ℕ, zero, suc, ◌+◌, ◌-◌, ◌*◌, ◌/◌, ◌≤◌, ◌<◌, ◌≡◌, ◌≢◌, ◌⊎◌, inl, inr, refl, ◌∙◌, ap, Bool, true,
  false, not, Option, none, some, List, [], ◌∷◌, arith, ◌==◌, if◌then◌else◌, length, get_or,
  Bool-cases,
}
use native.Mathlib.Decide.{dec_lt}
use zynex_os.Base.Memory.{Mem, write}
use zynex_os.Kern.Env.{Trapframe}
use zynex_os.Kern.Trap.{
  uxstacktop, reg, stval, scause, from_kernel, reg_pushes, pushes, push_all, Outcome, panics,
  destroys, resumes, on_uxstack, push_frame, page_fault_handler,
}

-- The words `ws` are pushed from `sp` on, and nothing else changes.
record Pushed (ws : List ℕ) (sp : ℕ) (m m' : Mem) : Type 0 where
  word : (i : ℕ) → i < length ws → m' (sp - 8 * suc i) ≡ get_or ws i 0
  same : (a : ℕ) → (sp ≤ a) ⊎ (a < sp - 8 * length ws) → m' a ≡ m a

write_self : (m : Mem) (a v : ℕ) → write m a v a ≡ v
write_self m a v = rw here refl
  where
    here : (a == a) ≡ true
    here = ground arith

write_ne : (m : Mem) (a v x : ℕ) → x ≢ a → write m a v x ≡ m x
write_ne m a v x ne = rw other refl
  where
    other : (x == a) ≡ false
    other = ground (arith, ne)

push_all_step :
    (writable : ℕ → Bool) (w : ℕ) (ws : List ℕ) (sp : ℕ) (m : Mem)
    → writable ((sp - 8) / 4096) ≡ true
    → push_all writable (w ∷ ws) sp m ≡ push_all writable ws (sp - 8) (write m (sp - 8) w)
unfolding push_all
push_all_step writable w ws sp m e = rw e refl

push_all-Pushed :
    (writable : ℕ → Bool) (ws : List ℕ) (sp : ℕ) (m : Mem)
    → 8 * length ws ≤ sp
    → ((a : ℕ) → sp - 8 * length ws ≤ a → a < sp → writable (a / 4096) ≡ true)
    → (m' : Mem) × (push_all writable ws sp m ≡ some (sp - 8 * length ws, m')) × Pushed ws sp m m'
unfolding push_all
push_all-Pushed writable [] sp m le can = (
  m,
  ap (λ k. some (k, m)) (omega arith),
  record { word = λ i lt. absurd (omega arith); same = λ a o. refl },
)
push_all-Pushed writable (w ∷ ws) sp m le can =
    let m1 = write m (sp - 8) w in
    let (m', run, p) =
      push_all-Pushed writable ws (sp - 8) m1 (omega arith)
        (λ a lo hi. can a (omega arith) (omega arith)) in
    (
      m',
      push_all_step writable w ws sp m (can (sp - 8) (omega arith) (omega arith))
          ∙ run
          ∙ ap (λ k. some (k, m')) (omega arith),
      record {
        word = λ i lt. at_word m' p i lt;
        same = λ a o.
            p.same a (ground (arith, o, le)) ∙ write_ne m (sp - 8) w a (ground (arith, o, le));
      },
    )
  where
    at_word :
        (m' : Mem)
        → Pushed ws (sp - 8) (write m (sp - 8) w) m'
        → (i : ℕ) → i < suc (length ws)
        → m' (sp - 8 * suc i) ≡ get_or (w ∷ ws) i 0
    at_word m' p zero lt = p.same (sp - 8) (inl (omega arith)) ∙ write_self m (sp - 8) w
    at_word m' p (suc i) lt = ap m' (omega arith) ∙ p.word i (omega arith)

reg_same : (tf : Trapframe) (a b : ℕ) → a ≡ b → reg tf a ≡ reg tf b
reg_same tf a b e = ap (reg tf) e

get_or-reg_pushes :
    (tf : Trapframe) (n i : ℕ) → i < n → get_or (reg_pushes tf n) i 0 ≡ reg tf (n - i)
get_or-reg_pushes tf zero i lt = absurd (omega arith)
get_or-reg_pushes tf (suc n) zero lt = reg_same tf (suc n) (suc n - 0) (omega arith)
get_or-reg_pushes tf (suc n) (suc i) lt =
    get_or-reg_pushes tf n i (omega arith) ∙ reg_same tf (n - i) (suc n - suc i) (omega arith)

-- `struct UTrapframe` at `sp`: the address of the fault, the registers by their numbers, the cause, the
-- program counter and the stack pointer of the trap.
pub record IsFrame (tf : Trapframe) (sp : ℕ) (m : Mem) : Type 0 where
  pub utf_fault_va : m sp ≡ stval tf
  pub utf_regs : (i : ℕ) → 0 < i → i < 32 → m (sp + 8 * i) ≡ reg tf i
  pub utf_cause : m (sp + 256) ≡ scause tf
  pub utf_epc : m (sp + 264) ≡ tf.sepc
  pub utf_sp : m (sp + 272) ≡ tf.sp

Pushed-IsFrame :
    (tf : Trapframe) (top : ℕ) (m m' : Mem)
    → 280 ≤ top
    → Pushed (pushes tf) top m m'
    → IsFrame tf (top - 280) m'
Pushed-IsFrame tf top m m' le p = record {
  utf_fault_va = ap m' (omega arith) ∙ p.word 34 (omega arith);
  utf_regs = λ i lo hi.
      ap m' (omega arith)
      ∙ p.word (suc (suc (suc (31 - i)))) (omega arith)
      ∙ get_or-reg_pushes tf 31 (31 - i) (omega arith)
      ∙ reg_same tf (31 - (31 - i)) i (omega arith);
  utf_cause = ap m' (omega arith) ∙ p.word 2 (omega arith);
  utf_epc = ap m' (omega arith) ∙ p.word 1 (omega arith);
  utf_sp = ap m' (omega arith) ∙ p.word 0 (omega arith);
}

-- Where the frame ends: at the top of the exception stack, or below the scratch word of a handler that
-- faulted itself.
abbrev pub frame_top : Trapframe → ℕ
frame_top tf = if on_uxstack tf then tf.sp - 8 else uxstacktop

pub record Upcall (upcall : ℕ) (tf : Trapframe) (m : Mem) (o : Outcome) : Type 0 where
  pub regs : Trapframe
  pub mem : Mem
  pub resumed : o ≡ resumes regs mem
  pub at_handler : regs.sepc ≡ upcall
  pub stack : regs.sp ≡ frame_top tf - 280
  pub frame : IsFrame tf regs.sp mem
  pub kept : (a : ℕ) → (frame_top tf + 8 ≤ a) ⊎ (a < frame_top tf - 280) → mem a ≡ m a

-- The registers with which the handler starts.
abbrev entered : Trapframe → (sp upcall : ℕ) → Trapframe
entered tf sp upcall = record tf {
  sp = sp;
  sepc = upcall;
  other = λ i. if i == 35 then 0 else tf.other i;
}

handler_runs :
    (writable may_write may_run : ℕ → Bool) (upcall : ℕ) (tf : Trapframe) (m m' : Mem) (sp : ℕ)
    → from_kernel tf ≡ false
    → (upcall == 0) ≡ false
    → may_write (uxstacktop - 4) ≡ true
    → may_run upcall ≡ true
    → push_frame writable tf m ≡ some (sp, m')
    → page_fault_handler writable may_write may_run upcall tf m ≡ resumes (entered tf sp upcall) m'
unfolding page_fault_handler
handler_runs writable may_write may_run upcall tf m m' sp a b c d e =
    chosen (from_kernel tf) (upcall == 0) (may_write (uxstacktop - 4)) (may_run upcall)
      (push_frame writable tf m) a b c d e
  where
    chosen :
        (k z w r : Bool) (o : Option (ℕ × Mem))
        → k ≡ false
        → z ≡ false
        → w ≡ true
        → r ≡ true
        → o ≡ some (sp, m')
        → (if k then panics else if z then destroys else if not w then destroys else elim o [
          | none ↦ panics
          | some x ↦ if r then resumes (entered tf x.0 upcall) x.1 else destroys
        ])
          ≡ resumes (entered tf sp upcall) m'
    chosen k z w r o a b c d e = rw (a, b, c, e, d) refl

abbrev pub top_of : Bool → Trapframe → ℕ
top_of b tf = if b then tf.sp - 8 else uxstacktop

-- What is pushed, by whether the trap came from the exception stack.
record Laid (b : Bool) (writable : ℕ → Bool) (tf : Trapframe) (m : Mem) : Type 0 where
  mem : Mem
  run :
      (if b
        then push_all writable (0 ∷ pushes tf) tf.sp m
        else push_all writable (pushes tf) uxstacktop m)
      ≡ some (top_of b tf - 280, mem)
  frame : IsFrame tf (top_of b tf - 280) mem
  kept : (a : ℕ) → (top_of b tf + 8 ≤ a) ⊎ (a < top_of b tf - 280) → mem a ≡ m a

push_frame-Laid :
    (b : Bool) (writable : ℕ → Bool) (tf : Trapframe) (m : Mem)
    → on_uxstack tf ≡ b
    → (b ≡ true → uxstacktop - 4096 + 288 ≤ tf.sp)
    → ((a : ℕ) → uxstacktop - 4096 ≤ a → a < uxstacktop → writable (a / 4096) ≡ true)
    → Laid b writable tf m
push_frame-Laid false writable tf m e room can =
    let r =
      push_all-Pushed writable (pushes tf) uxstacktop m (omega arith)
        (λ a lo hi. can a (omega arith) hi) in
    record {
      mem = r.0;
      run = r.1;
      frame = Pushed-IsFrame tf uxstacktop m r.0 (omega arith) r.2;
      kept = λ a o. r.2.same a (ground (arith, o));
    }
push_frame-Laid true writable tf m e room can =
    let low = room refl in
    let high : tf.sp < uxstacktop = ground (arith, e) in
    let m1 = write m (tf.sp - 8) 0 in
    let r =
      push_all-Pushed writable (pushes tf) (tf.sp - 8) m1 (omega arith)
        (λ a lo hi. can a (omega arith) (omega arith)) in
    record {
      mem = r.0;
      run =
          push_all_step writable 0 (pushes tf) tf.sp m (can (tf.sp - 8) (omega arith) (omega arith))
          ∙ r.1;
      frame = Pushed-IsFrame tf (tf.sp - 8) m1 r.0 (omega arith) r.2;
      kept = λ a o.
          r.2.same a (ground (arith, o)) ∙ write_ne m (tf.sp - 8) 0 a (ground (arith, o, low));
    }

-- A page fault of user code, with an upcall that may be run and an exception stack that the kernel can write
-- and, for a fault in the handler, that has 288 bytes left: the handler starts on a `struct UTrapframe` that
-- holds the address of the fault and every register of the trap. It lies at the top of the exception stack, or
-- one scratch word below the stack pointer of the handler that faulted, and nothing else of the memory changes.
pub page_fault_handler-Upcall :
    (writable may_write may_run : ℕ → Bool) (upcall : ℕ) (tf : Trapframe) (m : Mem)
    → from_kernel tf ≡ false
    → upcall ≢ 0
    → may_write (uxstacktop - 4) ≡ true
    → may_run upcall ≡ true
    → (on_uxstack tf ≡ true → uxstacktop - 4096 + 288 ≤ tf.sp)
    → ((a : ℕ) → uxstacktop - 4096 ≤ a → a < uxstacktop → writable (a / 4096) ≡ true)
    → Upcall upcall tf m (page_fault_handler writable may_write may_run upcall tf m)
page_fault_handler-Upcall writable may_write may_run upcall tf m a z c d room can =
    let l = push_frame-Laid (on_uxstack tf) writable tf m refl room can in
    record {
      regs = entered tf (frame_top tf - 280) upcall;
      mem = l.mem;
      resumed =
          handler_runs writable may_write may_run upcall tf m l.mem (frame_top tf - 280) a
            (ground (arith, z)) c d l.run;
      at_handler = refl;
      stack = refl;
      frame = l.frame;
      kept = l.kept;
    }

push_all_fault :
    (writable : ℕ → Bool) (w : ℕ) (ws : List ℕ) (sp : ℕ) (m : Mem)
    → writable ((sp - 8) / 4096) ≡ false
    → push_all writable (w ∷ ws) sp m ≡ none
unfolding push_all
push_all_fault writable w ws sp m e = rw e refl

push_all_more :
    (writable : ℕ → Bool) (w : ℕ) (ws : List ℕ) (sp : ℕ) (m : Mem)
    → push_all writable ws (sp - 8) (write m (sp - 8) w) ≡ none
    → push_all writable (w ∷ ws) sp m ≡ none
unfolding push_all
push_all_more writable w ws sp m e = elim (Bool-cases (writable ((sp - 8) / 4096))) [
  | inl t ↦ rw t e
  | inr f ↦ rw f refl
]

-- Pushes that go past the start of a page into one that cannot be written do not end.
push_all_past :
    (writable : ℕ → Bool) (p : ℕ) (ws : List ℕ) (sp : ℕ) (m : Mem)
    → suc p * 4096 ≤ sp
    → sp < suc p * 4096 + 8 * length ws
    → writable p ≡ false
    → push_all writable ws sp m ≡ none
push_all_past writable p [] sp m lo hi un = absurd (omega arith)
push_all_past writable p (w ∷ ws) sp m lo hi un = elim (dec_lt sp (suc p * 4096 + 8)) [
  | yes near ↦ push_all_fault writable w ws sp m (ap writable (page near) ∙ un)
  | no far ↦
      push_all_more writable w ws sp m
        (push_all_past writable p ws (sp - 8) (write m (sp - 8) w) (omega arith) (omega arith) un)
]
  where
    page : sp < suc p * 4096 + 8 → (sp - 8) / 4096 ≡ p
    page near = omega (arith, lo, near)

-- A page fault in the handler, with less room on the exception stack than the 288 bytes of the scratch word
-- and the frame, where the page below the stack cannot be written: the kernel itself faults while it
-- pushes the frame, and panics, where the environment should be destroyed.
pub page_fault_handler-panics :
    (writable may_write may_run : ℕ → Bool) (upcall : ℕ) (tf : Trapframe) (m : Mem)
    → from_kernel tf ≡ false
    → upcall ≢ 0
    → may_write (uxstacktop - 4) ≡ true
    → uxstacktop - 4096 ≤ tf.sp
    → tf.sp < uxstacktop - 4096 + 288
    → writable (uxstacktop / 4096 - 2) ≡ false
    → page_fault_handler writable may_write may_run upcall tf m ≡ panics
unfolding page_fault_handler
page_fault_handler-panics writable may_write may_run upcall tf m a z c lo hi un =
    handler_panics (from_kernel tf) (upcall == 0) (may_write (uxstacktop - 4))
      (push_frame writable tf m) a (ground (arith, z)) c
      (ap
          (λ b.
            if b
            then push_all writable (0 ∷ pushes tf) tf.sp m
            else push_all writable (pushes tf) uxstacktop m)
          on_stack
        ∙ push_all_past writable (uxstacktop / 4096 - 2) (0 ∷ pushes tf) tf.sp m (omega arith)
            (omega arith) un)
  where
    on_stack : on_uxstack tf ≡ true
    on_stack = ground (arith, lo, hi)

    handler_panics :
        (k b w : Bool) (o : Option (ℕ × Mem))
        → k ≡ false
        → b ≡ false
        → w ≡ true
        → o ≡ none
        → (if k then panics else if b then destroys else if not w then destroys else elim o [
          | none ↦ panics
          | some x ↦ if may_run upcall then resumes (entered tf x.0 upcall) x.1 else destroys
        ])
          ≡ panics
    handler_panics k b w o e f g h = rw (e, f, g, h) refl
