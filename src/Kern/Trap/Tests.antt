-- ===== src/Kern/Trap/Tests.antt =====
-- page_fault_handler of kern/riscv/trap.c on a small state.
use zynex_os.Base.{ℕ, ◌+◌, ◌-◌, ◌/◌, ◌≡◌, ◌≤◌, ◌<◌, refl, Bool, true, ◌==◌, arith}
use zynex_os.Base.Memory.{Mem}
use zynex_os.Kern.Env.{Trapframe}
use zynex_os.Kern.Trap.{uxstacktop, panics, page_fault_handler}
use zynex_os.Kern.Trap.Frame.{Upcall, page_fault_handler-Upcall, page_fault_handler-panics}

abbrev at_fault : Trapframe
at_fault = record { sepc = 4096; a0 = 1; sp = 8192; tp = 2; status = 0; other = λ i. i }

abbrev nested : Trapframe
nested = record at_fault { sp = uxstacktop - 280 }

abbrev full : Trapframe
full = record at_fault { sp = uxstacktop - 4096 + 100 }

abbrev zeros : Mem
zeros x = 0

-- The page of the exception stack can be written.
abbrev stack_only : ℕ → Bool
stack_only p = p == (uxstacktop - 4096) / 4096

abbrev yes_to : ℕ → Bool
yes_to va = true

stack_only-writable :
    (a : ℕ) → uxstacktop - 4096 ≤ a → a < uxstacktop → stack_only (a / 4096) ≡ true
stack_only-writable a lo hi = ground (arith, lo, hi)

page_fault_handler-Upcall_example :
    Upcall 65536 nested zeros (page_fault_handler stack_only yes_to yes_to 65536 nested zeros)
page_fault_handler-Upcall_example =
    page_fault_handler-Upcall stack_only yes_to yes_to 65536 nested zeros refl (omega arith) refl
      refl (λ e. omega arith) stack_only-writable

page_fault_handler-panics_example :
    page_fault_handler stack_only yes_to yes_to 65536 full zeros ≡ panics
page_fault_handler-panics_example =
    page_fault_handler-panics stack_only yes_to yes_to 65536 full zeros refl (omega arith) refl
      (omega arith) (omega arith) refl
