-- ===== src/Kern.antt =====
-- The RISC-V kernel of kern/riscv.
pub mod Pages
pub mod Env
pub mod Sched
pub mod Lock
pub mod Syscall
pub mod Trap
