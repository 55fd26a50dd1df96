-- ===== src/User.antt =====
-- The user library of lib/riscv.
pub mod Ipc
pub mod Malloc
pub mod Pipe
pub mod Args
pub mod Fd
