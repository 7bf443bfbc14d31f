-- ===== src/Syscall.antt =====
-- src/kernel/syscall: the system calls.
pub mod Descriptors
