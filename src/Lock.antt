-- ===== src/Lock.antt =====
-- The locks under src/kernel/lock.
pub mod Spin
pub mod Sleep
