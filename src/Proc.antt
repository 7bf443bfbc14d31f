-- ===== src/Proc.antt =====
-- The processes under src/kernel/proc.
pub mod Table
