-- ===== src/Memory/Regions/Roundtrip.antt =====
-- `uvm_munmap` undoes `uvm_mmap`.
use biglab.Memory.Space.{Space}
