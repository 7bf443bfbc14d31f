-- ===== src/Memory.antt =====
-- src/kernel/mem: physical pages, page tables, the nodes of mmap regions, copies to and from user memory, and
-- the regions and the heap of a process.
pub mod Pmem
pub mod Space
pub mod Tables
pub mod Copy
pub mod Nodes
pub mod Regions
pub mod Heap
