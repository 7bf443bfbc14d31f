-- ===== src/Lib.antt =====
-- The teaching kernel of this repository: a kernel for RISC-V in C under src/kernel, with physical
-- and virtual memory, processes, locks, a console, and a file system on a disk image that
-- src/mkfs makes.
--
-- The parts and the files that model them:
--   Memory/Pmem      src/kernel/mem/pmem.c. The two pools of free pages, their links in the pages
--                    themselves: `pmem_init`, `pmem_alloc`, `pmem_free`, `pmem_stat`. Chain and
--                    Pages say when a pool is in order; Init and Alloc hold the theorems.
--   Memory/Tables    src/kernel/mem/kvm.c: `vm_getpte`, `vm_mappages` and `vm_unmappages` on page tables in
--                    the words of the memory. Tree says when the tables are in order and which
--                    mappings they stand for; Link, Fresh, Step, Ensure, Map, Views, Mappages and
--                    Unmappages hold the theorems.
--   Memory/Copy      src/kernel/mem/uvm.c, part 1: `uvm_copyin`, `uvm_copyout` and `uvm_copyin_str`, over
--                    the entries of an address space and the bytes of its pages. Bytewise has the
--                    copies byte by byte; In, Out, Str, Roundtrip and Entries hold the theorems.
--   Memory/Nodes     src/kernel/mem/mmap.c: the pool of the nodes of regions, with Free.
--   Memory/Space     What src/kernel/mem/uvm.c uses of kvm.c, mmap.c and pmem.c: a map from pages to
--                    mappings, the tables that are there, the frames that come out of the pool, counts of
--                    the free pages of the kernel and of the free nodes. Pool has the tests of `pmem_free`.
--   Memory/Regions   src/kernel/mem/uvm.c, part 2: `find_free_region`, `uvm_mmap`, `uvm_munmap` on the
--                    list of a process's regions, with their panics. Order, Find, Insert, Mmap,
--                    Munmap, Filled and Roundtrip hold the theorems.
--   Memory/Heap      src/kernel/mem/uvm.c, part 3: `uvm_heap_grow`, `uvm_heap_ungrow` and
--                    `uvm_ustack_grow`. Grow, Shrink and Stack hold the theorems.
--   Fs/Disk          The disk as a function from block numbers to bytes, and `super_block_t`.
--   Fs/Buffer        src/kernel/fs/buf.c: the two rings of the buffer cache, the references, the pages
--                    and the sleeplocks of the buffers. Coherence says when the cache stands for
--                    the disk; Rings, Locked, Get, Change, Victim, Init and Pages hold the theorems.
--   Fs/Bitmap        src/kernel/fs/bitmap.c: search, allocation and freeing of inode and block
--                    numbers. Bits, Search, Alloc, Numbers and Roundtrip hold the theorems.
--   Fs/Index         src/kernel/fs/inode.c, the index of an inode: `locate_or_add_block` on the slots, the
--                    tables and the table of tables. Nodes says when the tree of an index is in
--                    order; Entry, Grow, Tables, Ensure, Leaves and Locate hold the theorems.
--   Fs/Inode         src/kernel/fs/type.h and inode.c: `inode_disk_t`, `inode_t` and `inode_rw`. Record and
--                    Area hold the theorems.
--   Fs/Data          src/kernel/fs/inode.c: `inode_read_data` and `inode_write_data`. Overwrite, Round,
--                    Write, Read, Whole, WholeRead and Roundtrip hold the theorems.
--   Fs/Cache         src/kernel/fs/inode.c: `inode_get`, `inode_dup`, `inode_lock`, `inode_unlock`, `inode_create`,
--                    `inode_delete`, `inode_put` and `free_data_blocks` on the inodes in memory. Get,
--                    Freed, Levels and Remove hold the theorems.
--   Fs/Names         `strncmp` of src/kernel/lib/utils.c and `get_element` of src/kernel/fs/dentry.c. Compare
--                    and Elements hold the theorems.
--   Fs/Dentry        src/kernel/fs/dentry.c: the entries of a directory, found, made, removed and passed
--                    on. Search holds the theorem on `dentry_search`.
--   Fs/Paths         src/kernel/fs/dentry.c: the walks along a path, `path_create_inode`, `path_link` and
--                    `path_unlink`.
--   Fs/File          src/kernel/fs/fs.c: the table of open files, `file_open` up to `file_close`, and in Access
--                    `file_read` up to `file_get_stat`. Counts and Modes hold the theorems.
--   Fs/Device        src/kernel/fs/device.c: `device_table` and `device_open_check`, with Rights.
--   Fs/Sample        A small disk for the tests.
--   Syscall/Descriptors
--                    src/kernel/syscall/sysfunc.c: the calls on the open files of a process. Dups holds
--                    the theorem.
--   Mkfs             src/mkfs: the super block, the bitmaps, `inode_append` and the inodes of the image
--                    that mkfs makes. Layout, Blocks, Append, NewBlocks and Files hold the theorems.
--   Lock/Spin        src/kernel/lock/spinlock.c: `push_off` and `pop_off`, and the spinlock between any
--                    number of CPUs, in steps of one access of the lock, in any order (Schedule).
--   Lock/Sleep       src/kernel/lock/sleeplock.c: `sleeplock_acquire`, `sleeplock_release` and
--                    `sleeplock_holding` between the processes of the table, with `proc_sleep` and
--                    `proc_wakeup` on the channel of the lock, in steps of one access, in any order.
--                    Waiters and Steps hold the invariant, Safe the theorem.
--   Proc/Table       src/kernel/proc/proc.c: `proc_sleep`, `proc_wakeup`, `proc_yield`, the scheduler's
--                    choice, `proc_exit` and `proc_wait` on the process table, with the locks that
--                    the CPU holds. Wakeup, Reparent, Exit, Wait and Handover hold the theorems.
--   Console          src/kernel/lib/console.c: the ring buffer of the input, `cons_edit`, `cons_read`.
--                    Lines and Reads show that it implements a line editor on two lists; Copies has the
--                    copies of `cons_read`.
--   Prelude          Shared names; machine integers, lists, C arrays as functions, sets of numbers,
--                    and Run, the commands that return, panic, run out of fuel or wait.
--
-- How they interact: sysfunc.c calls fs.c, here Syscall on the table of File. fs.c calls
-- dentry.c, which calls inode.c, which calls bitmap.c, all on one disk: here File, Paths and
-- Dentry, Cache, Data and Index, and Bitmap, on a record of the inodes in memory and the disk.
-- A call of a process runs to its end, unless it finds the sleeplock of an inode taken: then it
-- waits (Run.blocked). buf.c stands between them and the disk: Fs/Buffer has its get, write and
-- put of a block, which the files above it take as one step on the disk. mkfs writes the disk
-- that the kernel reads: Mkfs uses the kernel's records and bitmaps. uvm.c takes pages from
-- pmem.c, here through Memory/Space, a map from pages to mappings; Memory/Tables has the tables
-- themselves, in the memory of Memory/Pmem. Memory/Copy reads entries only, which Entries takes from
-- these tables; the user's pages hold no table, so that a copy does not change them. pmem.c and bitmap.c hold a spinlock or a buffer
-- through each operation, which makes it one step; the process table panics on a lock that the
-- CPU holds already, as spinlock.c does, and takes any other lock for free once the call
-- returns, which Lock/Spin supports.
--
-- State and operations: a C struct is a record, an enum a data type, an array a function of the
-- index or a list. An operation takes the state and returns it with its result (Run.Cmd);
-- `panic` is a result. Integers are ℕ with the wrap-around of their width written out, but for
-- counters of type int, which no run brings near their limit. Pointers are addresses or
-- indexes, 0 is NULL.
--
-- Fuel: the loops of `init_pool` and `uvm_heap_grow` run on fuel, a round for each page of the
-- range and two more; the theorems on them say that they return. The loops of `inode_read_data` and
-- `inode_write_data` have a round for each byte and one more, those over the entries of a
-- directory a round for each entry and two more: the theorems on the first two and on
-- `dentry_search` say that they return. The walks along a path have a round for each character
-- and one more. The loops of `vm_mappages` and `vm_unmappages` have a round for each page of
-- the range, and up to two more; those of the copies to and from user memory have one for each
-- byte and one more; `append_loop` of mkfs has one for each byte: the theorems on
-- them say that they return. All other loops are structural.
--
-- Not modelled: `kvm_init`, creation and destruction of a process's memory and files, exec, `inode_to_path`, the devices' own reads and writes (parameters of File), the system calls
-- that are not on descriptors, the order in which the `main` of mkfs makes its files, printing.
-- The host's calls of mkfs succeed. A name is copied to an entry as a function of 59
-- characters, so that what stands behind its NUL is the caller's. Device drivers, traps and
-- boot code are registers of the machine for the most part.
pub mod Console
pub mod Fs
pub mod Lock
pub mod Memory
pub mod Mkfs
pub mod Prelude
pub mod Proc
pub mod Syscall
