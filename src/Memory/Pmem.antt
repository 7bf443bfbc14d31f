-- ===== src/Memory/Pmem.antt =====
-- src/kernel/mem/pmem.c: two pools of free physical pages. A free page holds, in its first word, the
-- address of the next free page; `mem` is the memory, a 64-bit word at each address. The spinlock of
-- a pool is held through each operation, so that an operation is one step.
mod Chain
pub mod Pages
pub mod Init
pub mod Alloc
mod Tests
use biglab.Prelude.{
  ℕ, zero, suc, ◌+◌, ◌-◌, ◌*◌, ◌/◌, ◌%◌, ◌^◌, Bool, true, false, ◌&&◌, ◌||◌, not, ltb, leb, ◌==◌,
  if◌then◌else◌, update, u32, u64, sub32, page_size,
}
use biglab.Prelude.Run.{Run, ok, panic, out_of_fuel, blocked, Cmd, ◌>>=◌}

-- KERN_PAGES.
abbrev pub kern_pages : ℕ
kern_pages = 1024

-- `alloc_region_t`: `begin`, `end`, `allocable` and `list_head.next`, which is 0 for NULL.
pub record Pool : Type 0 where
  pub begin : ℕ  -- uint64
  pub end : ℕ  -- uint64
  pub allocable : ℕ  -- uint32
  pub head : ℕ

pub record Pmem : Type 0 where
  pub mem : ℕ → ℕ
  pub kernel_pool : Pool
  pub user_pool : Pool

-- `memset(page, 0, PGSIZE)`.
abbrev pub clear_page : (ℕ → ℕ) → ℕ → ℕ → ℕ
clear_page mem page a = if leb page a && ltb a (page + page_size) then 0 else mem a

-- The pool chosen by `in_kernel`.
abbrev pub pool_of : Bool → Pmem → Pool
pool_of true s = s.kernel_pool
pool_of false s = s.user_pool

abbrev pub put_pool : Bool → Pool → Pmem → Pmem
put_pool true p s = record s { kernel_pool = p }
put_pool false p s = record s { user_pool = p }

-- `page->next = head; head = page; allocable++`.
abbrev pub push_page : Pool → ℕ → Pool
push_page p page = record p { head = page; allocable = u32 (p.allocable + 1) }

-- The loop of `init_pool`; its state is the memory and the pool.
pub init_loop : ℕ → ℕ → Cmd ((ℕ → ℕ) × Pool) (Unit {0})
init_loop zero addr (mem, p) = out_of_fuel
init_loop (suc k) addr (mem, p) =
    let next = init_loop k (u64 (addr + page_size)) (update mem addr p.head, push_page p addr) in
    if ltb addr p.end then next else ok tt (mem, p)

-- `init_pool`, with a round for each page and one for the last test.
pub init_pool : (ℕ → ℕ) → ℕ → ℕ → Run ((ℕ → ℕ) × Pool) (Unit {0})
unfolding init_loop
init_pool mem start end =
    init_loop ((end - start) / page_size + 2) start
      (mem, record { begin = start; end = end; allocable = 0; head = 0 })

init_both : ℕ → ℕ → ℕ → (ℕ → ℕ) → Run Pmem (Unit {0})
unfolding init_pool
init_both start middle end mem = elim (init_pool mem start middle) [
  | ok _ (mem', kernel) ↦ elim (init_pool mem' middle end) [
    | ok _ (mem'', user) ↦ ok tt (record { mem = mem''; kernel_pool = kernel; user_pool = user })
    | panic ↦ panic
    | out_of_fuel ↦ out_of_fuel
    | blocked ↦ blocked
  ]
  | panic ↦ panic
  | out_of_fuel ↦ out_of_fuel
  | blocked ↦ blocked
]

-- `pmem_init`. ALLOC_BEGIN and ALLOC_END come from the linker script.
pub pmem_init : (alloc_begin alloc_end : ℕ) → (ℕ → ℕ) → Run Pmem (Unit {0})
unfolding init_both
pmem_init alloc_begin alloc_end mem =
    let kernel_pool_end = u64 (alloc_begin + kern_pages * page_size) in
    if not (alloc_begin % page_size == 0) || not (alloc_end % page_size == 0)
    then panic
    else if ltb alloc_end kernel_pool_end
    then panic
    else init_both alloc_begin kernel_pool_end alloc_end mem

-- `pmem_alloc`: the first free page, zeroed, or `panic` where there is none.
pub pmem_alloc : Bool → Cmd Pmem ℕ
pmem_alloc in_kernel s =
    let p = pool_of in_kernel s in
    let p' = record p { head = s.mem p.head; allocable = sub32 p.allocable 1 } in
    if p.head == 0
    then panic
    else ok p.head (put_pool in_kernel p' (record s { mem = clear_page s.mem p.head }))

-- `pmem_free`, with its two checks of the address.
pub pmem_free : ℕ → Bool → Cmd Pmem (Unit {0})
pmem_free page in_kernel s =
    let p = pool_of in_kernel s in
    if not (page % page_size == 0)
    then panic
    else if ltb page p.begin || leb p.end page
    then panic
    else ok tt (put_pool in_kernel (push_page p page) (record s { mem = update s.mem page p.head }))

-- `pmem_stat`: the free pages of the kernel and of the user pool.
pub pmem_stat : Pmem → ℕ × ℕ
pmem_stat s = (s.kernel_pool.allocable, s.user_pool.allocable)
