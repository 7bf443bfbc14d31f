-- ===== src/Memory/Space.antt =====
-- A user address space as src/kernel/mem/uvm.c sees it: the page table as the map from pages to
-- mappings that `vm_mappages` and `vm_unmappages` of kvm.c keep, which tables below the root are there, the
-- user pages that `pmem_alloc` hands out in order, and the numbers of free kernel pages and of free
-- nodes of mmap.c. A mapping that uvm.c makes and unmaps is to a page of the user pool, so that the test
-- of `pmem_free` for the range of the pool, which Pool has, lets it pass.
pub mod Pool
use biglab.Prelude.{
  ℕ, zero, suc, ◌+◌, ◌-◌, ◌*◌, ◌/◌, ◌%◌, ◌^◌, ◌≡◌, ◌≤◌, ◌<◌, refl, arith, Bool, true, false, Option,
  none, some, List, [], ◌∷◌, ◌==◌, leb, ltb, not, if◌then◌else◌, update, page_size,
}
use biglab.Prelude.Run.{ok, panic, Cmd}

-- VA_MAX, TRAPFRAME, MMAP_END and MMAP_BEGIN of mem/type.h.
abbrev pub va_max : ℕ
va_max = 2 ^ 38

abbrev pub trapframe : ℕ
trapframe = 2 ^ 38 - 2 * 4096

abbrev pub mmap_end : ℕ
mmap_end = 2 ^ 38 - 2 * 4096 - 16 * 256 * 4096

abbrev pub mmap_begin : ℕ
mmap_begin = 2 ^ 38 - 2 * 4096 - 80 * 256 * 4096

pub record Mapping : Type 0 where
  pub pa : ℕ
  pub perm : ℕ

pub record Space : Type 0 where
  pub pt : ℕ → Option Mapping
  pub mids : ℕ → Bool  -- whether the table of level 1 for 2^30 bytes is there
  pub lows : ℕ → Bool  -- whether the table of level 0 for 2^21 bytes is there
  pub tables : ℕ  -- free pages of the kernel
  pub frames : List ℕ
  pub nodes : ℕ

-- The tables that `vm_getpte` with `alloc` takes from the kernel's pages for an address.
abbrev pub missing_tables : ℕ → Space → ℕ
missing_tables va s =
    (if s.mids (va / 2 ^ 30) then 0 else 1) + (if s.lows (va / 2 ^ 21) then 0 else 1)

-- The page of `va` with a mapping, and its tables.
abbrev pub mapped_at : ℕ → ℕ → ℕ → Space → Space
mapped_at va pa perm s = record s {
  pt = update s.pt va (some (record { pa = pa; perm = perm }));
  mids = update s.mids (va / 2 ^ 30) true;
  lows = update s.lows (va / 2 ^ 21) true;
  tables = s.tables - missing_tables va s;
}

-- `vm_mappages` of one page. `pmem_alloc` panics where the kernel has no page left for a table.
abbrev pub map_page : ℕ → ℕ → ℕ → Cmd Space (Unit {0})
map_page va pa perm s =
    if not (va % page_size == 0)
    then panic
    else if leb va_max va
    then panic
    else if ltb s.tables (missing_tables va s)
    then panic
    else ok tt (mapped_at va pa perm s)

-- Two free pages of the kernel are enough for the tables of a page.
pub map_page-mapped_at :
    (va pa perm : ℕ) (s : Space)
    → va % page_size ≡ 0
    → va < va_max
    → 2 ≤ s.tables
    → map_page va pa perm s ≡ ok tt (mapped_at va pa perm s)
map_page-mapped_at va pa perm s al below enough =
    let a : (va % page_size == 0) ≡ true = ground (arith, al) in
    let b : leb va_max va ≡ false = ground (arith, below) in
    let c : ltb s.tables (missing_tables va s) ≡ false = ground (arith, enough) in rw (a, b, c) refl

-- `pmem_alloc(false)`: the first free page, or `panic`.
unfoldable pub take_from : List ℕ → Cmd Space ℕ
take_from [] s = panic
take_from (pa ∷ rest) s = ok pa (record s { frames = rest })

-- One round of `vm_unmappages` with `do_free`: a mapped page loses its mapping and its frame is
-- given back; `pmem_free` is not called for the frame 0.
unfoldable pub unmap_page : ℕ → Space → Space
unmap_page va s = elim (s.pt va) [
  | none ↦ s
  | some m ↦ record s {
    pt = update s.pt va none;
    frames = if m.pa == 0 then s.frames else m.pa ∷ s.frames;
  }
]

-- The loop of `vm_unmappages`, over `n` pages from `va`.
unfoldable pub unmap_loop : ℕ → ℕ → Space → Space
unfolding unmap_page
unmap_loop zero va s = s
unmap_loop (suc n) va s = unmap_loop n (va + page_size) (unmap_page va s)

-- `vm_unmappages(tbl, va, len, true)`: as many pages as start below `va + len`.
unfoldable pub unmap_pages : ℕ → ℕ → Cmd Space (Unit {0})
unfolding unmap_loop
unmap_pages va len s =
    if not (va % page_size == 0)
    then panic
    else if len == 0
    then panic
    else ok tt (unmap_loop ((len + (page_size - 1)) / page_size) va s)
