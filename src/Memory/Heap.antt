-- ===== src/Memory/Heap.antt =====
-- src/kernel/mem/uvm.c, part 3: the heap of a process grows and shrinks, and its stack grows. `pmem_alloc` panics where no
-- page is left, so that its result is never NULL.
mod Grow
pub mod Shrink
pub mod Stack
mod Tests
use biglab.Prelude.{
  ℕ, zero, suc, ◌+◌, ◌-◌, ◌*◌, ◌/◌, ◌^◌, ◌%◌, Bool, true, false, ◌==◌, ltb, leb, if◌then◌else◌,
  page_size, u32, u64, sub64, Option, none, some,
}
use biglab.Prelude.Run.{ok, panic, out_of_fuel, Cmd, ◌>>=◌, ◌>>◌, pure}
use biglab.Memory.Space.{Space, trapframe, mmap_end, map_page, take_from, unmap_pages}

-- USER_BASE, and PTE_R | PTE_W | PTE_U.
abbrev pub user_base : ℕ
user_base = 4096

abbrev pub heap_perm : ℕ
heap_perm = 22

-- `(a + PGSIZE - 1) & ~(PGSIZE - 1)`.
abbrev pub page_up : ℕ → ℕ
page_up a = u64 (a + 4095) / page_size * page_size

-- The loop of `uvm_heap_grow`.
pub grow_loop : ℕ → ℕ → ℕ → Cmd Space (Unit {0})
unfolding take_from
grow_loop zero a new_top s = out_of_fuel
grow_loop (suc n) a new_top s =
    let more =
      ((λ t. take_from t.frames t) >>= λ pa.
      map_page a pa heap_perm >> grow_loop n (u64 (a + page_size)) new_top)
        s in
    if ltb a new_top then more else ok tt s

-- `uvm_heap_grow`, with a round for each page and one for the last test.
pub uvm_heap_grow : ℕ → ℕ → Cmd Space ℕ
unfolding grow_loop
uvm_heap_grow top len =
    let new_top = u64 (top + len) in
    grow_loop (len / page_size + 2) (page_up top) new_top >> pure new_top

-- `uvm_heap_ungrow`.
pub uvm_heap_ungrow : ℕ → ℕ → Cmd Space ℕ
unfolding unmap_pages
uvm_heap_ungrow top bytes =
    let new_top = if ltb bytes top then top - bytes else 0 in
    let up = page_up top in
    let down =
      if ltb (page_up new_top) (user_base + page_size)
      then user_base + page_size
      else page_up new_top in
    let shrink = unmap_pages down (sub64 up down) >> pure new_top in
    if bytes == 0 then pure top else if ltb down up then shrink else pure new_top

-- The loop of `uvm_ustack_grow` over `n` pages from the `i`th below the bottom of the stack.
pub ustack_loop : ℕ → ℕ → ℕ → Cmd Space (Unit {0})
unfolding take_from
ustack_loop zero i current_bottom s = ok tt s
ustack_loop (suc n) i current_bottom s =
    let va = sub64 current_bottom ((i + 1) * page_size) in
    ((λ t. take_from t.frames t) >>= λ pa.
    map_page va pa heap_perm >> ustack_loop n (suc i) current_bottom)
      s

-- `uvm_ustack_grow`; `none` is -1.
pub uvm_ustack_grow : ℕ → ℕ → Cmd Space (Option ℕ)
unfolding ustack_loop
uvm_ustack_grow current_pages fault_addr s =
    let current_bottom = sub64 trapframe (u64 (current_pages * page_size)) in
    let target_bottom = fault_addr - fault_addr % page_size in
    let pages_needed = u32 (sub64 current_bottom target_bottom / page_size) in
    let grown =
      (ustack_loop pages_needed 0 current_bottom
          >> pure (some (u64 (current_pages + pages_needed))))
        s in
    if leb trapframe fault_addr
    then ok none s
    else if ltb fault_addr mmap_end
    then ok none s
    else if leb current_bottom fault_addr
    then ok (some current_pages) s
    else grown
