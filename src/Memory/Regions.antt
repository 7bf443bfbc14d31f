-- ===== src/Memory/Regions.antt =====
-- src/kernel/mem/uvm.c, part 2: the mmap regions of a process, a list of address ranges kept in
-- order. The pointer `prev_node` of the source splits the list in two: the regions up to it, here
-- in reverse order, and those after it. `npages * PGSIZE` is a product of 32 bits.
mod Order
pub mod Find
pub mod Insert
pub mod Filled
pub mod Mmap
pub mod Munmap
pub mod Roundtrip
mod Tests
use biglab.Prelude.{
  ℕ, zero, suc, ◌+◌, ◌-◌, ◌*◌, ◌/◌, ◌%◌, ◌^◌, Bool, true, false, ◌&&◌, ◌||◌, Option, none, some,
  List, [], ◌∷◌, ◌==◌, leb, ltb, not, if◌then◌else◌, page_size, u64, u32, sub32, sub64,
}
use biglab.Prelude.Run.{Run, ok, panic, Cmd, ◌>>=◌, ◌>>◌, pure}
use biglab.Memory.Space.{Space, mmap_begin, mmap_end, map_page, take_from, unmap_pages}

-- `mmap_region_t`.
pub record Region : Type 0 where
  pub begin : ℕ  -- uint64
  pub npages : ℕ  -- uint32

-- `r->begin + r->npages * PGSIZE`.
abbrev pub end_of : Region → ℕ
end_of r = u64 (r.begin + u32 (r.npages * page_size))

-- The place where a region goes: its first address, the regions before it, last first, and those after it.
pub record Slot : Type 0 where
  pub addr : ℕ
  pub before : List Region
  pub after : List Region

abbrev slot : ℕ → List Region → List Region → Slot
slot a b r = record { addr = a; before = b; after = r }

-- `find_free_region`: the loop, from the candidate `cand`. The address 0 stands for failure.
pub find_loop : List Region → List Region → ℕ → ℕ → Slot
find_loop before [] cand req_len =
    if leb (u64 (cand + req_len)) mmap_end then slot cand before [] else slot 0 [] []
find_loop before (curr ∷ rest) cand req_len =
    if leb (u64 (cand + req_len)) curr.begin
    then slot cand before (curr ∷ rest)
    else find_loop (curr ∷ before) rest (end_of curr) req_len

pub find_free_region : List Region → ℕ → Slot
unfolding find_loop
find_free_region head npages = find_loop [] head mmap_begin (u32 (npages * page_size))

-- The search of `uvm_mmap` for the place of a given range; `none` is the panic on an overlap.
pub seek : List Region → List Region → ℕ → ℕ → Option Slot
seek before [] map_addr map_end = some (slot map_addr before [])
seek before (curr ∷ rest) map_addr map_end =
    if ltb curr.begin map_addr
    then if ltb map_addr (end_of curr) then none else seek (curr ∷ before) rest map_addr map_end
    else if ltb curr.begin map_end
    then none
    else some (slot map_addr before (curr ∷ rest))

-- Step 1 of `uvm_mmap`: `none` is any of its panics.
pub place : List Region → ℕ → ℕ → Option Slot
unfolding find_free_region seek
place head start npages =
    let found = find_free_region head npages in
    let map_end = u64 (start + u32 (npages * page_size)) in
    if start == 0
    then if found.addr == 0 then none else some found
    else if ltb start mmap_begin || ltb mmap_end map_end
    then none
    else seek [] head start map_end

-- Step 3: the new region takes in the next one if they touch. The number counts freed nodes.
pub merge_next : Region → List Region → Region × List Region × ℕ
merge_next new [] = (new, [], 0)
merge_next new (next ∷ rest) =
    if end_of new == next.begin
    then (record new { npages = u32 (new.npages + next.npages) }, rest, 1)
    else (new, next ∷ rest, 0)

-- The region before takes in the new one if they touch.
pub merge_prev : List Region → Region → List Region × ℕ
merge_prev [] new = (new ∷ [], 0)
merge_prev (prev ∷ before) new =
    if end_of prev == new.begin
    then (record prev { npages = u32 (prev.npages + new.npages) } ∷ before, 1)
    else (new ∷ prev ∷ before, 0)

-- The list from the regions before a place, last first, and those after it.
pub unwind : List Region → List Region → List Region
unwind [] after = after
unwind (r ∷ before) after = unwind before (r ∷ after)

-- Step 2 and 3: the list with the new region in it, and the number of nodes that merging frees.
pub insert_region : Slot → ℕ → List Region × ℕ
unfolding merge_next merge_prev unwind
insert_region place npages =
    let (new, after, freed) =
      merge_next (record { begin = place.addr; npages = npages }) place.after in
    let (before, freed') = merge_prev place.before new in (unwind before after, freed + freed')

-- Step 4: a fresh frame for each page.
pub map_loop : ℕ → ℕ → ℕ → Cmd Space (Unit {0})
unfolding take_from
map_loop zero va perm = pure tt
map_loop (suc n) va perm = do
  pa ← (λ s. take_from s.frames s)
  map_page va pa perm
  map_loop n (u64 (va + page_size)) perm

-- `mmap_region_alloc`, which panics where no node is free.
pub take_node : Cmd Space (Unit {0})
take_node s = if s.nodes == 0 then panic else ok tt (record s { nodes = s.nodes - 1 })

-- `mmap_region_free`.
pub give_nodes : ℕ → Cmd Space (Unit {0})
give_nodes n s = ok tt (record s { nodes = s.nodes + n })

-- `uvm_mmap`. It returns the new list; a node is taken for the new region first.
pub uvm_mmap : List Region → ℕ → ℕ → ℕ → Cmd Space (List Region)
unfolding place insert_region map_loop take_node give_nodes
uvm_mmap head start npages perm = elim (place head start npages) [
  | none ↦ λ _. panic
  | some p ↦
      let (regions, freed) = insert_region p npages in
      do take_node; give_nodes freed; map_loop npages p.addr perm; pure regions
]

-- The loop of `uvm_munmap` over the regions, with `start` and `unmap_end`. It returns the new list.
pub munmap_loop : List Region → ℕ → ℕ → Cmd Space (List Region)
unfolding unmap_pages take_node give_nodes
munmap_loop [] start unmap_end s = ok [] s
munmap_loop (walker ∷ rest) start unmap_end s =
    let region_end = end_of walker in
    let overlap_start = if ltb walker.begin start then start else walker.begin in
    let overlap_end = if ltb unmap_end region_end then unmap_end else region_end in
    let unmap = unmap_pages overlap_start (sub64 overlap_end overlap_start) in
    let skip = (do rest' ← munmap_loop rest start unmap_end; pure (walker ∷ rest')) s in
    let remove = (do unmap; give_nodes 1; rest' ← munmap_loop rest start unmap_end; pure rest') s in
    let trim_head =
      (do
        unmap
        pure (
            record walker {
              begin = unmap_end;
              npages = sub32 walker.npages (u32 ((unmap_end - walker.begin) / page_size));
            }
            ∷ rest))
        s in
    let trim_tail =
      (do
        unmap
        rest' ← munmap_loop rest start unmap_end
        pure (
            record walker { npages = sub32 walker.npages (u32 ((region_end - start) / page_size)) }
            ∷ rest'))
        s in
    let split =
      (do
        unmap
        take_node
        pure (
            record walker { npages = u32 ((start - walker.begin) / page_size) }
            ∷ record { begin = unmap_end; npages = u32 ((region_end - unmap_end) / page_size) }
            ∷ rest))
        s in
    if leb unmap_end walker.begin
    then ok (walker ∷ rest) s
    else if leb region_end start
    then skip
    else if leb start walker.begin && leb region_end unmap_end
    then remove
    else if leb start walker.begin && ltb unmap_end region_end
    then trim_head
    else if ltb walker.begin start && leb region_end unmap_end
    then trim_tail
    else split

-- `uvm_munmap`.
pub uvm_munmap : List Region → ℕ → ℕ → Cmd Space (List Region)
unfolding munmap_loop
uvm_munmap head start npages =
    let unmap_end = u64 (start + u32 (npages * page_size)) in
    if ltb start mmap_begin || ltb mmap_end unmap_end
    then (λ _. panic)
    else munmap_loop head start unmap_end
