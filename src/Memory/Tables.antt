-- ===== src/Memory/Tables.antt =====
-- src/kernel/mem/kvm.c: page tables of three levels in the words of the memory. The entry `k` of the
-- table at the page `a` is the word at `a + 8 * k`.
pub mod Tree
pub mod Link
pub mod Fresh
pub mod Step
pub mod Ensure
pub mod Map
pub mod Views
pub mod Mappages
pub mod Unmappages
mod Tests
use Prim.Native.Nat.{bit_or}
use biglab.Prelude.{
  ℕ, zero, suc, ◌+◌, ◌-◌, ◌*◌, ◌/◌, ◌%◌, ◌^◌, Bool, true, false, ◌&&◌, Option, none, some, ◌==◌,
  ltb, leb, not, if◌then◌else◌, update, u64, page_size,
}
use biglab.Prelude.Run.{Run, ok, panic, out_of_fuel, blocked, Cmd, pure, ◌>>=◌, ◌>>◌}
use biglab.Memory.Pmem.{Pmem, pmem_alloc, pmem_free}
use biglab.Memory.Space.{va_max}

-- `VA_TO_VPN(va, level)`.
abbrev pub vpn : ℕ → ℕ → ℕ
vpn va level = va / 2 ^ (12 + 9 * level) % 512

-- `PA_TO_PTE` and `PTE_TO_PA`.
abbrev pub pa_to_pte : ℕ → ℕ
pa_to_pte pa = u64 (pa / 4096 * 1024)

abbrev pub pte_to_pa : ℕ → ℕ
pte_to_pa pte = u64 (pte / 1024 * 4096)

-- `pte & PTE_V`.
abbrev pub is_valid : ℕ → Bool
is_valid pte = pte % 2 == 1

-- `PTE_CHECK`: none of the bits R, W and X.
abbrev pub is_table : ℕ → Bool
is_table pte = pte / 2 % 8 == 0

-- `PA_TO_PTE(pa) | perm | PTE_V`; the permissions stand below the page number.
abbrev pub make_pte : ℕ → ℕ → ℕ
make_pte pa perm = pa_to_pte pa + bit_or perm 1

-- `*entry = pte`.
abbrev pub write_word : ℕ → ℕ → Cmd Pmem (Unit {0})
write_word a pte s = ok tt (record s { mem = update s.mem a pte })

-- The levels of `vm_getpte` down from `level`, from the table of that level on, and the address of the
-- entry; `none` is NULL.
pub walk : ℕ → ℕ → ℕ → Bool → Cmd Pmem (Option ℕ)
walk zero table va alloc s = ok (some (table + 8 * vpn va 0)) s
walk (suc level) table va alloc s =
    let a = table + 8 * vpn va (suc level) in
    let next = walk level (pte_to_pa (s.mem a)) va alloc s in
    let linked =
      (pmem_alloc true >>= λ new_table.
      write_word a (make_pte new_table 0) >> walk level (pte_to_pa (make_pte new_table 0)) va alloc)
        s in
    if not (is_valid (s.mem a))
    then if alloc then linked else ok none s
    else if not (is_table (s.mem a))
    then ok none s
    else next

-- `vm_getpte`; 0 is the NULL table.
abbrev pub vm_getpte : (kern_pagetable : ℕ) → ℕ → ℕ → Bool → Cmd Pmem (Option ℕ)
vm_getpte kern_pagetable table va alloc s =
    let table' = if table == 0 then kern_pagetable else table in
    if leb va_max va then ok none s else walk 2 table' va alloc s

-- One round of the loop of `vm_mappages`.
abbrev pub map_one : ℕ → ℕ → ℕ → ℕ → ℕ → Cmd Pmem (Unit {0})
map_one kern table va pa perm s = elim (vm_getpte kern table va true s) [
  | ok (some a) s' ↦ write_word a (make_pte pa perm) s'
  | ok none s' ↦ panic
  | panic ↦ panic
  | out_of_fuel ↦ out_of_fuel
  | blocked ↦ blocked
]

-- The loop of `vm_mappages` from the page `va` to the page `last`; `start` is where it began.
pub map_loop : ℕ → ℕ → ℕ → ℕ → ℕ → ℕ → ℕ → ℕ → Cmd Pmem (Unit {0})
map_loop zero kern table start va pa perm last s = out_of_fuel
map_loop (suc fuel) kern table start va pa perm last s =
    let va' = u64 (va + page_size) in
    let rest = map_loop fuel kern table start va' (u64 (pa + page_size)) perm last in
    (map_one kern table va pa perm >> λ s'.
    if va == last then ok tt s' else if ltb va' start then ok tt s' else rest s')
      s

-- `vm_mappages`, with a round for each page of the range.
abbrev pub vm_mappages : ℕ → ℕ → ℕ → ℕ → ℕ → ℕ → Cmd Pmem (Unit {0})
vm_mappages kern table va pa len perm s =
    let last_addr = u64 (va + len - 1) in
    if not (va % page_size == 0)
    then panic
    else if not (pa % page_size == 0)
    then panic
    else if len == 0
    then panic
    else if leb va_max last_addr
    then panic
    else map_loop (len / page_size + 1) kern table va va pa perm (last_addr - last_addr % page_size)
        s

-- What a round of `vm_unmappages` does with the entry at `a`.
abbrev pub clear_entry : ℕ → Bool → Cmd Pmem (Unit {0})
clear_entry a do_free s =
    let pa = pte_to_pa (s.mem a) in
    if not (is_valid (s.mem a))
    then ok tt s
    else if do_free && not (pa == 0)
    then (pmem_free pa false >> write_word a 0) s
    else write_word a 0 s

-- One round of the loop of `vm_unmappages`.
abbrev pub unmap_one : ℕ → ℕ → ℕ → Bool → Cmd Pmem (Unit {0})
unmap_one kern table va do_free s = elim (vm_getpte kern table va false s) [
  | ok (some a) s' ↦ clear_entry a do_free s'
  | ok none s' ↦ ok tt s'
  | panic ↦ panic
  | out_of_fuel ↦ out_of_fuel
  | blocked ↦ blocked
]

-- The loop of `vm_unmappages`.
pub unmap_loop : ℕ → ℕ → ℕ → ℕ → ℕ → Bool → Cmd Pmem (Unit {0})
unmap_loop zero kern table curr end do_free s = out_of_fuel
unmap_loop (suc fuel) kern table curr end do_free s =
    let rest = unmap_loop fuel kern table (u64 (curr + page_size)) end do_free in
    let round = (unmap_one kern table curr do_free >> rest) s in
    if ltb curr end then round else ok tt s

-- `vm_unmappages`, with a round for each page of the range and one for the last test.
abbrev pub vm_unmappages : ℕ → ℕ → ℕ → ℕ → Bool → Cmd Pmem (Unit {0})
vm_unmappages kern table va len do_free s =
    if not (va % page_size == 0)
    then panic
    else if len == 0
    then panic
    else unmap_loop (len / page_size + 2) kern table va (u64 (va + len)) do_free s
