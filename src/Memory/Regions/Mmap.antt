-- ===== src/Memory/Regions/Mmap.antt =====
-- `uvm_mmap` as a whole.
use biglab.Prelude.{
  ℕ, ◌+◌, ◌*◌, ◌%◌, ◌^◌, ◌≤◌, ◌<◌, ◌≡◌, ◌≢◌, sym, ap, subst, ◌⊎◌, inl, inr, true, false, ◌&&◌, ◌||◌,
  some, List, [], arith, leb, ltb, page_size, u64, u32, Bool-cases, length, get_elem?, drop, ◌==◌,
  ◌∙◌,
}
use biglab.Memory.Space.{Space, mmap_begin}
use biglab.Memory.Regions.{Region, Slot, place, unwind, find_free_region, seek}
use biglab.Memory.Regions.Order.{InOrder, covers, IsFree, mmap_begin-le}
use biglab.Memory.Regions.Find.{IsGap, Search, find_free_region-Search}
use biglab.Memory.Regions.Insert.{Sought, seek-Sought}

-- A place that `uvm_mmap` accepts is a gap of the list; it is the wanted address if one is given.
pub place-IsGap :
    (head : List Region) (start npages : ℕ) (p : Slot)
    → InOrder head
    → start % page_size ≡ 0
    → 0 < npages
    → npages < 2 ^ 20
    → start + npages * page_size < 2 ^ 64
    → place head start npages ≡ some p
    → IsGap head (npages * page_size) p × (start ≢ 0 → p.addr ≡ start)
unfolding place unwind
place-IsGap head start npages p h al pos small room e = elim (Bool-cases (start == 0)) [
  | inl z ↦ chosen (find_free_region-Search head npages h small) z
  | inr z ↦
      sought
        (seek-Sought [] head start (npages * page_size) al (omega arith) (ground arith)
          (ground arith) mmap_begin (ground arith) (omega arith) h)
        z
]
  where
    ends : u64 (start + u32 (npages * page_size)) ≡ start + npages * page_size
    ends = omega arith

    chosen :
        Search head head mmap_begin (npages * page_size) (find_free_region head npages)
        → (start == 0) ≡ true
        → IsGap head (npages * page_size) p × (start ≢ 0 → p.addr ≡ start)
    chosen (inl (gap, _)) z =
        let q : find_free_region head npages ≡ p = ground (arith, mmap_begin-le _ _ gap.below) in
        (subst (IsGap head (npages * page_size)) q gap, λ ne. absurd (ne (ground arith)))
    chosen (inr (failed, _)) z = absurd (ground (arith, failed))

    sought :
        Sought
          (unwind [] head)
          head
          start
          (npages * page_size)
          (seek [] head start (start + npages * page_size))
        → (start == 0) ≡ false
        → IsGap head (npages * page_size) p × (start ≢ 0 → p.addr ≡ start)
    sought (inl (q, found, at, gap)) z =
        let same : q ≡ p = ground (arith, ends) in
        (
          subst (IsGap head (npages * page_size)) same gap,
          λ ne. ap (λ (t : Slot). t.addr) (sym same) ∙ at,
        )
    sought (inr (none_found, _)) z = absurd (ground (arith, ends))

-- The outcome of `uvm_mmap` at the address `addr`.
pub record Mmapped (head : List Region) (addr npages perm : ℕ) (s : Space) (regions : List Region)
    (s' : Space) : Type 0 where
  pub in_order : InOrder regions
  pub covered :
      (a : ℕ)
      → covers regions a ≡ ((leb addr a && ltb a (addr + npages * page_size)) || covers head a)
  pub was_free : IsFree addr (npages * page_size) head
  pub mapped :
      (i : ℕ)
      → i < npages
      → (pa : ℕ) × (get_elem? s.frames i ≡ some pa)
        × (s'.pt (addr + i * page_size) ≡ some (record { pa = pa; perm = perm }))
  pub others : (a : ℕ) → (a < addr) ⊎ (addr + npages * page_size ≤ a) → s'.pt a ≡ s.pt a
  pub frames : s'.frames ≡ drop npages s.frames
  pub tables : s.tables ≤ s'.tables + 2 * npages
  pub nodes : s'.nodes + length regions ≡ s.nodes + length head
  pub one_node : s.nodes ≤ s'.nodes + 1
