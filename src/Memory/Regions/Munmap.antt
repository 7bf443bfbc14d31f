-- ===== src/Memory/Regions/Munmap.antt =====
-- `uvm_munmap` as a whole.
use biglab.Prelude.{
  ℕ, zero, suc, ◌+◌, ◌-◌, ◌*◌, ◌/◌, ◌%◌, ◌^◌, ◌≤◌, ◌<◌, ◌≡◌, refl, ◌⊎◌, Bool, ◌&&◌, none, List,
  arith, leb, ltb, page_size, u64, u32, sub64, sub32, length, if◌then◌else◌, not,
}
use biglab.Prelude.Run.{ok, panic}
use biglab.Memory.Space.{Space, mmap_begin, mmap_end, unmap_page, unmap_loop, unmap_pages}
use biglab.Memory.Regions.{Region, uvm_munmap}
use biglab.Memory.Regions.Order.{last, Above, covers}

-- Whether `a` lies in the range from `lo` up to `hi`.
abbrev pub within : ℕ → ℕ → ℕ → Bool
within lo hi a = leb lo a && ltb a hi

-- `s'` is `s` with the pages from `lo` up to `hi` unmapped.
pub record Unmapped (lo hi : ℕ) (s s' : Space) : Type 0 where
  pub nodes : s'.nodes ≡ s.nodes
  pub pt : (a : ℕ) → a % page_size ≡ 0 → s'.pt a ≡ (if within lo hi a then none else s.pt a)

unmap_loop-Unmapped :
    (n va hi : ℕ) (s : Space)
    → va % page_size ≡ 0
    → hi ≡ va + n * page_size
    → Unmapped va hi s (unmap_loop n va s)
unfolding unmap_loop unmap_page
unmap_loop-Unmapped zero va hi s al e = record { nodes = refl; pt = λ a h. ground arith }
unmap_loop-Unmapped (suc n) va hi s al e =
    let next =
      unmap_loop-Unmapped n (va + page_size) hi (unmap_page va s) (omega arith) (omega arith) in
    record { nodes = ground (arith, next.nodes); pt = λ a h. ground (arith, next.pt a h) }

-- `vm_unmappages` on whole pages, its length computed by a subtraction.
pub unmap_pages-Unmapped :
    (lo hi : ℕ) (s : Space)
    → lo % page_size ≡ 0
    → hi % page_size ≡ 0
    → lo < hi
    → hi ≤ mmap_end
    → (s' : Space) × (unmap_pages lo (sub64 hi lo) s ≡ ok tt s') × Unmapped lo hi s s'
unfolding unmap_pages
unmap_pages-Unmapped lo hi s al ah lt le = (
  unmap_loop ((sub64 hi lo + (page_size - 1)) / page_size) lo s,
  ground arith,
  unmap_loop-Unmapped ((sub64 hi lo + (page_size - 1)) / page_size) lo hi s al (omega arith),
)

-- What is left of the regions `rs`, all from `lo` on, when the range from `start` up to `e` is unmapped.
pub record Removed (lo : ℕ) (rs : List Region) (start e : ℕ) (s : Space) (rs' : List Region)
    (s' : Space) : Type 0 where
  pub above : Above lo rs'
  pub covered : (a : ℕ) → covers rs' a ≡ (covers rs a && not (within start e a))
  pub nodes : s'.nodes + length rs' ≡ s.nodes + length rs
  pub pt :
      (a : ℕ)
      → a % page_size ≡ 0
      → s'.pt a ≡ (if covers rs a && within start e a then none else s.pt a)

-- What is kept of a region: its pages from `e` on, those below `start`, or those below it by the new count.
abbrev cut_head : Region → ℕ → Region
cut_head r e = record { begin = e; npages = sub32 r.npages (u32 ((e - r.begin) / page_size)) }

abbrev cut_tail : Region → ℕ → Region
cut_tail r start = record {
  begin = r.begin;
  npages = sub32 r.npages (u32 ((last r - start) / page_size));
}

abbrev cut_below : Region → ℕ → Region
cut_below r start = record { begin = r.begin; npages = u32 ((start - r.begin) / page_size) }

abbrev cut_above : Region → ℕ → Region
cut_above r e = record { begin = e; npages = u32 ((last r - e) / page_size) }

-- For fewer than 2^20 pages that end below 2^64 and that begin or end outside the mmap area,
-- `uvm_munmap` panics.
pub uvm_munmap-panic :
    (head : List Region) (start npages : ℕ) (s : Space)
    → start + npages * page_size < 2 ^ 64
    → npages < 2 ^ 20
    → (start < mmap_begin) ⊎ (mmap_end < start + npages * page_size)
    → uvm_munmap head start npages s ≡ panic
unfolding uvm_munmap
uvm_munmap-panic head start npages s room small out =
    let e : u64 (start + u32 (npages * page_size)) ≡ start + npages * page_size = omega arith in
    ground (arith, e)
