-- ===== src/Memory/Regions/Tests.antt =====
-- The theorems on the mmap regions at a process with two regions.
use biglab.Prelude.{ℕ, ◌+◌, ◌*◌, ◌≡◌, refl, none, false, List, [], ◌∷◌, arith, page_size}
use biglab.Memory.Space.{Space, mmap_begin}
use biglab.Memory.Regions.{Region, Slot, place, find_free_region, insert_region, find_loop}
use biglab.Memory.Regions.Order.{InOrder}
use biglab.Memory.Regions.Find.{IsGap}
use biglab.Memory.Regions.Mmap.{place-IsGap}

abbrev region : ℕ → ℕ → Region
region first npages = record { begin = mmap_begin + first * page_size; npages = npages }

-- The pages 0 to 2 and 5 to 6 of the mmap area.
abbrev two_regions : List Region
two_regions = region 0 3 ∷ region 5 2 ∷ []

two_regions-InOrder : InOrder two_regions
two_regions-InOrder = omega arith

abbrev space : Space
space = record {
  pt = λ a. none;
  mids = λ k. false;
  lows = λ k. false;
  tables = 4;
  frames = 4096 ∷ 8192 ∷ 12288 ∷ [];
  nodes = 4;
}

-- The gap of two pages between the regions.
abbrev between : Slot
between = record {
  addr = mmap_begin + 3 * page_size;
  before = region 0 3 ∷ [];
  after = region 5 2 ∷ [];
}

between-IsGap : IsGap two_regions (2 * page_size) between
unfolding place find_free_region find_loop
between-IsGap =
    (place-IsGap two_regions 0 2 between two_regions-InOrder refl (omega arith) (omega arith)
      (omega arith) refl).0

-- The new region joins both neighbours.
insert_region_joins : insert_region between 2 ≡ (region 0 7 ∷ [], 2)
unfolding insert_region
insert_region_joins = refl
