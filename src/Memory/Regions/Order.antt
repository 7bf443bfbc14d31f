-- ===== src/Memory/Regions/Order.antt =====
-- Lists of regions in order: whole pages, apart from one another, between MMAP_BEGIN and MMAP_END.
use biglab.Prelude.{
  ℕ, ◌+◌, ◌*◌, ◌%◌, ◌≤◌, ◌<◌, ◌≡◌, refl, ◌⊎◌, Bool, false, ◌&&◌, ◌||◌, List, [], ◌∷◌, arith, leb,
  ltb, page_size,
}
use biglab.Memory.Space.{mmap_begin, mmap_end}
use biglab.Memory.Regions.{Region, end_of, unwind}

-- The first address behind a region.
abbrev pub last : Region → ℕ
last r = r.begin + r.npages * page_size

abbrev pub IsWhole : Region → Type 0
IsWhole r = (r.begin % page_size ≡ 0) × (0 < r.npages)

-- The regions lie one after the other from `lo` on, and end by MMAP_END.
abbrev pub Above : ℕ → List Region → Type 0
Above lo [] = lo ≤ mmap_end
Above lo (r ∷ rs) = (lo ≤ r.begin) × IsWhole r × Above (last r) rs

-- The regions, last first, lie between MMAP_BEGIN and `hi`.
abbrev pub Below : List Region → ℕ → Type 0
Below [] hi = mmap_begin ≤ hi
Below (r ∷ rs) hi = (last r ≤ hi) × IsWhole r × Below rs r.begin

abbrev pub InOrder : List Region → Type 0
InOrder rs = Above mmap_begin rs

abbrev pub covers : List Region → ℕ → Bool
covers [] a = false
covers (r ∷ rs) a = (leb r.begin a && ltb a (last r)) || covers rs a

-- No region meets the `len` bytes from `a`.
abbrev pub IsFree : ℕ → ℕ → List Region → Type 0
IsFree a len [] = Unit
IsFree a len (r ∷ rs) = ((a + len ≤ r.begin) ⊎ (last r ≤ a)) × IsFree a len rs

pub le-mmap_end : (lo : ℕ) (rs : List Region) → Above lo rs → lo ≤ mmap_end
le-mmap_end lo [] h = h
le-mmap_end lo (r ∷ rs) h = omega (arith, le-mmap_end (last r) rs h.2)

pub mmap_begin-le : (rs : List Region) (hi : ℕ) → Below rs hi → mmap_begin ≤ hi
mmap_begin-le [] hi h = h
mmap_begin-le (r ∷ rs) hi h = omega (arith, mmap_begin-le rs r.begin h.2)

pub Above-mono : (lo lo' : ℕ) (rs : List Region) → lo' ≤ lo → Above lo rs → Above lo' rs
Above-mono lo lo' [] le h = omega arith
Above-mono lo lo' (r ∷ rs) le h = (omega arith, h.1, h.2)

pub Below-mono : (hi hi' : ℕ) (rs : List Region) → hi ≤ hi' → Below rs hi → Below rs hi'
Below-mono hi hi' [] le h = omega arith
Below-mono hi hi' (r ∷ rs) le h = (omega arith, h.1, h.2)

-- The end of a region is computed with no wrap-around.
pub end_of-last : (r : Region) → mmap_begin ≤ r.begin → last r ≤ mmap_end → end_of r ≡ last r
end_of-last r lo hi = omega arith

pub unwind-InOrder :
    (before after : List Region) (m : ℕ)
    → Below before m
    → Above m after
    → InOrder (unwind before after)
unfolding unwind
unwind-InOrder [] after m b a = Above-mono m mmap_begin after b a
unwind-InOrder (r ∷ before) after m b a =
    unwind-InOrder before (r ∷ after) r.begin b.2
      (omega arith, b.1, Above-mono m (last r) after b.0 a)

pub covers-unwind :
    (before after : List Region) (a : ℕ)
    → covers (unwind before after) a ≡ (covers before a || covers after a)
unfolding unwind
covers-unwind [] after a = refl
covers-unwind (r ∷ before) after a = ground (arith, covers-unwind before (r ∷ after) a)
