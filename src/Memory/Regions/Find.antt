-- ===== src/Memory/Regions/Find.antt =====
-- `find_free_region` is first fit: it finds the lowest free range, and fails only if there is none.
use biglab.Prelude.{
  ℕ, ◌+◌, ◌*◌, ◌%◌, ◌^◌, ◌≤◌, ◌<◌, ◌≡◌, refl, sym, subst, ◌⊎◌, inl, inr, List, [], ◌∷◌, arith, leb,
  page_size, u64, u32, Bool-cases,
}
use biglab.Memory.Space.{mmap_begin, mmap_end}
use biglab.Memory.Regions.{Region, end_of, Slot, unwind, find_loop, find_free_region}
use biglab.Memory.Regions.Order.{
  last, Above, Below, InOrder, IsFree, le-mmap_end, mmap_begin-le, Below-mono, end_of-last,
}

-- The slot `p` is a gap of `len` bytes in the list `rs`.
pub record IsGap (rs : List Region) (len : ℕ) (p : Slot) : Type 0 where
  pub aligned : p.addr % page_size ≡ 0
  pub below : Below p.before p.addr
  pub above : Above (p.addr + len) p.after
  pub splits : unwind p.before p.after ≡ rs

-- `p` is the lowest gap from `cand` on, or there is none and its address is 0.
abbrev pub Search : List Region → List Region → ℕ → ℕ → Slot → Type 0
Search rs rest cand len p =
    (IsGap rs len p × ((a : ℕ) → cand ≤ a → a + len ≤ mmap_end → IsFree a len rest → p.addr ≤ a))
    ⊎ ((p.addr ≡ 0) × ((a : ℕ) → cand ≤ a → a + len ≤ mmap_end → ¬ IsFree a len rest))

-- Nothing free was passed over when the candidate moved behind a region.
Search-skip :
    (rs rest : List Region) (r : Region) (cand cand' len : ℕ) (p : Slot)
    → cand' ≡ last r
    → r.begin < cand + len
    → Search rs rest cand' len p
    → Search rs (r ∷ rest) cand len p
Search-skip rs rest r cand cand' len p e no_room (inl (gap, least)) =
    inl (gap, λ a lo hi free. least a (past a lo free.0) hi free.1)
  where
    past : (a : ℕ) → cand ≤ a → (a + len ≤ r.begin) ⊎ (last r ≤ a) → cand' ≤ a
    past a lo h = omega arith
Search-skip rs rest r cand cand' len p e no_room (inr (failed, full)) =
    inr (failed, λ a lo hi free. full a (past a lo free.0) hi free.1)
  where
    past : (a : ℕ) → cand ≤ a → (a + len ≤ r.begin) ⊎ (last r ≤ a) → cand' ≤ a
    past a lo h = omega arith

find_loop-Search :
    (before rest : List Region) (cand len : ℕ)
    → cand % page_size ≡ 0
    → len < 2 ^ 32
    → Below before cand
    → Above cand rest
    → Search (unwind before rest) rest cand len (find_loop before rest cand len)
unfolding find_loop unwind
find_loop-Search before [] cand len al small b h =
    elim (Bool-cases (leb (u64 (cand + len)) mmap_end)) [
      | inl e ↦ rw e (
          inl (
            record { aligned = al; below = b; above = ground arith; splits = refl },
            λ a lo hi f. lo,
          ))
      | inr e ↦ rw e (inr (refl, λ a lo hi f. ground arith))
    ]
find_loop-Search before (r ∷ rest) cand len al small b h =
    elim (Bool-cases (leb (u64 (cand + len)) r.begin)) [
      | inl e ↦ rw e (
          inl (
            record {
              aligned = al;
              below = b;
              above = (ground (arith, le-mmap_end (last r) rest h.2), h.1, h.2);
              splits = refl;
            },
            λ a lo hi f. lo,
          ))
      | inr e ↦ rw e (
          Search-skip _ rest r cand (end_of r) len _ ends
            (ground (arith, le-mmap_end (last r) rest h.2))
            (subst
              (λ c.
                Search (unwind before (r ∷ rest)) rest c len (find_loop (r ∷ before) rest c len))
              (sym ends)
              (find_loop-Search (r ∷ before) rest (last r) len (omega arith) small
                (omega arith, h.1, Below-mono cand r.begin before h.0 b) h.2)))
    ]
  where
    ends : end_of r ≡ last r
    ends =
        end_of-last r (omega (arith, mmap_begin-le before cand b)) (le-mmap_end (last r) rest h.2)

-- In a list in order and for fewer than 2^20 pages, `find_free_region` returns the lowest gap of that
-- many pages that lies between MMAP_BEGIN and MMAP_END, and the address 0 exactly when there is no such gap.
pub find_free_region-Search :
    (head : List Region) (npages : ℕ)
    → InOrder head
    → npages < 2 ^ 20
    → Search head head mmap_begin (npages * page_size) (find_free_region head npages)
unfolding find_free_region unwind
find_free_region-Search head npages h small =
    let e : u32 (npages * page_size) ≡ npages * page_size = omega arith in
    rw e (
      find_loop-Search [] head mmap_begin (npages * page_size) (omega arith) (omega arith)
        (omega arith) h)
