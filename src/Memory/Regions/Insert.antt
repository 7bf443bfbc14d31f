-- ===== src/Memory/Regions/Insert.antt =====
-- Placing a new region and merging it with its neighbours.
use biglab.Prelude.{
  ℕ, suc, ◌+◌, ◌*◌, ◌%◌, ◌≤◌, ◌<◌, ◌≡◌, refl, ap, ◌⊎◌, inl, inr, true, ◌&&◌, ◌||◌, Option, none,
  some, List, [], ◌∷◌, arith, leb, ltb, page_size, u32, Bool-cases, length, ◌==◌,
}
use biglab.Memory.Space.{mmap_begin, mmap_end}
use biglab.Memory.Regions.{
  Region, end_of, Slot, unwind, seek, merge_next, merge_prev, insert_region,
}
use biglab.Memory.Regions.Order.{
  last, IsWhole, Above, Below, InOrder, covers, IsFree, le-mmap_end, mmap_begin-le, Below-mono,
  Above-mono, end_of-last, unwind-InOrder, covers-unwind,
}
use biglab.Memory.Regions.Find.{IsGap}

-- `o` is the gap at `start`, or the range is not free and `o` is `none`.
abbrev pub Sought : List Region → List Region → ℕ → ℕ → Option Slot → Type 0
Sought rs rest start len o =
    ((p : Slot) × (o ≡ some p) × (p.addr ≡ start) × IsGap rs len p)
    ⊎ ((o ≡ none) × ¬ IsFree start len rest)

Sought-skip :
    (rs rest : List Region) (r : Region) (start len : ℕ) (o : Option Slot)
    → Sought rs rest start len o
    → Sought rs (r ∷ rest) start len o
Sought-skip rs rest r start len o (inl h) = inl h
Sought-skip rs rest r start len o (inr (e, h)) = inr (e, λ free. h free.1)

pub seek-Sought :
    (before rest : List Region) (start len : ℕ)
    → start % page_size ≡ 0
    → 0 < len
    → start + len ≤ mmap_end
    → mmap_begin ≤ start
    → (lo : ℕ) → lo ≤ start
    → Below before lo
    → Above lo rest
    → Sought (unwind before rest) rest start len (seek before rest start (start + len))
unfolding seek unwind
seek-Sought before [] start len al pos hi begin lo le b h = inl (
  _,
  refl,
  refl,
  record { aligned = al; below = Below-mono lo start before le b; above = hi; splits = refl },
)
seek-Sought before (r ∷ rest) start len al pos hi begin lo le b h =
    elim (Bool-cases (ltb r.begin start)) [
      | inl e ↦ elim (Bool-cases (ltb start (end_of r))) [
        | inl g ↦ rw (e, g) (inr (refl, λ free. ground (arith, ends, free.0)))
        | inr g ↦
            rw (e, g)
              (Sought-skip _ rest r start len _ (
                seek-Sought (r ∷ before) rest start len al pos hi begin (last r)
                  (ground (arith, ends)) (omega arith, h.1, Below-mono lo r.begin before h.0 b)
                  h.2))
      ]
      | inr e ↦ elim (Bool-cases (ltb r.begin (start + len))) [
        | inl g ↦ rw (e, g) (inr (refl, λ free. ground (arith, free.0)))
        | inr g ↦
            rw (e, g)
              (inl (
                _,
                refl,
                refl,
                record {
                  aligned = al;
                  below = Below-mono lo start before le b;
                  above = (ground arith, h.1, h.2);
                  splits = refl;
                },
              ))
      ]
    ]
  where
    ends : end_of r ≡ last r
    ends = end_of-last r (omega (arith, mmap_begin-le before lo b)) (le-mmap_end (last r) rest h.2)

-- The list `new ∷ after` before and after merging, and the nodes that it takes.
record Merged (new : Region) (after : List Region) (m : Region × List Region × ℕ) : Type 0 where
  begin : m.0.begin ≡ new.begin
  whole : IsWhole m.0
  above : Above (last m.0) m.1
  same : (a : ℕ) → covers (m.0 ∷ m.1) a ≡ covers (new ∷ after) a
  count : length m.1 + m.2 ≡ length after

-- Two regions that touch: the sum of their pages does not wrap.
touching :
    (r t : Region)
    → mmap_begin ≤ r.begin
    → last r ≤ t.begin
    → last t ≤ mmap_end
    → (end_of r == t.begin) ≡ true
    → (last r ≡ t.begin) × (u32 (r.npages + t.npages) ≡ r.npages + t.npages)
touching r t lo le hi e = ground arith

merge_next-Merged :
    (new : Region) (after : List Region)
    → mmap_begin ≤ new.begin
    → IsWhole new
    → Above (last new) after
    → Merged new after (merge_next new after)
unfolding merge_next
merge_next-Merged new [] lo w h = record {
  begin = refl;
  whole = w;
  above = h;
  same = λ a. refl;
  count = refl;
}
merge_next-Merged new (r ∷ after) lo w h = elim (Bool-cases (end_of new == r.begin)) [
  | inl e ↦
      let (ends, sum) = touching new r lo h.0 (le-mmap_end (last r) after h.2) e in
      rw (e, sum)
        (record {
          begin = refl;
          whole = omega arith;
          above = Above-mono (last r) _ after (omega arith) h.2;
          same = λ a. ground arith;
          count = omega arith;
        })
  | inr e ↦
      rw e (record { begin = refl; whole = w; above = h; same = λ a. refl; count = omega arith })
]

-- The regions `new ∷ before`, last first, before and after merging.
record Joined (before : List Region) (new : Region) (m : List Region × ℕ) : Type 0 where
  below : Below m.0 (last new)
  same : (a : ℕ) → covers m.0 a ≡ covers (new ∷ before) a
  count : length m.0 + m.1 ≡ suc (length before)

merge_prev-Joined :
    (before : List Region) (new : Region)
    → IsWhole new
    → Below before new.begin
    → last new ≤ mmap_end
    → Joined before new (merge_prev before new)
unfolding merge_prev
merge_prev-Joined [] new w b hi = record {
  below = (omega arith, w, b);
  same = λ a. refl;
  count = refl;
}
merge_prev-Joined (r ∷ before) new w b hi = elim (Bool-cases (end_of r == new.begin)) [
  | inl e ↦
      let (ends, sum) = touching r new (mmap_begin-le before r.begin b.2) b.0 hi e in
      rw (e, sum)
        (record {
          below = (omega arith, omega arith, b.2);
          same = λ a. ground arith;
          count = omega arith;
        })
  | inr e ↦ rw e (record { below = (omega arith, w, b); same = λ a. refl; count = omega arith })
]

-- What is known of a list with a new region of `npages` pages in it.
pub record Inserted (head : List Region) (addr npages : ℕ) (m : List Region × ℕ) : Type 0 where
  pub in_order : InOrder m.0
  pub same :
      (a : ℕ) → covers m.0 a ≡ ((leb addr a && ltb a (addr + npages * page_size)) || covers head a)
  pub count : length m.0 + m.1 ≡ suc (length head)

length-unwind :
    (before after : List Region) → length (unwind before after) ≡ length before + length after
unfolding unwind
length-unwind [] after = omega arith
length-unwind (r ∷ before) after = omega (arith, length-unwind before (r ∷ after))

-- A region of at least one page put into a gap of its size leaves the list in order; the list then covers the old addresses and those
-- of the region; each merge frees one node.
pub insert_region-Inserted :
    (head : List Region) (p : Slot) (npages : ℕ)
    → 0 < npages
    → IsGap head (npages * page_size) p
    → Inserted head p.addr npages (insert_region p npages)
unfolding insert_region
insert_region-Inserted head p npages pos gap = record {
  in_order = unwind-InOrder _ _ (last new') j.below m.above;
  same = λ a. ground (
    arith,
    covers-unwind j0 m1 a,
    covers-unwind p.before p.after a,
    gap.splits,
    m.same a,
    j.same a,
  );
  count = omega (
    arith,
    length-unwind j0 m1,
    length-unwind p.before p.after,
    ap length gap.splits,
    m.count,
    j.count,
  );
}
  where
    new : Region
    new = record { begin = p.addr; npages = npages }

    m : Merged new p.after (merge_next new p.after)
    m =
        merge_next-Merged new p.after (mmap_begin-le p.before p.addr gap.below) (gap.aligned, pos)
          gap.above

    new' : Region
    new' = (merge_next new p.after).0

    m1 : List Region
    m1 = (merge_next new p.after).1

    j : Joined p.before new' (merge_prev p.before new')
    j =
        merge_prev-Joined p.before new' m.whole (rw m.begin gap.below)
          (le-mmap_end (last new') m1 m.above)

    j0 : List Region
    j0 = (merge_prev p.before new').0
