-- ===== src/Fs/Bitmap/Alloc.antt =====
-- Allocation takes the lowest free number of a bitmap, and freeing gives it back.
use biglab.Prelude.{
  ℕ, zero, suc, ◌+◌, ◌-◌, ◌*◌, ◌/◌, ◌%◌, ◌^◌, ◌≤◌, ◌<◌, ◌≡◌, refl, sym, subst, ◌⊎◌, inl, inr, Bool,
  true, false, ltb, arith, Option, none, some, update, if◌then◌else◌, Option-cases, u32,
}
use biglab.Fs.Disk.{Disk, bits_per_block}
use biglab.Fs.Bitmap.{bit_of, set_bit, search_loop, bitmap_search_and_set, alloc_loop}
use biglab.Fs.Bitmap.Search.{used, IsDisk, First, search_loop-First, BitSet, set_bit-BitSet}

-- The lowest clear bit from `lo` up to `hi` is taken; or all are set, and the disk stays as it is.
abbrev pub Allocated : Disk → ℕ → ℕ → ℕ → Option ℕ × Disk → Type 0
Allocated disk first lo hi (none, disk') =
    (disk' ≡ disk) × ((m : ℕ) → lo ≤ m → m < hi → used disk first m ≡ true)
Allocated disk first lo hi (some k, disk') =
    (lo ≤ k)
    × (k < hi)
    × (used disk first k ≡ false)
    × ((m : ℕ) → lo ≤ m → m < k → used disk first m ≡ true)
    × BitSet disk disk' first k true

module _ (disk : Disk) (v : IsDisk disk) (first : ℕ) where
  used_of_bit :
      (i j m : ℕ)
      → m ≡ i * bits_per_block + j
      → j < bits_per_block
      → (b : Bool) → bit_of (disk (first + i)) j ≡ b
      → used disk first m ≡ b
  used_of_bit i j m e lt b h =
      let q : m / bits_per_block ≡ i = omega arith in
      let r : m % bits_per_block ≡ j = omega arith in rw (q, r) h

  -- The change of the `idx`th bit of the `i`th block.
  BitSet-at :
      (i idx k : ℕ)
      → k ≡ i * bits_per_block + idx
      → idx < bits_per_block
      → BitSet disk (update disk (first + i) (set_bit (disk (first + i)) idx)) first k true
  BitSet-at i idx k e lt =
      let q : k / bits_per_block ≡ i = omega arith in
      let r : k % bits_per_block ≡ idx = omega arith in
      subst
        (λ a. BitSet disk (update disk (first + a) (set_bit (disk (first + a)) idx)) first k true) q
        (subst
          (λ b.
            BitSet disk
              (update disk (first + k / bits_per_block)
                (set_bit (disk (first + k / bits_per_block)) b))
              first k true)
          r (set_bit-BitSet disk v first k))

  -- The bits of one block, one of them found clear.
  Allocated-here :
      (i idx hi : ℕ)
      → i * bits_per_block + idx < hi
      → idx < bits_per_block
      → bit_of (disk (first + i)) idx ≡ false
      → ((j : ℕ) → 0 ≤ j → j < idx → bit_of (disk (first + i)) j ≡ true)
      → Allocated disk first (i * bits_per_block) hi (
        some (i * bits_per_block + idx),
        update disk (first + i) (set_bit (disk (first + i)) idx),
      )
  Allocated-here i idx hi lt small clear full = (
    omega arith,
    lt,
    used_of_bit i idx _ refl small false clear,
    before,
    BitSet-at i idx _ refl small,
  )
    where
      before :
          (m : ℕ) → i * bits_per_block ≤ m → m < i * bits_per_block + idx → used disk first m ≡ true
      before m lo h =
          let j = m - i * bits_per_block in
          used_of_bit i j m (omega arith) (omega arith) true (full j (omega arith) (omega arith))

  Allocated-next :
      (lo mid hi : ℕ) (r : Option ℕ × Disk)
      → lo ≤ mid
      → ((m : ℕ) → lo ≤ m → m < mid → used disk first m ≡ true)
      → Allocated disk first mid hi r
      → Allocated disk first lo hi r
  Allocated-next lo mid hi (none, d) le full (same, rest) =
      (same, λ m l h. ground (arith, full m, rest m))
  Allocated-next lo mid hi (some k, d) le full (l, h, c, rest, b) =
      (omega arith, h, c, λ m l h. ground (arith, full m, rest m), b)

  -- One round of the loop, by what the search of the block `b` found.
  abbrev round : (n i count b len : ℕ) → Option ℕ → Option ℕ × Disk
  round n i count b len none = alloc_loop first n (suc i) (count - len) disk
  round n i count b len (some idx) =
      (some (u32 (i * bits_per_block + idx)), update disk b (set_bit (disk b) idx))

  abbrev search_len : ℕ → ℕ
  search_len count = if ltb bits_per_block count then bits_per_block else count

  alloc_loop-round :
      (n i count : ℕ)
      → alloc_loop first (suc n) i count disk
        ≡ round n i count
            (u32 (first + i))
            (search_len count)
            (search_loop (disk (u32 (first + i))) (search_len count) 0)
  unfolding alloc_loop bitmap_search_and_set
  alloc_loop-round n i count =
      elim (Option-cases (search_loop (disk (u32 (first + i))) (search_len count) 0)) [
        | inl e ↦ simp (alloc_loop, bitmap_search_and_set, e) refl
        | inr (idx, e) ↦ simp (alloc_loop, bitmap_search_and_set, e) refl
      ]

  block_full :
      (i b len m : ℕ)
      → b ≡ first + i
      → len ≤ bits_per_block
      → First (disk b) 0 len none
      → i * bits_per_block ≤ m
      → m < i * bits_per_block + len
      → used disk first m ≡ true
  block_full i b len m q le f lo lt =
      let j = m - i * bits_per_block in
      used_of_bit i j m (omega arith) (omega arith) true
        (subst (λ a. bit_of (disk a) j ≡ true) q (f j (omega arith) (omega arith)))

  -- A search with no number left finds nothing.
  Allocated-empty :
      (lo mid hi : ℕ) (r : Option ℕ × Disk)
      → hi ≤ mid
      → ((m : ℕ) → lo ≤ m → m < hi → used disk first m ≡ true)
      → Allocated disk first mid mid r
      → Allocated disk first lo hi r
  Allocated-empty lo mid hi (none, d) le full (same, rest) = (same, full)
  Allocated-empty lo mid hi (some k, d) le full (l, h, c, rest, b) = absurd (omega arith)

  -- A round followed by the rest of the loop.
  round-Allocated :
      (n i count hi b len : ℕ) (o : Option ℕ)
      → ((count' hi' : ℕ)
          → hi' ≡ suc i * bits_per_block + count'
          → count' ≤ n * bits_per_block
          → Allocated disk first
              (suc i * bits_per_block)
              hi'
              (alloc_loop first n (suc i) count' disk))
      → hi ≡ i * bits_per_block + count
      → count ≤ suc n * bits_per_block
      → (i + suc n) * bits_per_block ≤ 2 ^ 32
      → b ≡ first + i
      → len ≤ bits_per_block
      → (len ≡ count) ⊎ ((len ≡ bits_per_block) × (bits_per_block < count))
      → First (disk b) 0 len o
      → Allocated disk first (i * bits_per_block) hi (round n i count b len o)
  round-Allocated n i count hi b len none rest e c small q le (inl all) f =
      Allocated-empty (i * bits_per_block) (suc i * bits_per_block) hi _ (omega arith)
        (λ m lo lt. block_full i b len m q le f lo (omega arith))
        (rest (count - len) (suc i * bits_per_block) (omega arith) (omega arith))
  round-Allocated n i count hi b len none rest e c small q le (inr (all, more)) f =
      Allocated-next (i * bits_per_block) (suc i * bits_per_block) hi _ (omega arith)
        (λ m lo lt. block_full i b len m q le f lo (omega arith))
        (rest (count - len) hi (omega arith) (omega arith))
  round-Allocated n i count hi b len (some idx) rest e c small q le which (lo, lt, clear, full) =
      let w : u32 (i * bits_per_block + idx) ≡ i * bits_per_block + idx = ground arith in
      rw (w, q)
        (Allocated-here i idx hi (ground arith) (omega arith)
          (subst (λ a. bit_of (disk a) idx ≡ false) q clear)
          (λ j l h. subst (λ a. bit_of (disk a) j ≡ true) q (full j l h)))

  pub alloc_loop-Allocated :
      (n i count hi : ℕ)
      → hi ≡ i * bits_per_block + count
      → count ≤ n * bits_per_block
      → first + (i + n) ≤ 2 ^ 32
      → (i + n) * bits_per_block ≤ 2 ^ 32
      → Allocated disk first (i * bits_per_block) hi (alloc_loop first n i count disk)
  alloc_loop-Allocated zero i count hi e le fits small =
      unfold alloc_loop in (refl, λ m l h. absurd (omega arith))
  alloc_loop-Allocated (suc n) i count hi e le fits small =
      subst (Allocated disk first (i * bits_per_block) hi) (sym (alloc_loop-round n i count)) (
        round-Allocated n i count hi (u32 (first + i)) (search_len count)
          (search_loop (disk (u32 (first + i))) (search_len count) 0)
          (λ c h p q. alloc_loop-Allocated n (suc i) c h p q (omega arith) (omega arith)) e le small
          (omega arith) (ground arith) (ground arith)
          (search_loop-First (disk (u32 (first + i))) (search_len count) 0 (search_len count)
            (omega arith)))
