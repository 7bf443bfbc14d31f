-- ===== src/Fs/Cache/Remove.antt =====
-- `free_data_blocks`: which blocks become free.
use biglab.Prelude.{
  ℕ, zero, suc, ◌+◌, ◌≤◌, ◌<◌, ◌≡◌, refl, ◌≢◌, false, arith, ◌==◌, ap, ◌∙◌, inl, inr, Bool-cases,
  eqb→eq, update,
}
use native.Mathlib.Decide.{ℕ_discrete}
use biglab.Fs.Disk.{Disk, SuperBlock}
use biglab.Fs.Bitmap.Numbers.{IsLayout}
use biglab.Fs.Index.{Store}
use biglab.Fs.Index.Nodes.{Node, slot, child, grand, IsNode, at, IsData, taken, InOrder}
use biglab.Fs.Cache.{free_tree, slot_level, free_slots, free_data_blocks}
use biglab.Fs.Cache.Freed.{Under, Agrees}
use biglab.Fs.Cache.Levels.{free_tree_flag, slot-Cleared}

-- The slot that a node belongs to.
abbrev pub root_of : Node → ℕ
root_of (slot i) = i
root_of (child i off) = i
root_of (grand a off) = 12

module _ (sb : SuperBlock) (l : IsLayout sb) (s : Store) (v : InOrder sb s) where
  root-Under : (i : ℕ) (q : Node) → i ≡ root_of q → Under (slot i) q
  root-Under i (slot j) e = e
  root-Under i (child j o) e = e
  root-Under i (grand a o) e = e

  Under-root : (i : ℕ) (q : Node) → Under (slot i) q → i ≡ root_of q
  Under-root i (slot j) u = u
  Under-root i (child j o) u = u
  Under-root i (grand a o) u = u

  -- The slots from `i` up to `k` have blocks.
  abbrev pub Filled : ℕ → ℕ → Type 0
  Filled i k = (m : ℕ) → i ≤ m → m < k → s.index m ≢ 0

  -- What freeing `n` slots from the `i`th leaves: the blocks in and below each slot before the first empty one are free and these
  -- slots are 0; the bit of every other block is as it was, and so are the slots behind the first empty one and the bytes of
  -- all blocks of data.
  pub record SlotsFreed (i n : ℕ) (d : Disk) (r : (ℕ → ℕ) × Disk) : Type 0 where
    pub agrees : Agrees sb l s v r.1
    pub kept :
        (c : ℕ)
        → IsData sb c
        → ((q : Node)
            → IsNode q
            → i ≤ root_of q
            → root_of q < i + n
            → Filled i (root_of q)
            → at q s ≢ c)
        → taken sb r.1 c ≡ taken sb d c
    pub clear :
        (q : Node)
        → IsNode q
        → i ≤ root_of q
        → root_of q < i + n
        → Filled i (root_of q)
        → at q s ≢ 0
        → taken sb r.1 (at q s) ≡ false
    pub stays : (c : ℕ) → IsData sb c → taken sb d c ≡ false → taken sb r.1 c ≡ false
    pub emptied : (k : ℕ) → i ≤ k → k < i + n → Filled i k → r.0 k ≡ 0
    pub behind :
        (k m : ℕ) → i ≤ k → k < i + n → Filled i k → s.index k ≡ 0 → k < m → r.0 m ≡ s.index m

  free_slots_before :
      (n i : ℕ) (index : ℕ → ℕ) (d : Disk) (k : ℕ)
      → k < i
      → (free_slots sb n i index d).0 k ≡ index k
  unfolding free_slots
  free_slots_before zero i index d k lt = refl
  free_slots_before (suc n) i index d k lt =
      let ne : (i == k) ≡ false = ground (arith, lt) in
      let (flag, d') = free_tree sb (slot_level i) (index i) d in
      elim (Bool-cases (free_tree sb (slot_level i) (index i) d).0) [
        | inl e ↦ rw e (rw ne refl)
        | inr e ↦
            rw e
              (free_slots_before n (suc i) (update index i 0) d' k (omega (arith, lt)) ∙ rw ne refl)
      ]

  further : {i : ℕ} (k : ℕ) → (s.index i == 0) ≡ false → Filled (suc i) k → Filled i k
  further {i} k e g m lo hi z = elim (Bool-cases (i == m)) [
    | inl w ↦ ground (arith, e, z, ap s.index (eqb→eq i m w))
    | inr w ↦ g m (ground (arith, lo, w)) hi z
  ]

  free_slots-SlotsFreed :
      (n i : ℕ) (index : ℕ → ℕ) (d : Disk)
      → i + n ≤ 13
      → ((m : ℕ) → i ≤ m → index m ≡ s.index m)
      → Agrees sb l s v d
      → SlotsFreed i n d (free_slots sb n i index d)
  unfolding free_slots
  free_slots-SlotsFreed zero i index d h same g = record {
    agrees = g;
    kept = λ c x y. refl;
    clear = λ q m lo hi x y. absurd (omega (arith, lo, hi));
    stays = λ c x z. z;
    emptied = λ k lo hi x. absurd (omega (arith, lo, hi));
    behind = λ k m lo hi x z lt. absurd (omega (arith, lo, hi));
  }
  free_slots-SlotsFreed (suc n) i index d h same g =
      let f = slot-Cleared sb l s v i (omega arith) d g in
      let d' = (free_tree sb (slot_level i) (s.index i) d).1 in
      rw (same i (omega arith)) (elim (Bool-cases (s.index i == 0)) [
        | inl e ↦ rw (free_tree_flag sb l s v (slot_level i) (s.index i) d ∙ e) (record {
          agrees = f.agrees;
          kept = λ c x y. f.kept c x (λ q m u.
              let root = Under-root i q u in
              y q m (omega (arith, root)) (omega (arith, root))
                (λ k a b. absurd (omega (arith, root, a, b))));
          clear = λ q m lo hi x y. elim (ℕ_discrete i (root_of q)) [
            | yes z ↦ f.clear q m (root-Under i q z) y
            | no z ↦ absurd (x i (omega arith) (omega (arith, lo, z)) (eqb→eq (s.index i) 0 e))
          ];
          stays = f.stays;
          emptied = λ k lo hi x. elim (Bool-cases (i == k)) [
            | inl z ↦ rw z refl
            | inr z ↦ absurd (x i (omega arith) (ground (arith, lo, z)) (eqb→eq (s.index i) 0 e))
          ];
          behind = λ k m lo hi x z lt.
              let ne : (i == m) ≡ false = ground (arith, lo, lt) in
              rw ne (same m (omega (arith, lo, lt)));
        })
        | inr e ↦
            let r =
              free_slots-SlotsFreed n (suc i) (update index i 0) d' (omega arith)
                (λ m lo.
                  let ne : (i == m) ≡ false = ground (arith, lo) in
                  rw ne (same m (omega (arith, lo))))
                f.agrees in
            rw (free_tree_flag sb l s v (slot_level i) (s.index i) d ∙ e) (record {
              agrees = r.agrees;
              kept = λ c x y.
                  r.kept c x (λ q m lo hi g.
                    y q m (omega (arith, lo)) (omega (arith, hi)) (further (root_of q) e g))
                  ∙ f.kept c x (λ q m u.
                    let root = Under-root i q u in
                    y q m (omega (arith, root)) (omega (arith, root))
                      (λ k a b. absurd (omega (arith, root, a, b))));
              clear = λ q m lo hi x y. elim (ℕ_discrete i (root_of q)) [
                | yes z ↦ r.stays (at q s) (v.data_block q m y) (f.clear q m (root-Under i q z) y)
                | no z ↦
                    r.clear q m (omega (arith, lo, z)) (omega (arith, hi))
                      (λ k a b. x k (omega (arith, a)) b) y
              ];
              stays = λ c x z. r.stays c x (f.stays c x z);
              emptied = λ k lo hi x. elim (Bool-cases (i == k)) [
                | inl z ↦
                    free_slots_before n (suc i) (update index i 0) d' k (ground (arith, z))
                    ∙ rw z refl
                | inr z ↦
                    r.emptied k (ground (arith, lo, z)) (omega (arith, hi))
                      (λ m a b. x m (omega (arith, a)) b)
              ];
              behind = λ k m lo hi x z lt. elim (Bool-cases (i == k)) [
                | inl w ↦ ground (arith, e, z, ap s.index (eqb→eq i k w))
                | inr w ↦
                    r.behind k m (ground (arith, lo, w)) (omega (arith, hi))
                      (λ j a b. x j (omega (arith, a)) b) z lt
              ];
            })
      ])

  -- On a layout whose bitmaps have a bit for each number, all within 32 bits, and an index whose tree is in order:
  -- `free_data_blocks` frees every block in and below each slot of the index before the first slot without a block, and sets these
  -- slots to 0. Of every other block of data, those behind that slot included, the bit in the bitmap stays; the slots behind it
  -- stay; and no byte of the data blocks changes.
  pub free_data_blocks-SlotsFreed : SlotsFreed 0 13 s.disk (free_data_blocks sb s.index s.disk)
  free_data_blocks-SlotsFreed =
      free_slots-SlotsFreed 13 0 s.index s.disk (omega arith) (λ m lo. refl) (v.bytes, λ x h. refl)
