-- ===== src/Fs/Cache/Freed.antt =====
-- What freeing some nodes of a tree does to the data bitmap, step by step.
use biglab.Prelude.{
  ℕ, zero, suc, ◌+◌, ◌-◌, ◌≤◌, ◌<◌, ◌≡◌, refl, ◌≢◌, ◌⊎◌, Bool, false, arith, ◌==◌, if◌then◌else◌,
  sym, ◌∙◌, ap, subst, inl, inr, neb_of_ne, eqb_refl,
}
use native.Mathlib.Decide.{ℕ_discrete}
use biglab.Fs.Disk.{Block, Disk, SuperBlock}
use biglab.Fs.Bitmap.{bitmap_free_block}
use biglab.Fs.Bitmap.Search.{IsDisk}
use biglab.Fs.Bitmap.Numbers.{IsLayout, bitmap_free_block-BitSet}
use biglab.Fs.Index.{Store, get32}
use biglab.Fs.Index.Nodes.{Node, slot, child, grand, IsNode, at, IsData, taken, InOrder}
use biglab.Fs.Cache.{free_entries}

-- The node `q` is `p` or below it.
abbrev pub Under : Node → Node → Type 0
Under (slot i) (slot j) = i ≡ j
Under (slot i) (child j o) = i ≡ j
Under (slot i) (grand a o) = i ≡ 12
Under (child i off) (slot j) = ⊥
Under (child i off) (child j o) = (i ≡ j) × (off ≡ o)
Under (child i off) (grand a o) = (i ≡ 12) × (off ≡ a)
Under (grand b off) (slot j) = ⊥
Under (grand b off) (child j o) = ⊥
Under (grand b off) (grand a o) = (b ≡ a) × (off ≡ o)

module _ (sb : SuperBlock) (l : IsLayout sb) (s : Store) (v : InOrder sb s) where
  -- The disk has the same blocks of data as at first.
  abbrev pub Agrees : Disk → Type 0
  Agrees d = IsDisk d × ((x : ℕ) → IsData sb x → d x ≡ s.disk x)

  -- From `d` to `d'` the blocks of the nodes in `u` have become free, and no other block has.
  pub record Freed (u : Node → Type 0) (d d' : Disk) : Type 0 where
    pub agrees : Agrees d'
    pub kept :
        (c : ℕ)
        → IsData sb c
        → ((q : Node) → IsNode q → u q → at q s ≢ c)
        → taken sb d' c ≡ taken sb d c
    pub clear : (q : Node) → IsNode q → u q → at q s ≢ 0 → taken sb d' (at q s) ≡ false
    pub stays : (c : ℕ) → IsData sb c → taken sb d c ≡ false → taken sb d' c ≡ false

  pub Freed-none :
      (u : Node → Type 0) (d : Disk)
      → Agrees d
      → ((q : Node) → IsNode q → u q → at q s ≡ 0)
      → Freed u d d
  Freed-none u d g zeros = record {
    agrees = g;
    kept = λ c h none. refl;
    clear = λ q n h ne. absurd (ne (zeros q n h));
    stays = λ c h z. z;
  }

  pub Freed-then :
      (u w : Node → Type 0) (d d' d'' : Disk)
      → Freed u d d'
      → Freed w d' d''
      → Freed (λ q. u q ⊎ w q) d d''
  Freed-then u w d d' d'' f g = record {
    agrees = g.agrees;
    kept =
        λ c h none. g.kept c h (λ q n x. none q n (inr x)) ∙ f.kept c h (λ q n x. none q n (inl x));
    clear = λ q n x ne. elim x [
      | inl a ↦ g.stays (at q s) (v.data_block q n ne) (f.clear q n a ne)
      | inr b ↦ g.clear q n b ne
    ];
    stays = λ c h z. g.stays c h (f.stays c h z);
  }

  -- The same nodes, described otherwise.
  pub Freed-same :
      (u w : Node → Type 0) (d d' : Disk)
      → ((q : Node) → IsNode q → u q → w q)
      → ((q : Node) → IsNode q → w q → u q)
      → Freed u d d'
      → Freed w d d'
  Freed-same u w d d' to of f = record {
    agrees = f.agrees;
    kept = λ c h none. f.kept c h (λ q n x. none q n (to q n x));
    clear = λ q n x ne. f.clear q n (of q n x) ne;
    stays = f.stays;
  }

  -- One block is freed.
  pub free_block-Freed :
      (p : Node) (d : Disk)
      → IsNode p
      → at p s ≢ 0
      → Agrees d
      → Freed (λ q. q ≡ p) d (bitmap_free_block sb (at p s) d)
  free_block-Freed p d n ne (isd, same) =
      let (lo, hi) = v.data_block p n ne in
      let b = bitmap_free_block-BitSet sb l d isd (at p s) lo hi in
      let bit : (c : ℕ)
          → IsData sb c
          → taken sb (bitmap_free_block sb (at p s) d) c
            ≡ (if at p s == c then false else taken sb d c) =
        λ c h.
          let e : (at p s - sb.data_firstblock == c - sb.data_firstblock) ≡ (at p s == c) =
            ground (arith, lo, h) in
          b.bits (c - sb.data_firstblock) ∙ rw e refl in
      record {
        agrees = (
          b.bytes,
          λ x h. b.others x (omega (arith, h, lo, hi, l.data_bits, l.data_place)) ∙ same x h,
        );
        kept = λ c h none. bit c h ∙ rw (neb_of_ne (at p s) c (none p n refl)) refl;
        clear = λ q m e ne'.
            ap (λ x. taken sb (bitmap_free_block sb (at p s) d) (at x s)) e
            ∙ bit (at p s) (lo, hi)
            ∙ rw (eqb_refl (at p s)) refl;
        stays = λ c h z. bit c h ∙ ground (arith, z);
      }

  -- The entries of the table in the block of a node, given how one entry is freed.
  module _ (t : ℕ) (tdata : IsData sb t) (kid : ℕ → Node) (free : ℕ → Disk → Bool × Disk)
      (is_entry : (i : ℕ) → i < 1024 → at (kid i) s ≡ get32 (s.disk t) i)
      (one : (i : ℕ) (d : Disk)
        → i < 1024
        → Agrees d
        → Freed (Under (kid i)) d (free (at (kid i) s) d).1) where
    abbrev Among : ℕ → ℕ → Node → Type 0
    Among i n q = (j : ℕ) × (i ≤ j) × (j < i + n) × Under (kid j) q

    pub free_entries-Freed :
        (n i : ℕ) (d : Disk)
        → i + n ≤ 1024
        → Agrees d
        → Freed (Among i n) d (free_entries sb free n i t d)
    unfolding free_entries
    free_entries-Freed zero i d h g =
        Freed-none (Among i 0) d g (λ q n (j, lo, hi, x). absurd (omega (arith, lo, hi)))
    free_entries-Freed (suc n) i d h (isd, same) =
        let e : get32 (d t) i ≡ at (kid i) s =
          ap (λ (b : Block). get32 b i) (same t tdata) ∙ sym (is_entry i (omega arith)) in
        let first = one i d (omega arith) (isd, same) in
        rw e (
          Freed-same (λ q. Under (kid i) q ⊎ Among (suc i) n q) (Among i (suc n)) d _
            (λ q m x. elim x [
              | inl a ↦ (i, omega arith, omega arith, a)
              | inr (j, lo, hi, a) ↦ (j, omega (arith, lo), omega (arith, hi), a)
            ])
            (λ q m (j, lo, hi, a). elim (ℕ_discrete i j) [
              | yes z ↦ inl (subst (λ y. Under (kid y) q) (sym z) a)
              | no d' ↦ inr (j, omega (arith, lo, d'), omega (arith, hi), a)
            ])
            (Freed-then (Under (kid i)) (Among (suc i) n) d _ _ first
              (free_entries-Freed n (suc i) (free (at (kid i) s) d).1 (omega arith) first.agrees)))
