-- ===== src/Fs/Index/Grow.antt =====
-- What a new block is, and a free slot of the index that gets one.
use biglab.Prelude.{
  ℕ, ◌+◌, ◌-◌, ◌/◌, ◌^◌, ◌<◌, ◌≡◌, refl, ◌≢◌, true, false, arith, ◌==◌, if◌then◌else◌, sym, ◌∙◌, ap,
  subst, inl, inr, Bool-cases, neb_of_ne, eqb_refl, eqb→eq, update, some,
}
use native.Mathlib.Decide.{ℕ_discrete}
use biglab.Fs.Disk.{Block, Disk, SuperBlock, bits_per_block}
use biglab.Fs.Bitmap.Search.{IsDisk}
use biglab.Fs.Bitmap.Numbers.{IsLayout, BlockAllocated}
use biglab.Fs.Index.{get32, set32, zero_block, Store}
use biglab.Fs.Index.Entry.{set32-IsBlock}
use biglab.Fs.Index.Nodes.{
  Node, Node-discrete, slot, child, grand, IsNode, entry, at, IsLeaf, IsLeaf-IsNode, byte_of,
  IsData, taken, InOrder, Grown,
}

module _ (sb : SuperBlock) (l : IsLayout sb) where
  open l use {data_bits, data_place, end_fits, data_fits}

  pub taken-update :
      (d : Disk) (x c : ℕ) (w : Block)
      → IsData sb x
      → IsData sb c
      → taken sb (update d x w) c ≡ taken sb d c
  taken-update d x c w hx hc =
      rw
        (neb_of_ne x (sb.data_bitmap_firstblock + (c - sb.data_firstblock) / bits_per_block)
          (omega arith))
        refl

  -- What the allocation of the block `b` did to the disk `d`.
  pub record Fresh (d d' : Disk) (b : ℕ) : Type 0 where
    pub isdata : IsData sb b
    pub positive : 0 < b
    pub small : b < 2 ^ 32
    pub was_free : taken sb d b ≡ false
    pub bits : (c : ℕ) → IsData sb c → taken sb d' c ≡ (if b == c then true else taken sb d c)
    pub same : (x : ℕ) → IsData sb x → d' x ≡ d x
    pub bytes : IsDisk d'

  pub Allocated-Fresh : (d d' : Disk) (b : ℕ) → BlockAllocated sb d (some b, d') → Fresh d d' b
  Allocated-Fresh d d' b (lo, hi, clear, full, set) = record {
    isdata = (lo, hi);
    positive = omega arith;
    small = omega arith;
    was_free = clear;
    bits = λ c h.
        let e : (b - sb.data_firstblock == c - sb.data_firstblock) ≡ (b == c) = ground arith in
        set.bits (c - sb.data_firstblock) ∙ rw e refl;
    same = λ x h. set.others x (omega arith);
    bytes = set.bytes;
  }

  pub zero-IsDisk : (d : Disk) (b : ℕ) → IsDisk d → IsDisk (zero_block b d)
  zero-IsDisk d b h x a = ground (arith, h x a)

  pub write-IsDisk : (d : Disk) (t off b : ℕ) → IsDisk d → IsDisk (update d t (set32 (d t) off b))
  write-IsDisk d t off b h x = elim (Bool-cases (t == x)) [
    | inl e ↦ rw e (set32-IsBlock (d t) off b (h t))
    | inr e ↦ rw e (h x)
  ]

  -- A table whose block is the same, or is none, has the same entries.
  pub entry-frame :
      (d d' : Disk) (t off : ℕ) → (t ≢ 0 → d' t ≡ d t) → entry d' t off ≡ entry d t off
  entry-frame d d' t off same = elim (ℕ_discrete t 0) [
    | yes e ↦ rw (e) refl
    | no ne ↦ ap (λ (w : Block). if t == 0 then 0 else get32 w off) (same ne)
  ]

  pub entry_new : (d : Disk) (b off : ℕ) → entry (zero_block b d) b off ≡ 0
  entry_new d b off = elim (Bool-cases (b == 0)) [
    | inl e ↦ rw e refl
    | inr e ↦ rw (e, eqb_refl b) refl
  ]

  -- A new block of zeros where there was none shows no new bytes.
  pub contents-kept :
      (p : Node) (b : ℕ) (s s' : Store)
      → at p s ≡ 0
      → at p s' ≡ b
      → ((a : ℕ) → s'.disk b a ≡ 0)
      → ((q : Node) → IsNode q → q ≢ p → at q s' ≡ at q s)
      → ((q : Node) → IsLeaf q → at q s ≢ 0 → s'.disk (at q s) ≡ s.disk (at q s))
      → (q : Node) → IsLeaf q
      → (a : ℕ) → byte_of q s' a ≡ byte_of q s a
  contents-kept p b s s' free here zero others same q n a = elim (Node-discrete q p) [
    | yes e ↦
        subst (λ x. byte_of x s' a ≡ byte_of x s a) (sym e)
          (rw (free, here)
            (elim (Bool-cases (b == 0)) [ inl f ↦ rw f refl | inr f ↦ rw f (zero a) ]))
    | no d ↦ rw (others q (IsLeaf-IsNode q n) d) (elim (Bool-cases (at q s == 0)) [
      | inl f ↦ rw f refl
      | inr f ↦ rw f (ap (λ (w : Block). w a) (same q n (ground (arith, f))))
    ])
  ]

  pub zeroed : (d : Disk) (b a : ℕ) → zero_block b d b a ≡ 0
  zeroed d b a = rw (eqb_refl b) refl

  module _ (s : Store) (v : InOrder sb s) (d' : Disk) (b : ℕ) (f : Fresh s.disk d' b) where
    -- A block of the tree is not the new one.
    pub old : (q : Node) → IsNode q → at q s ≢ 0 → at q s ≢ b
    old q n ne e = ground (arith, v.is_taken q n ne, f.was_free, ap (taken sb s.disk) e)

    -- Where only the new block is written, the blocks of the tree are the same.
    pub zero-same : (q : Node) → IsNode q → at q s ≢ 0 → zero_block b d' (at q s) ≡ s.disk (at q s)
    zero-same q n ne =
        rw (neb_of_ne b (at q s) (λ e. old q n ne (sym e))) (f.same (at q s) (v.data_block q n ne))

    abbrev grown_slot : ℕ → Store
    grown_slot i = record { index = update s.index i b; disk = zero_block b d' }

    slot_child :
        (i j off : ℕ)
        → s.index i ≡ 0
        → j < 13
        → at (child j off) (grown_slot i) ≡ at (child j off) s
    slot_child i j off z jn = elim (Bool-cases (i == j)) [
      | inl e ↦
          rw e (entry_new d' b off)
          ∙ sym (ap (λ t. entry s.disk t off) (ap s.index (sym (eqb→eq i j e)) ∙ z))
      | inr e ↦ rw e (entry-frame s.disk (zero_block b d') (s.index j) off (zero-same (slot j) jn))
    ]

    slot_grand :
        (i a off : ℕ)
        → s.index i ≡ 0
        → a < 1024
        → at (grand a off) (grown_slot i) ≡ at (grand a off) s
    slot_grand i a off z an = rw (slot_child i 12 a z (omega arith)) (
        entry-frame s.disk (zero_block b d') (at (child 12 a) s) off
          (zero-same (child 12 a) (omega arith)))

    pub slot-Grown : (i : ℕ) → i < 13 → s.index i ≡ 0 → Grown sb (slot i) b s (grown_slot i)
    slot-Grown i n z = record {
      free = z;
      here = rw (eqb_refl i) refl;
      others = others;
      fresh = f.isdata;
      was_free = f.was_free;
      bits = λ c h. taken-update d' b c _ f.isdata h ∙ f.bits c h;
      bytes' = zero-IsDisk d' b f.bytes;
      contents =
          contents-kept (slot i) b s (grown_slot i) z (rw (eqb_refl i) refl) (zeroed d' b) others
            (λ q h ne. zero-same q (IsLeaf-IsNode q h) ne);
    }
      where
        others : (q : Node) → IsNode q → q ≢ slot i → at q (grown_slot i) ≡ at q s
        others (slot j) n ne = rw (neb_of_ne i j (λ e. ne (ap slot (sym e)))) refl
        others (child j off) n ne = slot_child i j off z n.1
        others (grand a off) n ne = slot_grand i a off z n.0
