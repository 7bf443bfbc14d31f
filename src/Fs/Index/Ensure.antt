-- ===== src/Fs/Index/Ensure.antt =====
-- One node of the tree, found or added: a slot of the index, or an entry of a table.
use biglab.Prelude.{
  ℕ, ◌<◌, ◌≡◌, refl, ◌≢◌, true, arith, ◌==◌, sym, ◌∙◌, ap, subst, inl, inr, Bool-cases, neb_of_ne,
  eqb→eq, update, List, [], ◌∷◌, some, Option, none,
}
use biglab.Fs.Disk.{Disk, SuperBlock}
use biglab.Fs.Bitmap.{bitmap_alloc_block}
use biglab.Fs.Bitmap.Search.{used}
use biglab.Fs.Bitmap.Numbers.{IsLayout, BlockAllocated, bitmap_alloc_block-Allocated}
use biglab.Fs.Index.{Store, set32, zero_block, get32, ensure_slot, ensure_entry}
use biglab.Fs.Index.Nodes.{
  Node, slot, child, grand, IsNode, entry, at, IsLeaf, byte_of, InOrder, Grown, Grown-InOrder,
}
use biglab.Fs.Index.Grow.{Fresh, Allocated-Fresh, slot-Grown}
use biglab.Fs.Index.Tables.{child-Grown, grand-Grown}

abbrev pub NotIn : Node → List Node → Type 0
NotIn q [] = Unit
NotIn q (p ∷ ps) = (q ≢ p) × NotIn q ps

-- From `s` to `s'` the tree has grown at some of the nodes `ps` only, and lost no
-- block and no byte of data.
pub record Extends (sb : SuperBlock) (ps : List Node) (s s' : Store) : Type 0 where
  pub in_order : InOrder sb s'
  pub others : (q : Node) → IsNode q → NotIn q ps → at q s' ≡ at q s
  pub kept : (q : Node) → IsNode q → at q s ≢ 0 → at q s' ≡ at q s
  pub contents : (q : Node) → IsLeaf q → (a : ℕ) → byte_of q s' a ≡ byte_of q s a

-- Every data block is in use.
abbrev pub IsFull : SuperBlock → Disk → Type 0
IsFull sb d = (m : ℕ) → m < sb.data_blocks → used d sb.data_bitmap_firstblock m ≡ true

-- The block at `p`, found or added; or there is none, and no block is left.
abbrev pub Ensured : SuperBlock → Node → Store → Option ℕ × Store → Type 0
Ensured sb p s (none, s') = Extends sb (p ∷ []) s s' × IsFull sb s'.disk × (at p s ≡ 0)
Ensured sb p s (some b, s') = Extends sb (p ∷ []) s s' × (at p s' ≡ b) × (b ≢ 0)

module _ (sb : SuperBlock) (l : IsLayout sb) where
  Extends-refl : (ps : List Node) (s : Store) → InOrder sb s → Extends sb ps s s
  Extends-refl ps s v = record {
    in_order = v;
    others = λ q n o. refl;
    kept = λ q n o. refl;
    contents = λ q n a. refl;
  }

  Grown-Extends :
      (p : Node) (b : ℕ) (s s' : Store)
      → InOrder sb s
      → Grown sb p b s s'
      → Extends sb (p ∷ []) s s'
  Grown-Extends p b s s' v g = record {
    in_order = Grown-InOrder sb p b s s' v g;
    others = λ q n o. g.others q n (o.0);
    kept = λ q n ne. g.others q n (λ e. ne (ap (λ t. at t s) e ∙ g.free));
    contents = g.contents;
  }

  Grown-Ensured :
      (p : Node) (b : ℕ) (s s' : Store)
      → InOrder sb s
      → 0 < b
      → Grown sb p b s s'
      → Ensured sb p s (some b, s')
  Grown-Ensured p b s s' v pos g = (Grown-Extends p b s s' v g, g.here, omega (arith, pos))

  module _ (s : Store) (v : InOrder sb s) where
    same_disk :
        (d : Disk) (p : Node)
        → at p s ≡ 0
        → IsFull sb s.disk
        → d ≡ s.disk
        → Ensured sb p s (none, record s { disk = d })
    same_disk d p z full e =
        subst (λ x. Ensured sb p s (none, record s { disk = x })) (sym e)
          (Extends-refl (p ∷ []) s v, full, z)

    abbrev slot_result : ℕ → Option ℕ × Disk → Option ℕ × Store
    slot_result i r = elim r.0 [
      | none ↦ (none, record s { disk = r.1 })
      | some b ↦ (some b, record { index = update s.index i b; disk = zero_block b r.1 })
    ]

    found_slot :
        (i : ℕ) (r : Option ℕ × Disk)
        → i < 13
        → s.index i ≡ 0
        → BlockAllocated sb s.disk r
        → Ensured sb (slot i) s (slot_result i r)
    found_slot i (none, d) n z (same, full) = same_disk d (slot i) z full same
    found_slot i (some b, d) n z a =
        let f = Allocated-Fresh sb l s.disk d b a in
        Grown-Ensured (slot i) b s _ v f.positive (slot-Grown sb l s v d b f i n z)

    pub ensure_slot-Ensured : (i : ℕ) → i < 13 → Ensured sb (slot i) s (ensure_slot sb i s)
    unfolding ensure_slot
    ensure_slot-Ensured i n = elim (Bool-cases (s.index i == 0)) [
      | inl e ↦ rw e (
          found_slot i (bitmap_alloc_block sb s.disk) n (eqb→eq (s.index i) 0 e)
            (bitmap_alloc_block-Allocated sb l s.disk v.bytes))
      | inr e ↦ rw e (Extends-refl _ s v, refl, ground (arith, e))
    ]

    abbrev entry_result : ℕ → ℕ → Option ℕ × Disk → Option ℕ × Store
    entry_result t off r = elim r.0 [
      | none ↦ (none, record s { disk = r.1 })
      | some b ↦ (some b, record s { disk = zero_block b (update r.1 t (set32 (r.1 t) off b)) })
    ]

    -- At a node `p` whose table is in the block `t`, given what it becomes by growing.
    entry-Ensured :
        (p : Node) (t off : ℕ)
        → t ≢ 0
        → at p s ≡ entry s.disk t off
        → ((d : Disk) (b : ℕ)
            → at p s ≡ 0
            → Fresh sb l s.disk d b
            → Grown sb p b s (record s { disk = zero_block b (update d t (set32 (d t) off b)) }))
        → Ensured sb p s (ensure_entry sb t off s)
    unfolding ensure_entry
    entry-Ensured p t off ne here grow =
        let same : at p s ≡ get32 (s.disk t) off = rw (neb_of_ne t 0 ne) at here in
        elim (Bool-cases (get32 (s.disk t) off == 0)) [
          | inl e ↦ rw e (
              new (same ∙ eqb→eq _ 0 e) (bitmap_alloc_block sb s.disk)
                (bitmap_alloc_block-Allocated sb l s.disk v.bytes))
          | inr e ↦ rw e (Extends-refl _ s v, same, ground (arith, e))
        ]
      where
        new :
            at p s ≡ 0
            → (r : Option ℕ × Disk) → BlockAllocated sb s.disk r
            → Ensured sb p s (entry_result t off r)
        new z (none, d) (same, full) = same_disk d p z full same
        new z (some b, d) a =
            let f = Allocated-Fresh sb l s.disk d b a in
            Grown-Ensured p b s _ v f.positive (grow d b z f)

    pub child-Ensured :
        (i off : ℕ)
        → IsNode (child i off)
        → s.index i ≢ 0
        → Ensured sb (child i off) s (ensure_entry sb (s.index i) off s)
    child-Ensured i off n ne =
        entry-Ensured (child i off) (s.index i) off ne refl
          (λ d b z f. child-Grown sb l s v d b f i off n ne z)

    pub grand-Ensured :
        (a off : ℕ)
        → IsNode (grand a off)
        → at (child 12 a) s ≢ 0
        → Ensured sb (grand a off) s (ensure_entry sb (at (child 12 a) s) off s)
    grand-Ensured a off n ne =
        entry-Ensured (grand a off) (at (child 12 a) s) off ne refl
          (λ d b z f. grand-Grown sb l s v d b f a off n ne z)
