-- ===== src/Fs/Index/Locate.antt =====
-- `locate_or_add_block`: the block of a logical block number, found or added.
use biglab.Prelude.{
  ℕ, ◌+◌, ◌-◌, ◌/◌, ◌%◌, ◌<◌, ◌≡◌, refl, ◌≢◌, true, false, arith, ltb, sym, ◌∙◌, subst, inl, inr,
  Bool-cases, List, [], ◌∷◌, some, Option, none,
}
use native.Mathlib.Decide.{ℕ_discrete}
use biglab.Fs.Disk.{SuperBlock}
use biglab.Fs.Bitmap.Numbers.{IsLayout}
use biglab.Fs.Index.{Store, ensure_slot, ensure_entry, with_block, locate_or_add_block}
use biglab.Fs.Index.Nodes.{Node, slot, child, grand, IsNode, IsLeaf, byte_of, at, InOrder}
use biglab.Fs.Index.Ensure.{
  NotIn, Extends, IsFull, Ensured, ensure_slot-Ensured, child-Ensured, grand-Ensured,
}
use biglab.Fs.Index.Leaves.{inode_block_index_3, leaf, path, leaf-IsNode, leaf-NotIn}

-- What `locate_or_add_block` has done for the logical block `n`.
abbrev pub Located : SuperBlock → ℕ → Store → Option ℕ × Store → Type 0
Located sb n s (none, s') =
    InOrder sb s'
    × ((q : Node) → IsNode q → at q s ≢ 0 → at q s' ≡ at q s)
    × ((q : Node) → IsLeaf q → (a : ℕ) → byte_of q s' a ≡ byte_of q s a)
    × IsFull sb s'.disk
    × (at (leaf n) s ≡ 0)
Located sb n s (some b, s') =
    InOrder sb s'
    × (at (leaf n) s' ≡ b)
    × (b ≢ 0)
    × ((m : ℕ) → m < inode_block_index_3 → m ≢ n → at (leaf m) s' ≡ at (leaf m) s)
    × ((q : Node) → IsNode q → at q s ≢ 0 → at q s' ≡ at q s)
    × ((q : Node) → IsLeaf q → (a : ℕ) → byte_of q s' a ≡ byte_of q s a)

module _ (sb : SuperBlock) (l : IsLayout sb) where
  Extends-trans :
      (ps qs rs : List Node) (s t u : Store)
      → ((q : Node) → NotIn q rs → NotIn q ps × NotIn q qs)
      → Extends sb ps s t
      → Extends sb qs t u
      → Extends sb rs s u
  Extends-trans ps qs rs s t u sub e f = record {
    in_order = f.in_order;
    others = λ q n o. f.others q n (sub q o).1 ∙ e.others q n (sub q o).0;
    kept = λ q n ne. f.kept q n (λ z. ne (sym (e.kept q n ne) ∙ z)) ∙ e.kept q n ne;
    contents = λ q n a. f.contents q n a ∙ e.contents q n a;
  }

  -- A node free afterwards was free before.
  was_free :
      (ps : List Node) (s t : Store)
      → Extends sb ps s t
      → (q : Node) → IsNode q
      → at q t ≡ 0
      → at q s ≡ 0
  was_free ps s t e q n z = elim (ℕ_discrete (at q s) 0) [
    | yes y ↦ y
    | no ne ↦ absurd (ne (sym (e.kept q n ne) ∙ z))
  ]

  -- The block at `p`, reached by growing at some of the nodes `ps`; or there is none, and no block is left.
  abbrev Reached : List Node → Node → Store → Option ℕ × Store → Type 0
  Reached ps p s (none, s') = Extends sb ps s s' × IsFull sb s'.disk × (at p s ≡ 0)
  Reached ps p s (some b, s') = Extends sb ps s s' × (at p s' ≡ b) × (b ≢ 0)

  reached :
      (p : Node) (s : Store) (r : Option ℕ × Store) → Ensured sb p s r → Reached (p ∷ []) p s r
  reached p s (none, s') e = e
  reached p s (some b, s') e = e

  Extends-weaken :
      (ps rs : List Node) (s t : Store)
      → ((q : Node) → NotIn q rs → NotIn q ps)
      → Extends sb ps s t
      → Extends sb rs s t
  Extends-weaken ps rs s t sub e = record {
    in_order = e.in_order;
    others = λ q n o. e.others q n (sub q o);
    kept = e.kept;
    contents = e.contents;
  }

  with_block-Reached :
      (ps qs rs : List Node) (p q : Node) (s : Store) (r : Option ℕ × Store)
      (k : ℕ → Store → Option ℕ × Store)
      → ((x : Node) → NotIn x rs → NotIn x ps × NotIn x qs)
      → IsNode q
      → (at p s ≡ 0 → at q s ≡ 0)
      → Reached ps p s r
      → ((b : ℕ) (t : Store) → InOrder sb t → at p t ≡ b → b ≢ 0 → Reached qs q t (k b t))
      → Reached rs q s (with_block sb r k)
  with_block-Reached ps qs rs p q s (none, t) k sub nq below (e, full, z) next =
      (Extends-weaken ps rs s t (λ x o. (sub x o).0) e, full, below z)
  with_block-Reached ps qs rs p q s (some b, t) k sub nq below (e, here, ne) next =
      after (k b t) (next b t e.in_order here ne)
    where
      after : (r : Option ℕ × Store) → Reached qs q t r → Reached rs q s r
      after (none, u) (f, full, z) =
          (Extends-trans ps qs rs s t u sub e f, full, was_free ps s t e q nq z)
      after (some c, u) (f, at_c, nc) = (Extends-trans ps qs rs s t u sub e f, at_c, nc)

  finish :
      (n : ℕ) (s : Store) (r : Option ℕ × Store)
      → n < inode_block_index_3
      → Reached (path n) (leaf n) s r
      → Located sb n s r
  finish n s (none, t) lt (e, full, z) = (e.in_order, e.kept, e.contents, full, z)
  finish n s (some b, t) lt (e, here, ne) = (
    e.in_order,
    here,
    ne,
    λ m lm d. e.others (leaf m) (leaf-IsNode m lm) (leaf-NotIn m n lm lt d),
    e.kept,
    e.contents,
  )

  child_step :
      (i off : ℕ)
      → IsNode (child i off)
      → (b : ℕ) (t : Store) → InOrder sb t
      → at (slot i) t ≡ b
      → b ≢ 0
      → Reached (child i off ∷ []) (child i off) t (ensure_entry sb b off t)
  child_step i off n b t w here ne =
      subst (λ x. Reached (child i off ∷ []) (child i off) t (ensure_entry sb x off t)) here
        (reached (child i off) t (ensure_entry sb (t.index i) off t)
          (child-Ensured sb l t w i off n (λ z. ne (sym here ∙ z))))

  grand_step :
      (a off : ℕ)
      → IsNode (grand a off)
      → (b : ℕ) (t : Store) → InOrder sb t
      → at (child 12 a) t ≡ b
      → b ≢ 0
      → Reached (grand a off ∷ []) (grand a off) t (ensure_entry sb b off t)
  grand_step a off n b t w here ne =
      subst (λ x. Reached (grand a off ∷ []) (grand a off) t (ensure_entry sb x off t)) here
        (reached (grand a off) t (ensure_entry sb (at (child 12 a) t) off t)
          (grand-Ensured sb l t w a off n (λ z. ne (sym here ∙ z))))

  -- The case of the table of tables.
  third :
      (a off : ℕ) (s : Store)
      → InOrder sb s
      → a < 1024
      → off < 1024
      → Reached (slot 12 ∷ child 12 a ∷ grand a off ∷ []) (grand a off) s (
          with_block sb
            (ensure_slot sb 12 s)
            (λ l2 t. with_block sb (ensure_entry sb l2 a t) (λ l1. ensure_entry sb l1 off)))
  third a off s v an on =
      with_block-Reached (slot 12 ∷ []) (child 12 a ∷ grand a off ∷ [])
        (slot 12 ∷ child 12 a ∷ grand a off ∷ []) (slot 12) (grand a off) s (ensure_slot sb 12 s)
        (λ l2 t. with_block sb (ensure_entry sb l2 a t) (λ l1. ensure_entry sb l1 off))
        (λ x o. ((o.0, tt), o.1)) (an, on) (λ z. rw z refl)
        (reached (slot 12) s (ensure_slot sb 12 s) (ensure_slot-Ensured sb l s v 12 (omega arith)))
        (λ b t w here ne.
          with_block-Reached (child 12 a ∷ []) (grand a off ∷ []) (child 12 a ∷ grand a off ∷ [])
            (child 12 a) (grand a off) t (ensure_entry sb b a t) (λ l1. ensure_entry sb l1 off)
            (λ x o. ((o.0, tt), o.1)) (an, on) (λ z. rw z refl)
            (child_step 12 a (omega (arith, an)) b t w here ne) (grand_step a off (an, on)))

  locate-Reached :
      (n : ℕ) (s : Store)
      → n < inode_block_index_3
      → InOrder sb s
      → Reached (path n) (leaf n) s (locate_or_add_block sb n s)
  unfolding locate_or_add_block
  locate-Reached n s lt v = elim (Bool-cases (ltb n 10)) [
    | inl e ↦
        rw e
          (reached (slot n) s (ensure_slot sb n s) (ensure_slot-Ensured sb l s v n (ground arith)))
    | inr e ↦ elim (Bool-cases (ltb n 2058)) [
      | inl f ↦
          let g : ltb (n - 10) 2048 ≡ true = ground arith in
          let i = 10 + (n - 10) / 1024 in
          let off = (n - 10) % 1024 in
          rw (e, f, g)
            (with_block-Reached (slot i ∷ []) (child i off ∷ []) (slot i ∷ child i off ∷ [])
              (slot i) (child i off) s (ensure_slot sb i s) (λ t. ensure_entry sb t off)
              (λ x o. ((o.0, tt), o.1)) (ground arith) (λ z. rw z refl)
              (reached (slot i) s (ensure_slot sb i s)
                (ensure_slot-Ensured sb l s v i (ground arith)))
              (child_step i off (ground arith)))
      | inr f ↦
          let g : ltb (n - 10) 2048 ≡ false = ground arith in
          let h : ltb (n - 10 - 2048) 1048576 ≡ true = ground arith in
          rw (e, f, g, h)
            (third ((n - 10 - 2048) / 1024) ((n - 10 - 2048) % 1024) s v (ground arith)
              (ground arith))
    ]
  ]

  -- On a layout whose bitmaps have a bit for each number, all within 32 bits, and an index whose
  -- tree is in order (its blocks are data blocks in use, and no two nodes share one), for a
  -- logical block below 10 + 2048 + 1024 * 1024: `locate_or_add_block` leaves the tree in order, every
  -- block of it in place, and every byte of data as it was; the block that it returns is the
  -- logical block's from then on, and no other logical block has gained or changed its block;
  -- it returns none only where the logical block has no block and every data block is in use.
  pub locate_or_add_block-Located :
      (n : ℕ) (s : Store)
      → n < inode_block_index_3
      → InOrder sb s
      → Located sb n s (locate_or_add_block sb n s)
  locate_or_add_block-Located n s lt v =
      finish n s (locate_or_add_block sb n s) lt (locate-Reached n s lt v)
