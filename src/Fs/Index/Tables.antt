-- ===== src/Fs/Index/Tables.antt =====
-- A free entry of a table gets a new block.
use biglab.Prelude.{
  ℕ, ◌<◌, ◌≡◌, refl, ◌≢◌, true, arith, ◌==◌, if◌then◌else◌, sym, ◌∙◌, ap, subst, neb_of_ne,
  eqb_refl, update,
}
use native.Mathlib.Decide.{ℕ_discrete}
use biglab.Fs.Disk.{Block, Disk, SuperBlock}
use biglab.Fs.Bitmap.Search.{IsDisk}
use biglab.Fs.Bitmap.Numbers.{IsLayout}
use biglab.Fs.Index.{set32, zero_block, Store}
use biglab.Fs.Index.Entry.{get32-set32, get32-set32_ne}
use biglab.Fs.Index.Nodes.{
  Node, Node-discrete, slot, child, grand, IsNode, entry, at, IsLeaf, IsLeaf-IsNode, byte_of,
  IsData, taken, InOrder, Grown,
}
use biglab.Fs.Index.Grow.{
  Fresh, taken-update, entry-frame, contents-kept, zeroed, zero-IsDisk, write-IsDisk, entry_new,
  old,
}

module _ (sb : SuperBlock) (l : IsLayout sb) (s : Store) (v : InOrder sb s) (d' : Disk) (b : ℕ)
    (f : Fresh sb l s.disk d' b) where
  -- The entry `off` of the table in the block `t` gets the new block.
  abbrev grown_entry : ℕ → ℕ → Store
  grown_entry t off = record s { disk = zero_block b (update d' t (set32 (d' t) off b)) }

  entry-same :
      (t off : ℕ) (q : Node)
      → IsNode q
      → at q s ≢ t
      → at q s ≢ 0
      → (grown_entry t off).disk (at q s) ≡ s.disk (at q s)
  entry-same t off q n nt ne =
      rw
        (
          neb_of_ne b (at q s) (λ e. old sb l s v d' b f q n ne (sym e)),
          neb_of_ne t (at q s) (λ e. nt (sym e)),
        )
        (f.same (at q s) (v.data_block q n ne))

  -- The table at the node `r`.
  module _ (r : Node) (nr : IsNode r) (some_table : at r s ≢ 0) (off : ℕ) where
    abbrev t : ℕ
    t = at r s

    abbrev s' : Store
    s' = grown_entry t off

    table : s'.disk t ≡ set32 (s.disk t) off b
    table =
        rw (neb_of_ne b t (λ e. old sb l s v d' b f r nr some_table (sym e)), eqb_refl t)
          (ap (λ (w : Block). set32 w off b) (f.same t (v.data_block r nr some_table)))

    entry_here : entry s'.disk t off ≡ b
    entry_here = rw (neb_of_ne t 0 some_table, table) (get32-set32 (s.disk t) off b f.small)

    entry_ne : (o : ℕ) → off ≢ o → entry s'.disk t o ≡ entry s.disk t o
    entry_ne o ne = rw (neb_of_ne t 0 some_table, table) (get32-set32_ne (s.disk t) off o b ne)

    -- An entry of the table at another node.
    entry_other :
        (q : Node) → IsNode q → q ≢ r → (o : ℕ) → entry s'.disk (at q s) o ≡ entry s.disk (at q s) o
    entry_other q n ne o =
        entry-frame sb l s.disk s'.disk (at q s) o
          (λ z. entry-same t off q n (λ e. ne (v.apart q r n nr z e)) z)

    kept_bits :
        (c : ℕ) → IsData sb c → taken sb s'.disk c ≡ (if b == c then true else taken sb s.disk c)
    kept_bits c h =
        taken-update sb l (update d' t (set32 (d' t) off b)) b c _ f.isdata h
        ∙ taken-update sb l d' t c _ (v.data_block r nr some_table) h
        ∙ f.bits c h

    kept_contents :
        (p : Node)
        → at p s ≡ 0
        → at p s' ≡ b
        → ((q : Node) → IsNode q → q ≢ p → at q s' ≡ at q s)
        → ((q : Node) → IsLeaf q → q ≢ r)
        → (q : Node) → IsLeaf q
        → (a : ℕ) → byte_of q s' a ≡ byte_of q s a
    kept_contents p z h o table_only =
        contents-kept sb l p b s s' z h (zeroed sb l (update d' t (set32 (d' t) off b)) b) o
          (λ q lf ne.
            entry-same t off q (IsLeaf-IsNode q lf)
              (λ e. table_only q lf (v.apart q r (IsLeaf-IsNode q lf) nr ne e)) ne)

    kept_bytes : IsDisk s'.disk
    kept_bytes = zero-IsDisk sb l _ b (write-IsDisk sb l d' t off b f.bytes)

  pub child-Grown :
      (i off : ℕ)
      → IsNode (child i off)
      → s.index i ≢ 0
      → at (child i off) s ≡ 0
      → Grown sb (child i off) b s (grown_entry (s.index i) off)
  child-Grown i off n ne z = record {
    free = z;
    here = entry_here (slot i) n.1 ne off;
    others = others;
    fresh = f.isdata;
    was_free = f.was_free;
    bits = kept_bits (slot i) n.1 ne off;
    bytes' = kept_bytes (slot i) n.1 ne off;
    contents =
        kept_contents (slot i) n.1 ne off (child i off) z (entry_here (slot i) n.1 ne off) others
          (λ q lf e. not_slot q lf e);
  }
    where
      not_slot : (q : Node) → IsLeaf q → q ≢ slot i
      not_slot (slot j) lf e = let q : j ≡ i = cc in omega (arith, n, q, lf)
      not_slot (child j o) lf e = cc
      not_slot (grand a o) lf e = cc

      entries :
          (j o : ℕ)
          → j < 13
          → child j o ≢ child i off
          → at (child j o) (grown_entry (s.index i) off) ≡ at (child j o) s
      entries j o jn d = elim (ℕ_discrete j i) [
        | yes e ↦
            subst
              (λ x.
                entry (grown_entry (s.index i) off).disk (s.index x) o ≡ entry s.disk (s.index x) o)
              (sym e) (entry_ne (slot i) n.1 ne off o (λ q. d (cc)))
        | no e ↦ entry_other (slot i) n.1 ne off (slot j) jn (λ q. e (cc)) o
      ]

      inner :
          (a o : ℕ)
          → a < 1024
          → Dec (child 12 a ≡ child i off)
          → at (grand a o) (grown_entry (s.index i) off) ≡ at (grand a o) s
      inner a o an (yes e) =
          let x : at (child 12 a) (grown_entry (s.index i) off) ≡ b =
            ap (λ t. at t (grown_entry (s.index i) off)) e ∙ entry_here (slot i) n.1 ne off in
          let y : at (child 12 a) s ≡ 0 = ap (λ t. at t s) e ∙ z in
          rw (x, y) (entry_new sb l (update d' (s.index i) (set32 (d' (s.index i)) off b)) b o)
      inner a o an (no d) =
          rw (entries 12 a (omega arith) d)
            (entry_other (slot i) n.1 ne off (child 12 a) (omega (arith)) (λ q. cc) o)

      others : (q : Node) → IsNode q → q ≢ child i off → at q (grown_entry (s.index i) off) ≡ at q s
      others (slot j) m d = refl
      others (child j o) m d = entries j o m.1 d
      others (grand a o) m d = inner a o m.0 (Node-discrete _ _)

  pub grand-Grown :
      (a off : ℕ)
      → IsNode (grand a off)
      → at (child 12 a) s ≢ 0
      → at (grand a off) s ≡ 0
      → Grown sb (grand a off) b s (grown_entry (at (child 12 a) s) off)
  grand-Grown a off n ne z = record {
    free = z;
    here = rw table_same (entry_here (child 12 a) nr ne off);
    others = others;
    fresh = f.isdata;
    was_free = f.was_free;
    bits = kept_bits (child 12 a) nr ne off;
    bytes' = kept_bytes (child 12 a) nr ne off;
    contents =
        kept_contents (child 12 a) nr ne off (grand a off) z
          (rw table_same (entry_here (child 12 a) nr ne off)) others (λ q lf e. not_child q lf e);
  }
    where
      not_child : (q : Node) → IsLeaf q → q ≢ child 12 a
      not_child (slot j) lf e = cc
      not_child (child j o) lf e = let q : j ≡ 12 = cc in omega (arith, q, lf)
      not_child (grand c o) lf e = cc

      nr : IsNode (child 12 a)
      nr = omega (arith)

      children :
          (j o : ℕ)
          → j < 13
          → at (child j o) (grown_entry (at (child 12 a) s) off) ≡ at (child j o) s
      children j o jn = entry_other (child 12 a) nr ne off (slot j) jn (λ q. cc) o

      table_same : at (child 12 a) (grown_entry (at (child 12 a) s) off) ≡ at (child 12 a) s
      table_same = children 12 a (omega arith)

      grands :
          (c o : ℕ)
          → c < 1024
          → grand c o ≢ grand a off
          → at (grand c o) (grown_entry (at (child 12 a) s) off) ≡ at (grand c o) s
      grands c o cn d = rw (children 12 c (omega arith)) (elim (ℕ_discrete c a) [
        | yes e ↦
            subst
              (λ x.
                entry (grown_entry (at (child 12 a) s) off).disk (at (child 12 x) s) o
                ≡ entry s.disk (at (child 12 x) s) o)
              (sym e) (entry_ne (child 12 a) nr ne off o (λ q. d (cc)))
        | no e ↦ entry_other (child 12 a) nr ne off (child 12 c) (omega (arith)) (λ q. e (cc)) o
      ])

      others :
          (q : Node)
          → IsNode q
          → q ≢ grand a off
          → at q (grown_entry (at (child 12 a) s) off) ≡ at q s
      others (slot j) m d = refl
      others (child j o) m d = children j o m.1
      others (grand c o) m d = grands c o m.0 d
