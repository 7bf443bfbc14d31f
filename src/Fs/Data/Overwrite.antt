-- ===== src/Fs/Data/Overwrite.antt =====
-- A write to a block of data leaves the tree in order, and changes the bytes of that block only.
use biglab.Prelude.{
  ℕ, ◌≤◌, ◌≡◌, refl, ◌≢◌, arith, ◌==◌, sym, ◌∙◌, ap, inl, inr, Bool-cases, neb_of_ne, eqb_refl,
  update,
}
use biglab.Fs.Disk.{Block, SuperBlock}
use biglab.Fs.Bitmap.Bits.{IsBlock}
use biglab.Fs.Bitmap.Numbers.{IsLayout}
use biglab.Fs.Index.{Store}
use biglab.Fs.Index.Nodes.{
  Node, slot, child, grand, IsNode, IsLeaf, IsLeaf-IsNode, at, byte_of, InOrder,
}
use biglab.Fs.Index.Grow.{taken-update, entry-frame}

module _ (sb : SuperBlock) (l : IsLayout sb) (s : Store) (v : InOrder sb s) (p : Node)
    (lf : IsLeaf p) (some_block : at p s ≢ 0) (w : Block) where
  abbrev written : Store
  written = record s { disk = update s.disk (at p s) w }

  same_table : (q : Node) → IsNode q → q ≢ p → at q s ≢ 0 → written.disk (at q s) ≡ s.disk (at q s)
  same_table q n d ne =
      rw (neb_of_ne (at p s) (at q s) (λ e. d (v.apart q p n (IsLeaf-IsNode p lf) ne (sym e)))) refl

  slot_differs : (i : ℕ) → 10 ≤ i → slot i ≢ p
  slot_differs i n e = go p lf e
    where
      go : (q : Node) → IsLeaf q → slot i ≡ q → ⊥
      go (slot j) h f = let g : i ≡ j = cc in omega (arith, h, g, n)
      go (child j o) h f = cc
      go (grand a o) h f = cc

  child_differs : (a : ℕ) → child 12 a ≢ p
  child_differs a e = go p lf e
    where
      go : (q : Node) → IsLeaf q → child 12 a ≡ q → ⊥
      go (slot j) h f = cc
      go (child j o) h f = let g : 12 ≡ j = cc in omega (arith, h, g)
      go (grand c o) h f = cc

  at_child : (i off : ℕ) → IsNode (child i off) → at (child i off) written ≡ at (child i off) s
  at_child i off n =
      entry-frame sb l s.disk written.disk (s.index i) off
        (same_table (slot i) n.1 (slot_differs i n.0))

  pub at-written : (q : Node) → IsNode q → at q written ≡ at q s
  at-written (slot i) n = refl
  at-written (child i off) n = at_child i off n
  at-written (grand a off) n = rw (at_child 12 a (omega (arith, n))) (
      entry-frame sb l s.disk written.disk (at (child 12 a) s) off
        (same_table (child 12 a) (omega (arith, n)) (child_differs a)))

  pub byte_of-written_ne :
      (q : Node) → IsLeaf q → q ≢ p → (a : ℕ) → byte_of q written a ≡ byte_of q s a
  byte_of-written_ne q h d a =
      rw (at-written q (IsLeaf-IsNode q h)) (elim (Bool-cases (at q s == 0)) [
        | inl e ↦ rw e refl
        | inr e ↦
            rw e (ap (λ (b : Block). b a) (same_table q (IsLeaf-IsNode q h) d (ground (arith, e))))
      ])

  pub byte_of-written : (a : ℕ) → byte_of p written a ≡ w a
  byte_of-written a =
      rw (at-written p (IsLeaf-IsNode p lf))
        (rw (neb_of_ne (at p s) 0 some_block, eqb_refl (at p s)) refl)

  pub written-InOrder : IsBlock w → InOrder sb written
  written-InOrder isb = record {
    bytes = λ x a. ground (arith, isb a, v.bytes x a);
    data_block = λ q n ne. rw (at-written q n) (v.data_block q n (rw (at-written q n) at ne));
    is_taken = λ q n ne.
        let ne' : at q s ≢ 0 = rw (at-written q n) at ne in
        rw (at-written q n) (
          taken-update sb l s.disk (at p s) (at q s) w
            (v.data_block p (IsLeaf-IsNode p lf) some_block) (v.data_block q n ne')
          ∙ v.is_taken q n ne');
    apart = λ q r nq nr ne e.
        v.apart q r nq nr (rw (at-written q nq) at ne)
          (sym (at-written q nq) ∙ e ∙ at-written r nr);
  }
