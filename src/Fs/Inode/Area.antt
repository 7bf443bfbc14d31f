-- ===== src/Fs/Inode/Area.antt =====
-- A write to the area of the inodes leaves the tree of an index and its data as they are.
use biglab.Prelude.{
  ℕ, ◌+◌, ◌-◌, ◌/◌, ◌%◌, ◌<◌, ◌≡◌, refl, ◌≢◌, arith, ◌==◌, sym, ◌∙◌, ap, update, inl, inr,
  Bool-cases, neb_of_ne,
}
use biglab.Fs.Disk.{Block, Disk, SuperBlock}
use biglab.Fs.Bitmap.{bit_of}
use biglab.Fs.Bitmap.Bits.{IsBlock}
use biglab.Fs.Bitmap.Numbers.{IsLayout}
use biglab.Fs.Index.{Store}
use biglab.Fs.Index.Nodes.{Node, slot, child, grand, IsNode, at, byte_of, taken, InOrder}
use biglab.Fs.Index.Ensure.{IsFull}
use biglab.Fs.Index.Grow.{entry-frame}
use biglab.Fs.Inode.{Inode}

-- The inode's block lies before the data bitmap.
abbrev pub InArea : SuperBlock → ℕ → Type 0
InArea sb n = sb.inode_firstblock + n / 64 < sb.data_bitmap_firstblock

-- The tree of an inode in memory.
abbrev pub tree : Inode → Disk → Store
tree ip disk = record { index = ip.disk_info.index; disk = disk }

module _ (sb : SuperBlock) (l : IsLayout sb) (s : Store) (v : InOrder sb s) (a : ℕ) (w : Block)
    (before : a < sb.data_bitmap_firstblock) where
  abbrev moved : Store
  moved = record s { disk = update s.disk a w }

  same_block : (q : Node) → IsNode q → at q s ≢ 0 → moved.disk (at q s) ≡ s.disk (at q s)
  same_block q n ne =
      rw (neb_of_ne a (at q s) (λ e. omega (arith, v.data_block q n ne, l.data_place, before, e)))
        refl

  pub at-moved : (q : Node) → IsNode q → at q moved ≡ at q s
  at-moved (slot i) n = refl
  at-moved (child i off) n =
      entry-frame sb l s.disk moved.disk (s.index i) off (same_block (slot i) n.1)
  at-moved (grand b off) n =
      rw (entry-frame sb l s.disk moved.disk (s.index 12) b (same_block (slot 12) (omega arith))) (
        entry-frame sb l s.disk moved.disk (at (child 12 b) s) off
          (same_block (child 12 b) (omega (arith, n))))

  pub byte_of-moved : (q : Node) → IsNode q → (x : ℕ) → byte_of q moved x ≡ byte_of q s x
  byte_of-moved q n x = rw (at-moved q n) (elim (Bool-cases (at q s == 0)) [
    | inl e ↦ rw e refl
    | inr e ↦ rw e (ap (λ (b : Block). b x) (same_block q n (ground (arith, e))))
  ])

  pub moved-InOrder : IsBlock w → InOrder sb moved
  moved-InOrder isb = record {
    bytes = λ x y. ground (arith, isb y, v.bytes x y);
    data_block = λ q n ne. rw (at-moved q n) (v.data_block q n (rw (at-moved q n) at ne));
    is_taken = λ q n ne.
        let ne' : at q s ≢ 0 = rw (at-moved q n) at ne in
        rw (at-moved q n) (same_bits (at q s) ∙ v.is_taken q n ne');
    apart = λ q r nq nr ne e.
        v.apart q r nq nr (rw (at-moved q nq) at ne) (sym (at-moved q nq) ∙ e ∙ at-moved r nr);
  }
    where
      same_bits : (b : ℕ) → taken sb moved.disk b ≡ taken sb s.disk b
      same_bits b =
          let e : moved.disk (sb.data_bitmap_firstblock + (b - sb.data_firstblock) / 32768)
              ≡ s.disk (sb.data_bitmap_firstblock + (b - sb.data_firstblock) / 32768) =
            rw
              (neb_of_ne a (sb.data_bitmap_firstblock + (b - sb.data_firstblock) / 32768)
                (omega (arith, before)))
              refl in
          ap (λ (x : Block). bit_of x ((b - sb.data_firstblock) % 32768)) e

  pub moved-IsFull : IsFull sb s.disk → IsFull sb moved.disk
  moved-IsFull full m lt =
      let e : moved.disk (sb.data_bitmap_firstblock + m / 32768)
          ≡ s.disk (sb.data_bitmap_firstblock + m / 32768) =
        rw (neb_of_ne a (sb.data_bitmap_firstblock + m / 32768) (omega (arith, before))) refl in
      ap (λ (x : Block). bit_of x (m % 32768)) e ∙ full m lt
