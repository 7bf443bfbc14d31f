-- ===== src/Fs/Data/Whole.antt =====
-- `inode_write_data` as a whole, on an inode and the disk.
use biglab.Prelude.{
  ℕ, suc, ◌+◌, ◌-◌, ◌/◌, ◌%◌, ◌^◌, ◌≤◌, ◌<◌, ◌≡◌, refl, ◌≢◌, ◌⊎◌, true, false, ◌&&◌, arith, ltb,
  leb, if◌then◌else◌, sym, ◌∙◌, inl, inr, Bool-cases, u32, eqb_refl,
}
use native.Mathlib.Decide.{ℕ_discrete}
use biglab.Prelude.Run.{Run, ok}
use biglab.Fs.Disk.{Disk, SuperBlock}
use biglab.Fs.Bitmap.Numbers.{IsLayout}
use biglab.Fs.Index.{Store}
use biglab.Fs.Index.Nodes.{slot, at, InOrder}
use biglab.Fs.Index.Ensure.{IsFull}
use biglab.Fs.Index.Leaves.{leaf, leaf-IsNode}
use biglab.Fs.Inode.{Inode, inode_block, put_record, inode_rw_write, inode_rw_read}
use biglab.Fs.Inode.Record.{Fits, SameInfo, put_record-IsBlock, get_record-put}
use biglab.Fs.Inode.Area.{InArea, tree, at-moved, byte_of-moved, moved-InOrder, moved-IsFull}
use biglab.Fs.Data.{finish_write, inode_write_data}
use biglab.Fs.Data.Round.{data_at}
use biglab.Fs.Data.Write.{Written, write_loop-Written}

-- `w` bytes of `src` are in the file from `offset` on; its other bytes have not changed. The size has
-- grown as far as needed, and then the disk has the inode as it is in memory.
pub record InodeWritten (sb : SuperBlock) (ip : Inode) (offset len : ℕ) (src : ℕ → ℕ) (disk : Disk)
    (w : ℕ) (ip' : Inode) (disk' : Disk) : Type 0 where
  pub in_order : InOrder sb (tree ip' disk')
  pub at_most : w ≤ len
  pub all_or_full : (w ≡ len) ⊎ IsFull sb disk'
  pub present :
      (pos : ℕ) → offset ≤ pos → pos < offset + w → at (leaf (pos / 4096)) (tree ip' disk') ≢ 0
  pub bytes :
      (pos : ℕ)
      → pos < 2 ^ 32
      → data_at (tree ip' disk') pos ≡ (
          if leb offset pos && ltb pos (offset + w)
          then src (pos - offset)
          else data_at (tree ip disk) pos)
  pub new_size :
      ip'.disk_info.size
      ≡ (if ltb 0 w && ltb ip.disk_info.size (offset + w) then offset + w else ip.disk_info.size)
  pub same_type : ip'.disk_info.type ≡ ip.disk_info.type
  pub same_num : ip'.inode_num ≡ ip.inode_num
  pub fits : Fits ip'.disk_info
  pub saved :
      ip'.disk_info.size ≢ ip.disk_info.size
      → SameInfo (inode_rw_read sb ip' disk').disk_info ip'.disk_info

module _ (sb : SuperBlock) (l : IsLayout sb) (ip : Inode) (offset len : ℕ) (src : ℕ → ℕ)
    (disk : Disk) (area : InArea sb ip.inode_num) (fits : Fits ip.disk_info)
    (v : InOrder sb (tree ip disk)) where
  slots_fit : (s : Store) → InOrder sb s → (i : ℕ) → i < 13 → s.index i < 2 ^ 32
  slots_fit s o i n = elim (ℕ_discrete (s.index i) 0) [
    | yes e ↦ omega (arith, e)
    | no ne ↦ omega (arith, o.data_block (slot i) n ne, l.end_fits)
  ]

  abbrev with_index : Store → Inode
  with_index s = record ip { disk_info = record ip.disk_info { index = s.index } }

  abbrev grown : ℕ → Store → Inode
  grown size s = record ip { disk_info = record ip.disk_info { index = s.index; size = size } }

  grown-Fits : (s : Store) (size : ℕ) → InOrder sb s → size < 2 ^ 32 → Fits (grown size s).disk_info
  grown-Fits s size o lt = record {
    type_fits = fits.type_fits;
    major_fits = fits.major_fits;
    minor_fits = fits.minor_fits;
    nlink_fits = fits.nlink_fits;
    size_fits = lt;
    index_fits = slots_fit s o;
  }

  module _ (small : offset + len < 2 ^ 32) where
    abbrev Result : ℕ → Run (Inode × Disk) ℕ → Type 0
    Result w r =
        (ip' : Inode) × (disk' : Disk) × (r ≡ ok w (ip', disk'))
        × InodeWritten sb ip offset len src disk w ip' disk'

    -- The file has not grown.
    kept-Result :
        (w : ℕ) (s : Store)
        → (ltb 0 w && ltb ip.disk_info.size (offset + w)) ≡ false
        → Written sb offset (offset + len) 0 w src (tree ip disk) s
        → InodeWritten sb ip offset len src disk w (with_index s) s.disk
    kept-Result w s e m = record {
      in_order = m.in_order;
      at_most = omega (arith, m.at_most);
      all_or_full = elim m.all_or_full [ inl f ↦ inl (omega (arith, f)) | inr f ↦ inr f ];
      present = m.present;
      bytes = λ pos p.
          let z : 0 + (pos - offset) ≡ pos - offset = omega arith in rw z at (m.bytes pos p);
      new_size = rw e refl;
      same_type = refl;
      same_num = refl;
      fits = grown-Fits s ip.disk_info.size m.in_order fits.size_fits;
      saved = λ ne. absurd (ne refl);
    }

    -- The file has grown: the inode is written to its area, and the tree does not see it.
    grown-Result :
        (w : ℕ) (s : Store)
        → (ltb 0 w && ltb ip.disk_info.size (offset + w)) ≡ true
        → Written sb offset (offset + len) 0 w src (tree ip disk) s
        → InodeWritten sb ip offset len src disk w
            (grown (offset + w) s)
            (inode_rw_write sb (grown (offset + w) s) s.disk)
    unfolding inode_rw_write inode_rw_read
    grown-Result w s e m =
        let new = grown (offset + w) s in
        let b = inode_block sb ip.inode_num in
        let x = put_record (s.disk b) (ip.inode_num % 64) new.disk_info in
        let before : b < sb.data_bitmap_firstblock =
          omega (arith, area, l.data_place, l.end_fits) in
        let new_fits = grown-Fits s (offset + w) m.in_order (omega (arith, m.at_most)) in
        record {
          in_order = moved-InOrder sb l s m.in_order b x before (
              put_record-IsBlock (s.disk b) (ip.inode_num % 64) new.disk_info (m.in_order.bytes b));
          at_most = omega (arith, m.at_most);
          all_or_full = elim m.all_or_full [
            | inl f ↦ inl (omega (arith, f))
            | inr f ↦ inr (moved-IsFull sb l s m.in_order b x before f)
          ];
          present = λ pos lo hi z. m.present pos lo hi (
              sym (
                at-moved sb l s m.in_order b x before (leaf (pos / 4096))
                  (leaf-IsNode (pos / 4096) (omega (arith, m.at_most))))
              ∙ z);
          bytes = λ pos p.
              byte_of-moved sb l s m.in_order b x before (leaf (pos / 4096))
                (leaf-IsNode (pos / 4096) (omega arith)) (pos % 4096)
              ∙ (let z : 0 + (pos - offset) ≡ pos - offset = omega arith in
                  rw z at (m.bytes pos p));
          new_size = rw e refl;
          same_type = refl;
          same_num = refl;
          fits = new_fits;
          saved = λ ne.
              rw (eqb_refl b)
                (get_record-put (s.disk b) (ip.inode_num % 64) new.disk_info new_fits);
        }

    finish_write-Result :
        (w : ℕ) (s : Store)
        → Written sb offset (offset + len) 0 w src (tree ip disk) s
        → Result w (finish_write sb ip offset w s)
    finish_write-Result w s m =
        let e : u32 (offset + w) ≡ offset + w = omega (arith, m.at_most) in
        elim (Bool-cases (ltb 0 w && ltb ip.disk_info.size (offset + w))) [
          | inl c ↦ (
            grown (offset + w) s,
            inode_rw_write sb (grown (offset + w) s) s.disk,
            rw (e, c) refl,
            grown-Result w s c m,
          )
          | inr c ↦ (with_index s, s.disk, rw (e, c) refl, kept-Result w s c m)
        ]

    -- On a layout whose bitmaps have a bit for each number, all within 32 bits, for an inode in the area before the data bitmap, whose
    -- fields have the width of their types and whose tree is in order, and a source of bytes, where `offset + len` is below 2^32:
    -- `inode_write_data` returns the number of bytes it has put in the file from `offset` on, all that were asked for unless no
    -- data block is left; every other byte of the file is as it was, the tree stays in order, the size is `offset` plus that number
    -- where this is more than it was, and then the disk has the inode as it is in memory.
    pub inode_write_data-InodeWritten :
        ((i : ℕ) → src i < 256)
        → (w : ℕ) × (ip' : Inode) × (disk' : Disk) × (inode_write_data sb ip offset len src disk
            ≡ ok w (ip', disk'))
          × InodeWritten sb ip offset len src disk w ip' disk'
    unfolding inode_write_data
    inode_write_data-InodeWritten isb =
        let (w, s, run, m) =
          write_loop-Written sb l (offset + len) src small isb (suc (offset + len - offset)) offset
            0 (tree ip disk) (omega arith) (omega arith) v in
        let e : u32 (offset + len) ≡ offset + len = omega arith in
        let f : ltb (2 ^ 32 - 1) (offset + len) ≡ false = ground arith in
        let g : 0 + w ≡ w = omega arith in
        let (ip', disk', done, written) = finish_write-Result w s m in
        (w, ip', disk', rw (e, f, run, g) done, written)
