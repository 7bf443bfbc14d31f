-- ===== src/Fs/Data/WholeRead.antt =====
-- `inode_read_data` as a whole, on an inode and the disk.
use biglab.Prelude.{
  ℕ, suc, ◌+◌, ◌-◌, ◌/◌, ◌^◌, ◌≤◌, ◌<◌, ◌≡◌, refl, ◌≢◌, ◌⊎◌, false, ◌&&◌, not, arith, ◌==◌, ltb,
  leb, if◌then◌else◌, sym, ◌∙◌, u32,
}
use biglab.Prelude.Run.{Run, ok}
use biglab.Fs.Disk.{Disk, SuperBlock}
use biglab.Fs.Bitmap.Numbers.{IsLayout}
use biglab.Fs.Index.{Store}
use biglab.Fs.Index.Nodes.{at, InOrder}
use biglab.Fs.Index.Ensure.{IsFull}
use biglab.Fs.Index.Leaves.{leaf, leaf-IsNode}
use biglab.Fs.Inode.{Inode}
use biglab.Fs.Inode.Area.{tree}
use biglab.Fs.Data.{read_loop, inode_read_data}
use biglab.Fs.Data.Round.{data_at}
use biglab.Fs.Data.Read.{WasRead, read_loop-WasRead}

-- The file's bytes from `offset` on, `w` of them, are at the start of the buffer, whose other bytes are as they were; the
-- file is as it was. Fewer than asked for, up to the end of the file, are read only at a hole, where no data block is left.
pub record InodeRead (sb : SuperBlock) (ip : Inode) (offset end w : ℕ) (dst dst' : ℕ → ℕ)
    (disk : Disk) (ip' : Inode) (disk' : Disk) : Type 0 where
  pub in_order : InOrder sb (tree ip' disk')
  pub at_most : offset + w ≤ end
  pub all_or_hole :
      (offset + w ≡ end) ⊎ (IsFull sb disk' × (at (leaf ((offset + w) / 4096)) (tree ip disk) ≡ 0))
  pub kept :
      (pos : ℕ)
      → pos < 2 ^ 32
      → at (leaf (pos / 4096)) (tree ip disk) ≢ 0
      → at (leaf (pos / 4096)) (tree ip' disk') ≢ 0
  pub same : (pos : ℕ) → pos < 2 ^ 32 → data_at (tree ip' disk') pos ≡ data_at (tree ip disk) pos
  pub filled : (i : ℕ) → dst' i ≡ (if ltb i w then data_at (tree ip disk) (offset + i) else dst i)
  pub same_info :
      ip' ≡ record ip { disk_info = record ip.disk_info { index = ip'.disk_info.index } }

module _ (sb : SuperBlock) (l : IsLayout sb) (ip : Inode) (offset len : ℕ) (dst : ℕ → ℕ)
    (disk : Disk) (size_fits : ip.disk_info.size < 2 ^ 32) (v : InOrder sb (tree ip disk)) where
  -- Where a read of `len` bytes ends: at the end of the file at the latest.
  abbrev pub read_end : ℕ
  read_end = if ltb ip.disk_info.size (offset + len) then ip.disk_info.size else offset + len

  abbrev DoneRead : Run ((Inode × Disk) × (ℕ → ℕ)) ℕ → Type 0
  DoneRead r =
      (w : ℕ) × (ip' : Inode) × (disk' : Disk) × (dst' : ℕ → ℕ) × (r ≡ ok w ((ip', disk'), dst'))
      × InodeRead sb ip offset read_end w dst dst' disk ip' disk'

  -- What the loop has read is what the call has.
  loop-DoneRead :
      (w : ℕ) (s : Store) (dst' : ℕ → ℕ)
      → (not (ip.disk_info.type == 0) && not (ip.disk_info.type == 1)) ≡ false
      → u32 (offset + len) ≡ offset + len
      → read_loop sb (suc (read_end - offset)) offset read_end 0 dst (tree ip disk)
        ≡ ok (0 + w) (s, dst')
      → WasRead sb offset read_end 0 w dst dst' (tree ip disk) s
      → DoneRead (inode_read_data sb ip offset len dst disk)
  unfolding inode_read_data
  loop-DoneRead w s dst' t e run m =
      let g : 0 + w ≡ w = omega arith in
      (
        w,
        record ip { disk_info = record ip.disk_info { index = s.index } },
        s.disk,
        dst',
        rw (e, t, run, g) refl,
        record {
          in_order = m.in_order;
          at_most = m.at_most;
          all_or_hole = m.all_or_hole;
          kept = λ pos p ne z.
              ne (sym (m.kept (leaf (pos / 4096)) (leaf-IsNode (pos / 4096) (omega arith)) ne) ∙ z);
          same = m.same;
          filled = λ i.
              let c : (leb 0 i && ltb i (0 + w)) ≡ ltb i w = ground arith in
              let d : i - 0 ≡ i = omega arith in rw (c, d) at (m.filled i);
          same_info = refl;
        },
      )

  -- On a layout whose bitmaps have a bit for each number, all within 32 bits, for an inode of a file or of a directory, whose tree is in order
  -- and whose size is below 2^32, where `offset + len` is below 2^32 and `offset` is not past the end of the file:
  -- `inode_read_data` returns the number of bytes it has copied to the buffer, and these are the bytes of the file from `offset` on;
  -- they are all up to the end of the file, unless it meets a hole where no data block is left. No byte of the file changes.
  pub inode_read_data-InodeRead :
      (not (ip.disk_info.type == 0) && not (ip.disk_info.type == 1)) ≡ false
      → offset + len < 2 ^ 32
      → offset ≤ ip.disk_info.size
      → (w : ℕ) × (ip' : Inode) × (disk' : Disk) × (dst' : ℕ → ℕ) × (inode_read_data sb ip offset
            len dst disk
          ≡ ok w ((ip', disk'), dst'))
        × InodeRead sb ip offset read_end w dst dst' disk ip' disk'
  inode_read_data-InodeRead t small inside =
      let (w, s, dst', run, m) =
        read_loop-WasRead sb l read_end (ground arith) (suc (read_end - offset)) offset 0 dst
          (tree ip disk) (omega arith) (ground arith) v in
      loop-DoneRead w s dst' t (omega arith) run m
