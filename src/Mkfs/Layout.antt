-- ===== src/Mkfs/Layout.antt =====
-- The layout of the image, as the kernel relies on it.
use biglab.Prelude.{ℕ, ◌+◌, ◌/◌, ◌≤◌, ◌<◌, ◌≡◌, refl, sym, subst, arith}
use biglab.Fs.Bitmap.Numbers.{IsLayout}
use biglab.Fs.Inode.Area.{InArea}
use biglab.Fs.Disk.{Disk}
use biglab.Fs.Inode.{Inode, inode_block, inode_rw_read, inode_rw_write}
use biglab.Fs.Inode.Record.{SameInfo, Fits, inode_rw_roundtrip}
use biglab.Mkfs.{sb, put_inode}

-- The super block of mkfs has the layout that the kernel's file system relies on: both bitmaps have a bit for each number and lie one behind the other
-- before the data, all within 32 bits, the inode of every number below `total_inodes` has its place between the
-- two bitmaps, and the blocks of the data end where the image ends.
pub sb-IsLayout :
    (inode_num : ℕ)
    → inode_num < sb.total_inodes
    → IsLayout sb
      × InArea sb inode_num
      × (sb.inode_bitmap_firstblock + sb.inode_bitmap_blocks ≤ sb.inode_firstblock + inode_num / 64)
      × (sb.data_firstblock + sb.data_blocks ≡ sb.total_blocks)
sb-IsLayout inode_num h = (
  record {
    inode_bits = omega arith;
    inode_fits = omega arith;
    inode_place = omega arith;
    data_bits = omega arith;
    data_fits = omega arith;
    data_place = omega arith;
    end_fits = omega arith;
  },
  omega (arith, h),
  omega arith,
  refl,
)

put_inode-inode_rw :
    (ip : Inode) (disk : Disk)
    → ip.inode_num < sb.total_inodes
    → put_inode ip.inode_num ip.disk_info disk ≡ inode_rw_write sb ip disk
unfolding put_inode inode_rw_write
put_inode-inode_rw ip disk h =
    let e : inode_block sb ip.inode_num ≡ sb.inode_firstblock + ip.inode_num / 64 =
      omega (arith, h) in
    rw e refl

-- For a number below `total_inodes` and an inode whose fields have the width of their types, the kernel's `inode_rw` reads from
-- the image the inode that mkfs has written there.
pub inode_rw_read-put_inode :
    (ip : Inode) (disk : Disk)
    → ip.inode_num < sb.total_inodes
    → Fits ip.disk_info
    → SameInfo
        (inode_rw_read sb ip (put_inode ip.inode_num ip.disk_info disk)).disk_info
        ip.disk_info
inode_rw_read-put_inode ip disk h f =
    let other = record ip { inode_num = ip.inode_num + 1 } in
    subst (λ d. SameInfo (inode_rw_read sb ip d).disk_info ip.disk_info)
      (sym (put_inode-inode_rw ip disk h))
      (inode_rw_roundtrip sb ip other disk f (omega (arith, h)) (omega (arith, h))
        (λ e. omega (arith, e))).0
