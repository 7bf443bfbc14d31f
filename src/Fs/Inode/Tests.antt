-- ===== src/Fs/Inode/Tests.antt =====
-- The inode 2 written to its area, with the inode 0 beside it.
use biglab.Prelude.{ℕ, ◌≢◌, arith}
use biglab.Fs.Sample.{small_sb, dir_disk, dir_inode, empty_inode, empty_inode-Fits}
use biglab.Fs.Inode.{inode_rw_write, inode_rw_read}
use biglab.Fs.Inode.Record.{SameInfo, inode_rw_roundtrip}

zero_not_two : ◌≢◌ {A = ℕ} 0 2
zero_not_two = λ e. omega (arith, e)

inode_rw_example :
    SameInfo
      (inode_rw_read small_sb empty_inode (inode_rw_write small_sb empty_inode dir_disk)).disk_info
      empty_inode.disk_info
inode_rw_example =
    (inode_rw_roundtrip small_sb empty_inode dir_inode dir_disk empty_inode-Fits (omega arith)
      (omega arith) zero_not_two).0
