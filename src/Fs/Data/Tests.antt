-- ===== src/Fs/Data/Tests.antt =====
-- Three bytes written to an empty file, and read back; a directory's entry read.
use biglab.Prelude.{ℕ, ◌<◌, ◌≡◌, refl, ◌⊎◌, arith}
use biglab.Prelude.Run.{ok}
use biglab.Fs.Disk.{Disk}
use biglab.Fs.Index.Ensure.{IsFull}
use biglab.Fs.Inode.{Inode}
use biglab.Fs.Sample.{
  small_sb, small_sb-IsLayout, small_disk, dir_disk, dir_inode, dir_store-InOrder, empty_inode,
  empty_inode-Fits, empty_store-InOrder,
}
use biglab.Fs.Data.{inode_write_data, inode_read_data}
use biglab.Fs.Data.Whole.{InodeWritten, inode_write_data-InodeWritten}
use biglab.Fs.Data.WholeRead.{InodeRead, inode_read_data-InodeRead}
use biglab.Fs.Data.Roundtrip.{inode_read_data-write}

abbrev letters : ℕ → ℕ
letters i = 65

letters_small : (i : ℕ) → letters i < 256
letters_small i = omega arith

abbrev zeros : ℕ → ℕ
zeros i = 0

inode_write_data_example :
    (w : ℕ) × (ip' : Inode) × (disk' : Disk) × (inode_write_data small_sb empty_inode 5 3 letters
        small_disk
      ≡ ok w (ip', disk'))
    × InodeWritten small_sb empty_inode 5 3 letters small_disk w ip' disk'
inode_write_data_example =
    inode_write_data-InodeWritten small_sb small_sb-IsLayout empty_inode 5 3 letters small_disk
      (omega arith) empty_inode-Fits empty_store-InOrder (omega arith) letters_small

inode_read_data_example :
    (w : ℕ) × (ip' : Inode) × (disk' : Disk) × (dst' : ℕ → ℕ) × (inode_read_data small_sb dir_inode
        4 100 zeros dir_disk
      ≡ ok w ((ip', disk'), dst'))
    × InodeRead small_sb dir_inode 4 64 w zeros dst' dir_disk ip' disk'
inode_read_data_example =
    inode_read_data-InodeRead small_sb small_sb-IsLayout dir_inode 4 100 zeros dir_disk
      (omega arith) dir_store-InOrder refl (omega arith) (omega arith)

inode_read_data-write_example :
    (w : ℕ) × (ip' : Inode) × (disk' : Disk) × (inode_write_data small_sb empty_inode 5 3 letters
        small_disk
      ≡ ok w (ip', disk'))
    × ((w ≡ 3) ⊎ IsFull small_sb disk')
    × ((ip'' : Inode) × (disk'' : Disk) × (dst' : ℕ → ℕ) × (inode_read_data small_sb ip' 5 w zeros
            disk'
          ≡ ok w ((ip'', disk''), dst'))
        × ((i : ℕ) → i < w → dst' i ≡ letters i))
inode_read_data-write_example =
    inode_read_data-write small_sb small_sb-IsLayout empty_inode 5 3 letters zeros small_disk
      (omega arith) empty_inode-Fits empty_store-InOrder refl (omega arith) letters_small
