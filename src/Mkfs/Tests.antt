-- ===== src/Mkfs/Tests.antt =====
-- The theorems on an image of zeros.
use biglab.Prelude.{◌≡◌, some, arith}
use biglab.Prelude.Run.{ok}
use biglab.Fs.Inode.{InodeDisk, inode_rw_read}
use biglab.Fs.Inode.Record.{SameInfo}
use biglab.Fs.Bitmap.{bitmap_alloc_block}
use biglab.Fs.Sample.{empty_inode, empty_inode-Fits}
use biglab.Mkfs.{sb, Image, blank, block_alloc, inode_init, inode_append, put_inode}
use biglab.Mkfs.Layout.{inode_rw_read-put_inode}
use biglab.Mkfs.Blocks.{Exact, blank-Exact, bitmap_alloc_block-block_alloc}
use biglab.Mkfs.Files.{Holds, Appended, inode_append-Appended}

abbrev zeros : Image
zeros = blank (λ b a. 0)

zeros-Exact : Exact zeros
zeros-Exact = blank-Exact (λ b a. 0) (λ b a. omega arith)

abbrev new_file : InodeDisk
new_file = inode_init 0 1 1

new_file-Holds : Holds new_file zeros
new_file-Holds = record {
  area = λ i h. absurd (omega (arith, h));
  distinct = λ i j h. absurd (omega (arith, h));
}

inode_append-Appended_example :
    (ip' : InodeDisk) × (s' : Image) × (inode_append new_file (λ i. 65) 5000 zeros ≡ ok ip' s')
    × Appended (λ i. 65) 5000 new_file ip' zeros s'
inode_append-Appended_example =
    inode_append-Appended (λ i. 65) 5000 new_file zeros zeros-Exact new_file-Holds (omega arith)
      (omega arith) (λ a. omega arith) (λ a. omega arith)

bitmap_alloc_block-block_alloc_example :
    (bitmap_alloc_block sb zeros.disk).0 ≡ some (block_alloc zeros).0
bitmap_alloc_block-block_alloc_example =
    bitmap_alloc_block-block_alloc zeros zeros-Exact (omega arith)

inode_rw_read-write_inode_example :
    SameInfo
      (inode_rw_read sb empty_inode (put_inode 2 empty_inode.disk_info zeros.disk)).disk_info
      empty_inode.disk_info
inode_rw_read-write_inode_example =
    inode_rw_read-put_inode empty_inode zeros.disk (omega arith) empty_inode-Fits
