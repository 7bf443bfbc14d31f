-- ===== src/Fs/Bitmap/Tests.antt =====
-- Runs of the bitmap operations on a small disk.
use biglab.Prelude.{◌≡◌, refl, some, update}
use biglab.Fs.Sample.{small_sb, small_sb-IsLayout, small_disk, small_disk-IsDisk}
use biglab.Fs.Disk.{Disk}
use biglab.Fs.Bitmap.{
  set_bit, search_loop, bitmap_search_and_set, alloc_loop, global_block, bitmap_alloc_block,
  bitmap_alloc_inode, bitmap_free_block,
}
use biglab.Fs.Bitmap.Search.{used}
use biglab.Fs.Bitmap.Roundtrip.{bitmap_free_block-alloc}
use biglab.Fs.Bitmap.Numbers.{BlockAllocated, bitmap_alloc_block-Allocated}

bitmap_alloc_block_example :
    BlockAllocated small_sb small_disk (bitmap_alloc_block small_sb small_disk)
bitmap_alloc_block_example =
    bitmap_alloc_block-Allocated small_sb small_sb-IsLayout small_disk small_disk-IsDisk

abbrev with_block : Disk
with_block = update small_disk 3 (set_bit (small_disk 3) 3)

alloc_small : bitmap_alloc_block small_sb small_disk ≡ (some 13, with_block)
unfolding bitmap_alloc_block alloc_loop bitmap_search_and_set search_loop global_block
alloc_small = refl

abbrev with_two : Disk
with_two = update with_block 3 (set_bit (with_block 3) 4)

alloc_again : bitmap_alloc_block small_sb with_block ≡ (some 14, with_two)
unfolding bitmap_alloc_block alloc_loop bitmap_search_and_set search_loop global_block set_bit
alloc_again = refl

abbrev with_inode : Disk
with_inode = update small_disk 1 (set_bit (small_disk 1) 8)

alloc_small_inode : bitmap_alloc_inode small_sb small_disk ≡ (some 8, with_inode)
unfolding bitmap_alloc_inode alloc_loop bitmap_search_and_set search_loop
alloc_small_inode = refl

bitmap_free_block-alloc_example :
    used (bitmap_free_block small_sb 13 with_block) 3 3 ≡ used small_disk 3 3
bitmap_free_block-alloc_example =
    (bitmap_free_block-alloc small_sb small_sb-IsLayout small_disk small_disk-IsDisk 13 with_block
        alloc_small).0
      3
