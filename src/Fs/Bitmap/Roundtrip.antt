-- ===== src/Fs/Bitmap/Roundtrip.antt =====
-- src/kernel/fs/bitmap.c: sequences of operations on the bitmaps.
use biglab.Prelude.{
  ℕ, ◌+◌, ◌-◌, ◌/◌, ◌%◌, ◌<◌, ◌≡◌, refl, ap, subst, ◌∙◌, ◌≢◌, Bool, arith, Option, none, some, ◌==◌,
  if◌then◌else◌,
}
use biglab.Fs.Disk.{Disk, SuperBlock, bits_per_block}
use biglab.Fs.Bitmap.{bit_of, bitmap_alloc_block, bitmap_alloc_inode, bitmap_free_block}
use biglab.Fs.Bitmap.Search.{used, IsDisk, BitSet}
use biglab.Fs.Bitmap.Alloc.{Allocated}
use biglab.Fs.Bitmap.Numbers.{
  IsLayout, BlockAllocated, bitmap_alloc_inode-Allocated, bitmap_alloc_block-Allocated,
  bitmap_free_block-BitSet,
}

-- Two changes of the same bit: the second one counts.
BitSet-again :
    (d d' d'' : Disk) (first k : ℕ) (a b : Bool)
    → BitSet d d' first k a
    → BitSet d' d'' first k b
    → (m : ℕ) → used d'' first m ≡ (if k == m then b else used d first m)
BitSet-again d d' d'' first k a b p q m = ground (arith, p.bits m, q.bits m)

module _ (sb : SuperBlock) (l : IsLayout sb) (disk : Disk) (v : IsDisk disk) where
  open sb use {
    total_inodes, inode_bitmap_firstblock, inode_bitmap_blocks, data_bitmap_firstblock,
    data_bitmap_blocks, data_blocks, data_firstblock,
  }
  open l use {inode_bits, inode_fits, inode_place, data_bits, data_fits, data_place, end_fits}

  -- On a layout whose bitmaps have a bit for each number, all within 32 bits, and a disk of bytes, a
  -- block that `bitmap_alloc_block` returned and that `bitmap_free_block` takes back leaves every
  -- bit of the data bitmap as it was before, and every block outside that bitmap.
  pub bitmap_free_block-alloc :
      (b : ℕ) (disk' : Disk)
      → bitmap_alloc_block sb disk ≡ (some b, disk')
      → ((m : ℕ)
          → used (bitmap_free_block sb b disk') data_bitmap_firstblock m
            ≡ used disk data_bitmap_firstblock m)
        × ((a : ℕ)
            → a ≢ data_bitmap_firstblock + (b - data_firstblock) / bits_per_block
            → bitmap_free_block sb b disk' a ≡ disk a)
  bitmap_free_block-alloc b disk' e =
      let (lo, hi, clear, full, set) =
        subst (BlockAllocated sb disk) e (bitmap_alloc_block-Allocated sb l disk v) in
      let freed = bitmap_free_block-BitSet sb l disk' set.bytes b lo hi in
      (
        λ m. ground (arith, clear, set.bits m, freed.bits m),
        λ a ne. freed.others a ne ∙ set.others a ne,
      )

  -- On a layout whose bitmaps have a bit for each number, all within 32 bits, and a disk of bytes, allocating an inode changes no bit of the data bitmap.
  pub bitmap_alloc_inode-data :
      (r : Option ℕ) (disk' : Disk)
      → bitmap_alloc_inode sb disk ≡ (r, disk')
      → (m : ℕ) → used disk' data_bitmap_firstblock m ≡ used disk data_bitmap_firstblock m
  bitmap_alloc_inode-data none disk' e m =
      let (same, full) =
        subst (Allocated disk inode_bitmap_firstblock 0 total_inodes) e
          (bitmap_alloc_inode-Allocated sb l disk v) in
      rw same refl
  bitmap_alloc_inode-data (some k) disk' e m =
      let (lo, hi, c, full, set) =
        subst (Allocated disk inode_bitmap_firstblock 0 total_inodes) e
          (bitmap_alloc_inode-Allocated sb l disk v) in
      ap (λ b. bit_of b (m % bits_per_block)) (set.others _ (omega arith))

  -- On a layout whose bitmaps have a bit for each number, all within 32 bits, and a disk of bytes, the second of two allocations in a row returns a higher block than the first.
  pub bitmap_alloc_block-fresh :
      (b c : ℕ) (disk' disk'' : Disk)
      → bitmap_alloc_block sb disk ≡ (some b, disk')
      → bitmap_alloc_block sb disk' ≡ (some c, disk'')
      → b < c
  bitmap_alloc_block-fresh b c disk' disk'' e f =
      let (lo, hi, clear, full, set) =
        subst (BlockAllocated sb disk) e (bitmap_alloc_block-Allocated sb l disk v) in
      let (lo', hi', clear', full', set') =
        subst (BlockAllocated sb disk') f (bitmap_alloc_block-Allocated sb l disk' set.bytes) in
      ground (arith, full (c - data_firstblock), set.bits (c - data_firstblock))
