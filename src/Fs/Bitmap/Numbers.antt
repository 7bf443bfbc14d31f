-- ===== src/Fs/Bitmap/Numbers.antt =====
-- src/kernel/fs/bitmap.c: what the four operations do to the numbers of inodes and of data blocks.
use biglab.Prelude.{
  ℕ, ◌+◌, ◌-◌, ◌*◌, ◌/◌, ◌^◌, ◌≤◌, ◌<◌, ◌≡◌, sym, true, false, arith, Option, none, some, u32,
  sub32,
}
use biglab.Fs.Disk.{Disk, SuperBlock, bits_per_block}
use biglab.Fs.Bitmap.{
  alloc_loop, bitmap_alloc_block, bitmap_alloc_inode, bitmap_clear, bitmap_free_block,
  bitmap_free_inode, global_block,
}
use biglab.Fs.Bitmap.Search.{used, IsDisk, BitSet, clear_bit-BitSet}
use biglab.Fs.Bitmap.Alloc.{Allocated, alloc_loop-Allocated}

-- Both bitmaps have a bit for each number, and the numbers and the bits fit in 32 bits.
pub record IsLayout (sb : SuperBlock) : Type 0 where
  pub inode_bits : sb.total_inodes ≤ sb.inode_bitmap_blocks * bits_per_block
  pub inode_fits : sb.inode_bitmap_blocks * bits_per_block ≤ 2 ^ 32
  pub inode_place : sb.inode_bitmap_firstblock + sb.inode_bitmap_blocks ≤ sb.data_bitmap_firstblock
  pub data_bits : sb.data_blocks ≤ sb.data_bitmap_blocks * bits_per_block
  pub data_fits : sb.data_bitmap_blocks * bits_per_block ≤ 2 ^ 32
  pub data_place : sb.data_bitmap_firstblock + sb.data_bitmap_blocks ≤ sb.data_firstblock
  pub end_fits : sb.data_firstblock + sb.data_blocks < 2 ^ 32

-- The answer of `bitmap_alloc_block`: the block `data_firstblock + k` for the lowest free bit `k`.
abbrev pub BlockAllocated : SuperBlock → Disk → Option ℕ × Disk → Type 0
BlockAllocated sb disk (none, disk') =
    (disk' ≡ disk) × ((m : ℕ) → m < sb.data_blocks → used disk sb.data_bitmap_firstblock m ≡ true)
BlockAllocated sb disk (some b, disk') =
    let k = b - sb.data_firstblock in
    (sb.data_firstblock ≤ b)
    × (b < sb.data_firstblock + sb.data_blocks)
    × (used disk sb.data_bitmap_firstblock k ≡ false)
    × ((m : ℕ) → m < k → used disk sb.data_bitmap_firstblock m ≡ true)
    × BitSet disk disk' sb.data_bitmap_firstblock k true

module _ (sb : SuperBlock) (l : IsLayout sb) (disk : Disk) (v : IsDisk disk) where
  open sb use {
    total_inodes, inode_bitmap_firstblock, inode_bitmap_blocks, data_bitmap_firstblock,
    data_bitmap_blocks, data_blocks, data_firstblock,
  }
  open l use {inode_bits, inode_fits, inode_place, data_bits, data_fits, data_place, end_fits}

  -- On a layout whose bitmaps have a bit for each number, all within 32 bits, and a disk of bytes,
  -- `bitmap_alloc_inode` takes the lowest free inode number below `total_inodes` and sets its bit
  -- and no other bit of the inode bitmap, and no other block; or all these numbers are in use, it
  -- reports that, and the disk stays as it is.
  pub bitmap_alloc_inode-Allocated :
      Allocated disk inode_bitmap_firstblock 0 total_inodes (bitmap_alloc_inode sb disk)
  bitmap_alloc_inode-Allocated =
      unfold bitmap_alloc_inode in
      alloc_loop-Allocated disk v inode_bitmap_firstblock inode_bitmap_blocks 0 total_inodes
        total_inodes (omega arith) inode_bits (omega arith) (omega arith)

  block_of_bit :
      (r : Option ℕ × Disk)
      → Allocated disk data_bitmap_firstblock 0 data_blocks r
      → BlockAllocated sb disk (global_block sb r)
  unfolding global_block
  block_of_bit (none, d) (same, full) = (same, λ m h. full m (omega arith) h)
  block_of_bit (some k, d) (lo, hi, c, full, b) =
      let e : u32 (data_firstblock + k) ≡ data_firstblock + k = omega arith in
      let q : k ≡ data_firstblock + k - data_firstblock = omega arith in
      rw e (
        omega arith,
        omega arith,
        rw (sym q) c,
        λ m h. full m (omega arith) (omega arith),
        rw (sym q) b,
      )

  -- On a layout whose bitmaps have a bit for each number, all within 32 bits, and a disk of bytes, `bitmap_alloc_block` returns the block `data_firstblock + k`
  -- for the lowest free bit `k` below `data_blocks`, and sets that bit and no other of the data
  -- bitmap, and no other block; or all these bits are set, it reports that, and the disk stays as it is.
  pub bitmap_alloc_block-Allocated : BlockAllocated sb disk (bitmap_alloc_block sb disk)
  bitmap_alloc_block-Allocated =
      unfold bitmap_alloc_block in
      block_of_bit (alloc_loop data_bitmap_firstblock data_bitmap_blocks 0 data_blocks disk) (
        alloc_loop-Allocated disk v data_bitmap_firstblock data_bitmap_blocks 0 data_blocks
          data_blocks (omega arith) data_bits (omega arith) (omega arith))

  -- On a layout whose bitmaps have a bit for each number, all within 32 bits, and a disk of bytes, `bitmap_free_inode` of a number below `total_inodes` clears
  -- its bit, and changes no other bit of the inode bitmap and no other block.
  pub bitmap_free_inode-BitSet :
      (n : ℕ)
      → n < total_inodes
      → BitSet disk (bitmap_free_inode sb n disk) inode_bitmap_firstblock n false
  bitmap_free_inode-BitSet n h =
      let e : u32 (inode_bitmap_firstblock + n / bits_per_block)
          ≡ inode_bitmap_firstblock + n / bits_per_block =
        omega arith in
      unfold bitmap_free_inode in
      unfold bitmap_clear in rw e (clear_bit-BitSet disk v inode_bitmap_firstblock n)

  -- On a layout whose bitmaps have a bit for each number, all within 32 bits, and a disk of bytes, `bitmap_free_block` of a data block clears its bit, and
  -- changes no other bit of the data bitmap and no other block.
  pub bitmap_free_block-BitSet :
      (b : ℕ)
      → data_firstblock ≤ b
      → b < data_firstblock + data_blocks
      → BitSet disk (bitmap_free_block sb b disk) data_bitmap_firstblock (b - data_firstblock) false
  bitmap_free_block-BitSet b lo hi =
      let k = b - data_firstblock in
      let e : sub32 b data_firstblock ≡ k = omega arith in
      let q : u32 (data_bitmap_firstblock + k / bits_per_block)
          ≡ data_bitmap_firstblock + k / bits_per_block =
        omega arith in
      unfold bitmap_free_block in
      unfold bitmap_clear in rw (e, q) (clear_bit-BitSet disk v data_bitmap_firstblock k)
