-- ===== src/Fs/Bitmap.antt =====
-- src/kernel/fs/bitmap.c: the bitmaps of the data blocks and of the inodes. `none` stands for the
-- result (uint32)-1.
pub mod Bits
pub mod Search
pub mod Alloc
pub mod Numbers
pub mod Roundtrip
mod Tests
use Prim.Native.Nat.{bit_and, bit_or}
use biglab.Prelude.{
  ℕ, zero, suc, ◌+◌, ◌-◌, ◌*◌, ◌/◌, ◌%◌, ◌^◌, Bool, not, Option, none, some, ◌==◌, ltb,
  if◌then◌else◌, update, u32, sub32,
}
use biglab.Fs.Disk.{Block, Disk, bits_per_block, SuperBlock}

-- `buf->data[i / 8] & (1 << (i % 8))`, as a test.
abbrev pub bit_of : Block → ℕ → Bool
bit_of bytes i = not (bit_and (bytes (i / 8)) (2 ^ (i % 8)) == 0)

-- `buf->data[i / 8] |= (1 << (i % 8))`.
pub set_bit : Block → ℕ → Block
set_bit bytes i = update bytes (i / 8) (bit_or (bytes (i / 8)) (2 ^ (i % 8)))

-- `buf->data[i / 8] &= ~(1 << (i % 8))`.
pub clear_bit : Block → ℕ → Block
clear_bit bytes i = update bytes (i / 8) (bit_and (bytes (i / 8)) (255 - 2 ^ (i % 8)))

-- The loop of `bitmap_search_and_set`, over `n` bits from `i`.
pub search_loop : Block → ℕ → ℕ → Option ℕ
search_loop bytes zero i = none
search_loop bytes (suc n) i =
    let rest = search_loop bytes n (suc i) in if bit_of bytes i then rest else some i

-- `bitmap_search_and_set`.
pub bitmap_search_and_set : Disk → ℕ → ℕ → Option ℕ × Disk
unfolding search_loop set_bit
bitmap_search_and_set disk block valid_count = elim (search_loop (disk block) valid_count 0) [
  | none ↦ (none, disk)
  | some i ↦ (some i, update disk block (set_bit (disk block) i))
]

-- `bitmap_clear`.
pub bitmap_clear : Disk → ℕ → ℕ → Disk
unfolding clear_bit
bitmap_clear disk block index = update disk block (clear_bit (disk block) index)

-- The loop of `bitmap_alloc_block` and `bitmap_alloc_inode` over `n` bitmap blocks from the `i`th,
-- with `count` bits left. The result is `i * bits_per_blk + idx`.
pub alloc_loop : ℕ → ℕ → ℕ → ℕ → Disk → Option ℕ × Disk
unfolding bitmap_search_and_set
alloc_loop first zero i count disk = (none, disk)
alloc_loop first (suc n) i count disk =
    let search_len = if ltb bits_per_block count then bits_per_block else count in
    let found = bitmap_search_and_set disk (u32 (first + i)) search_len in
    let rest = alloc_loop first n (suc i) (count - search_len) found.1 in
    elim found.0 [ none ↦ rest | some idx ↦ (some (u32 (i * bits_per_block + idx)), found.1) ]

module _ (sb : SuperBlock) where
  open sb use {
    inode_bitmap_firstblock, inode_bitmap_blocks, total_inodes, data_bitmap_firstblock,
    data_bitmap_blocks, data_blocks, data_firstblock,
  }

  -- The number of the first block of bytes is added to what the loop found.
  global_block : Option ℕ × Disk → Option ℕ × Disk
  global_block (none, disk) = (none, disk)
  global_block (some n, disk) = (some (u32 (data_firstblock + n)), disk)

  pub bitmap_alloc_block : Disk → Option ℕ × Disk
  unfolding alloc_loop global_block
  bitmap_alloc_block disk =
      global_block (alloc_loop data_bitmap_firstblock data_bitmap_blocks 0 data_blocks disk)

  pub bitmap_alloc_inode : Disk → Option ℕ × Disk
  unfolding alloc_loop
  bitmap_alloc_inode disk =
      alloc_loop inode_bitmap_firstblock inode_bitmap_blocks 0 total_inodes disk

  pub bitmap_free_block : ℕ → Disk → Disk
  unfolding bitmap_clear
  bitmap_free_block block_num disk =
      let offset = sub32 block_num data_firstblock in
      bitmap_clear disk (u32 (data_bitmap_firstblock + offset / bits_per_block))
        (offset % bits_per_block)

  pub bitmap_free_inode : ℕ → Disk → Disk
  unfolding bitmap_clear
  bitmap_free_inode inode_num disk =
      bitmap_clear disk (u32 (inode_bitmap_firstblock + inode_num / bits_per_block))
        (inode_num % bits_per_block)
