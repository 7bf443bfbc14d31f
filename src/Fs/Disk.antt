-- ===== src/Fs/Disk.antt =====
-- The disk under src/kernel/fs, and the super block. `buffer_get` reads a block through the cache,
-- `buffer_write` writes it back at once and `buffer_put` returns it: a change of a block between a
-- get and its write is one step on the disk.
use biglab.Prelude.{ℕ}

-- The bytes of each block.
abbrev pub Block : Type 0
Block = ℕ → ℕ

abbrev pub Disk : Type 0
Disk = ℕ → Block

-- BIT_PER_BLOCK.
abbrev pub bits_per_block : ℕ
bits_per_block = 32768

-- `super_block_t`, all fields of 32 bits.
pub record SuperBlock : Type 0 where
  pub magic_num : ℕ
  pub block_size : ℕ
  pub total_blocks : ℕ
  pub total_inodes : ℕ
  pub inode_bitmap_firstblock : ℕ
  pub inode_bitmap_blocks : ℕ
  pub inode_firstblock : ℕ
  pub inode_blocks : ℕ
  pub data_bitmap_firstblock : ℕ
  pub data_bitmap_blocks : ℕ
  pub data_firstblock : ℕ
  pub data_blocks : ℕ
