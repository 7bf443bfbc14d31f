-- ===== src/Fs/Index.antt =====
-- src/kernel/fs/inode.c, the index of an inode: 10 blocks directly, 2 tables of 1024 blocks, and one
-- table of 1024 tables. A table is a block read as 1024 numbers of 32 bits, the low byte first.
pub mod Entry
pub mod Nodes
pub mod Grow
pub mod Tables
pub mod Ensure
pub mod Leaves
pub mod Locate
mod Tests
use biglab.Prelude.{
  ℕ, ◌+◌, ◌-◌, ◌*◌, ◌/◌, ◌%◌, Bool, true, false, Option, none, some, ◌==◌, ltb, if◌then◌else◌,
  update,
}
use biglab.Fs.Disk.{Block, Disk, SuperBlock}
use biglab.Fs.Bitmap.{bitmap_alloc_block}

-- `table[i]` and `table[i] = v`, where `table` is `(uint32 *)buf->data`.
abbrev pub get32 : Block → ℕ → ℕ
get32 b i = b (4 * i) + 256 * b (4 * i + 1) + 65536 * b (4 * i + 2) + 16777216 * b (4 * i + 3)

abbrev pub set32 : Block → ℕ → ℕ → Block
set32 b i v =
    update
      (update (update (update b (4 * i) (v % 256)) (4 * i + 1) (v / 256 % 256)) (4 * i + 2)
        (v / 65536 % 256))
      (4 * i + 3) (v / 16777216 % 256)

-- A new block is zeroed: `memset(buf->data, 0, BLOCK_SIZE)`, and written.
abbrev pub zero_block : ℕ → Disk → Disk
zero_block b disk = update disk b (λ a. 0)

-- `inode_index` and the disk.
pub record Store : Type 0 where
  pub index : ℕ → ℕ
  pub disk : Disk

-- INODE_INDEX_1 and INODE_INDEX_2.
abbrev pub inode_index_1 : ℕ
inode_index_1 = 10

abbrev pub inode_index_2 : ℕ
inode_index_2 = 12

module _ (sb : SuperBlock) where
  -- A slot of the index, with a new block where it holds 0. `none` is the result -1.
  pub ensure_slot : ℕ → Store → Option ℕ × Store
  ensure_slot i s =
      let (found, disk) = bitmap_alloc_block sb s.disk in
      if s.index i == 0
      then (elim found [
        | none ↦ (none, record s { disk = disk })
        | some b ↦ (some b, record { index = update s.index i b; disk = zero_block b disk })
      ])
      else (some (s.index i), s)

  -- The entry `off` of the table in the block `t`, with a new block where it holds 0.
  pub ensure_entry : ℕ → ℕ → Store → Option ℕ × Store
  ensure_entry t off s =
      let target = get32 (s.disk t) off in
      let (found, disk) = bitmap_alloc_block sb s.disk in
      if target == 0
      then (elim found [
        | none ↦ (none, record s { disk = disk })
        | some b ↦ (some b, record s { disk = zero_block b (update disk t (set32 (disk t) off b)) })
      ])
      else (some target, s)

  -- A command for the block that the first one found.
  abbrev pub with_block : Option ℕ × Store → (ℕ → Store → Option ℕ × Store) → Option ℕ × Store
  with_block (none, s) k = (none, s)
  with_block (some b, s) k = k b s

  pub locate_or_add_block : ℕ → Store → Option ℕ × Store
  unfolding ensure_slot ensure_entry
  locate_or_add_block n s =
      let n1 = n - inode_index_1 in
      let n2 = n1 - 2 * 1024 in
      if ltb n inode_index_1
      then ensure_slot n s
      else if ltb n1 (2 * 1024)
      then with_block (ensure_slot (inode_index_1 + n1 / 1024) s) (λ t. ensure_entry t (n1 % 1024))
      else if ltb n2 (1024 * 1024)
      then with_block (ensure_slot inode_index_2 s)
          (λ l2 s'. with_block (ensure_entry l2 (n2 / 1024) s') (λ l1. ensure_entry l1 (n2 % 1024)))
      else (none, s)
