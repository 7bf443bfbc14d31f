-- ===== src/Fs/Inode.antt =====
-- src/kernel/fs/type.h and inode.c: an inode on the disk and in memory, and `inode_rw` between the two.
-- An `inode_disk_t` has 64 bytes: four numbers of 16 bits, the size, and the 13 numbers of the index,
-- the low byte of each first.
pub mod Record
pub mod Area
mod Tests
use biglab.Prelude.{
  ℕ, Option, ◌+◌, ◌-◌, ◌*◌, ◌/◌, ◌%◌, Bool, true, ◌&&◌, ◌==◌, ltb, leb, if◌then◌else◌, update, u32,
}
use biglab.Fs.Disk.{Block, Disk, SuperBlock}
use biglab.Fs.Index.{get32}

-- `inode_disk_t`. `index` has 13 numbers; a number past the array reads as 0.
pub record InodeDisk : Type 0 where
  pub type : ℕ
  pub major : ℕ
  pub minor : ℕ
  pub nlink : ℕ
  pub size : ℕ
  pub index : ℕ → ℕ

-- `inode_t`. `slk` is the pid that holds the sleeplock, if one does.
pub record Inode : Type 0 where
  pub disk_info : InodeDisk
  pub valid_info : Bool
  pub inode_num : ℕ
  pub ref : ℕ
  pub slk : Option ℕ

-- INODE_TYPE_DATA, INODE_TYPE_DIR and INODE_TYPE_DEVICE.
abbrev pub inode_type_data : ℕ
inode_type_data = 0

abbrev pub inode_type_dir : ℕ
inode_type_dir = 1

abbrev pub inode_type_device : ℕ
inode_type_device = 2

-- INODE_PER_BLOCK, which is BLOCK_SIZE / sizeof(inode_disk_t).
abbrev pub inode_per_block : ℕ
inode_per_block = 64

-- The byte `k` of a number.
abbrev pub byte_at : ℕ → ℕ → ℕ
byte_at v k =
    if k == 0
    then v % 256
    else if k == 1
    then v / 256 % 256
    else if k == 2
    then v / 65536 % 256
    else v / 16777216 % 256

-- The 64 bytes of an `inode_disk_t`.
abbrev pub record_byte : InodeDisk → ℕ → ℕ
record_byte info k =
    if ltb k 2
    then byte_at info.type k
    else if ltb k 4
    then byte_at info.major (k - 2)
    else if ltb k 6
    then byte_at info.minor (k - 4)
    else if ltb k 8
    then byte_at info.nlink (k - 6)
    else if ltb k 12
    then byte_at info.size (k - 8)
    else byte_at (info.index ((k - 12) / 4)) ((k - 12) % 4)

-- `disk_inode[offset] = info`, where `disk_inode` is `(inode_disk_t *)buf->data`.
unfoldable pub put_record : Block → ℕ → InodeDisk → Block
put_record b offset info a =
    if leb (64 * offset) a && ltb a (64 * offset + 64)
    then record_byte info (a - 64 * offset)
    else b a

abbrev pub get16 : Block → ℕ → ℕ
get16 b a = b a + 256 * b (a + 1)

-- `disk_inode[offset]`.
unfoldable pub get_record : Block → ℕ → InodeDisk
get_record b offset = record {
  type = get16 b (64 * offset + 0);
  major = get16 b (64 * offset + 2);
  minor = get16 b (64 * offset + 4);
  nlink = get16 b (64 * offset + 6);
  size = get32 b (16 * offset + 2);
  index = λ i. if ltb i 13 then get32 b (16 * offset + 3 + i) else 0;
}

module _ (sb : SuperBlock) where
  abbrev pub inode_block : ℕ → ℕ
  inode_block inode_num = u32 (sb.inode_firstblock + inode_num / inode_per_block)

  -- `inode_rw(ip, true)`.
  unfoldable pub inode_rw_write : Inode → Disk → Disk
  unfolding put_record
  inode_rw_write ip disk =
      let block_num = inode_block ip.inode_num in
      update disk block_num
        (put_record (disk block_num) (ip.inode_num % inode_per_block) ip.disk_info)

  -- `inode_rw(ip, false)`.
  unfoldable pub inode_rw_read : Inode → Disk → Inode
  unfolding get_record
  inode_rw_read ip disk = record ip {
    disk_info = get_record (disk (inode_block ip.inode_num)) (ip.inode_num % inode_per_block);
    valid_info = true;
  }
