-- ===== src/Mkfs.antt =====
-- src/mkfs: the program that makes the disk image. The image file is the kernel's disk; the calls of the
-- host on it succeed. `xint` and `xshort` write a number with its low byte first, as the host does.
pub mod Layout
pub mod Blocks
pub mod Append
pub mod NewBlocks
pub mod Files
mod Tests
use biglab.Prelude.{
  ℕ, zero, suc, ◌+◌, ◌-◌, ◌*◌, ◌/◌, ◌%◌, ◌^◌, Bool, ◌&&◌, ◌==◌, ltb, leb, if◌then◌else◌, update,
  u32,
}
use biglab.Prelude.Run.{Run, ok, out_of_fuel, Cmd, pure, ◌>>=◌}
use biglab.Fs.Disk.{Block, Disk, bits_per_block, SuperBlock}
use biglab.Fs.Bitmap.{set_bit}
use biglab.Fs.Inode.{InodeDisk, put_record}

-- BLOCK_SIZE, N_DATA_BLOCK, N_INODE, INODE_PER_BLOCK, INODE_INDEX_1 and FS_MAGIC of mkfs.h.
abbrev pub block_size : ℕ
block_size = 4096

abbrev pub n_data_block : ℕ
n_data_block = 32 * 1024

abbrev pub n_inode : ℕ
n_inode = 2 ^ 16

abbrev pub inode_per_block : ℕ
inode_per_block = 64

abbrev pub inode_block_index_1 : ℕ
inode_block_index_1 = 10

abbrev pub fs_magic : ℕ
fs_magic = 305402420

-- COUNT_BLOCKS.
abbrev pub count_blocks : ℕ → ℕ → ℕ
count_blocks ele_num ele_per_block = u32 (ele_num + ele_per_block - 1) / ele_per_block

-- The super block, as `main` fills it in.
abbrev pub sb : SuperBlock
sb =
    let inode_bitmap_blocks = count_blocks n_inode bits_per_block in
    let inode_firstblock = 1 + inode_bitmap_blocks in
    let inode_blocks = count_blocks n_inode inode_per_block in
    let data_bitmap_firstblock = inode_firstblock + inode_blocks in
    let data_bitmap_blocks = count_blocks n_data_block bits_per_block in
    let data_firstblock = data_bitmap_firstblock + data_bitmap_blocks in
    record {
      magic_num = fs_magic;
      block_size = block_size;
      total_blocks = 1 + inode_bitmap_blocks + inode_blocks + data_bitmap_blocks + n_data_block;
      total_inodes = n_inode;
      inode_bitmap_firstblock = 1;
      inode_bitmap_blocks = inode_bitmap_blocks;
      inode_firstblock = inode_firstblock;
      inode_blocks = inode_blocks;
      data_bitmap_firstblock = data_bitmap_firstblock;
      data_bitmap_blocks = data_bitmap_blocks;
      data_firstblock = data_firstblock;
      data_blocks = n_data_block;
    }

-- The image, the two counters, and `data_buf`, which keeps what was written last.
pub record Image : Type 0 where
  pub disk : Disk
  pub global_inode_num : ℕ
  pub global_block_num : ℕ
  pub data_buf : Block

-- The bit of a number in the bitmap that begins at `first` is set.
pub mark : ℕ → ℕ → Disk → Disk
mark first num disk =
    let block_num = first + num / bits_per_block in
    update disk block_num (set_bit (disk block_num) (num % bits_per_block))

pub block_alloc : Image → ℕ × Image
block_alloc s = (
  sb.data_firstblock + s.global_block_num,
  record s {
    disk = mark sb.data_bitmap_firstblock s.global_block_num s.disk;
    global_block_num = s.global_block_num + 1;
  },
)

pub inode_alloc : Image → ℕ × Image
inode_alloc s = (
  s.global_inode_num,
  record s {
    disk = mark sb.inode_bitmap_firstblock s.global_inode_num s.disk;
    global_inode_num = s.global_inode_num + 1;
  },
)

abbrev pub inode_init : ℕ → ℕ → ℕ → InodeDisk
inode_init type major minor = record {
  type = type;
  major = major;
  minor = minor;
  nlink = 1;
  size = 0;
  index = λ i. 0;
}

-- `inode_rw(inode_num, ip, true)`.
unfoldable pub put_inode : ℕ → InodeDisk → Disk → Disk
put_inode inode_num ip disk =
    let block_num = sb.inode_firstblock + inode_num / inode_per_block in
    update disk block_num (put_record (disk block_num) (inode_num % inode_per_block) ip)

-- The image that `main` begins with: every block zero.
abbrev pub blank : Disk → Image
blank disk = record {
  disk = λ b. if ltb b sb.total_blocks then (λ a. 0) else disk b;
  global_inode_num = 0;
  global_block_num = 0;
  data_buf = λ a. 0;
}

-- The first loop of `inode_append`: `n` blocks for the slots from `i` on.
pub alloc_loop : ℕ → ℕ → (ℕ → ℕ) → Image → (ℕ → ℕ) × Image
alloc_loop zero i index s = (index, s)
alloc_loop (suc n) i index s =
    let (b, s') = block_alloc s in alloc_loop n (i + 1) (update index i b) s'

-- `memcpy(buf + offset, src + from, len)`.
abbrev pub put_bytes : Block → ℕ → (ℕ → ℕ) → ℕ → ℕ → Block
put_bytes buf offset src from len a =
    if leb offset a && ltb a (offset + len) then src (from + (a - offset)) else buf a

-- The second loop of `inode_append`, of the bytes of `src` from `from` on, into the slots from `tmp` on.
pub append_loop : ℕ → (ℕ → ℕ) → ℕ → (ℕ → ℕ) → ℕ → ℕ → ℕ → Cmd Image (Unit {0})
append_loop fuel index size src tmp from zero s = ok tt s
append_loop zero index size src tmp from (suc len) s = out_of_fuel
append_loop (suc fuel) index size src tmp from (suc len) s =
    let first = tmp == size / block_size in
    let offset = if first then size % block_size else 0 in
    let rest = suc len in
    let cut_len = if ltb (block_size - offset) rest then block_size - offset else rest in
    let old = if first then s.disk (index tmp) else s.data_buf in
    let buf = put_bytes old offset src from cut_len in
    append_loop fuel index size src (tmp + 1) (from + cut_len) (rest - cut_len)
      (record s { data_buf = buf; disk = update s.disk (index tmp) buf })

-- `inode_append`, with a round for each byte; the inode is part of the result.
pub inode_append : InodeDisk → (ℕ → ℕ) → ℕ → Cmd Image InodeDisk
inode_append ip src len s =
    let old_blocks = count_blocks ip.size block_size in
    let new_blocks = count_blocks (ip.size + len) block_size in
    let (index, s') = alloc_loop (new_blocks - old_blocks) old_blocks ip.index s in
    let write =
      (append_loop len index ip.size src (ip.size / block_size) 0 len >>= λ _.
      pure (record ip { index = index; size = u32 (ip.size + len) }))
        s' in
    if ltb old_blocks new_blocks && ltb inode_block_index_1 new_blocks then ok ip s else write
