-- ===== src/Mkfs/Blocks.antt =====
-- The bitmaps of the image: the numbers in use are those below the two counters, and the kernel goes on from there.
use Prim.Native.Nat.{bit_and}
use biglab.Prelude.{
  every, every_at, ℕ, ◌+◌, ◌-◌, ◌/◌, ◌%◌, ◌^◌, ◌≤◌, ◌<◌, ◌≡◌, refl, ap, ◌∙◌, Bool, true, false,
  arith, Option, none, some, ◌==◌, ltb,
}
use biglab.Fs.Disk.{Disk, bits_per_block}
use biglab.Fs.Bitmap.{bit_of, bitmap_alloc_block}
use biglab.Fs.Bitmap.Search.{used, IsDisk, set_bit-BitSet}
use biglab.Fs.Bitmap.Numbers.{BlockAllocated, bitmap_alloc_block-Allocated}
use biglab.Mkfs.{sb, Image, mark, block_alloc, inode_alloc, blank}
use biglab.Mkfs.Layout.{sb-IsLayout}

-- The bits that are set are those of the numbers below the counters.
pub record Exact (s : Image) : Type 0 where
  pub bytes : IsDisk s.disk
  pub data_bits :
      (m : ℕ)
      → m < sb.data_blocks
      → used s.disk sb.data_bitmap_firstblock m ≡ ltb m s.global_block_num
  pub inode_bits :
      (m : ℕ)
      → m < sb.total_inodes
      → used s.disk sb.inode_bitmap_firstblock m ≡ ltb m s.global_inode_num

-- On an exact image with a free block, `block_alloc` gives the next block of data and leaves an exact image.
pub block_alloc-Exact :
    (s : Image) → Exact s → s.global_block_num < sb.data_blocks → Exact (block_alloc s).1
unfolding block_alloc mark
block_alloc-Exact s v room =
    let b = set_bit-BitSet s.disk v.bytes sb.data_bitmap_firstblock s.global_block_num in
    record {
      bytes = b.bytes;
      data_bits = λ m h. b.bits m ∙ ground (arith, v.data_bits m h);
      inode_bits = λ m h.
          ap (λ d. bit_of d (m % bits_per_block))
            (b.others (sb.inode_bitmap_firstblock + m / bits_per_block) (λ e. omega (arith, e, h)))
          ∙ v.inode_bits m h;
    }

-- On an exact image with a free inode, `inode_alloc` gives the next inode number and leaves an exact image.
pub inode_alloc-Exact :
    (s : Image) → Exact s → s.global_inode_num < sb.total_inodes → Exact (inode_alloc s).1
unfolding inode_alloc mark
inode_alloc-Exact s v room =
    let b = set_bit-BitSet s.disk v.bytes sb.inode_bitmap_firstblock s.global_inode_num in
    record {
      bytes = b.bytes;
      data_bits = λ m h.
          ap (λ d. bit_of d (m % bits_per_block))
            (b.others (sb.data_bitmap_firstblock + m / bits_per_block)
              (λ e. omega (arith, e, room)))
          ∙ v.data_bits m h;
      inode_bits = λ m h. b.bits m ∙ ground (arith, v.inode_bits m h);
    }

next_block :
    (s : Image) (r : Option ℕ × Disk)
    → Exact s
    → s.global_block_num < sb.data_blocks
    → BlockAllocated sb s.disk r
    → r.0 ≡ some (sb.data_firstblock + s.global_block_num)
next_block s (none, d) v room (same, full) =
    absurd (ground (arith, full s.global_block_num room, v.data_bits s.global_block_num room))
next_block s (some b, d) v room (lo, hi, free, below, set) =
    let k = b - sb.data_firstblock in
    let least : s.global_block_num ≤ k = ground (arith, v.data_bits k, free, hi, lo) in
    let most : ¬ (s.global_block_num < k) =
      λ h. ground (arith, below s.global_block_num h, v.data_bits s.global_block_num room) in
    ap some (ground (arith, least, most, lo))

-- The first block that the kernel allocates on an exact image with a free block is the one that mkfs would have given next.
pub bitmap_alloc_block-block_alloc :
    (s : Image)
    → Exact s
    → s.global_block_num < sb.data_blocks
    → (bitmap_alloc_block sb s.disk).0 ≡ some (block_alloc s).0
unfolding block_alloc
bitmap_alloc_block-block_alloc s v room =
    next_block s (bitmap_alloc_block sb s.disk) v room
      (bitmap_alloc_block-Allocated sb (sb-IsLayout 0 (omega arith)).0 s.disk v.bytes)

abbrev zero_test : ℕ → Bool
zero_test k = bit_and 0 (2 ^ k) == 0

zero_table : every zero_test 8 ≡ true
unfolding every
zero_table = refl

zero_bit : (k : ℕ) → bit_of (λ a. 0) k ≡ false
zero_bit k =
    let z : (bit_and 0 (2 ^ (k % 8)) == 0) ≡ true =
      every_at zero_test 8 zero_table (k % 8) (omega arith) in
    rw z refl

below_zero : (m : ℕ) → false ≡ ltb m 0
below_zero m = ground arith

-- The image of zeros is exact.
pub blank-Exact : (disk : Disk) → IsDisk disk → Exact (blank disk)
blank-Exact disk d = record {
  bytes = λ b a. ground (arith, d b a);
  data_bits = λ m h.
      let e : ltb (sb.data_bitmap_firstblock + m / bits_per_block) sb.total_blocks ≡ true =
        ground (arith, h) in
      rw e (zero_bit (m % bits_per_block)) ∙ below_zero m;
  inode_bits = λ m h.
      let e : ltb (sb.inode_bitmap_firstblock + m / bits_per_block) sb.total_blocks ≡ true =
        ground (arith, h) in
      rw e (zero_bit (m % bits_per_block)) ∙ below_zero m;
}
