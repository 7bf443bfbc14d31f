-- ===== src/Fs/Sample.antt =====
-- A small disk for the tests of the file system: ten inodes and twenty blocks of data.
use biglab.Prelude.{
  ◌≡◌, refl, ◌≢◌, ◌⊎◌, inl, inr, true, false, Bool-cases, arith, none, ◌==◌, if◌then◌else◌, update,
  sym, ◌∙◌, ap, subst, eqb→eq,
}
use biglab.Fs.Disk.{Disk, SuperBlock}
use biglab.Fs.Bitmap.Search.{IsDisk}
use biglab.Fs.Bitmap.Numbers.{IsLayout}
use biglab.Fs.Index.{Store}
use biglab.Fs.Index.Nodes.{Node, slot, child, grand, IsNode, at, InOrder, IsData, taken}
use biglab.Fs.Inode.{Inode}
use biglab.Fs.Inode.Record.{Fits}
use biglab.Fs.Cache.{Fs}

abbrev pub small_sb : SuperBlock
small_sb = record {
  magic_num = 0;
  block_size = 4096;
  total_blocks = 30;
  total_inodes = 10;
  inode_bitmap_firstblock = 1;
  inode_bitmap_blocks = 1;
  inode_firstblock = 2;
  inode_blocks = 1;
  data_bitmap_firstblock = 3;
  data_bitmap_blocks = 1;
  data_firstblock = 10;
  data_blocks = 20;
}

pub small_sb-IsLayout : IsLayout small_sb
small_sb-IsLayout = record {
  inode_bits = omega arith;
  inode_fits = omega arith;
  inode_place = omega arith;
  data_bits = omega arith;
  data_fits = omega arith;
  data_place = omega arith;
  end_fits = omega arith;
}

-- The first three blocks of data are in use, and all but the last byte's inodes.
abbrev pub small_disk : Disk
small_disk = update (update (λ b a. 0) 3 (update (λ a. 0) 0 7)) 1 (update (λ a. 0) 0 255)

pub small_disk-IsDisk : IsDisk small_disk
small_disk-IsDisk b a = ground arith

-- An inode of a file without blocks, and one of a directory of one entry, "a" with the number 5, in block 10.
abbrev pub empty_inode : Inode
empty_inode = record {
  disk_info = record { type = 0; major = 1; minor = 1; nlink = 1; size = 0; index = λ i. 0 };
  valid_info = true;
  inode_num = 2;
  ref = 1;
  slk = none;
}

abbrev pub empty_store : Store
empty_store = record { index = λ i. 0; disk = small_disk }

abbrev pub dir_disk : Disk
dir_disk = update small_disk 10 (λ a. if a == 0 then 97 else if a == 60 then 5 else 0)

abbrev pub dir_inode : Inode
dir_inode = record empty_inode {
  disk_info = record {
    type = 1;
    major = 1;
    minor = 1;
    nlink = 2;
    size = 64;
    index = update (λ i. 0) 0 10;
  };
  inode_num = 0;
}

abbrev pub dir_store : Store
dir_store = record { index = update (λ i. 0) 0 10; disk = dir_disk }

-- The directory in slot 0, the file in slot 1, and free slots.
abbrev pub small_fs : Fs
small_fs = record {
  cache =
      update
        (update (λ i. record empty_inode { valid_info = false; ref = 0; inode_num = 0 }) 1
          empty_inode)
        0 dir_inode;
  disk = dir_disk;
  pid = 1;
  cwd = 0;
}

pub empty_inode-Fits : Fits empty_inode.disk_info
empty_inode-Fits = record {
  type_fits = omega arith;
  major_fits = omega arith;
  minor_fits = omega arith;
  nlink_fits = omega arith;
  size_fits = omega arith;
  index_fits = λ i n. omega arith;
}

no_block : (p : Node) → at p empty_store ≡ 0
no_block (slot i) = refl
no_block (child i off) = refl
no_block (grand a off) = refl

pub empty_store-InOrder : InOrder small_sb empty_store
empty_store-InOrder = record {
  bytes = small_disk-IsDisk;
  data_block = λ p n ne. absurd (ne (no_block p));
  is_taken = λ p n ne. absurd (ne (no_block p));
  apart = λ p q np nq ne e. absurd (ne (no_block p));
}

one_block : (p : Node) → IsNode p → (p ≡ slot 0) ⊎ (at p dir_store ≡ 0)
one_block (slot i) n = elim (Bool-cases (0 == i)) [
  | inl e ↦ inl (ap slot (sym (eqb→eq 0 i e)))
  | inr e ↦ inr (rw e refl)
]
one_block (child i off) n = let e : (0 == i) ≡ false = ground (arith, n) in inr (rw e refl)
one_block (grand a off) n = inr refl

only : (p : Node) → IsNode p → at p dir_store ≢ 0 → p ≡ slot 0
only p n ne = elim (one_block p n) [ inl e ↦ e | inr z ↦ absurd (ne z) ]

pub dir_store-InOrder : InOrder small_sb dir_store
dir_store-InOrder = record {
  bytes = λ b a. ground (arith, small_disk-IsDisk b a);
  data_block = λ p n ne.
      subst (λ q. IsData small_sb (at q dir_store)) (sym (only p n ne)) (omega arith, omega arith);
  is_taken = λ p n ne.
      subst (λ q. taken small_sb dir_disk (at q dir_store) ≡ true) (sym (only p n ne)) refl;
  apart = λ p q np nq ne e. only p np ne ∙ sym (only q nq (λ z. ne (e ∙ z)));
}
