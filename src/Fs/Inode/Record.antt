-- ===== src/Fs/Inode/Record.antt =====
-- `inode_rw`: what is written is read back, and the other inodes stay as they are.
use biglab.Prelude.{
  ℕ, ◌+◌, ◌-◌, ◌*◌, ◌/◌, ◌%◌, ◌^◌, ◌<◌, ◌≡◌, refl, ◌≢◌, sym, ◌∙◌, subst, inl, inr, true, false,
  Bool-cases, arith, ◌==◌, ltb, leb, ◌&&◌, eqb_refl, eqb→eq,
}
use biglab.Fs.Disk.{Block, Disk, SuperBlock}
use biglab.Fs.Index.{get32}
use biglab.Fs.Bitmap.Bits.{IsBlock}
use biglab.Fs.Inode.{
  InodeDisk, Inode, inode_block, byte_at, get16, record_byte, put_record, get_record,
  inode_rw_write, inode_rw_read,
}

-- The fields have the width of their types.
pub record Fits (info : InodeDisk) : Type 0 where
  pub type_fits : info.type < 2 ^ 16
  pub major_fits : info.major < 2 ^ 16
  pub minor_fits : info.minor < 2 ^ 16
  pub nlink_fits : info.nlink < 2 ^ 16
  pub size_fits : info.size < 2 ^ 32
  pub index_fits : (i : ℕ) → i < 13 → info.index i < 2 ^ 32

-- The same inode on the disk.
pub record SameInfo (x y : InodeDisk) : Type 0 where
  pub same_type : x.type ≡ y.type
  pub same_major : x.major ≡ y.major
  pub same_minor : x.minor ≡ y.minor
  pub same_nlink : x.nlink ≡ y.nlink
  pub same_size : x.size ≡ y.size
  pub same_index : (i : ℕ) → i < 13 → x.index i ≡ y.index i

pub SameInfo-refl : (x : InodeDisk) → SameInfo x x
SameInfo-refl x = record {
  same_type = refl;
  same_major = refl;
  same_minor = refl;
  same_nlink = refl;
  same_size = refl;
  same_index = λ i n. refl;
}

pub put_record-IsBlock :
    (b : Block) (o : ℕ) (info : InodeDisk) → IsBlock b → IsBlock (put_record b o info)
unfolding put_record
put_record-IsBlock b o info v a = ground (arith, v a)

-- Inside the 64 bytes of the record, and outside them.
put_inside :
    (b : Block) (o : ℕ) (info : InodeDisk) (a k : ℕ)
    → k < 64
    → a ≡ 64 * o + k
    → put_record b o info a ≡ record_byte info k
unfolding put_record
put_inside b o info a k lt e =
    let c : (leb (64 * o) a && ltb a (64 * o + 64)) ≡ true = ground arith in
    let f : a - 64 * o ≡ k = omega (arith, e) in rw (c, f) refl

put_outside :
    (b : Block) (o : ℕ) (info : InodeDisk) (a : ℕ) → a / 64 ≢ o → put_record b o info a ≡ b a
unfolding put_record
put_outside b o info a ne =
    let c : (leb (64 * o) a && ltb a (64 * o + 64)) ≡ false = ground arith in rw c refl

-- A number of 16 bits and one of 32 bits at the byte `k` of the record.
field16 :
    (b : Block) (o : ℕ) (info : InodeDisk) (k v : ℕ)
    → k < 63
    → v < 2 ^ 16
    → record_byte info k ≡ byte_at v 0
    → record_byte info (k + 1) ≡ byte_at v 1
    → get16 (put_record b o info) (64 * o + k) ≡ v
field16 b o info k v lt small e f =
    rw
      (
        put_inside b o info (64 * o + k) k (omega arith) refl ∙ e,
        put_inside b o info (64 * o + k + 1) (k + 1) (omega arith) (omega arith) ∙ f,
      )
      (omega arith)

field32 :
    (b : Block) (o : ℕ) (info : InodeDisk) (i k v : ℕ)
    → k < 61
    → 4 * i ≡ 64 * o + k
    → v < 2 ^ 32
    → ((j : ℕ) → j < 4 → record_byte info (k + j) ≡ byte_at v j)
    → get32 (put_record b o info) i ≡ v
field32 b o info i k v lt e small h =
    rw
      (
        put_inside b o info (4 * i) (k + 0) (omega arith) (omega (arith, e)) ∙ h 0 (omega arith),
        put_inside b o info (4 * i + 1) (k + 1) (omega arith) (omega (arith, e))
            ∙ h 1 (omega arith),
        put_inside b o info (4 * i + 2) (k + 2) (omega arith) (omega (arith, e))
            ∙ h 2 (omega arith),
        put_inside b o info (4 * i + 3) (k + 3) (omega arith) (omega (arith, e))
            ∙ h 3 (omega arith),
      )
      (omega arith)

pub get_record-put :
    (b : Block) (o : ℕ) (info : InodeDisk)
    → Fits info
    → SameInfo (get_record (put_record b o info) o) info
unfolding get_record
get_record-put b o info f = record {
  same_type = field16 b o info 0 info.type (omega arith) f.type_fits refl refl;
  same_major = field16 b o info 2 info.major (omega arith) f.major_fits refl refl;
  same_minor = field16 b o info 4 info.minor (omega arith) f.minor_fits refl refl;
  same_nlink = field16 b o info 6 info.nlink (omega arith) f.nlink_fits refl refl;
  same_size =
      field32 b o info (16 * o + 2) 8 info.size (omega arith) (omega arith) f.size_fits
        (λ j h. ground arith);
  same_index = λ i n.
      let c : ltb i 13 ≡ true = ground arith in
      rw c (
        field32 b o info (16 * o + 3 + i) (12 + 4 * i) (info.index i) (omega arith) (omega arith)
          (f.index_fits i n) (λ j h. index_byte i j n h));
}
  where
    index_byte :
        (i j : ℕ) → i < 13 → j < 4 → record_byte info (12 + 4 * i + j) ≡ byte_at (info.index i) j
    index_byte i j n h =
        let q : (12 + 4 * i + j - 12) / 4 ≡ i = omega arith in
        let r : (12 + 4 * i + j - 12) % 4 ≡ j = omega arith in
        let c : ltb (12 + 4 * i + j) 2 ≡ false = ground arith in
        let d : ltb (12 + 4 * i + j) 4 ≡ false = ground arith in
        let e : ltb (12 + 4 * i + j) 6 ≡ false = ground arith in
        let g : ltb (12 + 4 * i + j) 8 ≡ false = ground arith in
        let k : ltb (12 + 4 * i + j) 12 ≡ false = ground arith in rw (c, d, e, g, k, q, r) refl

pub get_record-put_ne :
    (b : Block) (o o' : ℕ) (info : InodeDisk)
    → o ≢ o'
    → SameInfo (get_record (put_record b o info) o') (get_record b o')
unfolding get_record
get_record-put_ne b o o' info ne = record {
  same_type = same16 0 (omega arith);
  same_major = same16 2 (omega arith);
  same_minor = same16 4 (omega arith);
  same_nlink = same16 6 (omega arith);
  same_size = same32 (16 * o' + 2) (omega arith);
  same_index = λ i n.
      let c : ltb i 13 ≡ true = ground arith in rw c (same32 (16 * o' + 3 + i) (omega arith));
}
  where
    other : (a : ℕ) → a / 64 ≡ o' → put_record b o info a ≡ b a
    other a e = put_outside b o info a (λ z. ne (sym z ∙ e))

    same16 : (k : ℕ) → k < 63 → get16 (put_record b o info) (64 * o' + k) ≡ get16 b (64 * o' + k)
    same16 k lt = rw (other (64 * o' + k) (omega arith), other (64 * o' + k + 1) (omega arith)) refl

    same32 : (i : ℕ) → i / 16 ≡ o' → get32 (put_record b o info) i ≡ get32 b i
    same32 i e =
        rw
          (
            other (4 * i) (omega arith),
            other (4 * i + 1) (omega arith),
            other (4 * i + 2) (omega arith),
            other (4 * i + 3) (omega arith),
          )
          refl

-- What `inode_rw` writes for an inode whose fields have the width of their types, it reads back; of
-- an inode with another number, both in blocks below 2^32, it reads what it read before.
pub inode_rw_roundtrip :
    (sb : SuperBlock) (ip other : Inode) (disk : Disk)
    → Fits ip.disk_info
    → sb.inode_firstblock + ip.inode_num / 64 < 2 ^ 32
    → sb.inode_firstblock + other.inode_num / 64 < 2 ^ 32
    → other.inode_num ≢ ip.inode_num
    → SameInfo (inode_rw_read sb ip (inode_rw_write sb ip disk)).disk_info ip.disk_info
      × SameInfo
          (inode_rw_read sb other (inode_rw_write sb ip disk)).disk_info
          (inode_rw_read sb other disk).disk_info
unfolding inode_rw_write inode_rw_read
inode_rw_roundtrip sb ip other disk f p q ne = (
  rw (eqb_refl (inode_block sb ip.inode_num))
      (get_record-put (disk (inode_block sb ip.inode_num)) (ip.inode_num % 64) ip.disk_info f),
  elim (Bool-cases (inode_block sb ip.inode_num == inode_block sb other.inode_num)) [
    | inl e ↦
        let d : ip.inode_num % 64 ≢ other.inode_num % 64 = ground (arith, e) in
        rw e (
          subst
            (λ x.
              SameInfo
                (get_record (put_record (disk x) (ip.inode_num % 64) ip.disk_info)
                  (other.inode_num % 64))
                (get_record (disk (inode_block sb other.inode_num)) (other.inode_num % 64)))
            (sym (eqb→eq _ _ e))
            (get_record-put_ne (disk (inode_block sb other.inode_num)) (ip.inode_num % 64)
              (other.inode_num % 64) ip.disk_info d))
    | inr e ↦
        rw e (
          SameInfo-refl (get_record (disk (inode_block sb other.inode_num)) (other.inode_num % 64)))
  ],
)
