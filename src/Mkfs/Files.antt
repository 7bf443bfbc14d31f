-- ===== src/Mkfs/Files.antt =====
-- The files of the image: `inode_append` with its new blocks.
use biglab.Prelude.{
  ℕ, ◌+◌, ◌-◌, ◌*◌, ◌/◌, ◌%◌, ◌≤◌, ◌<◌, ◌≡◌, ◌≢◌, ◌⊎◌, refl, sym, ap, subst, ◌∙◌, inl, inr, true,
  false, ◌&&◌, arith, ltb, if◌then◌else◌, Bool-cases, u32, ltb→lt,
}
use biglab.Prelude.Run.{ok, and_then}
use biglab.Fs.Bitmap.Bits.{IsBlock}
use biglab.Fs.Bitmap.{bit_of}
use biglab.Fs.Inode.{InodeDisk}
use biglab.Mkfs.{
  sb, Image, alloc_loop, append_loop, inode_append, count_blocks, block_size, inode_block_index_1,
}
use biglab.Mkfs.Blocks.{Exact}
use biglab.Mkfs.Append.{Wrote, append_loop-Wrote}
use biglab.Mkfs.NewBlocks.{NewBlocks, alloc_loop-NewBlocks}

-- The blocks of the file are different blocks of data that are in use.
pub record Holds (ip : InodeDisk) (s : Image) : Type 0 where
  pub area :
      (i : ℕ)
      → i < count_blocks ip.size block_size
      → (sb.data_firstblock ≤ ip.index i) × (ip.index i < sb.data_firstblock + s.global_block_num)
  pub distinct :
      (i j : ℕ)
      → i < count_blocks ip.size block_size
      → j < count_blocks ip.size block_size
      → ip.index i ≡ ip.index j
      → i ≡ j

-- The byte `y` of a file.
abbrev pub file_byte : InodeDisk → Image → ℕ → ℕ
file_byte ip s y = s.disk (ip.index (y / block_size)) (y % block_size)

-- The bytes of `src` are behind the end of the file, and nothing else of the data has changed.
pub record Appended (src : ℕ → ℕ) (len : ℕ) (ip ip' : InodeDisk) (s s' : Image) : Type 0 where
  pub grown : ip'.size ≡ ip.size + len
  pub bytes :
      (y : ℕ)
      → y < ip.size + len
      → file_byte ip' s' y ≡ (if ltb y ip.size then file_byte ip s y else src (y - ip.size))
  pub holds : Holds ip' s'
  pub exact : Exact s'
  pub others :
      (b : ℕ)
      → sb.data_firstblock ≤ b
      → b < sb.data_firstblock + s.global_block_num
      → ((i : ℕ) → i < count_blocks ip.size block_size → ip.index i ≢ b)
      → s'.disk b ≡ s.disk b

count_is : (x : ℕ) → x ≤ 40960 → count_blocks x block_size ≡ (x + 4095) / 4096
count_is x h = omega (arith, h)

module _ (src : ℕ → ℕ) (len : ℕ) (ip : InodeDisk) (s : Image) (v : Exact s) (h : Holds ip s)
    (small : ip.size + len ≤ 10 * block_size) (room : s.global_block_num + 10 ≤ sb.data_blocks)
    (data_bytes : IsBlock s.data_buf) (src_bytes : IsBlock src) where
  abbrev old_blocks : ℕ
  old_blocks = count_blocks ip.size block_size

  abbrev new_blocks : ℕ
  new_blocks = count_blocks (ip.size + len) block_size

  abbrev grown : (ℕ → ℕ) × Image
  grown = alloc_loop (new_blocks - old_blocks) old_blocks ip.index s

  more : old_blocks ≤ new_blocks
  more = omega (arith, count_is ip.size, count_is (ip.size + len), small)

  at_most_ten : new_blocks ≤ 10
  at_most_ten = omega (arith, count_is (ip.size + len) small, small)

  blocks : NewBlocks (new_blocks - old_blocks) old_blocks ip.index grown.0 s grown.1
  blocks =
      alloc_loop-NewBlocks (new_blocks - old_blocks) old_blocks ip.index s v
        (omega (arith, at_most_ten, room))

  -- A slot of the grown file has an old block, or a new one.
  slot :
      (i : ℕ)
      → i < new_blocks
      → ((i < old_blocks) × (grown.0 i ≡ ip.index i))
        ⊎ ((old_blocks ≤ i)
            × (grown.0 i ≡ sb.data_firstblock + s.global_block_num + (i - old_blocks)))
  slot i lt = elim (Bool-cases (ltb i old_blocks)) [
    | inl e ↦ inl (ltb→lt i old_blocks e, blocks.old i (ltb→lt i old_blocks e))
    | inr e ↦
        let ge : old_blocks ≤ i = ground (arith, e) in
        let here : old_blocks + (i - old_blocks) ≡ i = omega (arith, ge) in
        inr (ge, ap grown.0 (sym here) ∙ blocks.new (i - old_blocks) (omega (arith, ge, lt)))
  ]

  new_area :
      (i : ℕ)
      → i < new_blocks
      → (sb.data_firstblock ≤ grown.0 i)
        × (grown.0 i < sb.data_firstblock + grown.1.global_block_num)
  new_area i lt = elim (slot i lt) [
    | inl (o, e) ↦ (omega (arith, h.area i o, e), omega (arith, h.area i o, e, blocks.counted))
    | inr (o, e) ↦ (omega (arith, e), omega (arith, e, o, lt, blocks.counted))
  ]

  new_distinct : (i j : ℕ) → i < new_blocks → j < new_blocks → grown.0 i ≡ grown.0 j → i ≡ j
  new_distinct i j hi hj e = elim (slot i hi) [
    | inl (o, ei) ↦ elim (slot j hj) [
      | inl (p, ej) ↦ h.distinct i j o p (sym ei ∙ e ∙ ej)
      | inr (p, ej) ↦ absurd (omega (arith, h.area i o, ei, ej, e))
    ]
    | inr (o, ei) ↦ elim (slot j hj) [
      | inl (p, ej) ↦ absurd (omega (arith, h.area j p, ei, ej, e))
      | inr (p, ej) ↦ omega (arith, ei, ej, e, o, p)
    ]
  ]

  written :
      (s' : Image) × (append_loop len grown.0 ip.size src (ip.size / block_size) 0 len grown.1
        ≡ ok tt s')
      × Wrote grown.0 ip.size src new_blocks new_distinct grown.1 s'
          (ip.size + 0)
          (ip.size + 0 + len)
  written =
      append_loop-Wrote grown.0 ip.size src new_blocks new_distinct len (ip.size / block_size) 0 len
        grown.1 (omega arith) (inr (inl (refl, refl)))
        (omega (arith, count_is (ip.size + len) small))

  abbrev done : Image
  done = written.0

  abbrev result : InodeDisk
  result = record ip { index = grown.0; size = u32 (ip.size + len) }

  no_wrap : u32 (ip.size + len) ≡ ip.size + len
  no_wrap = omega (arith, small)

  done-Exact : Exact done
  done-Exact =
      let w = written.2 in
      let e = blocks.exact in
      let meta : (b : ℕ) → b < sb.data_firstblock → done.disk b ≡ grown.1.disk b =
        λ b lt. w.others b λ q hq z. omega (arith, lt, z, new_area q hq) in
      record {
        bytes = (w.fits (e.bytes, subst IsBlock (sym blocks.same_buf) data_bytes) src_bytes).0;
        data_bits = λ m lt.
            ap (λ b. bit_of b (m % 32768))
              (meta (sb.data_bitmap_firstblock + m / 32768) (omega (arith, lt)))
            ∙ e.data_bits m lt
            ∙ ap (ltb m) (sym w.same_blocks);
        inode_bits = λ m lt.
            ap (λ b. bit_of b (m % 32768))
              (meta (sb.inode_bitmap_firstblock + m / 32768) (omega (arith, lt)))
            ∙ e.inode_bits m lt
            ∙ ap (ltb m) (sym w.same_inodes);
      }

  old_byte :
      (y : ℕ)
      → y < ip.size
      → grown.1.disk (grown.0 (y / block_size)) (y % block_size) ≡ file_byte ip s y
  old_byte y lt =
      let below : y / block_size < old_blocks = omega (arith, count_is ip.size, small, lt) in
      ap (λ b. grown.1.disk b (y % block_size)) (blocks.old (y / block_size) below)
      ∙ ap (λ c. c (y % block_size))
          (blocks.same_data (ip.index (y / block_size)) (h.area (y / block_size) below).0)

  new_byte :
      (y : ℕ)
      → y < ip.size + len
      → file_byte result done y ≡ (if ltb y ip.size then file_byte ip s y else src (y - ip.size))
  new_byte y lt = written.2.bytes y (omega (arith, lt)) ∙ (elim (Bool-cases (ltb y ip.size)) [
    | inl e ↦
        let e' : ltb y (ip.size + 0) ≡ true = ground (arith, e) in
        rw (e', e) (old_byte y (ltb→lt y ip.size e))
    | inr e ↦ let e' : ltb y (ip.size + 0) ≡ false = ground (arith, e) in rw (e', e) refl
  ])

  same_count : count_blocks result.size block_size ≡ new_blocks
  same_count = ap (λ n. count_blocks n block_size) no_wrap

  other_block :
      (b : ℕ)
      → b < sb.data_firstblock + s.global_block_num
      → ((i : ℕ) → i < old_blocks → ip.index i ≢ b)
      → (q : ℕ) → q < new_blocks
      → grown.0 q ≢ b
  other_block b hi ne q lt z = elim (slot q lt) [
    | inl (o, e) ↦ ne q o (sym e ∙ z)
    | inr (o, e) ↦ omega (arith, e, z, hi)
  ]

  result-Holds : Holds result done
  result-Holds = record {
    area = λ i lt.
        let a = new_area i (subst (λ n. i < n) same_count lt) in
        (a.0, omega (arith, a.1, written.2.same_blocks));
    distinct = λ i j hi hj.
        new_distinct i j (subst (λ n. i < n) same_count hi) (subst (λ n. j < n) same_count hj);
  }

  -- On an exact image of bytes, a file whose blocks are its own, that stays within ten blocks, with ten free blocks left: `inode_append` returns, the
  -- file is longer by `len` bytes, which are those of `src` behind the bytes of before; its blocks are its own
  -- again, the image is exact, and the other blocks of data in use stay as they are.
  pub inode_append-Appended :
      (ip' : InodeDisk) × (s' : Image) × (inode_append ip src len s ≡ ok ip' s')
      × Appended src len ip ip' s s'
  unfolding inode_append
  inode_append-Appended =
      let fits : (ltb old_blocks new_blocks && ltb inode_block_index_1 new_blocks) ≡ false =
        ground (arith, at_most_ten) in
      (
        result,
        done,
        rw fits (ap (λ r. and_then r λ _ s''. ok result s'') written.1),
        record {
          grown = no_wrap;
          bytes = new_byte;
          holds = result-Holds;
          exact = done-Exact;
          others = λ b lo hi ne. written.2.others b (other_block b hi ne) ∙ blocks.same_data b lo;
        },
      )
