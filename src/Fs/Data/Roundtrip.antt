-- ===== src/Fs/Data/Roundtrip.antt =====
-- `inode_read_data` after `inode_write_data` gives the bytes that were written.
use biglab.Prelude.{
  ℕ, zero, suc, ◌+◌, ◌-◌, ◌^◌, ◌≤◌, ◌<◌, ◌≡◌, refl, ◌⊎◌, true, false, ◌&&◌, not, arith, ◌==◌, ltb,
  leb, if◌then◌else◌, ◌∙◌, ap, inl, inr, Bool-cases, u32,
}
use biglab.Prelude.Run.{Run, ok}
use biglab.Fs.Disk.{Disk, SuperBlock}
use biglab.Fs.Bitmap.Numbers.{IsLayout}
use biglab.Fs.Index.Nodes.{InOrder}
use biglab.Fs.Index.Ensure.{IsFull}
use biglab.Fs.Inode.{Inode}
use biglab.Fs.Inode.Record.{Fits}
use biglab.Fs.Inode.Area.{InArea, tree}
use biglab.Fs.Data.{read_loop, inode_write_data, inode_read_data}
use biglab.Fs.Data.Whole.{InodeWritten, inode_write_data-InodeWritten}
use biglab.Fs.Data.WholeRead.{inode_read_data-InodeRead}

-- No byte is asked for: none is read.
read_nothing :
    (sb : SuperBlock) (ip : Inode) (offset : ℕ) (dst : ℕ → ℕ) (disk : Disk)
    → (not (ip.disk_info.type == 0) && not (ip.disk_info.type == 1)) ≡ false
    → inode_read_data sb ip offset 0 dst disk ≡ ok 0 ((ip, disk), dst)
unfolding inode_read_data read_loop
read_nothing sb ip offset dst disk t =
    let c : ltb offset
          (if ltb ip.disk_info.size (u32 (offset + 0)) then ip.disk_info.size else u32 (offset + 0))
        ≡ false =
      ground arith in
    rw (t, c) refl

module _ (sb : SuperBlock) (l : IsLayout sb) (ip : Inode) (offset len : ℕ) (src dst : ℕ → ℕ)
    (disk : Disk) (area : InArea sb ip.inode_num) (fits : Fits ip.disk_info)
    (v : InOrder sb (tree ip disk))
    (t : (not (ip.disk_info.type == 0) && not (ip.disk_info.type == 1)) ≡ false)
    (small : offset + len < 2 ^ 32) where
  abbrev ReadBack : ℕ → Run ((Inode × Disk) × (ℕ → ℕ)) ℕ → Type 0
  ReadBack w r =
      (ip' : Inode) × (disk' : Disk) × (dst' : ℕ → ℕ) × (r ≡ ok w ((ip', disk'), dst'))
      × ((i : ℕ) → i < w → dst' i ≡ src i)

  read_back :
      (w : ℕ) (ip₁ : Inode) (disk₁ : Disk)
      → InodeWritten sb ip offset len src disk w ip₁ disk₁
      → ReadBack w (inode_read_data sb ip₁ offset w dst disk₁)
  read_back zero ip₁ disk₁ m = (
    ip₁,
    disk₁,
    dst,
    read_nothing sb ip₁ offset dst disk₁ (rw m.same_type t),
    λ i h. absurd (omega (arith, h)),
  )
  read_back (suc k) ip₁ disk₁ m =
      let w = suc k in
      let room : offset + w ≤ ip₁.disk_info.size = ground (arith, m.new_size) in
      let (r, ip₂, disk₂, dst₂, run, d) =
        inode_read_data-InodeRead sb l ip₁ offset w dst disk₁ m.fits.size_fits m.in_order
          (rw m.same_type t) (omega (arith, m.at_most)) (omega (arith, room)) in
      let e : (if ltb ip₁.disk_info.size (offset + w) then ip₁.disk_info.size else offset + w)
          ≡ offset + w =
        ground (arith, room) in
      let all : r ≡ w = elim d.all_or_hole [
        | inl f ↦ omega (arith, f ∙ e)
        | inr (full, hole) ↦ elim (Bool-cases (ltb r w)) [
          | inl c ↦ absurd (m.present (offset + r) (omega arith) (ground (arith, c)) hole)
          | inr c ↦ ground (arith, c, d.at_most, e)
        ]
      ] in
      (
        ip₂,
        disk₂,
        dst₂,
        run ∙ ap (λ x. ok x ((ip₂, disk₂), dst₂)) all,
        λ i h.
            let c : ltb i r ≡ true = ground (arith, all, h) in
            let c' : (leb offset (offset + i) && ltb (offset + i) (offset + w)) ≡ true =
              ground (arith, h) in
            let z : offset + i - offset ≡ i = omega arith in
            (rw c at (d.filled i))
            ∙ (rw (c', z) at (m.bytes (offset + i) (omega (arith, h, m.at_most)))),
      )

  -- On a layout whose bitmaps have a bit for each number, all within 32 bits, for an inode of a file or of a directory in the area before the data bitmap, whose
  -- fields have the width of their types and whose tree is in order, and a source of bytes, where `offset + len` is below 2^32:
  -- `inode_write_data` writes a number of bytes, all that were asked for unless no data block is left, and then `inode_read_data`
  -- of that many bytes from the same offset returns that number, and has copied the same bytes.
  pub inode_read_data-write :
      ((i : ℕ) → src i < 256)
      → (w : ℕ) × (ip' : Inode) × (disk' : Disk) × (inode_write_data sb ip offset len src disk
          ≡ ok w (ip', disk'))
        × ((w ≡ len) ⊎ IsFull sb disk')
        × ReadBack w (inode_read_data sb ip' offset w dst disk')
  inode_read_data-write isb =
      let (w, ip', disk', run, m) =
        inode_write_data-InodeWritten sb l ip offset len src disk area fits v small isb in
      (w, ip', disk', run, m.all_or_full, read_back w ip' disk' m)
