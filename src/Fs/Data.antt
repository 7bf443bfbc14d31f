-- ===== src/Fs/Data.antt =====
-- src/kernel/fs/inode.c, the data of an inode: `inode_read_data` and `inode_write_data` block by block.
-- The buffers `src` and `dst` are functions of the index; a user buffer is copied in the same way as
-- one of the kernel. An inode is passed with the disk, and comes back with its new index and size.
mod Overwrite
pub mod Round
pub mod Write
pub mod Read
pub mod Whole
pub mod WholeRead
pub mod Roundtrip
mod Tests
use biglab.Prelude.{
  ℕ, zero, suc, ◌+◌, ◌-◌, ◌/◌, ◌%◌, Bool, true, false, ◌&&◌, not, ◌||◌, none, some, ◌==◌, ltb, leb,
  if◌then◌else◌, update, u32, ◌^◌,
}
use biglab.Prelude.Run.{Run, ok, panic, out_of_fuel, blocked}
use biglab.Fs.Disk.{Block, Disk, SuperBlock}
use biglab.Fs.Inode.{InodeDisk, Inode, inode_type_data, inode_type_dir, inode_rw_write}
use biglab.Fs.Index.{Store, locate_or_add_block}

-- BLOCK_SIZE.
abbrev pub block_size : ℕ
block_size = 4096

-- `memcpy(buf->data + off, src + total, n)`.
abbrev pub copy_in : Block → ℕ → ℕ → (ℕ → ℕ) → ℕ → Block
copy_in b off n src total a = if leb off a && ltb a (off + n) then src (total + (a - off)) else b a

-- `memcpy(dst + total, buf->data + off, n)`.
abbrev pub copy_out : (ℕ → ℕ) → ℕ → ℕ → Block → ℕ → ℕ → ℕ
copy_out dst total n b off i =
    if leb total i && ltb i (total + n) then b (off + (i - total)) else dst i

-- How many bytes of a block a round takes.
abbrev pub part : ℕ → ℕ → ℕ
part cur end = let n = block_size - cur % block_size in if ltb (end - cur) n then end - cur else n

module _ (sb : SuperBlock) where
  -- The loop of `inode_write_data`. The result is `total_written`.
  pub write_loop : ℕ → ℕ → ℕ → ℕ → (ℕ → ℕ) → Store → Run Store ℕ
  write_loop zero cur end total src s = out_of_fuel
  write_loop (suc fuel) cur end total src s =
      let n = part cur end in
      let (found, s') = locate_or_add_block sb (cur / block_size) s in
      let next = λ (b : ℕ). write_loop fuel (u32 (cur + n)) end (total + n) src (record s' {
        disk = update s'.disk b (copy_in (s'.disk b) (cur % block_size) n src total);
      }) in
      if ltb cur end then (elim found [ none ↦ ok total s' | some b ↦ next b ]) else ok total s

  -- The loop of `inode_read_data`, which fills `dst`. The result is `total_read`.
  pub read_loop : ℕ → ℕ → ℕ → ℕ → (ℕ → ℕ) → Store → Run (Store × (ℕ → ℕ)) ℕ
  read_loop zero cur end total dst s = out_of_fuel
  read_loop (suc fuel) cur end total dst s =
      let n = part cur end in
      let (found, s') = locate_or_add_block sb (cur / block_size) s in
      let next = λ (b : ℕ).
        read_loop fuel (u32 (cur + n)) end (total + n)
          (copy_out dst total n (s'.disk b) (cur % block_size)) s' in
      if ltb cur end
      then (elim found [ none ↦ ok total (s', dst) | some b ↦ next b ])
      else ok total (s, dst)

  -- The end of `inode_write_data`: the new index, and the size if the file has grown.
  abbrev pub finish_write : Inode → ℕ → ℕ → Store → Run (Inode × Disk) ℕ
  finish_write ip offset total s =
      let ip₁ = record ip { disk_info = record ip.disk_info { index = s.index } } in
      let new_size = u32 (offset + total) in
      let ip₂ = record ip₁ { disk_info = record ip₁.disk_info { size = new_size } } in
      if ltb 0 total && ltb ip.disk_info.size new_size
      then ok total (ip₂, inode_rw_write sb ip₂ s.disk)
      else ok total (ip₁, s.disk)

  -- INODE_MAX_SIZE is 0xFFFFFFFF. A round of the loop writes a byte at least, so `end - offset` rounds,
  -- and one to find the end, are enough.
  pub inode_write_data : Inode → ℕ → ℕ → (ℕ → ℕ) → Disk → Run (Inode × Disk) ℕ
  inode_write_data ip offset len src disk =
      let end = u32 (offset + len) in
      if ltb (2 ^ 32 - 1) end
      then ok 0 (ip, disk)
      else (elim (write_loop (suc (end - offset)) offset end 0 src
          (record { index = ip.disk_info.index; disk = disk })) [
            | ok total s ↦ finish_write ip offset total s
            | panic ↦ panic
            | out_of_fuel ↦ out_of_fuel
            | blocked ↦ blocked
          ])

  pub inode_read_data : Inode → ℕ → ℕ → (ℕ → ℕ) → Disk → Run ((Inode × Disk) × (ℕ → ℕ)) ℕ
  inode_read_data ip offset len dst disk =
      let wanted = u32 (offset + len) in
      let end = if ltb ip.disk_info.size wanted then ip.disk_info.size else wanted in
      if not (ip.disk_info.type == inode_type_data) && not (ip.disk_info.type == inode_type_dir)
      then ok 0 ((ip, disk), dst)
      else (elim (read_loop (suc (end - offset)) offset end 0 dst
          (record { index = ip.disk_info.index; disk = disk })) [
            | ok total s ↦ ok total (
              (record ip { disk_info = record ip.disk_info { index = s.0.index } }, s.0.disk),
              s.1,
            )
            | panic ↦ panic
            | out_of_fuel ↦ out_of_fuel
            | blocked ↦ blocked
          ])
