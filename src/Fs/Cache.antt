-- ===== src/Fs/Cache.antt =====
-- src/kernel/fs/inode.c: the inodes in memory, how they are found, locked, made and removed. A pointer into
-- `inode_cache` is the index of its slot. The calls are those of one process, `pid`; a call that finds the
-- sleeplock of a slot taken, by whomever, waits for another process.
pub mod Get
pub mod Freed
pub mod Levels
pub mod Remove
mod Tests
use biglab.Prelude.{
  ℕ, zero, suc, ◌+◌, ◌-◌, ◌%◌, Bool, true, false, ◌&&◌, ◌||◌, not, Option, none, some, ◌==◌, ltb,
  if◌then◌else◌, update, u32, sub32,
}
use biglab.Prelude.Run.{Run, ok, panic, blocked, Cmd, ◌>>=◌, ◌>>◌, pure}
use biglab.Fs.Disk.{Disk, SuperBlock}
use biglab.Fs.Bitmap.{bitmap_alloc_inode, bitmap_free_inode, bitmap_free_block}
use biglab.Fs.Index.{get32}
use biglab.Fs.Inode.{InodeDisk, Inode, inode_rw_write, inode_rw_read}

-- `inode_cache`, the disk, and `myproc()`'s pid and working directory.
pub record Fs : Type 0 where
  pub cache : ℕ → Inode
  pub disk : Disk
  pub pid : ℕ
  pub cwd : ℕ

-- N_INODE.
abbrev pub n_inode : ℕ
n_inode = 64

-- `inode_init`: the sleeplocks of all slots are free. The spinlock of the cache is held within each call only.
abbrev pub inode_init : Fs → Fs
inode_init s = record s {
  cache = λ i. if ltb i n_inode then record (s.cache i) { slk = none } else s.cache i;
}

abbrev pub set_slot : ℕ → Inode → Fs → Fs
set_slot i ip s = record s { cache = update s.cache i ip }

-- What the search of `inode_get` finds: a slot with the inode, or else the first slot without references.
pub data Search : Type 0 where
  hit : ℕ → Search
  miss : Option ℕ → Search

abbrev pub first_empty : Option ℕ → Inode → ℕ → Option ℕ
first_empty (some e) ip i = some e
first_empty none ip i = if ip.ref == 0 then some i else none

-- The loop of `inode_get`, over `n` slots from the `i`th.
pub search_slots : ℕ → ℕ → ℕ → Option ℕ → (ℕ → Inode) → Search
search_slots zero i inode_num empty_ip cache = miss empty_ip
search_slots (suc n) i inode_num empty_ip cache =
    let ip = cache i in
    let rest = search_slots n (suc i) inode_num (first_empty empty_ip ip i) cache in
    if (ip.inode_num == inode_num) && ip.valid_info then hit i else rest

-- A slot gets one more reference.
abbrev pub retain : ℕ → Fs → Fs
retain i s = set_slot i (record (s.cache i) { ref = u32 ((s.cache i).ref + 1) }) s

abbrev pub use_slot : ℕ → Search → Cmd Fs ℕ
use_slot inode_num (hit i) s = ok i (retain i s)
use_slot inode_num (miss none) s = panic
use_slot inode_num (miss (some i)) s =
    ok i (set_slot i (record (s.cache i) { inode_num = inode_num; ref = 1; valid_info = false }) s)

pub inode_get : ℕ → Cmd Fs ℕ
inode_get inode_num s = use_slot inode_num (search_slots n_inode 0 inode_num none s.cache) s

pub inode_dup : ℕ → Cmd Fs ℕ
inode_dup i s = ok i (retain i s)

-- `sleeplock_holding(&ip->slk)`.
abbrev pub slk_holding : Fs → Inode → Bool
slk_holding s ip = elim ip.slk [ none ↦ false | some p ↦ p == s.pid ]

-- The slots of the index hold blocks of data, tables, and a table of tables.
abbrev pub slot_level : ℕ → ℕ
slot_level i = if ltb i 10 then 0 else if ltb i 12 then 1 else 2

module _ (sb : SuperBlock) where
  unfoldable pub inode_lock : ℕ → Cmd Fs (Unit {0})
  inode_lock i s =
      let ip = record (s.cache i) { slk = some s.pid } in
      if ltb (s.cache i).ref 1 then panic else (elim (s.cache i).slk [
        | some p ↦ blocked
        | none ↦ ok tt (set_slot i (if ip.valid_info then ip else inode_rw_read sb ip s.disk) s)
      ])

  pub inode_unlock : ℕ → Cmd Fs (Unit {0})
  inode_unlock i s =
      let ip = s.cache i in
      if not (slk_holding s ip) || ltb ip.ref 1
      then panic
      else ok tt (set_slot i (record ip { slk = none }) s)

  -- `inode_rw(ip, true)` for a slot.
  abbrev pub save : ℕ → Cmd Fs (Unit {0})
  save i s = ok tt (record s { disk = inode_rw_write sb (s.cache i) s.disk })

  -- A change of `ip->disk_info`.
  abbrev pub modify : ℕ → (InodeDisk → InodeDisk) → Cmd Fs (Unit {0})
  modify i f s = ok tt (set_slot i (record (s.cache i) { disk_info = f (s.cache i).disk_info }) s)

  abbrev pub new_info : ℕ → ℕ → ℕ → InodeDisk → InodeDisk
  new_info type major minor info = record {
    type = type;
    major = major;
    minor = minor;
    nlink = 1;
    size = 0;
    index = λ i. 0;
  }

  -- `none` is NULL.
  abbrev pub create_numbered : ℕ → ℕ → ℕ → Option ℕ → Cmd Fs (Option ℕ)
  create_numbered type major minor none = pure none
  create_numbered type major minor (some n) = inode_get n >>= λ i.
      inode_lock i
      >> modify i (new_info type major minor)
      >> save i
      >> inode_unlock i
      >> pure (some i)

  pub inode_create : ℕ → ℕ → ℕ → Cmd Fs (Option ℕ)
  inode_create type major minor s =
      let (found, disk) = bitmap_alloc_inode sb s.disk in
      create_numbered type major minor found (record s { disk = disk })

  -- The loop of `__free_data_blocks` over `n` entries from the `i`th of the table in the block `t`.
  pub free_entries : (ℕ → Disk → Bool × Disk) → ℕ → ℕ → ℕ → Disk → Disk
  free_entries free zero i t disk = disk
  free_entries free (suc n) i t disk =
      free_entries free n (suc i) t (free (get32 (disk t) i) disk).1

  -- `__free_data_blocks(block_num, level)`, with the level first.
  pub free_tree : ℕ → ℕ → Disk → Bool × Disk
  free_tree zero block_num disk =
      if block_num == 0 then (true, disk) else (false, bitmap_free_block sb block_num disk)
  free_tree (suc level) block_num disk =
      let rest = free_entries (free_tree level) 1024 0 block_num disk in
      if block_num == 0 then (true, disk) else (false, bitmap_free_block sb block_num rest)

  -- `free_data_blocks`, over `n` slots from the `i`th.
  pub free_slots : ℕ → ℕ → (ℕ → ℕ) → Disk → (ℕ → ℕ) × Disk
  free_slots zero i index disk = (index, disk)
  free_slots (suc n) i index disk =
      let (meet_empty, disk') = free_tree (slot_level i) (index i) disk in
      let rest = free_slots n (suc i) (update index i 0) disk' in
      if meet_empty then (update index i 0, disk') else rest

  abbrev pub free_data_blocks : (ℕ → ℕ) → Disk → (ℕ → ℕ) × Disk
  free_data_blocks = free_slots 13 0

  pub inode_delete : ℕ → Cmd Fs (Unit {0})
  inode_delete i s =
      let ip = s.cache i in
      let (index, disk) = free_data_blocks ip.disk_info.index s.disk in
      let ip' = record ip { disk_info = record ip.disk_info { index = index; size = 0 } } in
      ok tt (record (set_slot i ip' s) {
        disk = bitmap_free_inode sb ip.inode_num (inode_rw_write sb ip' disk);
      })

  -- The removal of an inode that has no name and is put by its last user.
  abbrev pub remove_unused : ℕ → Cmd Fs (Unit {0})
  remove_unused i =
      inode_lock i
      >> inode_delete i
      >> (λ s. ok tt (set_slot i (record (s.cache i) { valid_info = false }) s))
      >> inode_unlock i

  abbrev pub release : ℕ → Cmd Fs (Unit {0})
  release i s = ok tt (set_slot i (record (s.cache i) { ref = sub32 (s.cache i).ref 1 }) s)

  pub inode_put : ℕ → Cmd Fs (Unit {0})
  inode_put i s =
      let ip = s.cache i in
      if (ip.ref == 1) && ip.valid_info && (ip.disk_info.nlink == 0)
      then ((remove_unused i >> release i) s)
      else release i s
