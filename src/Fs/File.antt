-- ===== src/Fs/File.antt =====
-- src/kernel/fs/fs.c: the table of open files. A pointer into `file_table` is the index of its slot.
pub mod Access
pub mod Modes
pub mod Counts
mod Tests
use Prim.Native.Nat.{bit_and}
use biglab.Prelude.{
  ℕ, zero, suc, ◌+◌, ◌-◌, ◌%◌, ◌^◌, Bool, true, false, ◌&&◌, ◌||◌, not, Option, none, some, ◌==◌,
  ltb, leb, if◌then◌else◌, update, u32, List,
}
use biglab.Prelude.Run.{Run, ok, panic, out_of_fuel, blocked, Cmd, and_then, ◌>>=◌, ◌>>◌, pure}
use biglab.Fs.Disk.{SuperBlock}
use biglab.Fs.Inode.{
  Inode, InodeDisk, inode_type_data, inode_type_dir, inode_type_device, inode_rw_read,
}
use biglab.Fs.Data.{inode_read_data, inode_write_data}
use biglab.Fs.Cache.{Fs, set_slot, inode_put}
use biglab.Fs.Dentry.{read_slot, write_slot}
use biglab.Fs.Paths.{path_to_inode, path_create_inode}
use biglab.Fs.Device.{
  device_open_check, device_reader, device_writer, Reader, Writer, o_rdonly, o_wronly,
}

-- `file_t`; the pointer `ip` may be NULL.
pub record File : Type 0 where
  pub ip : Option ℕ
  pub readable : Bool
  pub writable : Bool
  pub offset : ℕ
  pub ref : ℕ

-- `file_table` beside the inodes.
pub record Files : Type 0 where
  pub file_table : ℕ → File
  pub fs : Fs

-- N_FILE.
abbrev pub n_file : ℕ
n_file = 128

-- O_RDWR, O_CREATE and O_APPEND.
abbrev pub o_rdwr : ℕ
o_rdwr = 3

abbrev pub o_create : ℕ
o_create = 4

abbrev pub o_append : ℕ
o_append = 8

-- `open_mode & flag`, as a test.
abbrev pub has_flag : ℕ → ℕ → Bool
has_flag open_mode flag = not (bit_and open_mode flag == 0)

-- A command on the inodes.
abbrev pub on_fs : {A : Type 0} → Cmd Fs A → Cmd Files A
on_fs {A} m s = elim (m s.fs) as (λ x. Run Files A) [
  | ok a t ↦ ok a (record s { fs = t })
  | panic ↦ panic
  | out_of_fuel ↦ out_of_fuel
  | blocked ↦ blocked
]

abbrev pub set_file : ℕ → File → Files → Files
set_file k f s = record s { file_table = update s.file_table k f }

-- `file_init`: no file has references.
abbrev pub file_init : Files → Files
file_init s = record s {
  file_table = λ k. if ltb k n_file then record (s.file_table k) { ref = 0 } else s.file_table k;
}

-- The loop of `file_alloc`, over `n` files from the `i`th.
pub first_free : ℕ → ℕ → (ℕ → File) → Option ℕ
first_free zero i table = none
first_free (suc n) i table =
    let rest = first_free n (suc i) table in if (table i).ref == 0 then some i else rest

abbrev pub empty_file : File
empty_file = record { ip = none; readable = false; writable = false; offset = 0; ref = 1 }

pub file_alloc : Cmd Files (Option ℕ)
unfolding first_free
file_alloc s = elim (first_free n_file 0 s.file_table) [
  | none ↦ ok none s
  | some k ↦ ok (some k) (set_file k empty_file s)
]

pub file_dup : ℕ → Cmd Files ℕ
file_dup k s =
    let f = s.file_table k in
    if ltb f.ref 1 then panic else ok k (set_file k (record f { ref = u32 (f.ref + 1) }) s)

module _ (sb : SuperBlock) where
  pub file_close : ℕ → Cmd Files (Unit {0})
  file_close k s =
      let f = s.file_table k in
      let closed = set_file k (record f { ref = 0; ip = none }) s in
      if ltb f.ref 1
      then panic
      else if ltb 0 (f.ref - 1)
      then ok tt (set_file k (record f { ref = f.ref - 1 }) s)
      else (elim f.ip [ none ↦ ok tt closed | some i ↦ on_fs (inode_put sb i) closed ])

  -- `sleeplock_acquire(&ip->slk)` and `sleeplock_release(&ip->slk)`, without the checks of `inode_lock`.
  abbrev pub acquire : ℕ → Cmd Fs (Unit {0})
  acquire i s = elim (s.cache i).slk [
    | some p ↦ blocked
    | none ↦ ok tt (set_slot i (record (s.cache i) { slk = some s.pid }) s)
  ]

  abbrev pub release_slk : ℕ → Cmd Fs (Unit {0})
  release_slk i s = ok tt (set_slot i (record (s.cache i) { slk = none }) s)

  -- Whether the inode may be opened in this mode.
  abbrev pub may_open : Inode → ℕ → Bool
  may_open ip open_mode =
      not ((ip.disk_info.type == inode_type_dir) && not (open_mode == o_rdonly))
      && (not (ip.disk_info.type == inode_type_device)
          || device_open_check ip.disk_info.major open_mode)

  abbrev pub refuse : ℕ → Cmd Files (Option ℕ)
  refuse i = on_fs (release_slk i) >> on_fs (inode_put sb i) >> pure none

  -- The fields of a file just opened.
  abbrev pub opened : ℕ → ℕ → Inode → File → File
  opened i open_mode ip f = record f {
    ip = some i;
    readable = not (has_flag open_mode o_wronly);
    writable = has_flag open_mode o_wronly || has_flag open_mode o_rdwr;
    offset =
        if has_flag open_mode o_append && (ip.disk_info.type == inode_type_data)
        then ip.disk_info.size
        else 0;
  }

  -- The slot that `file_alloc` found, if any, is filled.
  abbrev pub fill : ℕ → ℕ → Option ℕ → Cmd Files (Option ℕ)
  fill open_mode i none = refuse i
  fill open_mode i (some k) =
      (λ t. ok tt (set_file k (opened i open_mode (t.fs.cache i) (t.file_table k)) t))
      >> on_fs (release_slk i)
      >> pure (some k)

  abbrev pub open_inode : ℕ → ℕ → Cmd Files (Option ℕ)
  open_inode open_mode i = on_fs (acquire i) >> (λ s.
      if may_open (s.fs.cache i) open_mode then (file_alloc >>= fill open_mode i) s else refuse i s)

  abbrev pub open_found : ℕ → Option ℕ → Cmd Files (Option ℕ)
  open_found open_mode none = pure none
  open_found open_mode (some i) = open_inode open_mode i

  pub file_open : (ℕ → ℕ) → List ℕ → ℕ → Cmd Files (Option ℕ)
  file_open junk path open_mode =
      on_fs (
        if has_flag open_mode o_create
        then path_create_inode sb junk path inode_type_data 0 0
        else path_to_inode sb junk path)
      >>= open_found open_mode
