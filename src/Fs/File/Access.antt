-- ===== src/Fs/File/Access.antt =====
-- src/kernel/fs/fs.c: an open file read, written, moved and looked at.
-- The devices' functions are the parameters `device_read` and `device_write`: they return a number of bytes, and may change the buffer.
use biglab.Prelude.{ℕ, ◌+◌, ◌-◌, ◌^◌, not, Option, none, some, ◌==◌, ltb, if◌then◌else◌, u32}
use biglab.Prelude.Run.{Run, ok, panic, Cmd, ◌>>=◌, ◌>>◌, pure}
use biglab.Fs.Disk.{SuperBlock}
use biglab.Fs.Inode.{Inode, inode_type_device}
use biglab.Fs.Dentry.{read_slot, write_slot}
use biglab.Fs.Device.{device_reader, device_writer, Reader, Writer}
use biglab.Fs.File.{File, Files, on_fs, set_file, acquire, release_slk}

-- `file_stat_t`.
pub record FileStat : Type 0 where
  pub type : ℕ
  pub nlink : ℕ
  pub size : ℕ
  pub inode_num : ℕ
  pub offset : ℕ

module _ (sb : SuperBlock) where
  -- The inode behind a file. A file without one is not read or written: NULL is followed, and the kernel stops.
  abbrev pub with_inode : {A : Type 0} → ℕ → (ℕ → Cmd Files A) → Cmd Files A
  with_inode {A} k m s = elim (s.file_table k).ip as (λ x. Run Files A) [
    | none ↦ panic
    | some i ↦ m i s
  ]

  abbrev pub move_offset : ℕ → ℕ → Cmd Files (Unit {0})
  move_offset k n s =
      ok tt (set_file k (record (s.file_table k) { offset = u32 ((s.file_table k).offset + n) }) s)

  module _ (device_read : Reader → ℕ → (ℕ → ℕ) → ℕ × (ℕ → ℕ))
      (device_write : Writer → ℕ → (ℕ → ℕ) → ℕ) where
    abbrev pub read_inode : ℕ → ℕ → (ℕ → ℕ) → ℕ → Cmd Files (ℕ × (ℕ → ℕ))
    read_inode k len dst i s =
        if (s.fs.cache i).disk_info.type == inode_type_device
        then ok
            (elim (device_reader (s.fs.cache i).disk_info.major) [
              | none ↦ (0, dst)
              | some r ↦ device_read r len dst
            ])
            s
        else (on_fs (acquire sb i)
              >> (λ t. on_fs (read_slot sb i (t.file_table k).offset len dst) t)
              >>= λ (bytes, dst').
                  (if ltb 0 bytes then move_offset k bytes else pure tt)
                  >> on_fs (release_slk sb i)
                  >> pure (bytes, dst'))
            s

    -- The result is the bytes read, or -1, and the buffer.
    pub file_read : ℕ → ℕ → (ℕ → ℕ) → Cmd Files (ℕ × (ℕ → ℕ))
    file_read k len dst s =
        if not (s.file_table k).readable
        then ok (2 ^ 32 - 1, dst) s
        else with_inode k (read_inode k len dst) s

    abbrev pub write_inode : ℕ → ℕ → (ℕ → ℕ) → ℕ → Cmd Files ℕ
    write_inode k len src i s =
        if (s.fs.cache i).disk_info.type == inode_type_device
        then ok
            (elim (device_writer (s.fs.cache i).disk_info.major) [
              | none ↦ 0
              | some w ↦ device_write w len src
            ])
            s
        else (on_fs (acquire sb i)
              >> (λ t. on_fs (write_slot sb i (t.file_table k).offset len src) t)
              >>= λ bytes.
                  (if ltb 0 bytes then move_offset k bytes else pure tt)
                  >> on_fs (release_slk sb i)
                  >> pure bytes)
            s

    pub file_write : ℕ → ℕ → (ℕ → ℕ) → Cmd Files ℕ
    file_write k len src s =
        if not (s.file_table k).writable
        then ok (2 ^ 32 - 1) s
        else with_inode k (write_inode k len src) s

  -- LSEEK_SET, LSEEK_CUR and LSEEK_END are 0, 1 and 2; `none` is the way out for another flag.
  abbrev pub seek_to : File → Inode → ℕ → ℕ → Option ℕ
  seek_to f ip lseek_offset flag =
      if flag == 0
      then some lseek_offset
      else if flag == 1
      then some (u32 (f.offset + lseek_offset))
      else if flag == 2
      then some (u32 (ip.disk_info.size + lseek_offset))
      else none

  abbrev pub seek_inode : ℕ → ℕ → ℕ → ℕ → Cmd Files ℕ
  seek_inode k lseek_offset flag i = on_fs (acquire sb i) >> (λ s.
      elim (seek_to (s.file_table k) (s.fs.cache i) lseek_offset flag) [
        | none ↦ (on_fs (release_slk sb i) >> pure (2 ^ 32 - 1)) s
        | some new_off ↦
            (on_fs (release_slk sb i) >> pure new_off)
              (set_file k (record (s.file_table k) { offset = new_off }) s)
      ])

  pub file_lseek : ℕ → ℕ → ℕ → Cmd Files ℕ
  file_lseek k lseek_offset flag = with_inode k (seek_inode k lseek_offset flag)

  -- `file_get_stat`, up to the copy to the user.
  pub file_get_stat : ℕ → Cmd Files FileStat
  file_get_stat k = with_inode k (λ i. on_fs (acquire sb i) >> (λ s.
      let ip = s.fs.cache i in
      (on_fs (release_slk sb i)
          >> pure (record {
            type = ip.disk_info.type;
            nlink = ip.disk_info.nlink;
            size = ip.disk_info.size;
            inode_num = ip.inode_num;
            offset = (s.file_table k).offset;
          }))
        s))
