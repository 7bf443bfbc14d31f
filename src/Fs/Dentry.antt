-- ===== src/Fs/Dentry.antt =====
-- src/kernel/fs/dentry.c: the entries of a directory. An entry has 64 bytes: 60 of a name and the number of an
-- inode. The loops go over the entries by their offsets; INVALID_INODE_NUM and -1 are 2^32 - 1.
pub mod Search
mod Tests
use biglab.Prelude.{
  ℕ, zero, suc, ◌+◌, ◌-◌, ◌*◌, ◌/◌, ◌^◌, Bool, true, false, ◌&&◌, ◌||◌, not, Option, none, some,
  ◌==◌, ltb, leb, if◌then◌else◌, update, u32,
}
use biglab.Prelude.Run.{Run, ok, panic, out_of_fuel, blocked, Cmd, and_then, ◌>>=◌, pure}
use biglab.Fs.Disk.{Disk, SuperBlock}
use biglab.Fs.Index.{get32}
use biglab.Fs.Inode.{Inode, InodeDisk, inode_type_dir, byte_at}
use biglab.Fs.Data.{inode_read_data, inode_write_data}
use biglab.Fs.Cache.{Fs, set_slot}
use biglab.Fs.Names.{maxlen_filename, strncmp_eq}

-- sizeof(dentry_t).
abbrev pub dentry_size : ℕ
dentry_size = 64

abbrev pub invalid_inode_num : ℕ
invalid_inode_num = 2 ^ 32 - 1

-- `de.inode_num` in the bytes of an entry.
abbrev pub dentry_num : (ℕ → ℕ) → ℕ
dentry_num de = get32 de 15

-- `dentry_t de` before it is filled.
abbrev pub no_entry : ℕ → ℕ
no_entry a = 0

-- The entry that `dentry_create` writes.
abbrev pub new_entry : ℕ → (ℕ → ℕ) → ℕ → ℕ
new_entry inode_num name k =
    if ltb k (maxlen_filename - 1)
    then name k
    else if ltb k maxlen_filename
    then 0
    else byte_at inode_num (k - maxlen_filename)

-- `de.name[0] != 0 && strncmp(de.name, name, MAXLEN_FILENAME) == 0`.
abbrev pub has_name : (ℕ → ℕ) → (ℕ → ℕ) → Bool
has_name de name = not (de 0 == 0) && strncmp_eq de name maxlen_filename

-- What a read and a write of a slot leave in the state.
abbrev pub after_read : ℕ → Fs → Run ((Inode × Disk) × (ℕ → ℕ)) ℕ → Run Fs (ℕ × (ℕ → ℕ))
after_read i s (ok n ((ip, disk), dst')) = ok (n, dst') (record (set_slot i ip s) { disk = disk })
after_read i s panic = panic
after_read i s out_of_fuel = out_of_fuel
after_read i s blocked = blocked

abbrev pub after_write : ℕ → Fs → Run (Inode × Disk) ℕ → Run Fs ℕ
after_write i s (ok n (ip, disk)) = ok n (record (set_slot i ip s) { disk = disk })
after_write i s panic = panic
after_write i s out_of_fuel = out_of_fuel
after_write i s blocked = blocked

module _ (sb : SuperBlock) where
  -- `inode_read_data` and `inode_write_data` for a slot.
  abbrev pub read_slot : ℕ → ℕ → ℕ → (ℕ → ℕ) → Cmd Fs (ℕ × (ℕ → ℕ))
  read_slot i offset len dst s =
      after_read i s (inode_read_data sb (s.cache i) offset len dst s.disk)

  abbrev pub write_slot : ℕ → ℕ → ℕ → (ℕ → ℕ) → Cmd Fs ℕ
  write_slot i offset len src s =
      after_write i s (inode_write_data sb (s.cache i) offset len src s.disk)

  -- A loop over the entries from `off` on, which carries `state` and may stop with a result. `step` is what a round does with
  -- the entry at an offset; `done` is the result at the end, or where an entry cannot be read.
  pub each_entry :
      {A : Type 0} {S : Type 0}
      → ℕ
      → (A → S)
      → (ℕ → (ℕ → ℕ) → A → (A → Cmd Fs S) → Cmd Fs S)
      → ℕ
      → ℕ
      → A
      → Cmd Fs S
  each_entry {A} {S} zero done step i off state s = out_of_fuel
  each_entry {A} {S} (suc fuel) done step i off state s =
      let next = λ (state' : A). each_entry fuel done step i (u32 (off + dentry_size)) state' in
      if ltb off (s.cache i).disk_info.size
      then (read_slot i off dentry_size no_entry >>= λ (n, de).
            if n == dentry_size then step off de state next else pure (done state))
          s
      else ok (done state) s

  -- A round for each entry and one more.
  abbrev pub entry_rounds : Fs → ℕ → ℕ
  entry_rounds s i = suc (suc ((s.cache i).disk_info.size / dentry_size))

  abbrev pub is_dir : Fs → ℕ → Bool
  is_dir s i = (s.cache i).disk_info.type == inode_type_dir

  unfoldable pub dentry_search : ℕ → (ℕ → ℕ) → Cmd Fs ℕ
  dentry_search i name s =
      if is_dir s i
      then each_entry (entry_rounds s i) (λ u. invalid_inode_num)
          (λ off de u next. if has_name de name then pure (dentry_num de) else next u) i 0 (tt {0})
          s
      else ok invalid_inode_num s

  -- The first loop of `dentry_create`: `none` if the name is there, or else the first free offset, if any.
  abbrev pub find_room : ℕ → (ℕ → ℕ) → Cmd Fs (Option (Option ℕ))
  find_room i name s =
      each_entry (entry_rounds s i) some
        (λ off de (empty_off : Option ℕ) next.
          if de 0 == 0
          then next (elim empty_off [ none ↦ some off | some e ↦ some e ])
          else if strncmp_eq de name maxlen_filename
          then pure none
          else next empty_off)
        i 0 none s

  abbrev pub write_entry : ℕ → ℕ → (ℕ → ℕ) → Option (Option ℕ) → Cmd Fs ℕ
  write_entry i inode_num name none s = ok (2 ^ 32 - 1) s
  write_entry i inode_num name (some empty_off) s =
      let write_off : ℕ = elim empty_off [ none ↦ (s.cache i).disk_info.size | some e ↦ e ] in
      (write_slot i write_off dentry_size (new_entry inode_num name) >>= λ n.
      pure (if n == dentry_size then write_off else 2 ^ 32 - 1))
        s

  unfoldable pub dentry_create : ℕ → ℕ → (ℕ → ℕ) → Cmd Fs ℕ
  dentry_create i inode_num name s =
      if is_dir s i
      then (find_room i name >>= write_entry i inode_num name) s
      else ok (2 ^ 32 - 1) s

  pub dentry_delete : ℕ → (ℕ → ℕ) → Cmd Fs ℕ
  dentry_delete i name s =
      if is_dir s i
      then each_entry (entry_rounds s i) (λ u. invalid_inode_num)
          (λ off de u next.
            if has_name de name
            then (write_slot i off dentry_size no_entry >>= λ n.
                pure (if n == dentry_size then dentry_num de else invalid_inode_num))
            else next u)
          i 0 (tt {0}) s
      else ok invalid_inode_num s

  -- `dentry_search_2`: the offset of the entry of an inode, with its name; -1 without it.
  pub dentry_search_2 : ℕ → ℕ → (ℕ → ℕ) → Cmd Fs (ℕ × (ℕ → ℕ))
  dentry_search_2 i inode_num name s =
      each_entry (entry_rounds s i) (λ u. (2 ^ 32 - 1, name))
        (λ off de u next.
          if dentry_num de == inode_num
          then pure (off, λ a. if ltb a maxlen_filename then de a else name a)
          else next u)
        i 0 (tt {0}) s

  -- The loop of `dentry_transmit`. A read that fails leaves `de` as the round before left it.
  pub transmit_loop : ℕ → ℕ → ℕ → ℕ → ℕ → (ℕ → ℕ) → (ℕ → ℕ) → Cmd Fs (ℕ × (ℕ → ℕ))
  transmit_loop zero i off count len de dst s = out_of_fuel
  transmit_loop (suc fuel) i off count len de dst s =
      if ltb off (s.cache i).disk_info.size && leb (count + dentry_size) len
      then (read_slot i off dentry_size de >>= λ (n, de').
            if dentry_num de' == 0
            then transmit_loop fuel i (u32 (off + dentry_size)) count len de' dst
            else transmit_loop fuel i (u32 (off + dentry_size)) (count + dentry_size) len de' (λ a.
              if leb count a && ltb a (count + dentry_size) then de' (a - count) else dst a))
          s
      else ok (count, dst) s

  pub dentry_transmit : ℕ → ℕ → (ℕ → ℕ) → (ℕ → ℕ) → Cmd Fs (ℕ × (ℕ → ℕ))
  dentry_transmit i len de dst s = transmit_loop (entry_rounds s i) i 0 0 len de dst s
