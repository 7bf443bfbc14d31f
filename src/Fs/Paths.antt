-- ===== src/Fs/Paths.antt =====
-- src/kernel/fs/dentry.c: from a path to an inode, and the files and directories that are made, linked and
-- removed by their paths. `none` is NULL. A buffer `char name[60]` starts with the `junk` of the stack.
use biglab.Prelude.{
  ℕ, zero, suc, ◌+◌, ◌-◌, ◌%◌, ◌^◌, Bool, true, false, ◌&&◌, ◌||◌, Option, none, some, ◌==◌, ltb,
  if◌then◌else◌, List, [], ◌∷◌, length,
}
use biglab.Prelude.Run.{ok, out_of_fuel, Cmd, ◌>>=◌, ◌>>◌, pure}
use biglab.Fs.Disk.{SuperBlock}
use biglab.Fs.Inode.{InodeDisk, inode_type_dir}
use biglab.Fs.Cache.{
  Fs, inode_get, inode_dup, inode_lock, inode_unlock, inode_put, inode_create, save, modify,
}
use biglab.Fs.Names.{maxlen_filename, strncmp_eq, strcpy_from, slash, get_element}
use biglab.Fs.Dentry.{invalid_inode_num, is_dir, dentry_search, dentry_create, dentry_delete}

-- ROOT_INODE.
abbrev pub root_inode : ℕ
root_inode = 0

-- A command that looks at the state first.
abbrev pub look : {A S : Type 0} → (S → Cmd S A) → Cmd S A
look f s = f s s

-- The short numbers `nlink++` and `nlink--`.
abbrev pub add_link : InodeDisk → InodeDisk
add_link info = record info { nlink = (info.nlink + 1) % 2 ^ 16 }

abbrev pub drop_link : InodeDisk → InodeDisk
drop_link info = record info { nlink = (info.nlink + (2 ^ 16 - 1)) % 2 ^ 16 }

-- The names "." and "..", which the program keeps as texts with a NUL.
abbrev pub dot : ℕ → ℕ
dot i = if i == 0 then 46 else 0

abbrev pub dot_dot : ℕ → ℕ
dot_dot i = if ltb i 2 then 46 else 0

-- Where a path starts: the root, or the working directory.
abbrev pub start : List ℕ → Cmd Fs ℕ
start [] s = inode_dup s.cwd s
start (c ∷ path) s = if c == slash then inode_get root_inode s else inode_dup s.cwd s

module _ (sb : SuperBlock) where
  abbrev pub not_dir : ℕ → Cmd Fs (Option ℕ)
  not_dir i = inode_unlock sb i >> inode_put sb i >> pure none

  abbrev pub go_on : ℕ → ℕ → Cmd Fs (Option ℕ)
  go_on i next_inum =
      if next_inum == invalid_inode_num
      then (inode_put sb i >> pure none)
      else (inode_get next_inum >>= λ next_ip. inode_put sb i >> pure (some next_ip))

  abbrev pub search_entry : ℕ → (ℕ → ℕ) → Cmd Fs (Option ℕ)
  search_entry i name =
      dentry_search sb i name >>= λ next_inum. inode_unlock sb i >> go_on i next_inum

  -- One round of the walk: from the directory `i` to its entry `name`, or to NULL.
  abbrev pub enter : ℕ → (ℕ → ℕ) → Cmd Fs (Option ℕ)
  enter i name =
      inode_lock sb i >> look (λ s. if is_dir sb s i then search_entry i name else not_dir i)

  -- The loop of `path_to_inode`.
  pub walk : ℕ → ℕ → List ℕ → (ℕ → ℕ) → Cmd Fs (Option ℕ)
  walk zero i path name s = out_of_fuel
  walk (suc fuel) i path name s = elim (get_element path name) [
    | none ↦ ok (some i) s
    | some (rest, name') ↦
        (enter i name' >>= λ next. elim next [ none ↦ pure none | some j ↦ walk fuel j rest name' ])
          s
  ]

  -- Each round takes a character of the path.
  pub path_to_inode : (ℕ → ℕ) → List ℕ → Cmd Fs (Option ℕ)
  unfolding walk
  path_to_inode junk path = start path >>= λ i. walk (suc (length path)) i path junk

  -- The loop of `path_to_parent_inode`; `path` is what is left after the element in `name`.
  pub walk_parent : ℕ → ℕ → (ℕ → ℕ) → List ℕ → (ℕ → ℕ) → Cmd Fs (Option ℕ × (ℕ → ℕ))
  walk_parent zero i junk path name s = out_of_fuel
  walk_parent (suc fuel) i junk path name s = elim (get_element path junk) [
    | none ↦ ok (some i, name) s
    | some (rest, temp_name) ↦
        (enter i name >>= λ next. elim next [
          | none ↦ pure (none, name)
          | some j ↦ walk_parent fuel j junk rest (strcpy_from maxlen_filename 0 name temp_name)
        ])
          s
  ]

  pub path_to_parent_inode : (ℕ → ℕ) → List ℕ → (ℕ → ℕ) → Cmd Fs (Option ℕ × (ℕ → ℕ))
  unfolding walk_parent
  path_to_parent_inode junk path name = start path >>= λ i. elim (get_element path name) [
    | none ↦ pure (some i, name)
    | some (rest, name') ↦ walk_parent (suc (length rest)) i junk rest name'
  ]

  -- What `path_create_inode` does with the new inode `i` of the directory `dp`.
  abbrev pub add_dots : ℕ → ℕ → Cmd Fs (Unit {0})
  add_dots i dp = look (λ s. dentry_create sb i (s.cache i).inode_num dot >>= λ _.
      dentry_create sb i (s.cache dp).inode_num dot_dot >>= λ _. modify sb i add_link >> save sb i)

  abbrev pub give_up : ℕ → Cmd Fs (Option ℕ)
  give_up dp = inode_unlock sb dp >> inode_put sb dp >> pure none

  abbrev pub name_new : ℕ → ℕ → (ℕ → ℕ) → ℕ → Cmd Fs (Option ℕ)
  name_new type dp name i =
      inode_lock sb i
      >> modify sb i (λ info. record info { nlink = 1 })
      >> save sb i
      >> (if type == inode_type_dir then add_dots i dp else pure tt)
      >> look (λ s. dentry_create sb dp (s.cache i).inode_num name)
      >> inode_unlock sb i
      >> inode_unlock sb dp
      >> inode_put sb dp
      >> pure (some i)

  abbrev pub create_in : ℕ → ℕ → ℕ → ℕ → (ℕ → ℕ) → Cmd Fs (Option ℕ)
  create_in type major minor dp name = inode_lock sb dp >> dentry_search sb dp name >>= λ found.
      if found == invalid_inode_num
      then (inode_create sb type major minor >>= λ new. elim new [
        | none ↦ give_up dp
        | some i ↦ name_new type dp name i
      ])
      else give_up dp

  pub path_create_inode : (ℕ → ℕ) → List ℕ → ℕ → ℕ → ℕ → Cmd Fs (Option ℕ)
  path_create_inode junk path type major minor =
      path_to_parent_inode junk path junk >>= λ (dp, name). elim dp [
        | none ↦ pure none
        | some d ↦ create_in type major minor d name
      ]

  -- The result of `path_link` and `path_unlink`: whether it is 0, not -1.
  abbrev pub link_in : ℕ → ℕ → (ℕ → ℕ) → Cmd Fs Bool
  link_in i dp name = inode_lock sb dp >> dentry_search sb dp name >>= λ found.
      if found == invalid_inode_num
      then (look (λ s. dentry_create sb dp (s.cache i).inode_num name)
          >> inode_lock sb i
          >> modify sb i add_link
          >> save sb i
          >> inode_unlock sb i
          >> inode_unlock sb dp
          >> inode_put sb dp
          >> inode_put sb i
          >> pure true)
      else (inode_unlock sb dp >> inode_put sb dp >> inode_put sb i >> pure false)

  abbrev pub link_to : (ℕ → ℕ) → List ℕ → ℕ → Cmd Fs Bool
  link_to junk new_path i = look (λ s.
      if is_dir sb s i
      then (inode_put sb i >> pure false)
      else (path_to_parent_inode junk new_path junk >>= λ (dp, name). elim dp [
        | none ↦ (inode_put sb i >> pure false)
        | some d ↦ link_in i d name
      ]))

  pub path_link : (ℕ → ℕ) → List ℕ → List ℕ → Cmd Fs Bool
  path_link junk old_path new_path = path_to_inode junk old_path >>= λ found. elim found [
    | none ↦ pure false
    | some i ↦ link_to junk new_path i
  ]

  -- `ip->disk_info.nlink > 0`, for a short.
  abbrev pub has_links : Fs → ℕ → Bool
  has_links s i = ltb 0 (s.cache i).disk_info.nlink && ltb (s.cache i).disk_info.nlink (2 ^ 15)

  abbrev pub unlink_inode : ℕ → ℕ → Cmd Fs (Unit {0})
  unlink_inode dp i = look (λ s.
      if has_links s i
      then (modify sb i drop_link
          >> save sb i
          >> look
              (λ s'. if is_dir sb s' i then (modify sb dp drop_link >> save sb dp) else pure tt))
      else pure tt)

  abbrev pub unlink_in : ℕ → (ℕ → ℕ) → Cmd Fs Bool
  unlink_in dp name =
      inode_lock sb dp
      >> (if strncmp_eq name dot maxlen_filename || strncmp_eq name dot_dot maxlen_filename
          then (inode_unlock sb dp >> inode_put sb dp >> pure false)
          else (dentry_delete sb dp name >>= λ inum.
              if inum == invalid_inode_num
              then (inode_unlock sb dp >> inode_put sb dp >> pure false)
              else (inode_get inum >>= λ i.
                  inode_lock sb i
                  >> unlink_inode dp i
                  >> inode_unlock sb i
                  >> inode_put sb i
                  >> inode_unlock sb dp
                  >> inode_put sb dp
                  >> pure true)))

  pub path_unlink : (ℕ → ℕ) → List ℕ → Cmd Fs Bool
  path_unlink junk path = path_to_parent_inode junk path junk >>= λ (dp, name). elim dp [
    | none ↦ pure false
    | some d ↦ unlink_in d name
  ]
