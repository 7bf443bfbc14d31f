-- ===== src/Fs/File/Modes.antt =====
-- `file_open`: what the mode gives.
use biglab.Prelude.{
  ℕ, ◌≡◌, refl, true, not, arith, Option, none, some, if◌then◌else◌, inl, inr, Bool-cases, eqb_refl,
  List,
}
use biglab.Prelude.Run.{Run, ok, panic, out_of_fuel, blocked, Cmd, and_then, pure, ◌>>◌}
use biglab.Fs.Disk.{SuperBlock}
use biglab.Fs.File.{
  Files, has_flag, o_rdwr, file_alloc, acquire, may_open, refuse, open_inode, open_found, fill,
  release_slk, file_open, on_fs, o_create,
}
use biglab.Fs.Cache.{inode_put}
use biglab.Fs.Device.{o_wronly}
use biglab.Fs.Inode.{inode_type_data}
use biglab.Fs.Paths.{path_to_inode, path_create_inode}

-- If a file has been opened, it can be written, and it can be read unless the mode has FILE_OPEN_WRITE.
abbrev pub Opened : ℕ → Run Files (Option ℕ) → Type 0
Opened mode (ok none s) = Unit
Opened mode (ok (some k) s) =
    ((s.file_table k).writable ≡ true) × ((s.file_table k).readable ≡ not (has_flag mode o_wronly))
Opened mode panic = Unit
Opened mode out_of_fuel = Unit
Opened mode blocked = Unit

then-Opened :
    {A : Type 0} (mode : ℕ) (r : Run Files A) (k : A → Cmd Files (Option ℕ))
    → ((a : A) (s : Files) → Opened mode (k a s))
    → Opened mode (and_then r k)
then-Opened mode (ok a s) k next = next a s
then-Opened mode panic k next = tt
then-Opened mode out_of_fuel k next = tt
then-Opened mode blocked k next = tt

module _ (sb : SuperBlock) (mode : ℕ) (access : has_flag mode o_rdwr ≡ true) where
  refuse-Opened : (i : ℕ) (s : Files) → Opened mode (refuse sb i s)
  refuse-Opened i s =
      then-Opened {A = Unit {0}} mode ((on_fs (release_slk sb i) >> on_fs (inode_put sb i)) s)
        (λ u. pure none) (λ u t. tt)

  fill-Opened : (i : ℕ) (found : Option ℕ) (s : Files) → Opened mode (fill sb mode i found s)
  fill-Opened i none s = refuse-Opened i s
  fill-Opened i (some k) s = rw (eqb_refl k) (ground (arith, access), refl)

  open_inode-Opened : (i : ℕ) (s : Files) → Opened mode (open_inode sb mode i s)
  open_inode-Opened i s =
      then-Opened {A = Unit {0}} mode (on_fs (acquire sb i) s)
        (λ u t.
          if may_open sb (t.fs.cache i) mode
          then and_then (file_alloc t) (fill sb mode i)
          else refuse sb i t)
        (λ u t. elim (Bool-cases (may_open sb (t.fs.cache i) mode)) [
          | inl e ↦ rw e (then-Opened mode (file_alloc t) (fill sb mode i) (fill-Opened i))
          | inr e ↦ rw e (refuse-Opened i t)
        ])

  open_found-Opened : (found : Option ℕ) (s : Files) → Opened mode (open_found sb mode found s)
  open_found-Opened none s = tt
  open_found-Opened (some i) s = open_inode-Opened i s

  -- Where the mode has FILE_OPEN_READ or FILE_OPEN_WRITE, a file that `file_open` has opened can be written, also if the mode is FILE_OPEN_READ
  -- alone, and it can be read only if the mode does not have FILE_OPEN_WRITE.
  pub file_open-Opened :
      (junk : ℕ → ℕ) (path : List ℕ) (s : Files) → Opened mode (file_open sb junk path mode s)
  unfolding file_open
  file_open-Opened junk path s =
      then-Opened mode
        (on_fs
          (if has_flag mode o_create
            then path_create_inode sb junk path inode_type_data 0 0
            else path_to_inode sb junk path)
          s)
        (open_found sb mode) open_found-Opened
