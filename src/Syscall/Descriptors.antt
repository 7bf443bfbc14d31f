-- ===== src/Syscall/Descriptors.antt =====
-- src/kernel/syscall/sysfunc.c: the calls on the open files of a process. The arguments of a call are those of the
-- functions here: `arg_int` gives an int, whose 32 bits are a number, so that a negative one lies
-- above every descriptor; a path has been copied from the user. The result -1 is `minus_one`.
pub mod Dups
mod Tests
use biglab.Prelude.{
  ℕ, zero, suc, ◌+◌, ◌-◌, ◌^◌, Option, none, some, List, leb, if◌then◌else◌, update,
}
use biglab.Prelude.Run.{Run, ok, panic, out_of_fuel, blocked, Cmd, ◌>>=◌, ◌>>◌, pure}
use biglab.Fs.Disk.{SuperBlock}
use biglab.Fs.Device.{Reader, Writer}
use biglab.Fs.File.{Files, file_open, file_close, file_dup}
use biglab.Fs.File.Access.{FileStat, file_read, file_write, file_lseek, file_get_stat}

-- N_OPEN_FILE.
abbrev pub n_open_file : ℕ
n_open_file = 16

-- `(uint64)-1`.
abbrev pub minus_one : ℕ
minus_one = 2 ^ 64 - 1

-- `open_file` of the running process, beside the table of files; `none` is NULL.
pub record Caller : Type 0 where
  pub open_file : ℕ → Option ℕ
  pub files : Files

-- A command on the files.
abbrev pub lift_files : {A : Type 0} → Run Files A → Cmd Caller A
lift_files (ok a t) s = ok a (record s { files = t })
lift_files panic s = panic
lift_files out_of_fuel s = out_of_fuel
lift_files blocked s = blocked

abbrev pub on_files : {A : Type 0} → Cmd Files A → Cmd Caller A
on_files m s = lift_files (m s.files) s

-- `p->open_file[fd] = f`.
abbrev pub set_fd : ℕ → Option ℕ → Cmd Caller (Unit {0})
set_fd fd f s = ok tt (record s { open_file = update s.open_file fd f })

-- The loop of `sys_open` and `sys_dup`, over `n` descriptors from the `i`th.
pub free_fd : ℕ → ℕ → (ℕ → Option ℕ) → Option ℕ
free_fd zero i open_file = none
free_fd (suc n) i open_file =
    let rest = free_fd n (suc i) open_file in elim (open_file i) [ none ↦ some i | some _ ↦ rest ]

-- The file behind a descriptor, if the checks of the calls let it pass.
abbrev pub file_of : ℕ → Caller → Option ℕ
file_of fd s = if leb n_open_file fd then none else s.open_file fd

-- A call on the file behind a descriptor, or -1.
abbrev pub on_file : {A : Type 0} → A → (ℕ → Cmd Caller A) → Option ℕ → Cmd Caller A
on_file failed m none s = ok failed s
on_file failed m (some k) s = m k s

abbrev pub with_file : {A : Type 0} → A → ℕ → (ℕ → Cmd Caller A) → Cmd Caller A
with_file failed fd m s = on_file failed m (file_of fd s) s

module _ (sb : SuperBlock) where
  -- The file that was opened gets the lowest free descriptor, or is closed.
  abbrev pub give_fd : Option ℕ → Cmd Caller ℕ
  give_fd none s = ok minus_one s
  give_fd (some k) s = elim (free_fd n_open_file 0 s.open_file) [
    | none ↦ (on_files (file_close sb k) >> pure minus_one) s
    | some i ↦ (set_fd i (some k) >> pure i) s
  ]

  pub sys_open : (ℕ → ℕ) → List ℕ → ℕ → Cmd Caller ℕ
  sys_open junk path mode = on_files (file_open sb junk path mode) >>= give_fd

  pub sys_close : ℕ → Cmd Caller ℕ
  sys_close fd = with_file minus_one fd λ k. on_files (file_close sb k) >> set_fd fd none >> pure 0

  -- The rest of `sys_dup`, with the free descriptor that the loop found.
  abbrev pub dup_fd : ℕ → Option ℕ → Cmd Caller ℕ
  dup_fd k none s = ok minus_one s
  dup_fd k (some i) s = (on_files (file_dup k) >>= λ f. set_fd i (some f) >> pure i) s

  abbrev pub dup_to : ℕ → Cmd Caller ℕ
  dup_to k s = dup_fd k (free_fd n_open_file 0 s.open_file) s

  pub sys_dup : ℕ → Cmd Caller ℕ
  sys_dup fd = with_file minus_one fd dup_to

  module _ (device_read : Reader → ℕ → (ℕ → ℕ) → ℕ × (ℕ → ℕ))
      (device_write : Writer → ℕ → (ℕ → ℕ) → ℕ) where
    -- The buffer of the user is an argument and part of the result.
    pub sys_read : ℕ → ℕ → (ℕ → ℕ) → Cmd Caller (ℕ × (ℕ → ℕ))
    sys_read fd len buf =
        with_file (minus_one, buf) fd
          λ k. on_files (file_read sb device_read device_write k len buf)

    pub sys_write : ℕ → ℕ → (ℕ → ℕ) → Cmd Caller ℕ
    sys_write fd len buf =
        with_file minus_one fd λ k. on_files (file_write sb device_read device_write k len buf)

  pub sys_lseek : ℕ → ℕ → ℕ → Cmd Caller ℕ
  sys_lseek fd offset flag = with_file minus_one fd λ k. on_files (file_lseek sb k offset flag)

  -- `none` is the result -1; else what `file_get_stat` copies to the user.
  pub sys_fstat : ℕ → Cmd Caller (Option FileStat)
  sys_fstat fd = with_file none fd λ k. on_files (file_get_stat sb k) >>= λ stat. pure (some stat)
