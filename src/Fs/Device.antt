-- ===== src/Fs/Device.antt =====
-- src/kernel/fs/device.c: which devices may be opened, and how, and the table of their functions. A device's
-- functions are kept as the operations that they call; `none` is NULL.
pub mod Rights
use biglab.Prelude.{
  ℕ, ◌+◌, ◌-◌, Bool, true, false, ◌&&◌, ◌||◌, not, Option, none, some, ◌==◌, ltb, leb,
  if◌then◌else◌, update,
}

-- INODE_MAJOR_STDIN up to INODE_MAJOR_GPT0, and N_DEVICE.
abbrev pub major_stdin : ℕ
major_stdin = 0

abbrev pub major_stdout : ℕ
major_stdout = 1

abbrev pub major_stderr : ℕ
major_stderr = 2

abbrev pub major_zero : ℕ
major_zero = 3

abbrev pub major_null : ℕ
major_null = 4

abbrev pub major_gpt0 : ℕ
major_gpt0 = 5

abbrev pub n_device : ℕ
n_device = 10

-- FILE_OPEN_READ and FILE_OPEN_WRITE.
abbrev pub o_rdonly : ℕ
o_rdonly = 1

abbrev pub o_wronly : ℕ
o_wronly = 2

-- The functions that `device_table` points to.
pub data Reader : Type 0 where
  device_stdin_read : Reader
  device_zero_read : Reader
  device_null_read : Reader

pub data Writer : Type 0 where
  device_stdout_write : Writer
  device_stderr_write : Writer
  device_null_write : Writer
  device_gpt0_write : Writer

-- `device_t` without its name.
pub record Device : Type 0 where
  pub read : Option Reader
  pub write : Option Writer

abbrev pub device_register : ℕ → Option Reader → Option Writer → (ℕ → Device) → ℕ → Device
device_register index read write table =
    if leb n_device index then table else update table index (record { read = read; write = write })

-- The table after `device_init`.
abbrev pub device_table : ℕ → Device
device_table = device_register major_gpt0 none (some device_gpt0_write) (
    device_register major_null (some device_null_read) (some device_null_write) (
      device_register major_zero (some device_zero_read) none (
        device_register major_stderr none (some device_stderr_write) (
          device_register major_stdout none (some device_stdout_write) (
            device_register major_stdin (some device_stdin_read) none
              (λ i. record { read = none; write = none }))))))

pub device_open_check : ℕ → ℕ → Bool
device_open_check major open_mode =
    if leb n_device major
    then false
    else if major == major_stdin
    then open_mode == o_rdonly
    else if (major == major_stdout) || (major == major_stderr) || (major == major_gpt0)
    then open_mode == o_wronly
    else if major == major_zero
    then open_mode == o_rdonly
    else if major == major_null
    then true
    else false

-- `device_read_data` and `device_write_data`: the function that they call; without one they return 0.
abbrev pub device_reader : ℕ → Option Reader
device_reader major = if leb n_device major then none else (device_table major).read

abbrev pub device_writer : ℕ → Option Writer
device_writer major = if leb n_device major then none else (device_table major).write
