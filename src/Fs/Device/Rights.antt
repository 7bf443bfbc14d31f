-- ===== src/Fs/Device/Rights.antt =====
-- A device that can be opened for reading can be read, and one that can be opened for writing can be written.
use biglab.Prelude.{
  ℕ, ◌≤◌, ◌≡◌, refl, Bool, true, false, arith, Option, none, some, Bool-cases, inl, inr, ltb, leb,
  ◌&&◌, every, every_at,
}
use biglab.Fs.Device.{device_open_check, device_reader, device_writer, o_rdonly, o_wronly}

abbrev pub has_one {ℓ} : {A : Type ℓ} → Option A → Bool
has_one none = false
has_one (some a) = true

abbrev pub implies : Bool → Bool → Bool
implies true b = b
implies false b = true

table :
    every
      (λ m.
        implies (device_open_check m o_rdonly) (has_one (device_reader m))
        && implies (device_open_check m o_wronly) (has_one (device_writer m)))
      10
    ≡ true
unfolding device_open_check every
table = refl

past_table : (major mode : ℕ) → 10 ≤ major → device_open_check major mode ≡ false
unfolding device_open_check
past_table major mode h = let e : leb 10 major ≡ true = ground arith in rw e refl

-- A device that `device_open_check` lets be opened with FILE_OPEN_READ has a function to read, and one that it lets be
-- opened with FILE_OPEN_WRITE has a function to write.
pub device_open_check_functions :
    (major : ℕ)
    → (implies (device_open_check major o_rdonly) (has_one (device_reader major))
        && implies (device_open_check major o_wronly) (has_one (device_writer major)))
      ≡ true
device_open_check_functions major = elim (Bool-cases (ltb major 10)) [
  | inl e ↦ every_at _ 10 table major (ground (arith, e))
  | inr e ↦ rw (past_table major 1 (ground (arith, e)), past_table major 2 (ground (arith, e))) refl
]
