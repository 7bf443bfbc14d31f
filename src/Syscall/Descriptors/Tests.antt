-- ===== src/Syscall/Descriptors/Tests.antt =====
-- A process with one open descriptor.
use biglab.Prelude.{ℕ, ◌≡◌, ◌≢◌, refl, ◌⊎◌, ◌<◌, none, some, arith, update}
use biglab.Prelude.Run.{ok}
use biglab.Fs.Sample.{small_sb, small_fs}
use biglab.Fs.File.{empty_file}
use biglab.Syscall.Descriptors.{Caller, n_open_file, minus_one, sys_dup}
use biglab.Syscall.Descriptors.Dups.{Dup, sys_dup-Dup}

abbrev one_open : Caller
one_open = record {
  open_file = update (λ fd. none) 0 (some 3);
  files = record { file_table = λ k. record empty_file { ip = some 1 }; fs = small_fs };
}

sys_dup-Dup_example :
    ((sys_dup small_sb 0 one_open ≡ ok minus_one one_open)
      × ((j : ℕ) → j < n_open_file → one_open.open_file j ≢ none))
    ⊎ Dup small_sb 0 3 one_open
sys_dup-Dup_example =
    sys_dup-Dup small_sb 0 3 one_open (omega arith) refl (omega arith) (omega arith)
