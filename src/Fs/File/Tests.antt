-- ===== src/Fs/File/Tests.antt =====
-- A file of the table, used twice and closed once; a file opened with FILE_OPEN_READ.
use biglab.Prelude.{refl, some, [], ◌∷◌, update}
use biglab.Fs.Sample.{small_sb, small_fs}
use biglab.Fs.File.{Files, empty_file, file_open}
use biglab.Fs.Device.{o_rdonly}
use biglab.Fs.File.Modes.{Opened, file_open-Opened}

abbrev small_files : Files
small_files = record {
  file_table = update (λ k. record empty_file { ref = 0 }) 0 (record empty_file { ip = some 1 });
  fs = small_fs;
}

file_open_example : Opened o_rdonly (file_open small_sb (λ i. 0) (47 ∷ []) o_rdonly small_files)
file_open_example = file_open-Opened small_sb o_rdonly refl (λ i. 0) (47 ∷ []) small_files
