-- ===== src/Fs/Dentry/Tests.antt =====
-- The name "a" in a directory that has it.
use biglab.Prelude.{ℕ, ◌/◌, ◌<◌, ◌≡◌, refl, ◌≢◌, arith, ◌==◌, if◌then◌else◌}
use biglab.Prelude.Run.{ok}
use biglab.Fs.Index.Nodes.{at}
use biglab.Fs.Index.Leaves.{leaf}
use biglab.Fs.Data.Round.{data_at}
use biglab.Fs.Sample.{small_sb, small_sb-IsLayout, small_fs, dir_store, dir_store-InOrder}
use biglab.Fs.Cache.{Fs}
use biglab.Fs.Dentry.{dentry_search}
use biglab.Fs.Dentry.Search.{Dir, search_entries, dentry_search-search_entries}

abbrev name_a : ℕ → ℕ
name_a i = if i == 0 then 97 else 0

abbrev dir_file : ℕ → ℕ
dir_file = data_at dir_store

first_block : (pos : ℕ) → pos < 64 → at (leaf (pos / 4096)) dir_store ≢ 0
first_block pos lt = let e : pos / 4096 ≡ 0 = omega (arith, lt) in rw e (λ z. omega (arith, z))

small_fs-Dir : Dir small_sb 0 64 dir_file small_fs
small_fs-Dir = record {
  in_order = dir_store-InOrder;
  contents = λ pos p. refl;
  no_hole = first_block;
  is_size = refl;
  is_type = refl;
}

dentry_search_example :
    (s' : Fs) × (dentry_search small_sb 0 name_a small_fs
      ≡ ok (search_entries dir_file name_a 1 0) s')
    × Dir small_sb 0 64 dir_file s'
    × ((j : ℕ) → j ≢ 0 → s'.cache j ≡ small_fs.cache j)
dentry_search_example =
    dentry_search-search_entries small_sb small_sb-IsLayout 0 64 dir_file (omega arith) name_a
      small_fs small_fs-Dir

found_five : search_entries dir_file name_a 1 0 ≡ 5
unfolding biglab.Fs.Names.strncmp_from
found_five = refl
