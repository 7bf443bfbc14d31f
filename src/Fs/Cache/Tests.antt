-- ===== src/Fs/Cache/Tests.antt =====
-- An inode that is in no slot, asked for once and twice; the blocks of a directory freed.
use biglab.Prelude.{ℕ, ◌≡◌, ◌<◌, refl, ◌≢◌, false, arith}
use biglab.Prelude.Run.{ok}
use biglab.Fs.Sample.{small_sb, small_sb-IsLayout, dir_store, dir_store-InOrder, dir_disk, small_fs}
use biglab.Fs.Cache.{Fs, search_slots, inode_get, set_slot, free_data_blocks}
use biglab.Fs.Cache.Remove.{SlotsFreed, free_data_blocks-SlotsFreed}
use biglab.Fs.Cache.Get.{has, Got, inode_get-Got, inode_get_twice}

inode_get_example : Got 2 small_fs (inode_get 2 small_fs)
inode_get_example = inode_get-Got 2 small_fs

absent : (k : ℕ) → k < 64 → has 7 (small_fs.cache k) ≡ false
absent k lt = ground arith

abbrev got_once : Fs
got_once =
    set_slot 2 (record (small_fs.cache 2) { inode_num = 7; ref = 1; valid_info = false }) small_fs

abbrev got_twice : Fs
got_twice =
    set_slot 3 (record (got_once.cache 3) { inode_num = 7; ref = 1; valid_info = false }) got_once

once : inode_get 7 small_fs ≡ ok 2 got_once
unfolding inode_get search_slots
once = refl

twice : inode_get 7 got_once ≡ ok 3 got_twice
unfolding inode_get search_slots
twice = refl

inode_get_twice_example : ◌≢◌ {A = ℕ} 3 2
inode_get_twice_example = inode_get_twice 7 2 3 small_fs got_once got_twice absent once twice

free_data_blocks_example :
    SlotsFreed small_sb small_sb-IsLayout dir_store dir_store-InOrder 0 13 dir_disk
      (free_data_blocks small_sb dir_store.index dir_disk)
free_data_blocks_example =
    free_data_blocks-SlotsFreed small_sb small_sb-IsLayout dir_store dir_store-InOrder
