-- ===== src/Fs/Index/Tests.antt =====
-- The first block of an empty file.
use biglab.Prelude.{arith}
use biglab.Fs.Sample.{small_sb, small_sb-IsLayout, empty_store, empty_store-InOrder}
use biglab.Fs.Index.{locate_or_add_block}
use biglab.Fs.Index.Locate.{Located, locate_or_add_block-Located}

locate_or_add_block_example :
    Located small_sb 3 empty_store (locate_or_add_block small_sb 3 empty_store)
locate_or_add_block_example =
    locate_or_add_block-Located small_sb small_sb-IsLayout 3 empty_store (omega arith)
      empty_store-InOrder
