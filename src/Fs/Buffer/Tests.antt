-- ===== src/Fs/Buffer/Tests.antt =====
-- Small caches, and the theorems on them.
use biglab.Prelude.{ℕ, ◌≡◌, refl, none, some, [], ◌∷◌, arith, ◌==◌, if◌then◌else◌, update}
use biglab.Prelude.Run.{ok, ◌>>◌}
use biglab.Fs.Buffer.{Buffers, block_num_unused, buffer_get, buffer_put, buffer_freemem}
use biglab.Fs.Buffer.Coherence.{Coherent}
use biglab.Fs.Buffer.Change.{Changes, change_block-Changes}
use biglab.Fs.Buffer.Victim.{buffer_get-put}
use biglab.Fs.Buffer.Pages.{Freed, buffer_freemem-Freed}

-- The buffer 0 has the block 5 and one holder, the buffer 1 the block 6, and the buffer 2 none.
abbrev three_bufs : Buffers
three_bufs = record {
  bufs = λ i.
      if i == 0
      then record { block_num = 5; ref = 1; page = some (λ a. 5); slk = none }
      else if i == 1
      then record { block_num = 6; ref = 0; page = some (λ a. 6); slk = none }
      else record { block_num = block_num_unused; ref = 0; page = none; slk = none };
  active = 0 ∷ [];
  inactive = 1 ∷ 2 ∷ [];
  disk = λ b a. b;
  pages = 1;
  pid = 1;
}

three_bufs-Coherent : Coherent three_bufs
three_bufs-Coherent = record {
  active_distinct = (refl, tt);
  inactive_distinct = (refl, (refl, tt));
  apart = λ i m. ground arith;
  in_use = λ i m. ground arith;
  idle = λ i m. ground arith;
  unlocked = λ i m. ground arith;
  fresh = λ i m u. ground arith;
  single = λ i j mi mj e u. ground arith;
}

change_block-Changes_example : Changes (λ b. update b 3 9) 7 three_bufs
change_block-Changes_example =
    change_block-Changes (λ b. update b 3 9) 7 three_bufs three_bufs-Coherent
      (λ e. omega (arith, e)) λ i. ground arith

buffer_get-put_example : (s' : Buffers) × ((buffer_put 0 >> buffer_get 7) three_bufs ≡ ok 0 s')
buffer_get-put_example =
    buffer_get-put three_bufs 0 7 three_bufs-Coherent refl refl (λ e. omega (arith, e))
      (λ e. omega (arith, e)) λ j m e. ground arith

buffer_freemem-Freed_example :
    (n : ℕ) × (s' : Buffers) × (buffer_freemem 1 three_bufs ≡ ok n s')
    × Freed 1 0 n (1 ∷ 2 ∷ []) three_bufs s'
buffer_freemem-Freed_example = buffer_freemem-Freed 1 three_bufs three_bufs-Coherent (omega arith)
