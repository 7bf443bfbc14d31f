-- ===== src/Fs/Buffer/Rings.antt =====
-- The buffers of the two rings, and the search for a block.
use biglab.Prelude.{ℕ, ◌≡◌, ◌≢◌, true, none, some, List, [], ◌∷◌, arith, has}
use biglab.Fs.Buffer.{Buffer, find}

pub find-some :
    (bufs : ℕ → Buffer) (b : ℕ) (xs : List ℕ) (i : ℕ)
    → find bufs b xs ≡ some i
    → (has i xs ≡ true) × ((bufs i).block_num ≡ b)
find-some bufs b [] i e = absurd (cc)
find-some bufs b (x ∷ xs) i e = ground (arith, find-some bufs b xs i)

pub find-none :
    (bufs : ℕ → Buffer) (b : ℕ) (xs : List ℕ) (i : ℕ)
    → find bufs b xs ≡ none
    → has i xs ≡ true
    → (bufs i).block_num ≢ b
find-none bufs b [] i e m = absurd (cc)
find-none bufs b (x ∷ xs) i e m = ground (arith, find-none bufs b xs i)
