-- ===== src/Fs/Index/Entry.antt =====
-- Numbers of 32 bits in a block.
use biglab.Prelude.{ℕ, ◌^◌, ◌<◌, ◌≡◌, ◌≢◌, arith}
use biglab.Fs.Disk.{Block}
use biglab.Fs.Bitmap.Bits.{IsBlock}
use biglab.Fs.Index.{get32, set32}

pub get32-set32 : (b : Block) (i v : ℕ) → v < 2 ^ 32 → get32 (set32 b i v) i ≡ v
get32-set32 b i v lt = ground arith

pub get32-set32_ne : (b : Block) (i j v : ℕ) → i ≢ j → get32 (set32 b i v) j ≡ get32 b j
get32-set32_ne b i j v ne = ground arith

pub set32-IsBlock : (b : Block) (i v : ℕ) → IsBlock b → IsBlock (set32 b i v)
set32-IsBlock b i v h a = ground (arith, h a)
