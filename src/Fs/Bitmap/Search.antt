-- ===== src/Fs/Bitmap/Search.antt =====
-- The bitmaps as sets of numbers: allocation takes the lowest free number, and freeing gives it back.
use biglab.Prelude.{
  neb_of_ne, eqb_refl, ℕ, zero, suc, ◌+◌, ◌/◌, ◌%◌, ◌≤◌, ◌<◌, ◌≡◌, sym, ap, ◌∙◌, ◌≢◌, inl, inr,
  Bool, true, false, ◌==◌, arith, Option, none, some, update, if◌then◌else◌, Bool-cases,
}
use native.Mathlib.Decide.{ℕ_discrete}
use biglab.Fs.Disk.{Block, Disk, bits_per_block}
use biglab.Fs.Bitmap.{bit_of, set_bit, clear_bit, search_loop}
use biglab.Fs.Bitmap.Bits.{
  IsBlock, bit_of-set_bit, bit_of-clear_bit, set_bit-IsBlock, clear_bit-IsBlock,
}

-- The bit `n` of the bitmap whose blocks begin at `first`.
abbrev pub used : Disk → ℕ → ℕ → Bool
used disk first n = bit_of (disk (first + n / bits_per_block)) (n % bits_per_block)

abbrev pub IsDisk : Disk → Type 0
IsDisk disk = (b : ℕ) → IsBlock (disk b)

-- The search over the bits from `i` up to `hi` finds the first that is clear.
abbrev pub First : Block → ℕ → ℕ → Option ℕ → Type 0
First b i hi none = (j : ℕ) → i ≤ j → j < hi → bit_of b j ≡ true
First b i hi (some k) =
    (i ≤ k) × (k < hi) × (bit_of b k ≡ false) × ((j : ℕ) → i ≤ j → j < k → bit_of b j ≡ true)

First-next :
    (b : Block) (i hi : ℕ) (o : Option ℕ)
    → bit_of b i ≡ true
    → First b (suc i) hi o
    → First b i hi o
First-next b i hi none e f = λ j lo lt. ground (arith, f j)
First-next b i hi (some k) e (lo, lt, c, f) = (omega arith, lt, c, λ j le lt. ground (arith, f j))

pub search_loop-First : (b : Block) (n i hi : ℕ) → hi ≡ i + n → First b i hi (search_loop b n i)
unfolding search_loop
search_loop-First b zero i hi e = λ j lo lt. absurd (omega arith)
search_loop-First b (suc n) i hi e = elim (Bool-cases (bit_of b i)) [
  | inl h ↦ rw h (
      First-next b i hi (search_loop b n (suc i)) h
        (search_loop-First b n (suc i) hi (omega arith)))
  | inr h ↦ rw h (omega arith, omega arith, h, λ j le lt. absurd (omega arith))
]

-- `disk'` is `disk` with the bit `k` set to `v`, and no other bit and no other block changed.
pub record BitSet (disk disk' : Disk) (first k : ℕ) (v : Bool) : Type 0 where
  pub bits : (m : ℕ) → used disk' first m ≡ (if k == m then v else used disk first m)
  pub others : (b : ℕ) → b ≢ first + k / bits_per_block → disk' b ≡ disk b
  pub bytes : IsDisk disk'

module _ (disk : Disk) (v : IsDisk disk) (first k : ℕ) where
  abbrev block : ℕ
  block = first + k / bits_per_block

  abbrev changed : (Block → ℕ → Block) → Disk
  changed f = update disk block (f (disk block) (k % bits_per_block))

  -- A change of one bit of its block is a change of one bit of the bitmap.
  changed-BitSet :
      (f : Block → ℕ → Block) (t : Bool)
      → ((j : ℕ)
          → bit_of (f (disk block) (k % bits_per_block)) j
            ≡ (if (k % bits_per_block) == j then t else bit_of (disk block) j))
      → IsBlock (f (disk block) (k % bits_per_block))
      → BitSet disk (changed f) first k t
  changed-BitSet f t law isb = record { bits = bits; others = λ b ne. ground arith; bytes = bytes }
    where
      bytes : IsDisk (changed f)
      bytes b = elim (Bool-cases (block == b)) [ inl e ↦ rw e isb | inr e ↦ rw e (v b) ]

      same_place :
          (m : ℕ)
          → k / bits_per_block ≡ m / bits_per_block
          → (k == m) ≡ (k % bits_per_block == m % bits_per_block)
      same_place m e = ground arith

      bits : (m : ℕ) → used (changed f) first m ≡ (if k == m then t else used disk first m)
      bits m = elim (ℕ_discrete (k / bits_per_block) (m / bits_per_block)) [
        | yes e ↦
            simp (e, eqb_refl)
              ((rw e at (law (m % bits_per_block)))
                ∙ ap (λ (c : Bool). if c then t else used disk first m) (sym (same_place m e)))
        | no ne ↦ rw (
          neb_of_ne block (first + m / bits_per_block) (omega arith),
          neb_of_ne k m (λ q. ne (rw q)),
        )
      ]

  pub set_bit-BitSet : BitSet disk (changed set_bit) first k true
  set_bit-BitSet =
      changed-BitSet set_bit true
        (λ j. ground (arith, bit_of-set_bit (disk block) (v block) (k % bits_per_block) j))
        (set_bit-IsBlock (disk block) (v block) _)

  pub clear_bit-BitSet : BitSet disk (changed clear_bit) first k false
  clear_bit-BitSet =
      changed-BitSet clear_bit false
        (λ j. ground (arith, bit_of-clear_bit (disk block) (v block) (k % bits_per_block) j))
        (clear_bit-IsBlock (disk block) (v block) _)
