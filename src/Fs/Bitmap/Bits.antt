-- ===== src/Fs/Bitmap/Bits.antt =====
-- Single bits of a block: setting and clearing one changes no other.
use Prim.Native.Nat.{bit_and, bit_or}
use biglab.Prelude.{
  neb_of_ne, eqb_refl, ℕ, ◌-◌, ◌/◌, ◌%◌, ◌^◌, ◌<◌, ◌≡◌, refl, Bool, true, false, ◌&&◌, ◌||◌, not,
  ◌==◌, ltb, arith, every, every_at, ltb→lt, ◌≢◌, ◌∙◌, ap, sym,
}
use native.Mathlib.Decide.{ℕ_discrete}
use biglab.Fs.Disk.{Block}
use biglab.Fs.Bitmap.{bit_of, set_bit, clear_bit}

abbrev is_set : ℕ → ℕ → Bool
is_set byte k = not (bit_and byte (2 ^ k) == 0)

abbrev same : Bool → Bool → Bool
same true b = b
same false b = not b

same_sound : (a b : Bool) → same a b ≡ true → a ≡ b
same_sound a b h = ground arith

abbrev set_test : ℕ → ℕ → ℕ → Bool
set_test byte k j =
    same (is_set (bit_or byte (2 ^ k)) j) ((k == j) || is_set byte j)
    && ltb (bit_or byte (2 ^ k)) 256

abbrev clear_test : ℕ → ℕ → ℕ → Bool
clear_test byte k j =
    same (is_set (bit_and byte (255 - 2 ^ k)) j) (not (k == j) && is_set byte j)
    && ltb (bit_and byte (255 - 2 ^ k)) 256

abbrev table : (ℕ → ℕ → ℕ → Bool) → Bool
table test = every (λ byte. every (λ k. every (test byte k) 8) 8) 256

table_sound :
    (test : ℕ → ℕ → ℕ → Bool) (byte k j : ℕ)
    → table test ≡ true
    → byte < 256
    → k < 8
    → j < 8
    → test byte k j ≡ true
table_sound test byte k j t b hk hj =
    every_at _ 8 (every_at _ 8 (every_at _ 256 t byte b) k hk) j hj

set_table : table set_test ≡ true
unfolding every
set_table = refl

clear_table : table clear_test ≡ true
unfolding every
clear_table = refl

and_left : (a b : Bool) → (a && b) ≡ true → a ≡ true
and_left a b h = ground arith

and_right : (a b : Bool) → (a && b) ≡ true → b ≡ true
and_right a b h = ground arith

module _ (byte k j : ℕ) (hb : byte < 256) (hk : k < 8) (hj : j < 8) where
  set_law : is_set (bit_or byte (2 ^ k)) j ≡ ((k == j) || is_set byte j)
  set_law = same_sound _ _ (and_left _ _ (table_sound set_test byte k j set_table hb hk hj))

  set_small : bit_or byte (2 ^ k) < 256
  set_small = ltb→lt _ _ (and_right _ _ (table_sound set_test byte k j set_table hb hk hj))

  clear_law : is_set (bit_and byte (255 - 2 ^ k)) j ≡ (not (k == j) && is_set byte j)
  clear_law = same_sound _ _ (and_left _ _ (table_sound clear_test byte k j clear_table hb hk hj))

  clear_small : bit_and byte (255 - 2 ^ k) < 256
  clear_small = ltb→lt _ _ (and_right _ _ (table_sound clear_test byte k j clear_table hb hk hj))

-- Two positions are equal if their bytes and their places in the byte are.
pos_eq : (i j : ℕ) → i / 8 ≡ j / 8 → (i == j) ≡ (i % 8 == j % 8)
pos_eq i j e = ground arith

pos_ne : (i j : ℕ) → i / 8 ≢ j / 8 → (i == j) ≡ false
pos_ne i j e = ground arith

-- Blocks hold bytes.
abbrev pub IsBlock : Block → Type 0
IsBlock b = (a : ℕ) → b a < 256

module _ (b : Block) (v : IsBlock b) (i : ℕ) where
  -- `set_bit` sets the bit `i` and changes no other.
  pub bit_of-set_bit : (j : ℕ) → bit_of (set_bit b i) j ≡ ((i == j) || bit_of b j)
  unfolding set_bit
  bit_of-set_bit j = elim (ℕ_discrete (i / 8) (j / 8)) [
    | yes e ↦
        simp (e, eqb_refl)
          (set_law (b (j / 8)) (i % 8) (j % 8) (v (j / 8)) (omega arith) (omega arith)
            ∙ ap (λ t. t || bit_of b j) (sym (pos_eq i j e)))
    | no ne ↦ rw (neb_of_ne _ _ ne, pos_ne i j ne)
  ]

  -- `clear_bit` clears the bit `i` and changes no other.
  pub bit_of-clear_bit : (j : ℕ) → bit_of (clear_bit b i) j ≡ (not (i == j) && bit_of b j)
  unfolding clear_bit
  bit_of-clear_bit j = elim (ℕ_discrete (i / 8) (j / 8)) [
    | yes e ↦
        simp (e, eqb_refl)
          (clear_law (b (j / 8)) (i % 8) (j % 8) (v (j / 8)) (omega arith) (omega arith)
            ∙ ap (λ t. not t && bit_of b j) (sym (pos_eq i j e)))
    | no ne ↦ rw (neb_of_ne _ _ ne, pos_ne i j ne)
  ]

  pub set_bit-IsBlock : IsBlock (set_bit b i)
  unfolding set_bit
  set_bit-IsBlock a =
      ground (arith, set_small (b (i / 8)) (i % 8) 0 (v (i / 8)) (omega arith) (omega arith), v a)

  pub clear_bit-IsBlock : IsBlock (clear_bit b i)
  unfolding clear_bit
  clear_bit-IsBlock a =
      ground (arith, clear_small (b (i / 8)) (i % 8) 0 (v (i / 8)) (omega arith) (omega arith), v a)
