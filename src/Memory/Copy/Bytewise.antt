-- ===== src/Memory/Copy/Bytewise.antt =====
-- Copies byte by byte, each byte at the address that its own entry gives.
use mathlib.Core.Path.{fun_ext}
use biglab.Prelude.{
  ℕ, zero, suc, ◌+◌, ◌/◌, ◌%◌, ◌≤◌, ◌≡◌, refl, ap, ◌∙◌, sym, Bool, arith, Option, none, some,
  update, u64, page_size,
}
use biglab.Memory.Tables.{pte_to_pa}
use biglab.Memory.Copy.{Bytes, allowed, move}

-- The physical address of an address whose entry passed the test.
abbrev pub address_in : Option ℕ → ℕ → Option ℕ
address_in none va = none
address_in (some pte) va = some (pte_to_pa pte + va % page_size)

-- The addresses of a page have the same entry.
abbrev pub PageWise : (ℕ → Option ℕ) → Type 0
PageWise pt = (va vb : ℕ) → va / page_size ≡ vb / page_size → pt va ≡ pt vb

pub move-none : (dst : Bytes) (at : ℕ) (src : Bytes) (from : ℕ) → move dst at src from 0 ≡ dst
move-none dst at src from = fun_ext (λ a. ground arith)

-- A move of one byte more.
pub move-suc :
    (dst : Bytes) (at : ℕ) (src : Bytes) (from n : ℕ)
    → move (update dst at (src from)) (suc at) src (suc from) n ≡ move dst at src from (suc n)
move-suc dst at src from n = fun_ext (λ a. ground arith)

module _ {A : Type 0} (step : ℕ → ℕ → A → A) (can : ℕ → Bool) (pt : ℕ → Option ℕ) (base : ℕ) where
  abbrev next_byte : (ℕ → Option A) → Option ℕ → Option A
  next_byte k none = none
  next_byte k (some a) = k a

  -- `n` bytes from the index `i` on; `none` where an address does not pass the test. `step` copies one byte.
  unfoldable pub each_byte : ℕ → ℕ → A → Option A
  each_byte zero i x = some x
  each_byte (suc n) i x =
      next_byte (λ a. each_byte n (suc i) (step i a x))
        (address_in (allowed can (pt (u64 (base + i)))) (u64 (base + i)))

  abbrev at_byte : ℕ → ℕ → ℕ
  at_byte pte i = pte_to_pa pte + u64 (base + i) % page_size

  first_byte :
      (pte n i : ℕ) (x : A)
      → allowed can (pt (u64 (base + i))) ≡ some pte
      → each_byte (suc n) i x ≡ each_byte n (suc i) (step i (at_byte pte i) x)
  unfolding each_byte
  first_byte pte n i x e = rw e refl

  pub first_byte-none :
      (n i : ℕ) (x : A) → allowed can (pt (u64 (base + i))) ≡ none → each_byte (suc n) i x ≡ none
  unfolding each_byte
  first_byte-none n i x e = rw e refl

  -- The bytes of a page, moved at once by `moved`.
  module _ (same_page : PageWise pt) (moved : ℕ → ℕ → ℕ → A → A)
      (moved-none : (i a : ℕ) (x : A) → moved 0 i a x ≡ x)
      (moved-suc : (n i a : ℕ) (x : A)
        → moved n (suc i) (suc a) (step i a x) ≡ moved (suc n) i a x) where
    pub page_bytes :
        (pte n m i : ℕ) (x : A)
        → u64 (base + i) % page_size + suc n ≤ page_size
        → allowed can (pt (u64 (base + i))) ≡ some pte
        → each_byte (suc n + m) i x ≡ each_byte m (i + suc n) (moved (suc n) i (at_byte pte i) x)
    page_bytes pte zero m i x fits e =
        let f : suc m ≡ 1 + m = omega arith in
        let g : suc i ≡ i + 1 = omega arith in
        ap (λ k. each_byte k i x) (sym f)
        ∙ first_byte pte m i x e
        ∙ ap (λ y. each_byte m (suc i) y)
            (sym (moved-none (suc i) (suc (at_byte pte i)) _) ∙ moved-suc 0 i (at_byte pte i) x)
        ∙ ap (λ k. each_byte m k (moved 1 i (at_byte pte i) x)) g
    page_bytes pte (suc n) m i x fits e =
        let f : suc (suc n + m) ≡ suc (suc n) + m = omega arith in
        let g : suc i + suc n ≡ i + suc (suc n) = omega arith in
        let h : at_byte pte (suc i) ≡ suc (at_byte pte i) = omega (arith, fits) in
        let same : u64 (base + suc i) / page_size ≡ u64 (base + i) / page_size =
          omega (arith, fits) in
        let e' : allowed can (pt (u64 (base + suc i))) ≡ some pte =
          ap (allowed can) (same_page (u64 (base + suc i)) (u64 (base + i)) same) ∙ e in
        ap (λ k. each_byte k i x) (sym f)
        ∙ first_byte pte (suc n + m) i x e
        ∙ page_bytes pte n m (suc i) (step i (at_byte pte i) x) (omega (arith, fits)) e'
        ∙ ap (λ b. each_byte m (suc i + suc n) (moved (suc n) (suc i) b (step i (at_byte pte i) x)))
            h
        ∙ ap (λ y. each_byte m (suc i + suc n) y) (moved-suc (suc n) i (at_byte pte i) x)
        ∙ ap (λ k. each_byte m k (moved (suc (suc n)) i (at_byte pte i) x)) g
