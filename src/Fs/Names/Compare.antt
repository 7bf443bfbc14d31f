-- ===== src/Fs/Names/Compare.antt =====
-- `strncmp(p, q, n) == 0`: the texts agree up to the first NUL, over `n` characters at most.
use biglab.Prelude.{
  ℕ, zero, suc, ◌+◌, ◌≤◌, ◌<◌, ◌≡◌, refl, ◌≢◌, ◌↔◌, Bool, true, ◌&&◌, not, arith, ◌==◌, inl, inr,
  Bool-cases,
}
use biglab.Fs.Names.{strncmp_from, strncmp_eq}

-- Between `i` and `i + n`, the characters are the same up to the first NUL of `p`, and there.
abbrev AgreeFrom : (ℕ → ℕ) → (ℕ → ℕ) → ℕ → ℕ → Type 0
AgreeFrom p q n i = (k : ℕ) → i ≤ k → k < i + n → ((j : ℕ) → i ≤ j → j < k → p j ≢ 0) → p k ≡ q k

abbrev pub Agree : (ℕ → ℕ) → (ℕ → ℕ) → ℕ → Type 0
Agree p q n = AgreeFrom p q n 0

abbrev is_zero : ℕ × ℕ → Bool
is_zero (a, b) = a == b

module _ (p q : ℕ → ℕ) where
  strncmp_from-Agree : (n i : ℕ) → is_zero (strncmp_from p q n i) ≡ true → AgreeFrom p q n i
  unfolding strncmp_from
  strncmp_from-Agree zero i e k lo hi before = absurd (omega (arith, lo, hi))
  strncmp_from-Agree (suc n) i e k lo hi before =
      elim (Bool-cases (not (p i == 0) && (p i == q i))) [
        | inl c ↦ elim (Bool-cases (i == k)) [
          | inl f ↦ ground (arith, c, f)
          | inr f ↦
              strncmp_from-Agree n (suc i) (rw c at e) k (ground (arith, f)) (omega (arith, hi))
                (λ j l h. before j (omega (arith, l)) h)
        ]
        | inr c ↦
            let same : (p i == q i) ≡ true = rw c at e in
            let z : p i ≡ 0 = ground (arith, c, same) in
            elim (Bool-cases (i == k)) [
              | inl f ↦ ground (arith, same, f)
              | inr f ↦ absurd (before i (omega arith) (ground (arith, f)) z)
            ]
      ]

  Agree-strncmp_from : (n i : ℕ) → AgreeFrom p q n i → is_zero (strncmp_from p q n i) ≡ true
  unfolding strncmp_from
  Agree-strncmp_from zero i a = refl
  Agree-strncmp_from (suc n) i a =
      let here : p i ≡ q i =
        a i (omega arith) (omega arith) (λ j l h. absurd (omega (arith, l, h))) in
      elim (Bool-cases (not (p i == 0) && (p i == q i))) [
        | inl c ↦ rw c (
            Agree-strncmp_from n (suc i) (λ k lo hi before.
              a k (omega (arith, lo)) (omega (arith, hi)) (λ j l h. elim (Bool-cases (i == j)) [
                | inl f ↦ ground (arith, c, f)
                | inr f ↦ before j (ground (arith, f)) h
              ])))
        | inr c ↦ rw c (ground (arith, here))
      ]

  -- `strncmp` gives 0 exactly if the two texts agree, up to and with the first NUL of the first, over `n` characters.
  pub strncmp_eq-Agree : (n : ℕ) → (strncmp_eq p q n ≡ true) ↔ Agree p q n
  strncmp_eq-Agree n = (strncmp_from-Agree n 0, Agree-strncmp_from n 0)
