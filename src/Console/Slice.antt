-- ===== src/Console/Slice.antt =====
-- Stretches of the ring buffer as lists.
use biglab.Prelude.{
  ℕ, zero, suc, ◌+◌, ◌%◌, ◌≤◌, ◌<◌, ◌≡◌, refl, ap, List, [], ◌∷◌, ◌++◌, arith, update, neb_of_ne,
  eqb_refl, ◌-◌, length,
}

-- The `n` characters from the index `lo` on.
abbrev pub slice : (ℕ → ℕ) → ℕ → ℕ → List ℕ
slice buf lo zero = []
slice buf lo (suc n) = buf (lo % 128) ∷ slice buf (suc lo) n

pub slice-add :
    (buf : ℕ → ℕ) (lo m n : ℕ) → slice buf lo (m + n) ≡ slice buf lo m ++ slice buf (lo + m) n
slice-add buf lo zero n =
    let e : 0 + n ≡ n = omega arith in let f : lo + 0 ≡ lo = omega arith in rw (e, f) refl
slice-add buf lo (suc m) n =
    let e : suc m + n ≡ suc (m + n) = omega arith in
    let f : lo + suc m ≡ suc lo + m = omega arith in
    rw (e, f) (ap (λ xs. buf (lo % 128) ∷ xs) (slice-add buf (suc lo) m n))

-- A list without its last element.
abbrev pub drop_last : List ℕ → List ℕ
drop_last [] = []
drop_last (x ∷ []) = []
drop_last (x ∷ y ∷ xs) = x ∷ drop_last (y ∷ xs)

pub drop_last-slice : (buf : ℕ → ℕ) (lo n : ℕ) → drop_last (slice buf lo (suc n)) ≡ slice buf lo n
drop_last-slice buf lo zero = refl
drop_last-slice buf lo (suc n) = ap (λ xs. buf (lo % 128) ∷ xs) (drop_last-slice buf (suc lo) n)

pub length-slice : (buf : ℕ → ℕ) (lo n : ℕ) → length (slice buf lo n) ≡ n
length-slice buf lo zero = refl
length-slice buf lo (suc n) = ap suc (length-slice buf (suc lo) n)

-- A character stored outside the stretch, and less than a round behind its first, does not show in it.
pub slice-update :
    (buf : ℕ → ℕ) (lo n k v : ℕ)
    → lo + n ≤ k
    → k < lo + 128
    → slice (update buf (k % 128) v) lo n ≡ slice buf lo n
slice-update buf lo zero k v le lt = refl
slice-update buf lo (suc n) k v le lt =
    rw (neb_of_ne (k % 128) (lo % 128) (omega arith))
      (ap (λ xs. buf (lo % 128) ∷ xs) (slice-update buf (suc lo) n k v (omega arith) (omega arith)))

-- A character stored at the end `e` of a stretch from `w` on extends it.
pub slice-store :
    (buf : ℕ → ℕ) (w e c : ℕ)
    → w ≤ e
    → e < w + 128
    → slice (update buf (e % 128) c) w (e + 1 - w) ≡ slice buf w (e - w) ++ (c ∷ [])
slice-store buf w e c le lt =
    let n : e + 1 - w ≡ e - w + 1 = omega arith in
    let at_end : w + (e - w) ≡ e = omega arith in
    rw
      (
        n,
        slice-add (update buf (e % 128) c) w (e - w) 1,
        slice-update buf w (e - w) e c (omega arith) lt,
        at_end,
      )
      (rw (eqb_refl (e % 128)) refl)
