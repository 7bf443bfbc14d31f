-- ===== src/Memory/Pmem/Chain.antt =====
-- The list of free pages that a pool's links spell out.
use biglab.Prelude.{ℕ, ◌≡◌, true, false, List, [], ◌∷◌, arith, has, update}

-- From `p` the links lead through the pages `xs` to NULL.
abbrev pub Chain : (ℕ → ℕ) → ℕ → List ℕ → Type 0
Chain mem p [] = p ≡ 0
Chain mem p (x ∷ xs) = (p ≡ x) × Chain mem (mem x) xs

-- A chain depends on the words at its own pages only.
pub Chain-frame :
    (mem mem' : ℕ → ℕ) (p : ℕ) (xs : List ℕ)
    → ((a : ℕ) → has a xs ≡ true → mem' a ≡ mem a)
    → Chain mem p xs
    → Chain mem' p xs
Chain-frame mem mem' p [] same c = c
Chain-frame mem mem' p (x ∷ xs) same c = (
  c.0,
  rw (same x (ground arith)) (Chain-frame mem mem' (mem x) xs (λ a m. same a (ground arith)) c.1),
)

pub Chain-update :
    (mem : ℕ → ℕ) (p a v : ℕ) (xs : List ℕ)
    → has a xs ≡ false
    → Chain mem p xs
    → Chain (update mem a v) p xs
Chain-update mem p a v xs out c = Chain-frame mem _ p xs (λ b m. ground arith) c
