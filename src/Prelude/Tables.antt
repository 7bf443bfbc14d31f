-- ===== src/Prelude/Tables.antt =====
-- C arrays as functions of the index, changed at one index, and checks over all small indices.
use Prim.Native.Nat.{ℕ, zero, suc, ◌<◌}
use mathlib.Core.Path.{◌≡◌}
use mathlib.Core.Bool.{Bool, true, ◌&&◌}
use native.Mathlib.Omega.{arith}
use mathlib.Core.Logic.{inl, inr}
use biglab.Prelude.Tests.{Bool-cases, ◌==◌, if◌then◌else◌}

-- `f[i] = v`.
abbrev pub update {ℓ} : {A : Type ℓ} → (ℕ → A) → ℕ → A → ℕ → A
update f i v j = if i == j then v else f j

-- The test holds at each of the first `n` numbers.
unfoldable pub every : (ℕ → Bool) → ℕ → Bool
every test zero = true
every test (suc n) = every test n && test n

pub every_at : (test : ℕ → Bool) (n : ℕ) → every test n ≡ true → (i : ℕ) → i < n → test i ≡ true
unfolding every
every_at test zero t i h = absurd (omega arith)
every_at test (suc n) t i h = elim (Bool-cases (every test n)) [
  | inl q ↦ ground (arith, every_at test n q i)
  | inr q ↦ ground arith
]
