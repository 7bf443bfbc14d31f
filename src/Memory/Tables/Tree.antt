-- ===== src/Memory/Tables/Tree.antt =====
-- The tables below a root as a tree. A path lists the entries from a table up to the root, the lowest
-- level first; a table's address is 0 where the path leads to no table.
use biglab.Prelude.{
  ℕ, zero, suc, ◌+◌, ◌*◌, ◌^◌, ◌≤◌, ◌<◌, ◌≡◌, ◌≢◌, true, false, Option, none, some, List, [], ◌∷◌,
  arith, has, ◌==◌, if◌then◌else◌,
}
use biglab.Memory.Pmem.Pages.{IsPage}
use biglab.Memory.Tables.{vpn, pte_to_pa, is_valid, is_table}

-- At most `n` entries, each below 512.
abbrev pub IsPath : ℕ → List ℕ → Type 0
IsPath n [] = Unit
IsPath zero (k ∷ p) = ⊥
IsPath (suc n) (k ∷ p) = (k < 512) × IsPath n p

pub IsPath-up : (p : List ℕ) → IsPath 1 p → IsPath 2 p
IsPath-up [] h = tt
IsPath-up (k ∷ []) h = (h.0, tt)
IsPath-up (k ∷ j ∷ p) h = absurd h.1

-- Where the entry `w` of the table `a` leads to.
abbrev pub follow : ℕ → ℕ → ℕ
follow a w = if a == 0 then 0 else if is_valid w then pte_to_pa w else 0

-- The entry `w` of the lowest table `a`, if the table is there and the entry is valid.
abbrev pub leaf : ℕ → ℕ → Option ℕ
leaf a w = if a == 0 then none else if is_valid w then some w else none

-- The table under the entry `k` of the table `a`.
abbrev pub child : (ℕ → ℕ) → ℕ → ℕ → ℕ
child mem a k = follow a (mem (a + 8 * k))

-- The path to the table of the lowest level for an address.
abbrev pub low_path : ℕ → List ℕ
low_path va = vpn va 1 ∷ vpn va 2 ∷ []

pub low_path-IsPath : (va : ℕ) → IsPath 2 (low_path va)
low_path-IsPath va = (omega arith, (omega arith, tt))

module _ (mem : ℕ → ℕ) (root : ℕ) where
  abbrev pub at : List ℕ → ℕ
  at [] = root
  at (k ∷ p) = child mem (at p) k

  -- The table of the lowest level for an address.
  abbrev pub low : ℕ → ℕ
  low va = at (low_path va)

  -- The mapping of the page of an address: its entry, if there is a valid one.
  abbrev pub lookup : ℕ → Option ℕ
  lookup va = leaf (low va) (mem (low va + 8 * vpn va 0))

-- The tables are different pages of the kernel's range from `lo` up to `hi`, none of them free, and
-- the valid entries of the two upper levels lead to tables.
pub record IsTree (mem : ℕ → ℕ) (root lo hi : ℕ) (ks : List ℕ) : Type 0 where
  pub exists : root ≢ 0
  pub small : hi ≤ 2 ^ 56
  pub pages : (p : List ℕ) → IsPath 2 p → at mem root p ≢ 0 → IsPage lo hi (at mem root p)
  pub in_use : (p : List ℕ) → IsPath 2 p → at mem root p ≢ 0 → has (at mem root p) ks ≡ false
  pub inner :
      (p : List ℕ) (k : ℕ)
      → IsPath 1 p
      → k < 512
      → at mem root p ≢ 0
      → is_valid (mem (at mem root p + 8 * k)) ≡ true
      → (is_table (mem (at mem root p + 8 * k)) ≡ true)
        × (pte_to_pa (mem (at mem root p + 8 * k)) ≢ 0)
  pub apart :
      (p q : List ℕ)
      → IsPath 2 p
      → IsPath 2 q
      → at mem root p ≢ 0
      → at mem root p ≡ at mem root q
      → p ≡ q
