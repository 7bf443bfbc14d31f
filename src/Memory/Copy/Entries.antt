-- ===== src/Memory/Copy/Entries.antt =====
-- The entries that page tables give to the copies.
use biglab.Prelude.{
  ℕ, ◌+◌, ◌*◌, ◌≡◌, ap, ◌∙◌, refl, Option, none, some, List, arith, leb, ◌==◌, ◌||◌, if◌then◌else◌,
  false, inl, inr, Bool-cases,
}
use biglab.Prelude.Run.{ok, Cmd, and_then, ◌>>=◌}
use biglab.Memory.Space.{va_max}
use biglab.Memory.Pmem.{Pmem}
use biglab.Memory.Pmem.Pages.{Inv}
use biglab.Memory.Tables.{vpn, vm_getpte}
use biglab.Memory.Tables.Tree.{low}
use biglab.Memory.Tables.Step.{Tables}
use biglab.Memory.Tables.Ensure.{vm_getpte-low}
use biglab.Memory.Copy.Bytewise.{PageWise}

-- `*pte`, or `none` where `pte` is NULL.
abbrev pub load : Option ℕ → Cmd Pmem (Option ℕ)
load none s = ok none s
load (some pte) s = ok (some (s.mem pte)) s

abbrev pub entry_in : Pmem → ℕ → ℕ → Option ℕ
entry_in s root va =
    if leb va_max va || (low s.mem root va == 0)
    then none
    else some (s.mem (low s.mem root va + 8 * vpn va 0))

module _ (kern : ℕ) (s : Pmem) (root : ℕ) (ks us : List ℕ) (v : Inv s ks us)
    (t : Tables s root ks) where
  load-entry_in : (va : ℕ) → (vm_getpte kern root va false >>= load) s ≡ ok (entry_in s root va) s
  load-entry_in va =
      ap (λ r. and_then r load) (vm_getpte-low kern s root va ks us v t)
      ∙ elim (Bool-cases (leb va_max va || (low s.mem root va == 0))) [
        | inl c ↦ rw c refl
        | inr c ↦ rw c refl
      ]

  entry_in-PageWise : PageWise (entry_in s root)
  entry_in-PageWise va vb e =
      let e0 : vpn va 0 ≡ vpn vb 0 = omega (arith, e) in
      let e1 : vpn va 1 ≡ vpn vb 1 = omega (arith, e) in
      let e2 : vpn va 2 ≡ vpn vb 2 = omega (arith, e) in
      let top : leb va_max va ≡ leb va_max vb = ground (arith, e) in rw (top, e0, e1, e2) refl

  -- On tables that form a tree, what `*vm_getpte(table, va, false)` gives is a function of the address that is the same for the
  -- addresses of a page, and reading it changes nothing: the copies can be used with it.
  pub vm_getpte-PageWise :
      (pt : ℕ → Option ℕ) × ((va : ℕ) → (vm_getpte kern root va false >>= load) s ≡ ok (pt va) s)
      × PageWise pt
  vm_getpte-PageWise = (entry_in s root, load-entry_in, entry_in-PageWise)
