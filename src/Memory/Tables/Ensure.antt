-- ===== src/Memory/Tables/Ensure.antt =====
-- `vm_getpte`, with and without the allocation of missing tables.
use biglab.Prelude.{
  ℕ, ◌+◌, ◌*◌, ◌≤◌, ◌<◌, ◌≡◌, refl, ap, ◌∙◌, ◌≢◌, inl, inr, true, false, ◌||◌, Option, none, some,
  List, [], ◌∷◌, arith, length, ◌==◌, leb, if◌then◌else◌, Bool-cases, neb_of_ne,
}
use biglab.Prelude.Run.{ok}
use biglab.Memory.Space.{va_max}
use biglab.Memory.Pmem.{Pmem}
use biglab.Memory.Pmem.Pages.{Inv}
use biglab.Memory.Tables.{vpn, walk, vm_getpte}
use biglab.Memory.Tables.Tree.{at, low}
use biglab.Memory.Tables.Step.{Tables, Kept, Kept-trans, step, walk_zero, look}

-- `vm_getpte` has found or made the entry for an address.
pub record Ensured (kern : ℕ) (s : Pmem) (root : ℕ) (ks us : List ℕ) (va : ℕ) : Type 0 where
  pub after : Pmem
  pub left : List ℕ
  pub run : vm_getpte kern root va true s ≡ ok (some (low after.mem root va + 8 * vpn va 0)) after
  pub there : low after.mem root va ≢ 0
  pub kept : Kept s after root left us
  pub used_up : length ks ≤ length left + 2

-- `vm_getpte` on a page table, with `alloc`.
module _ (kern : ℕ) (s : Pmem) (root va : ℕ) (ks us : List ℕ) (v : Inv s ks us)
    (t : Tables s root ks) where
  -- With the pools in order, tables that form a tree, an address below VA_MAX and two free pages of the kernel, `vm_getpte` with `alloc` finds or makes the
  -- tables down to the entry of the address, at the cost of two pages at most. Every mapping, the memory of the user pool and the order of pools and tables stay.
  pub vm_getpte-Ensured : va < va_max → 2 ≤ length ks → Ensured kern s root ks us va
  vm_getpte-Ensured below enough =
      let one = step s root us ks 1 va [] tt t.exists v t (omega (arith, enough)) in
      let two =
        step one.after root us one.left 0 va (vpn va 2 ∷ []) (omega arith, tt) one.there
          one.kept.inv one.kept.tree (omega (arith, enough, one.used_up)) in
      let start : vm_getpte kern root va true s ≡ walk 2 root va true s =
        rw (neb_of_ne root 0 t.exists) (ground (arith, below)) in
      record {
        after = two.after;
        left = two.left;
        run = start ∙ one.run ∙ two.run ∙ walk_zero (low two.after.mem root va) va true two.after;
        there = two.there;
        kept = Kept-trans one.kept two.kept;
        used_up = omega (arith, one.used_up, two.used_up);
      }

  -- What the lowest table gives.
  abbrev pub found : Option ℕ
  found =
      if leb va_max va || (low s.mem root va == 0)
      then none
      else some (low s.mem root va + 8 * vpn va 0)

  last :
      leb va_max va ≡ false
      → (if low s.mem root va == 0 then ok none s else walk 0 (low s.mem root va) va false s)
        ≡ ok found s
  last e = elim (Bool-cases (low s.mem root va == 0)) [
    | inl z ↦ rw (e, z) refl
    | inr nz ↦ rw (e, nz) (walk_zero (low s.mem root va) va false s)
  ]

  abbrev mid : ℕ
  mid = at s.mem root (vpn va 2 ∷ [])

  below_mid :
      leb va_max va ≡ false → (if mid == 0 then ok none s else walk 1 mid va false s) ≡ ok found s
  below_mid e = elim (Bool-cases (mid == 0)) [
    | inl z ↦ rw (e, z) refl
    | inr nz ↦
        let second =
          look s root ks 0 va (vpn va 2 ∷ []) (omega arith, tt) (λ z. ground (arith, nz)) t in
        ap (λ b. if b then ok none s else walk 1 mid va false s) nz ∙ second ∙ last e
  ]

  -- On tables that form a tree, `vm_getpte` without `alloc` changes nothing: it gives the entry of the address in its
  -- lowest table, and NULL where that table is missing or the address is not below VA_MAX.
  pub vm_getpte-low : vm_getpte kern root va false s ≡ ok found s
  vm_getpte-low = elim (Bool-cases (leb va_max va)) [
    | inl e ↦ rw e refl
    | inr e ↦
        let start : vm_getpte kern root va false s ≡ walk 2 root va false s =
          rw (neb_of_ne root 0 t.exists, e) refl in
        start ∙ look s root ks 1 va [] tt t.exists t ∙ below_mid e
  ]
