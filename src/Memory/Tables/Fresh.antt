-- ===== src/Memory/Tables/Fresh.antt =====
-- A page that `pmem_alloc` has zeroed is an empty page table.
use biglab.Prelude.{
  ℕ, ◌+◌, ◌*◌, ◌^◌, ◌≤◌, ◌<◌, ◌≡◌, ◌≢◌, refl, sym, ap, subst, ◌∙◌, ◌⊎◌, inl, inr, true, false, none,
  List, [], ◌∷◌, arith, has, eqb_refl,
}
use biglab.Prelude.Run.{ok}
use biglab.Memory.Pmem.{Pmem, pmem_alloc}
use biglab.Memory.Pmem.Pages.{IsPage, Inv}
use biglab.Memory.Pmem.Alloc.{pmem_alloc-head}
use biglab.Memory.Tables.{is_valid}
use biglab.Memory.Tables.Tree.{
  IsPath, IsPath-up, at, follow, low_path, low_path-IsPath, lookup, IsTree,
}
use biglab.Memory.Tables.Link.{follow_zero, not_low}

module _ (mem : ℕ → ℕ) (root lo hi : ℕ) (ks : List ℕ)
    (zeroed : (k : ℕ) → k < 512 → mem (root + 8 * k) ≡ 0) where
  only_root : (p : List ℕ) → IsPath 2 p → (p ≡ []) ⊎ (at mem root p ≡ 0)
  only_root [] h = inl refl
  only_root (k ∷ p) h = elim (only_root p (IsPath-up p h.1)) [
    | inl e ↦ inr (
        ap (λ q. follow (at mem root q) (mem (at mem root q + 8 * k))) e
        ∙ ap (follow root) (zeroed k h.0)
        ∙ follow_zero root)
    | inr z ↦ inr (rw z refl)
  ]

  at_root : (p : List ℕ) → IsPath 2 p → at mem root p ≢ 0 → p ≡ []
  at_root p h ne = elim (only_root p h) [ inl e ↦ e | inr z ↦ absurd (ne z) ]

  pub empty-IsTree :
      IsPage lo hi root → 0 < lo → hi ≤ 2 ^ 56 → has root ks ≡ false → IsTree mem root lo hi ks
  empty-IsTree is pos small used = record {
    exists = λ e. omega (arith, is, pos, e);
    small = small;
    pages = λ p h ne. subst (λ q. IsPage lo hi (at mem root q)) (sym (at_root p h ne)) is;
    in_use = λ p h ne. subst (λ q. has (at mem root q) ks ≡ false) (sym (at_root p h ne)) used;
    inner = λ p k h lt ne v. absurd (
        ground (
          arith,
          sym v
              ∙ ap (λ q. is_valid (mem (at mem root q + 8 * k))) (at_root p (IsPath-up p h) ne)
              ∙ ap is_valid (zeroed k lt),
        ));
    apart = λ p q hp hq ne e. at_root p hp ne ∙ sym (at_root q hq (λ z. ne (e ∙ z)));
  }

  pub lookup-empty : (va : ℕ) → lookup mem root va ≡ none
  lookup-empty va = elim (only_root (low_path va) (low_path-IsPath va)) [
    | inr z ↦ rw z refl
    | inl e ↦ absurd (not_low [] va tt (sym e))
  ]

-- With both pools in order and the kernel's pages below 2 ^ 56, the page that `pmem_alloc` gives from the kernel's pool is an empty page table: its tables form a tree, no
-- address has a mapping, and the pools stay in order.
pub pmem_alloc-Tables :
    (s : Pmem) (x : ℕ) (ks us : List ℕ)
    → Inv s (x ∷ ks) us
    → s.kernel_pool.end ≤ 2 ^ 56
    → (s' : Pmem) × (pmem_alloc true s ≡ ok x s')
      × Inv s' ks us
      × IsTree s'.mem x s'.kernel_pool.begin s'.kernel_pool.end ks
      × ((va : ℕ) → lookup s'.mem x va ≡ none)
pmem_alloc-Tables s x ks us v small =
    let (s', run, d) = pmem_alloc-head true s x ks us v in
    let zero_words : (k : ℕ) → k < 512 → s'.mem (x + 8 * k) ≡ 0 =
      λ k h. d.zeroed (x + 8 * k) (omega arith) (omega (arith, h)) in
    (
      s',
      run,
      d.inv,
      empty-IsTree s'.mem x s'.kernel_pool.begin s'.kernel_pool.end ks zero_words
          (rw (d.same_begin, d.same_end) (v.kernel.pages x (rw (eqb_refl x) refl)))
          (rw d.same_begin v.kernel.positive) (rw d.same_end small) v.kernel.distinct.0,
      lookup-empty s'.mem x s'.kernel_pool.begin s'.kernel_pool.end ks zero_words,
    )
