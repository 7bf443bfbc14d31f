-- ===== src/Memory/Tables/Step.antt =====
-- One level of the walk of `vm_getpte`, with and without the allocation of a missing table.
use mathlib.Core.Path.{fun_ext}
use biglab.Prelude.{
  ℕ, suc, ◌+◌, ◌*◌, ◌≤◌, ◌<◌, ◌≡◌, refl, sym, ap, subst, ◌∙◌, ◌≢◌, inl, inr, Bool, true, false,
  none, some, List, [], ◌∷◌, arith, has, length, ◌==◌, if◌then◌else◌, update, Bool-cases, eqb_refl,
  neb_of_ne,
}
use biglab.Prelude.Run.{ok, and_then}
use biglab.Memory.Pmem.{Pmem, pmem_alloc}
use biglab.Memory.Pmem.Pages.{IsPage, Inv}
use biglab.Memory.Pmem.Alloc.{pmem_alloc-head, Lists-update}
use biglab.Memory.Tables.{vpn, pte_to_pa, make_pte, is_valid, walk}
use biglab.Memory.Tables.Tree.{IsPath, IsPath-up, at, lookup, IsTree}
use biglab.Memory.Tables.Link.{linked, linked-IsTree, lookup-linked, at-new, pte_of_table}

-- The tables below `root` in the memory, whose free pages are `ks`.
abbrev pub Tables : Pmem → ℕ → List ℕ → Type 0
Tables s root ks = IsTree s.mem root s.kernel_pool.begin s.kernel_pool.end ks

-- What new tables leave in order: both pools, the tables, every mapping and the memory from the user pool on.
pub record Kept (s s' : Pmem) (root : ℕ) (ks us : List ℕ) : Type 0 where
  pub inv : Inv s' ks us
  pub tree : Tables s' root ks
  pub same : (va : ℕ) → lookup s'.mem root va ≡ lookup s.mem root va
  pub above : (a : ℕ) → s.user_pool.begin ≤ a → s'.mem a ≡ s.mem a
  pub same_end : s'.kernel_pool.end ≡ s.kernel_pool.end
  pub same_user : s'.user_pool.begin ≡ s.user_pool.begin

-- A word of a page in use by the kernel is written: the pools stay in order.
pub write-Inv :
    (s : Pmem) (page k w : ℕ) (ks us : List ℕ)
    → IsPage s.kernel_pool.begin s.kernel_pool.end page
    → has page ks ≡ false
    → k < 512
    → Inv s ks us
    → Inv (record s { mem = update s.mem (page + 8 * k) w }) ks us
write-Inv s page k w ks us is used lt v = record {
  kernel =
      Lists-update (page + 8 * k) w
        (elim (Bool-cases (has (page + 8 * k) ks)) [
          | inr h ↦ h
          | inl h ↦
              let first : page + 8 * k ≡ page = omega (arith, v.kernel.pages (page + 8 * k) h) in
              ap (λ b. has b ks) first ∙ used
        ])
        v.kernel;
  user =
      Lists-update (page + 8 * k) w
        (elim (Bool-cases (has (page + 8 * k) us)) [
          | inr h ↦ h
          | inl h ↦ absurd (omega (arith, v.user.pages (page + 8 * k) h, v.apart))
        ])
        v.user;
  apart = v.apart;
}

Kept-refl :
    (s : Pmem) (root : ℕ) (ks us : List ℕ) → Inv s ks us → Tables s root ks → Kept s s root ks us
Kept-refl s root ks us v t = record {
  inv = v;
  tree = t;
  same = λ va. refl;
  above = λ a h. refl;
  same_end = refl;
  same_user = refl;
}

pub Kept-trans :
    {s s' s'' : Pmem} {root : ℕ} {ks ks' us : List ℕ}
    → Kept s s' root ks us
    → Kept s' s'' root ks' us
    → Kept s s'' root ks' us
Kept-trans c d = record {
  inv = d.inv;
  tree = d.tree;
  same = λ va. d.same va ∙ c.same va;
  above = λ a h. d.above a (rw c.same_user h) ∙ c.above a h;
  same_end = d.same_end ∙ c.same_end;
  same_user = d.same_user ∙ c.same_user;
}

-- One level of the walk from the table `q` has ended in `s'`, where the next table is there.
pub record Step (s : Pmem) (root : ℕ) (ks us : List ℕ) (n va : ℕ) (q : List ℕ) : Type 0 where
  pub after : Pmem
  pub left : List ℕ
  pub run :
      walk (suc n) (at s.mem root q) va true s
      ≡ walk n (at after.mem root (vpn va (suc n) ∷ q)) va true after
  pub there : at after.mem root (vpn va (suc n) ∷ q) ≢ 0
  pub kept : Kept s after root left us
  pub used_up : length ks ≤ length left + 1

module _ (s : Pmem) (root : ℕ) (us : List ℕ) (n va : ℕ) (q : List ℕ) (path : IsPath 1 q)
    (here : at s.mem root q ≢ 0) where
  abbrev k : ℕ
  k = vpn va (suc n)

  abbrev a : ℕ
  a = at s.mem root q + 8 * k

  -- The entry leads to the next table.
  step_on :
      (ks : List ℕ)
      → Inv s ks us
      → Tables s root ks
      → is_valid (s.mem a) ≡ true
      → Step s root ks us n va q
  unfolding walk
  step_on ks v t valid =
      let (table, ne) = t.inner q k path (omega arith) here valid in
      let next : at s.mem root (k ∷ q) ≡ pte_to_pa (s.mem a) =
        rw (neb_of_ne (at s.mem root q) 0 here, valid) refl in
      let go : walk (suc n) (at s.mem root q) va true s ≡ walk n (pte_to_pa (s.mem a)) va true s =
        rw (valid, table) refl in
      record {
        after = s;
        left = ks;
        run = go ∙ ap (λ b. walk n b va true s) (sym next);
        there = λ z. ne (sym next ∙ z);
        kept = Kept-refl s root ks us v t;
        used_up = omega arith;
      }

  -- The entry is free: the first free page becomes the next table.
  module _ (x : ℕ) (ks : List ℕ) (v : Inv s (x ∷ ks) us) (t : Tables s root (x ∷ ks))
      (missing : is_valid (s.mem a) ≡ false) where
    is_page : IsPage s.kernel_pool.begin s.kernel_pool.end x
    is_page = v.kernel.pages x (rw (eqb_refl x) refl)

    lt : k < 512
    lt = omega arith

    abbrev new_mem : ℕ → ℕ
    new_mem =
        linked s.mem root s.kernel_pool.begin s.kernel_pool.end x ks t is_page v.kernel.positive q k
          path lt here missing

    step_new : Step s root (x ∷ ks) us n va q
    unfolding walk
    step_new =
        let (s₁, run, d) = pmem_alloc-head true s x ks us v in
        let (leads, _, _) = pte_of_table x is_page.0 (omega (arith, is_page, t.small)) in
        let s₂ = record s₁ { mem = update s₁.mem a (make_pte x 0) } in
        let mem_is : s₂.mem ≡ new_mem =
          ap (λ f. update f a (make_pte x 0)) (fun_ext λ b. ground (arith, d.zeroed b, d.kept b)) in
        let next : at s₂.mem root (k ∷ q) ≡ x =
          ap (λ m. at m root (k ∷ q)) mem_is
          ∙ at-new s.mem root s.kernel_pool.begin s.kernel_pool.end x ks t is_page v.kernel.positive
              q k path lt here missing in
        let go : walk (suc n) (at s.mem root q) va true s
            ≡ and_then (pmem_alloc true s) (λ new_table s'.
              walk n (pte_to_pa (make_pte new_table 0)) va true
                (record s' { mem = update s'.mem a (make_pte new_table 0) })) =
          rw missing refl in
        let allocated =
          ap
            (λ r. and_then r (λ new_table s'.
              walk n (pte_to_pa (make_pte new_table 0)) va true
                (record s' { mem = update s'.mem a (make_pte new_table 0) })))
            run in
        record {
          after = s₂;
          left = ks;
          run = go ∙ allocated ∙ ap (λ b. walk n b va true s₂) (leads ∙ sym next);
          there = λ z. omega (arith, is_page, v.kernel.positive, sym next ∙ z);
          kept = record {
            inv =
                write-Inv s₁ (at s.mem root q) k (make_pte x 0) ks us
                  (rw (d.same_begin, d.same_end) (t.pages q (IsPath-up q path) here))
                  (ground (arith, t.in_use q (IsPath-up q path) here)) lt d.inv;
            tree =
                rw (d.same_begin, d.same_end)
                  (subst (λ m. IsTree m root s.kernel_pool.begin s.kernel_pool.end ks) (sym mem_is)
                    (linked-IsTree s.mem root s.kernel_pool.begin s.kernel_pool.end x ks t is_page
                      v.kernel.positive q k path lt here missing v.kernel.distinct.0));
            same = λ b.
                ap (λ m. lookup m root b) mem_is
                ∙ lookup-linked s.mem root s.kernel_pool.begin s.kernel_pool.end x ks t is_page
                    v.kernel.positive q k path lt here missing b;
            above = λ b h.
                rw
                  (neb_of_ne a b (λ z.
                    omega
                      (arith, z, h, v.apart, v.user.aligned, t.pages q (IsPath-up q path) here)))
                  (d.kept b (inr (omega (arith, h, is_page, v.apart, v.user.aligned))));
            same_end = d.same_end;
            same_user = d.same_user;
          };
          used_up = omega arith;
        }

pub step :
    (s : Pmem) (root : ℕ) (us ks : List ℕ) (n va : ℕ) (q : List ℕ)
    → IsPath 1 q
    → at s.mem root q ≢ 0
    → Inv s ks us
    → Tables s root ks
    → 1 ≤ length ks
    → Step s root ks us n va q
step s root us [] n va q path here v t some_left = absurd (omega (arith, some_left))
step s root us (x ∷ ks) n va q path here v t some_left =
    elim (Bool-cases (is_valid (s.mem (at s.mem root q + 8 * vpn va (suc n))))) [
      | inl valid ↦ step_on s root us n va q path here (x ∷ ks) v t valid
      | inr missing ↦ step_new s root us n va q path here x ks v t missing
    ]

pub walk_zero :
    (table va : ℕ) (alloc : Bool) (s : Pmem)
    → walk 0 table va alloc s ≡ ok (some (table + 8 * vpn va 0)) s
unfolding walk
walk_zero table va alloc s = refl

-- One level without `alloc`.
pub look :
    (s : Pmem) (root : ℕ) (ks : List ℕ) (n va : ℕ) (q : List ℕ)
    → IsPath 1 q
    → at s.mem root q ≢ 0
    → Tables s root ks
    → let next = at s.mem root (vpn va (suc n) ∷ q) in
      walk (suc n) (at s.mem root q) va false s
      ≡ (if next == 0 then ok none s else walk n next va false s)
unfolding walk
look s root ks n va q path here t =
    let b = at s.mem root q in
    let w = s.mem (b + 8 * vpn va (suc n)) in
    elim (Bool-cases (is_valid w)) [
      | inr e ↦ rw (e, neb_of_ne b 0 here) refl
      | inl e ↦
          let (table, ne) = t.inner q (vpn va (suc n)) path (omega arith) here e in
          rw (e, table, neb_of_ne b 0 here) (rw (neb_of_ne (pte_to_pa w) 0 ne) refl)
    ]
