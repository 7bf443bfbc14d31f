-- ===== src/Memory/Tables/Link.antt =====
-- A new, zeroed page becomes the table under a free entry: nothing else of the tree changes.
use biglab.Prelude.{
  ℕ, ◌+◌, ◌*◌, ◌%◌, ◌^◌, ◌<◌, ◌≡◌, refl, sym, ap, subst, ◌∙◌, ◌≢◌, inl, inr, true, false, none,
  List, [], ◌∷◌, arith, has, ◌==◌, update, Bool-cases, eqb→eq, eqb_refl, neb_of_ne,
}
use biglab.Memory.Pmem.{clear_page}
use biglab.Memory.Pmem.Pages.{IsPage}
use biglab.Memory.Tables.{vpn, pte_to_pa, make_pte, is_valid, is_table}
use biglab.Memory.Tables.Tree.{
  IsPath, IsPath-up, child, follow, at, low, lookup, leaf, low_path, low_path-IsPath, IsTree,
}

-- The entry of a table leads back to it.
pub pte_of_table :
    (x : ℕ)
    → x % 4096 ≡ 0
    → x < 2 ^ 56
    → (pte_to_pa (make_pte x 0) ≡ x)
      × (is_valid (make_pte x 0) ≡ true)
      × (is_table (make_pte x 0) ≡ true)
pte_of_table x al lt = (omega (arith), ground (arith), ground (arith))

pub follow_zero : (a : ℕ) → follow a 0 ≡ 0
follow_zero a = ground arith

pub leads_on :
    {v w : ℕ}
    → v ≡ w
    → (is_table v ≡ true) × (pte_to_pa v ≢ 0)
    → (is_table w ≡ true) × (pte_to_pa w ≢ 0)
leads_on e h = subst (λ w. (is_table w ≡ true) × (pte_to_pa w ≢ 0)) e h

pub leaf_zero : (a : ℕ) → leaf a 0 ≡ none
leaf_zero a = ground arith

-- A path to an inner table is not one to a table of the lowest level.
pub not_low : (p : List ℕ) (va : ℕ) → IsPath 1 p → p ≢ low_path va
not_low p va h e = (subst (IsPath 1) e h).1

module _ (mem : ℕ → ℕ) (root lo hi x : ℕ) (ks : List ℕ) (t : IsTree mem root lo hi (x ∷ ks))
    (is : IsPage lo hi x) (pos : 0 < lo) (p : List ℕ) (k : ℕ) (path : IsPath 1 p) (small : k < 512)
    (here : at mem root p ≢ 0) (missing : is_valid (mem (at mem root p + 8 * k)) ≡ false) where
  abbrev pub linked : ℕ → ℕ
  linked = update (clear_page mem x) (at mem root p + 8 * k) (make_pte x 0)

  -- The words of the tables stay, but for the entry.
  word :
      (q : List ℕ) (j : ℕ)
      → IsPath 2 q
      → j < 512
      → at mem root q ≢ 0
      → at mem root p + 8 * k ≢ at mem root q + 8 * j
      → linked (at mem root q + 8 * j) ≡ mem (at mem root q + 8 * j)
  word q j h lt ne other = ground (arith, t.pages q h ne, t.in_use q h ne)

  entry : linked (at mem root p + 8 * k) ≡ make_pte x 0
  entry = rw (eqb_refl (at mem root p + 8 * k)) refl

  zeroed : (j : ℕ) → j < 512 → linked (x + 8 * j) ≡ 0
  zeroed j lt =
      ground (arith, t.pages p (IsPath-up p path) here, t.in_use p (IsPath-up p path) here)

  -- A table at this address and this entry is the one where the new table is linked.
  same_entry :
      (q : List ℕ) (j : ℕ)
      → IsPath 2 q
      → j < 512
      → at mem root q ≢ 0
      → at mem root p + 8 * k ≡ at mem root q + 8 * j
      → (p ≡ q) × (k ≡ j)
  same_entry q j h lt ne e =
      let same : at mem root p ≡ at mem root q =
        ground (arith, t.pages p (IsPath-up p path) here, t.pages q h ne) in
      (t.apart p q (IsPath-up p path) h here same, omega (arith, e, same))

  -- The table at a path is the one of before, or the new one.
  pub data After (q : List ℕ) : Type 0 where
    kept : at linked root q ≡ at mem root q → After q
    fresh : q ≡ k ∷ p → at mem root q ≡ 0 → at linked root q ≡ x → After q

  -- Below a table that stays, only the entry leads elsewhere.
  after_child :
      (j : ℕ) (q : List ℕ) → j < 512 → IsPath 1 q → at linked root q ≡ at mem root q → After (j ∷ q)
  after_child j q lt h e = elim (Bool-cases (at mem root q == 0)) [
    | inl z ↦ kept (rw (e, z) refl)
    | inr nz ↦
        let ne : at mem root q ≢ 0 = λ z. ground (arith, nz) in
        elim (Bool-cases (at mem root p + 8 * k == at mem root q + 8 * j)) [
          | inl s ↦
              let (pq, kj) =
                same_entry q j (IsPath-up q h) lt ne
                  (eqb→eq (at mem root p + 8 * k) (at mem root q + 8 * j) s) in
              let (leads, valid, _) = pte_of_table x is.0 (omega (arith, is, t.small)) in
              let new : linked (at mem root q + 8 * j) ≡ make_pte x 0 = rw s refl in
              let old : is_valid (mem (at mem root q + 8 * j)) ≡ false =
                ap (λ a. is_valid (mem a))
                  (sym (eqb→eq (at mem root p + 8 * k) (at mem root q + 8 * j) s))
                ∙ missing in
              let end : follow (at mem root q) (make_pte x 0) ≡ x = rw (nz, valid) leads in
              let there : at linked root (j ∷ q) ≡ x =
                ap (λ a. child linked a j) e ∙ ap (follow (at mem root q)) new ∙ end in
              fresh (ap (λ r. j ∷ r) (sym pq) ∙ ap (λ i. i ∷ p) (sym kj)) (rw (nz, old) refl) there
          | inr s ↦ kept (
              ap (λ a. child linked a j) e
              ∙ ap (follow (at mem root q))
                  (word q j (IsPath-up q h) lt ne (λ z. ground (arith, s))))
        ]
  ]

  child_none : (a j : ℕ) → a ≡ 0 → child mem a j ≡ 0
  child_none a j z = rw z refl

  pub after : (q : List ℕ) → IsPath 2 q → After q
  after [] h = kept refl
  after (j ∷ q) h = elim (after q (IsPath-up q h.1)) [
    | kept e ↦ after_child j q h.0 h.1 e
    | fresh is_new z e ↦ kept (
        ap (λ a. child linked a j) e
        ∙ ap (follow x) (zeroed j h.0)
        ∙ follow_zero x
        ∙ sym (child_none (at mem root q) j z))
  ]

  -- A table of before stays where it is.
  pub at-linked : (q : List ℕ) → IsPath 2 q → at mem root q ≢ 0 → at linked root q ≡ at mem root q
  at-linked q h ne = elim (after q h) [ kept e ↦ e | fresh is_new z e ↦ absurd (ne z) ]

  pub at-new : at linked root (k ∷ p) ≡ x
  at-new =
      let (leads, valid, _) = pte_of_table x is.0 (omega (arith, is, t.small)) in
      let end : follow (at mem root p) (make_pte x 0) ≡ x =
        rw (neb_of_ne (at mem root p) 0 here, valid) leads in
      ap (λ a. child linked a k) (at-linked p (IsPath-up p path) here)
      ∙ ap (follow (at mem root p)) entry
      ∙ end

  not_free :
      has x ks ≡ false
      → (q : List ℕ) → IsPath 2 q
      → at linked root q ≢ 0
      → has (at linked root q) ks ≡ false
  not_free fr q h ne = elim (after q h) [
    | kept e ↦ rw e (ground (arith, t.in_use q h, ne, e))
    | fresh _ _ e ↦ rw e fr
  ]

  is_other : (q : List ℕ) → IsPath 2 q → at mem root q ≢ 0 → at mem root q ≢ x
  is_other q h ne e = ground (arith, t.in_use q h ne, e)

  inner_kept :
      (q : List ℕ) (j : ℕ)
      → IsPath 1 q
      → j < 512
      → at linked root q ≡ at mem root q
      → at mem root q ≢ 0
      → is_valid (linked (at linked root q + 8 * j)) ≡ true
      → (is_table (linked (at linked root q + 8 * j)) ≡ true)
        × (pte_to_pa (linked (at linked root q + 8 * j)) ≢ 0)
  inner_kept q j h lt e ne v =
      let here_is = ap (λ a. linked (a + 8 * j)) e in
      elim (Bool-cases (at mem root p + 8 * k == at mem root q + 8 * j)) [
        | inl s ↦
            let new : linked (at mem root q + 8 * j) ≡ make_pte x 0 = rw s refl in
            let (leads, _, table) = pte_of_table x is.0 (omega (arith, is, t.small)) in
            leads_on (sym (here_is ∙ new)) (table, λ z. omega (arith, is, pos, sym leads ∙ z))
        | inr s ↦
            let same = here_is ∙ word q j (IsPath-up q h) lt ne (λ z. ground (arith, s)) in
            leads_on (sym same) (t.inner q j h lt ne (sym (ap is_valid same) ∙ v))
      ]

  -- With the new table, the tables are a tree without free pages.
  pub linked-IsTree : has x ks ≡ false → IsTree linked root lo hi ks
  linked-IsTree fr = record {
    exists = t.exists;
    small = t.small;
    pages = λ q h ne. elim (after q h) [
      | kept e ↦ rw e (t.pages q h (λ z. ne (e ∙ z)))
      | fresh _ _ e ↦ rw e is
    ];
    in_use = not_free fr;
    inner = λ q j h lt ne v. elim (after q (IsPath-up q h)) [
      | kept e ↦ inner_kept q j h lt e (λ z. ne (e ∙ z)) v
      | fresh _ _ e ↦ absurd (ground (arith, v, ap (λ a. linked (a + 8 * j)) e ∙ zeroed j lt))
    ];
    apart = λ q r hq hr ne e. elim (after q hq) [
      | kept eq ↦ elim (after r hr) [
        | kept er ↦ t.apart q r hq hr (λ z. ne (eq ∙ z)) (sym eq ∙ e ∙ er)
        | fresh _ _ er ↦ absurd (is_other q hq (λ z. ne (eq ∙ z)) (sym eq ∙ e ∙ er))
      ]
      | fresh sq _ eq ↦ elim (after r hr) [
        | kept er ↦ absurd (is_other r hr (λ z. ne (e ∙ er ∙ z)) (sym er ∙ sym e ∙ eq))
        | fresh sr _ er ↦ sq ∙ sym sr
      ]
    ];
  }

  low_word :
      (va : ℕ)
      → (low mem root va == 0) ≡ false
      → linked (low mem root va + 8 * vpn va 0) ≡ mem (low mem root va + 8 * vpn va 0)
  low_word va nz =
      let ne : low mem root va ≢ 0 = λ z. ground (arith, nz) in
      word (low_path va) (vpn va 0) (low_path-IsPath va) (omega arith) ne λ e.
        not_low p va path
          (same_entry (low_path va) (vpn va 0) (low_path-IsPath va) (omega arith) ne e).0

  leaf_none : (va : ℕ) → low mem root va ≡ 0 → lookup mem root va ≡ none
  leaf_none va z = rw z refl

  -- The page of every address is mapped as before.
  pub lookup-linked : (va : ℕ) → lookup linked root va ≡ lookup mem root va
  lookup-linked va = elim (after (low_path va) (low_path-IsPath va)) [
    | kept e ↦ elim (Bool-cases (low mem root va == 0)) [
      | inl z ↦ rw (e, z) refl
      | inr nz ↦
          ap (λ a. leaf a (linked (a + 8 * vpn va 0))) e
          ∙ ap (leaf (low mem root va)) (low_word va nz)
    ]
    | fresh _ z e ↦
        ap (λ a. leaf a (linked (a + 8 * vpn va 0))) e
        ∙ ap (leaf x) (zeroed (vpn va 0) (omega arith))
        ∙ leaf_zero x
        ∙ sym (leaf_none va z)
  ]
