-- ===== src/Memory/Tables/Map.antt =====
-- An entry of a lowest table is written: one page is mapped anew, and every other page as before.
use biglab.Prelude.{
  ℕ, ◌+◌, ◌*◌, ◌/◌, ◌<◌, ◌≡◌, refl, sym, ap, ◌∙◌, ◌≢◌, inl, inr, none, some, List, [], ◌∷◌, arith,
  ◌==◌, if◌then◌else◌, update, Bool-cases, eqb→eq, eqb_refl, neb_of_ne, page_size,
}
use biglab.Memory.Space.{va_max}
use biglab.Memory.Tables.{vpn, is_valid}
use biglab.Memory.Tables.Tree.{
  IsPath, IsPath-up, child, follow, at, low, low_path, low_path-IsPath, lookup, leaf, IsTree,
}
use biglab.Memory.Tables.Link.{not_low, leads_on}

-- The three levels tell the pages apart.
pub vpn-page :
    (va vb : ℕ)
    → va / 4096 ≡ vb / 4096
    → (vpn va 0 ≡ vpn vb 0) × (vpn va 1 ≡ vpn vb 1) × (vpn va 2 ≡ vpn vb 2)
vpn-page va vb e = (omega (arith, e), omega (arith, e), omega (arith, e))

page_of_vpn :
    (va vb : ℕ)
    → va < va_max
    → vb < va_max
    → vpn va 0 ≡ vpn vb 0
    → vpn va 1 ≡ vpn vb 1
    → vpn va 2 ≡ vpn vb 2
    → va / 4096 ≡ vb / 4096
page_of_vpn va vb h g e₀ e₁ e₂ = omega (arith, h, g, e₀, e₁, e₂)

first_of : List ℕ → ℕ
first_of [] = 0
first_of (k ∷ p) = k

second_of : List ℕ → ℕ
second_of [] = 0
second_of (k ∷ p) = first_of p

vpn-low_path :
    (va vb : ℕ) → low_path va ≡ low_path vb → (vpn va 1 ≡ vpn vb 1) × (vpn va 2 ≡ vpn vb 2)
unfolding first_of second_of
vpn-low_path va vb e = (ap first_of e, ap second_of e)

module _ (mem : ℕ → ℕ) (root lo hi : ℕ) (ks : List ℕ) (t : IsTree mem root lo hi ks) (va w : ℕ)
    (there : low mem root va ≢ 0) where
  abbrev entry : ℕ
  entry = low mem root va + 8 * vpn va 0

  abbrev pub written : ℕ → ℕ
  written = update mem entry w

  same_entry :
      (q : List ℕ) (j : ℕ)
      → IsPath 2 q
      → j < 512
      → entry ≡ at mem root q + 8 * j
      → at mem root q ≢ 0
      → (low_path va ≡ q) × (vpn va 0 ≡ j)
  same_entry q j h lt e ne =
      let same : low mem root va ≡ at mem root q =
        omega (arith, e, lt, t.pages (low_path va) (low_path-IsPath va) there, t.pages q h ne) in
      (t.apart (low_path va) q (low_path-IsPath va) h there same, omega (arith, e, same))

  -- The entries of the inner tables stay.
  inner_word :
      (q : List ℕ) (j : ℕ)
      → IsPath 1 q
      → j < 512
      → at mem root q ≢ 0
      → written (at mem root q + 8 * j) ≡ mem (at mem root q + 8 * j)
  inner_word q j h lt ne =
      rw
        (neb_of_ne entry (at mem root q + 8 * j)
          λ e. not_low q va h (sym (same_entry q j (IsPath-up q h) lt e ne).0))
        refl

  at-written : (q : List ℕ) → IsPath 2 q → at written root q ≡ at mem root q
  at-written [] h = refl
  at-written (j ∷ q) h =
      let e = at-written q (IsPath-up q h.1) in
      elim (Bool-cases (at mem root q == 0)) [
        | inl z ↦ rw (e, z) refl
        | inr nz ↦
            ap (λ a. child written a j) e
            ∙ ap (follow (at mem root q)) (inner_word q j h.1 h.0 (λ z. ground (arith, nz)))
      ]

  pub written-IsTree : IsTree written root lo hi ks
  written-IsTree = record {
    exists = t.exists;
    small = t.small;
    pages = λ q h ne. rw (at-written q h) (t.pages q h (λ z. ne (at-written q h ∙ z)));
    in_use = λ q h ne. rw (at-written q h) (t.in_use q h (λ z. ne (at-written q h ∙ z)));
    inner = λ q j h lt ne v.
        let there' : at mem root q ≢ 0 = λ z. ne (at-written q (IsPath-up q h) ∙ z) in
        let same =
          ap (λ a. written (a + 8 * j)) (at-written q (IsPath-up q h))
          ∙ inner_word q j h lt there' in
        leads_on (sym same) (t.inner q j h lt there' (sym (ap is_valid same) ∙ v));
    apart = λ q r hq hr ne e.
        t.apart q r hq hr (λ z. ne (at-written q hq ∙ z))
          (sym (at-written q hq) ∙ e ∙ at-written r hr);
  }

  same_low : (vb : ℕ) → low written root vb ≡ low mem root vb
  same_low vb = at-written (low_path vb) (low_path-IsPath vb)

  lookup_same :
      (vb : ℕ)
      → va / 4096 ≡ vb / 4096
      → lookup written root vb ≡ (if is_valid w then some w else none)
  lookup_same vb e =
      let (e₀, e₁, e₂) = vpn-page va vb e in
      let low_is : low mem root vb ≡ low mem root va =
        ap (λ k. at mem root (k ∷ vpn vb 2 ∷ [])) (sym e₁)
        ∙ ap (λ k. at mem root (vpn va 1 ∷ k ∷ [])) (sym e₂) in
      let word_is : written (low mem root va + 8 * vpn vb 0) ≡ w =
        ap (λ k. written (low mem root va + 8 * k)) (sym e₀) ∙ rw (eqb_refl entry) refl in
      let end : leaf (low mem root va) w ≡ (if is_valid w then some w else none) =
        rw (neb_of_ne (low mem root va) 0 there) refl in
      ap (λ a. leaf a (written (a + 8 * vpn vb 0))) (same_low vb ∙ low_is)
      ∙ ap (leaf (low mem root va)) word_is
      ∙ end

  lookup_other :
      (vb : ℕ)
      → va < va_max
      → vb < va_max
      → va / 4096 ≢ vb / 4096
      → lookup written root vb ≡ lookup mem root vb
  lookup_other vb below below' ne = elim (Bool-cases (low mem root vb == 0)) [
    | inl z ↦ rw (same_low vb, z) refl
    | inr nz ↦
        let word_is : written (low mem root vb + 8 * vpn vb 0)
            ≡ mem (low mem root vb + 8 * vpn vb 0) =
          rw
            (neb_of_ne entry (low mem root vb + 8 * vpn vb 0) λ e.
              let (p, k) =
                same_entry (low_path vb) (vpn vb 0) (low_path-IsPath vb) (omega arith) e
                  (λ z. ground (arith, nz)) in
              let (e₁, e₂) = vpn-low_path va vb p in ne (page_of_vpn va vb below below' k e₁ e₂))
            refl in
        ap (λ a. leaf a (written (a + 8 * vpn vb 0))) (same_low vb)
        ∙ ap (leaf (low mem root vb)) word_is
  ]

  -- The page of the address has the new entry, and every other page the mapping of before.
  pub lookup-written :
      (vb : ℕ)
      → va < va_max
      → vb < va_max
      → lookup written root vb ≡ (
          if va / page_size == vb / page_size
          then if is_valid w then some w else none
          else lookup mem root vb)
  lookup-written vb below below' = elim (Bool-cases (va / page_size == vb / page_size)) [
    | inl e ↦ rw e (lookup_same vb (eqb→eq (va / page_size) (vb / page_size) e))
    | inr e ↦ rw e (lookup_other vb below below' (λ z. ground (arith, e, z)))
  ]
