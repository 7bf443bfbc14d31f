-- ===== src/Fs/Cache/Levels.antt =====
-- `__free_data_blocks`: a slot of the index, with the tables below it.
use biglab.Prelude.{
  ℕ, zero, suc, ◌+◌, ◌≤◌, ◌<◌, ◌≡◌, refl, ◌≢◌, ◌⊎◌, arith, ◌==◌, ltb, sym, ◌∙◌, ap, subst, inl, inr,
  Bool-cases, neb_of_ne, eqb→eq,
}
use biglab.Fs.Disk.{Disk, SuperBlock}
use biglab.Fs.Bitmap.Numbers.{IsLayout}
use biglab.Fs.Index.{Store, get32}
use biglab.Fs.Index.Nodes.{Node, slot, child, grand, IsNode, at, entry, InOrder}
use biglab.Fs.Cache.{free_tree, slot_level}
use biglab.Fs.Cache.Freed.{
  Under, Agrees, Freed, Freed-none, Freed-then, Freed-same, free_block-Freed, free_entries-Freed,
}

module _ (sb : SuperBlock) (l : IsLayout sb) (s : Store) (v : InOrder sb s) where
  -- Below a node without a block there is none.
  nothing_below : (p q : Node) → at p s ≡ 0 → Under p q → at q s ≡ 0
  nothing_below (slot i) (slot j) z e = rw (sym e) z
  nothing_below (slot i) (child j o) z e = rw (sym e, z) refl
  nothing_below (slot i) (grand a o) z e =
      let y : s.index 12 ≡ 0 = ap s.index (sym e) ∙ z in rw y refl
  nothing_below (child i off) (slot j) z e = absurd e
  nothing_below (grand b off) (slot j) z e = absurd e
  nothing_below (grand b off) (child j o) z e = absurd e
  nothing_below (child i off) (child j o) z (e, f) = rw (sym e, sym f) z
  nothing_below (child i off) (grand a o) z (e, f) =
      let y : at (child 12 a) s ≡ 0 =
        ap (λ x. at (child x a) s) (sym e) ∙ ap (λ x. at (child i x) s) (sym f) ∙ z in
      rw y refl
  nothing_below (grand b off) (grand a o) z (e, f) = rw (sym e, sym f) z

  pub free_tree_flag : (level b : ℕ) (d : Disk) → (free_tree sb level b d).0 ≡ (b == 0)
  unfolding free_tree
  free_tree_flag zero b d = elim (Bool-cases (b == 0)) [ inl e ↦ rw e refl | inr e ↦ rw e refl ]
  free_tree_flag (suc level) b d = elim (Bool-cases (b == 0)) [
    | inl e ↦ rw e refl
    | inr e ↦ rw e refl
  ]

  abbrev pub Cleared : ℕ → Node → Type 0
  Cleared level p =
      (d : Disk) → Agrees sb l s v d → Freed sb l s v (Under p) d (free_tree sb level (at p s) d).1

  -- A node with nothing below it.
  leaf-Cleared :
      (p : Node) → IsNode p → Under p p → ((q : Node) → IsNode q → Under p q → q ≡ p) → Cleared 0 p
  unfolding free_tree
  leaf-Cleared p n self same d g = elim (Bool-cases (at p s == 0)) [
    | inl e ↦
        rw e
          (Freed-none sb l s v (Under p) d g (λ q m u. nothing_below p q (eqb→eq (at p s) 0 e) u))
    | inr e ↦ rw e (
        Freed-same sb l s v (λ q. q ≡ p) (Under p) d _ (λ q m x. subst (Under p) (sym x) self) same
          (free_block-Freed sb l s v p d n (ground (arith, e)) g))
  ]

  -- A node with a table, whose entries are freed first.
  table-Cleared :
      (level : ℕ) (p : Node) (kid : ℕ → Node)
      → IsNode p
      → (at p s ≢ 0 → (i : ℕ) → i < 1024 → at (kid i) s ≡ get32 (s.disk (at p s)) i)
      → ((i : ℕ) → i < 1024 → Cleared level (kid i))
      → ((q : Node) → IsNode q → Under p q → (q ≡ p) ⊎ ((j : ℕ) × (j < 1024) × Under (kid j) q))
      → ((q : Node) → IsNode q → (q ≡ p) ⊎ ((j : ℕ) × (j < 1024) × Under (kid j) q) → Under p q)
      → Cleared (suc level) p
  unfolding free_tree
  table-Cleared level p kid n entries one split join d g = elim (Bool-cases (at p s == 0)) [
    | inl e ↦
        rw e
          (Freed-none sb l s v (Under p) d g (λ q m u. nothing_below p q (eqb→eq (at p s) 0 e) u))
    | inr e ↦
        let ne : at p s ≢ 0 = ground (arith, e) in
        let rest =
          free_entries-Freed sb l s v (at p s) (v.data_block p n ne) kid (free_tree sb level)
            (entries ne) (λ i d' lt h. one i lt d' h) 1024 0 d (omega arith) g in
        rw e (
          Freed-same sb l s v
            (λ q. ((j : ℕ) × (0 ≤ j) × (j < 0 + 1024) × Under (kid j) q) ⊎ (q ≡ p)) (Under p) d _
            (λ q m x.
              join q m
                (elim x [ inl (j, lo, hi, u) ↦ inr (j, omega (arith, hi), u) | inr z ↦ inl z ]))
            (λ q m x. elim (split q m x) [
              | inl z ↦ inr z
              | inr (j, hi, u) ↦ inl (j, omega arith, omega (arith, hi), u)
            ])
            (Freed-then sb l s v _ (λ q. q ≡ p) d _ _ rest
              (free_block-Freed sb l s v p _ n ne rest.agrees)))
  ]

  grand-Cleared : (a o : ℕ) → a < 1024 → o < 1024 → Cleared 0 (grand a o)
  grand-Cleared a o x y = leaf-Cleared (grand a o) (x, y) (refl, refl) same
    where
      same : (q : Node) → IsNode q → Under (grand a o) q → q ≡ grand a o
      same (slot j) m e = absurd e
      same (child j off) m e = absurd e
      same (grand b off) m (e, f) = rw (e, f) refl

  low_child-Cleared : (i o : ℕ) → 10 ≤ i → i < 12 → o < 1024 → Cleared 0 (child i o)
  low_child-Cleared i o lo hi y =
      leaf-Cleared (child i o) (lo, omega (arith, hi), y) (refl, refl) same
    where
      same : (q : Node) → IsNode q → Under (child i o) q → q ≡ child i o
      same (slot j) m e = absurd e
      same (child j off) m (e, f) = rw (e, f) refl
      same (grand b off) m (e, f) = absurd (omega (arith, e, hi))

  direct-Cleared : (i : ℕ) → i < 10 → Cleared 0 (slot i)
  direct-Cleared i hi = leaf-Cleared (slot i) (omega (arith, hi)) refl same
    where
      same : (q : Node) → IsNode q → Under (slot i) q → q ≡ slot i
      same (slot j) m e = rw e refl
      same (child j off) m e = absurd (omega (arith, m, e, hi))
      same (grand b off) m e = absurd (omega (arith, e, hi))

  table_entry : (t off : ℕ) → t ≢ 0 → entry s.disk t off ≡ get32 (s.disk t) off
  table_entry t off ne = rw (neb_of_ne t 0 ne) refl

  high_child-Cleared : (a : ℕ) → a < 1024 → Cleared 1 (child 12 a)
  high_child-Cleared a x =
      table-Cleared 0 (child 12 a) (grand a) (omega arith, omega arith, x)
        (λ ne i lt. table_entry (at (child 12 a) s) i ne) (λ i lt. grand-Cleared a i x lt) split
        join
    where
      split :
          (q : Node)
          → IsNode q
          → Under (child 12 a) q
          → (q ≡ child 12 a) ⊎ ((j : ℕ) × (j < 1024) × Under (grand a j) q)
      split (slot j) m e = absurd e
      split (child j o) m (e, f) = inl (rw (sym e, f) refl)
      split (grand b o) m (e, f) = inr (o, m.1, (f, refl))

      join :
          (q : Node)
          → IsNode q
          → (q ≡ child 12 a) ⊎ ((j : ℕ) × (j < 1024) × Under (grand a j) q)
          → Under (child 12 a) q
      join q m (inl e) = subst (Under (child 12 a)) (sym e) (refl, refl)
      join (slot b) m (inr (j, lt, e)) = absurd e
      join (child b o) m (inr (j, lt, e)) = absurd e
      join (grand b o) m (inr (j, lt, (e, f))) = (refl, e)

  single-Cleared : (i : ℕ) → 10 ≤ i → i < 12 → Cleared 1 (slot i)
  single-Cleared i lo hi =
      table-Cleared 0 (slot i) (child i) (omega (arith, hi))
        (λ ne o lt. table_entry (s.index i) o ne) (λ o lt. low_child-Cleared i o lo hi lt) split
        join
    where
      split :
          (q : Node)
          → IsNode q
          → Under (slot i) q
          → (q ≡ slot i) ⊎ ((j : ℕ) × (j < 1024) × Under (child i j) q)
      split (slot j) m e = inl (rw e refl)
      split (child j o) m e = inr (o, omega (arith, m), (e, refl))
      split (grand a o) m e = absurd (omega (arith, e, hi))

      join :
          (q : Node)
          → IsNode q
          → (q ≡ slot i) ⊎ ((j : ℕ) × (j < 1024) × Under (child i j) q)
          → Under (slot i) q
      join q m (inl e) = subst (Under (slot i)) (sym e) refl
      join (slot b) m (inr (k, lt, e)) = absurd e
      join (child j o) m (inr (k, lt, (e, f))) = e
      join (grand a o) m (inr (k, lt, (e, f))) = e

  double-Cleared : Cleared 2 (slot 12)
  double-Cleared =
      table-Cleared 1 (slot 12) (child 12) (omega arith) (λ ne o lt. table_entry (s.index 12) o ne)
        (λ o lt. high_child-Cleared o lt) split join
    where
      split :
          (q : Node)
          → IsNode q
          → Under (slot 12) q
          → (q ≡ slot 12) ⊎ ((j : ℕ) × (j < 1024) × Under (child 12 j) q)
      split (slot j) m e = inl (rw e refl)
      split (child j o) m e = inr (o, omega (arith, m), (e, refl))
      split (grand a o) m e = inr (a, m.0, (refl, refl))

      join :
          (q : Node)
          → IsNode q
          → (q ≡ slot 12) ⊎ ((j : ℕ) × (j < 1024) × Under (child 12 j) q)
          → Under (slot 12) q
      join q m (inl e) = subst (Under (slot 12)) (sym e) refl
      join (slot b) m (inr (k, lt, e)) = absurd e
      join (child j o) m (inr (k, lt, (e, f))) = e
      join (grand a o) m (inr (k, lt, (e, f))) = e

  pub slot-Cleared : (i : ℕ) → i < 13 → Cleared (slot_level i) (slot i)
  slot-Cleared i lt = elim (Bool-cases (ltb i 10)) [
    | inl e ↦ rw e (direct-Cleared i (ground (arith, e)))
    | inr e ↦ elim (Bool-cases (ltb i 12)) [
      | inl f ↦ rw (e, f) (single-Cleared i (ground (arith, e)) (ground (arith, f)))
      | inr f ↦
          let z : i ≡ 12 = ground (arith, f, lt) in
          subst (λ x. Cleared (slot_level x) (slot x)) (sym z) double-Cleared
    ]
  ]
