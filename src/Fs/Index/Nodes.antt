-- ===== src/Fs/Index/Nodes.antt =====
-- The tree below an index: its nodes, and what it means that it is in order.
use biglab.Prelude.{
  ℕ, ◌+◌, ◌-◌, ◌≤◌, ◌<◌, ◌≡◌, refl, ◌≢◌, Bool, true, false, arith, sym, ◌∙◌, ap, ◌⊎◌, inl, inr,
  Bool-cases, eqb_refl, ◌==◌, if◌then◌else◌,
}
use native.Mathlib.Decide.{ℕ_discrete}
use biglab.Fs.Disk.{Disk, SuperBlock}
use biglab.Fs.Bitmap.Search.{used, IsDisk}
use biglab.Fs.Index.{get32, Store}

-- A slot of the index, an entry of a table in a slot, an entry of a table in the table of slot 12.
pub data Node : Type 0 where
  slot : ℕ → Node
  child : ℕ → ℕ → Node
  grand : ℕ → ℕ → Node

abbrev pub IsNode : Node → Type 0
IsNode (slot i) = i < 13
IsNode (child i off) = (10 ≤ i) × (i < 13) × (off < 1024)
IsNode (grand a off) = (a < 1024) × (off < 1024)

pub Node-discrete : Discrete Node
Node-discrete = hlevel (ℕ_discrete)

-- An entry of the table in the block `t`; there is none where `t` is 0.
abbrev pub entry : Disk → ℕ → ℕ → ℕ
entry d t off = if t == 0 then 0 else get32 (d t) off

-- The block at a node, or 0.
abbrev pub at : Node → Store → ℕ
at (slot i) s = s.index i
at (child i off) s = entry s.disk (s.index i) off
at (grand a off) s = entry s.disk (entry s.disk (s.index 12) a) off

-- A node whose block holds data, not a table.
abbrev pub IsLeaf : Node → Type 0
IsLeaf (slot i) = i < 10
IsLeaf (child i off) = (10 ≤ i) × (i < 12) × (off < 1024)
IsLeaf (grand a off) = (a < 1024) × (off < 1024)

pub IsLeaf-IsNode : (q : Node) → IsLeaf q → IsNode q
IsLeaf-IsNode (slot i) h = omega arith
IsLeaf-IsNode (child i off) h = omega arith
IsLeaf-IsNode (grand a off) h = h

-- The byte `a` of the block at a node; 0 where there is none.
abbrev pub byte_of : Node → Store → ℕ → ℕ
byte_of q s a = if at q s == 0 then 0 else s.disk (at q s) a

-- A block of the data area, given by its bit.
abbrev pub IsData : SuperBlock → ℕ → Type 0
IsData sb b = (sb.data_firstblock ≤ b) × (b < sb.data_firstblock + sb.data_blocks)

abbrev pub taken : SuperBlock → Disk → ℕ → Bool
taken sb d b = used d sb.data_bitmap_firstblock (b - sb.data_firstblock)

-- The blocks of the tree are data blocks that the bitmap has as used, and no two nodes share one.
pub record InOrder (sb : SuperBlock) (s : Store) : Type 0 where
  pub bytes : IsDisk s.disk
  pub data_block : (p : Node) → IsNode p → at p s ≢ 0 → IsData sb (at p s)
  pub is_taken : (p : Node) → IsNode p → at p s ≢ 0 → taken sb s.disk (at p s) ≡ true
  pub apart : (p q : Node) → IsNode p → IsNode q → at p s ≢ 0 → at p s ≡ at q s → p ≡ q

-- From `s` to `s'` the node `p`, free before, gets the block `b`, and nothing else changes: no other
-- node, no other bit of the data bitmap, and no byte of data: the new block is zeroed.
pub record Grown (sb : SuperBlock) (p : Node) (b : ℕ) (s s' : Store) : Type 0 where
  pub free : at p s ≡ 0
  pub here : at p s' ≡ b
  pub others : (q : Node) → IsNode q → q ≢ p → at q s' ≡ at q s
  pub fresh : IsData sb b
  pub was_free : taken sb s.disk b ≡ false
  pub bits :
      (c : ℕ) → IsData sb c → taken sb s'.disk c ≡ (if b == c then true else taken sb s.disk c)
  pub bytes' : IsDisk s'.disk
  pub contents : (q : Node) → IsLeaf q → (a : ℕ) → byte_of q s' a ≡ byte_of q s a

module _ (sb : SuperBlock) (p : Node) (b : ℕ) (s s' : Store) where
  -- A tree in order stays in order as it grows.
  pub Grown-InOrder : InOrder sb s → Grown sb p b s s' → InOrder sb s'
  Grown-InOrder v g = record {
    bytes = g.bytes';
    data_block = data_block;
    is_taken = is_taken;
    apart = λ q r nq nr. apart q r nq nr;
  }
    where
      which : (q : Node) → IsNode q → ((q ≡ p) × (at q s' ≡ b)) ⊎ ((q ≢ p) × (at q s' ≡ at q s))
      which q n = elim (Node-discrete q p) [
        | yes e ↦ inl (e, ap (λ t. at t s') e ∙ g.here)
        | no d ↦ inr (d, g.others q n d)
      ]

      data_block : (q : Node) → IsNode q → at q s' ≢ 0 → IsData sb (at q s')
      data_block q n ne = elim (which q n) [
        | inl (_, e) ↦ rw e g.fresh
        | inr (_, e) ↦ rw e (v.data_block q n (rw e at ne))
      ]

      is_taken : (q : Node) → IsNode q → at q s' ≢ 0 → taken sb s'.disk (at q s') ≡ true
      is_taken q n ne = elim (which q n) [
        | inl (_, e) ↦ rw e (g.bits b g.fresh ∙ rw (eqb_refl b) refl)
        | inr (_, e) ↦ rw e (elim (Bool-cases (b == at q s)) [
          | inl f ↦ g.bits (at q s) (v.data_block q n (rw e at ne)) ∙ rw f refl
          | inr f ↦
              g.bits (at q s) (v.data_block q n (rw e at ne)) ∙ rw f (v.is_taken q n (rw e at ne))
        ])
      ]

      -- A block of the old tree is not the fresh one.
      old : (q : Node) → IsNode q → at q s ≢ 0 → at q s ≢ b
      old q n ne e = ground (arith, v.is_taken q n ne, g.was_free, ap (taken sb s.disk) e)

      apart : (q r : Node) → IsNode q → IsNode r → at q s' ≢ 0 → at q s' ≡ at r s' → q ≡ r
      apart q r nq nr ne e = elim (which q nq) [
        | inl (i, x) ↦ elim (which r nr) [
          | inl (j, y) ↦ i ∙ sym j
          | inr (_, y) ↦ absurd (old r nr (λ z. ne (e ∙ y ∙ z)) (sym y ∙ sym e ∙ x))
        ]
        | inr (_, x) ↦ elim (which r nr) [
          | inl (_, y) ↦ absurd (old q nq (λ z. ne (x ∙ z)) (sym x ∙ e ∙ y))
          | inr (_, y) ↦ v.apart q r nq nr (λ z. ne (x ∙ z)) (sym x ∙ e ∙ y)
        ]
      ]
