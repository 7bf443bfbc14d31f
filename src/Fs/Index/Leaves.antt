-- ===== src/Fs/Index/Leaves.antt =====
-- The logical blocks of a file, and the nodes on the way to each.
use biglab.Prelude.{
  ℕ, ◌+◌, ◌-◌, ◌*◌, ◌/◌, ◌%◌, ◌<◌, ◌≡◌, ◌≢◌, arith, ltb, if◌then◌else◌, sym, ◌∙◌, ap, inl, inr,
  Bool-cases, List, [], ◌∷◌,
}
use biglab.Fs.Index.Nodes.{Node, slot, child, grand, IsNode, IsLeaf}
use biglab.Fs.Index.Ensure.{NotIn}

-- INODE_BLOCK_INDEX_3: the number of logical blocks.
abbrev pub inode_block_index_3 : ℕ
inode_block_index_3 = 1050634

-- The node of a logical block.
abbrev pub leaf : ℕ → Node
leaf n =
    if ltb n 10
    then slot n
    else if ltb n 2058
    then child (10 + (n - 10) / 1024) ((n - 10) % 1024)
    else grand ((n - 10 - 2048) / 1024) ((n - 10 - 2048) % 1024)

-- The number of a leaf; numbers no leaf has for the other nodes.
abbrev pub number : Node → ℕ
number (slot i) = if ltb i 10 then i else 2000000
number (child i off) = if ltb i 12 then 10 + (i - 10) * 1024 + off else 2000000
number (grand a off) = 2058 + a * 1024 + off

pub number-leaf : (n : ℕ) → n < inode_block_index_3 → number (leaf n) ≡ n
number-leaf n lt = ground arith

pub leaf-IsNode : (n : ℕ) → n < inode_block_index_3 → IsNode (leaf n)
leaf-IsNode n lt = ground arith

pub leaf-IsLeaf : (n : ℕ) → n < inode_block_index_3 → IsLeaf (leaf n)
leaf-IsLeaf n lt = ground arith

pub leaf_inj :
    (m n : ℕ) → m < inode_block_index_3 → n < inode_block_index_3 → leaf m ≡ leaf n → m ≡ n
leaf_inj m n lm ln e = sym (number-leaf m lm) ∙ ap number e ∙ number-leaf n ln

-- The nodes on the way to a leaf.
abbrev pub path : ℕ → List Node
path n =
    if ltb n 10
    then slot n ∷ []
    else if ltb n 2058
    then slot (10 + (n - 10) / 1024) ∷ child (10 + (n - 10) / 1024) ((n - 10) % 1024) ∷ []
    else slot 12
      ∷ child 12 ((n - 10 - 2048) / 1024)
      ∷ grand ((n - 10 - 2048) / 1024) ((n - 10 - 2048) % 1024)
      ∷ []

pub apart_at : (m : ℕ) (p : Node) → m < inode_block_index_3 → number p ≢ m → leaf m ≢ p
apart_at m p lt ne e = ne (sym (ap number e) ∙ number-leaf m lt)

pub leaf-NotIn :
    (m n : ℕ) → m < inode_block_index_3 → n < inode_block_index_3 → m ≢ n → NotIn (leaf m) (path n)
leaf-NotIn m n lm ln ne = elim (Bool-cases (ltb n 10)) [
  | inl e ↦ rw e (apart_at m (slot n) lm (ground arith), tt)
  | inr e ↦ elim (Bool-cases (ltb n 2058)) [
    | inl f ↦
        rw (e, f)
          (
            apart_at m (slot (10 + (n - 10) / 1024)) lm (ground arith),
            (apart_at m (child (10 + (n - 10) / 1024) ((n - 10) % 1024)) lm (ground arith), tt),
          )
    | inr f ↦
        rw (e, f)
          (
            apart_at m (slot 12) lm (ground arith),
            (
              apart_at m (child 12 ((n - 10 - 2048) / 1024)) lm (ground arith),
              (
                apart_at m (grand ((n - 10 - 2048) / 1024) ((n - 10 - 2048) % 1024)) lm
                    (ground arith),
                tt,
              ),
            ),
          )
  ]
]
