-- ===== src/Fs/Data/Round.antt =====
-- One round of the loop of `inode_write_data`.
use biglab.Prelude.{
  ℕ, ◌+◌, ◌-◌, ◌/◌, ◌%◌, ◌^◌, ◌<◌, ◌≡◌, refl, ◌≢◌, ◌⊎◌, true, false, ◌&&◌, arith, ltb, leb,
  if◌then◌else◌, sym, ◌∙◌, ap, inl, inr, Bool-cases, neb_of_ne, update,
}
use native.Mathlib.Decide.{ℕ_discrete}
use biglab.Fs.Disk.{Block, SuperBlock}
use biglab.Fs.Bitmap.Numbers.{IsLayout}
use biglab.Fs.Index.{Store}
use biglab.Fs.Index.Nodes.{Node, IsLeaf, at, byte_of, InOrder}
use biglab.Fs.Index.Leaves.{leaf, leaf-IsLeaf, leaf_inj}
use biglab.Fs.Data.{copy_in, part}
use biglab.Fs.Data.Overwrite.{written-InOrder, byte_of-written, byte_of-written_ne}

-- The byte at a position of the file, 0 where no block is.
abbrev pub data_at : Store → ℕ → ℕ
data_at s pos = byte_of (leaf (pos / 4096)) s (pos % 4096)

module _ (sb : SuperBlock) (l : IsLayout sb) (end : ℕ) (src : ℕ → ℕ) (small : end < 2 ^ 32)
    (is_bytes : (i : ℕ) → src i < 256) where
  -- The store after one round.
  abbrev pub copied : (cur total b : ℕ) → Store → Store
  copied cur total b s' = record s' {
    disk = update s'.disk b (copy_in (s'.disk b) (cur % 4096) (part cur end) src total);
  }

  pub block_lt : (pos : ℕ) → pos < 2 ^ 32 → pos / 4096 < 1050634
  block_lt pos p = omega arith

  -- What one round leaves at each position.
  pub round_data :
      (cur total : ℕ) (s s' : Store)
      → cur < end
      → InOrder sb s'
      → at (leaf (cur / 4096)) s' ≢ 0
      → ((q : Node) → IsLeaf q → (a : ℕ) → byte_of q s' a ≡ byte_of q s a)
      → (pos : ℕ) → pos < 2 ^ 32
      → data_at (copied cur total (at (leaf (cur / 4096)) s') s') pos ≡ (
          if leb cur pos && ltb pos (cur + part cur end)
          then src (total + (pos - cur))
          else data_at s pos)
  round_data cur total s s' lt v ne contents pos p = elim (ℕ_discrete (pos / 4096) (cur / 4096)) [
    | yes e ↦
        ap (λ x. byte_of (leaf x) (copied cur total (at (leaf (cur / 4096)) s') s') (pos % 4096)) e
        ∙ byte_of-written sb l s' v here (leaf-IsLeaf (cur / 4096) (block_lt cur (omega arith))) ne
            new (pos % 4096)
        ∙ same_block e (elim (Bool-cases (leb cur pos && ltb pos (cur + part cur end))) [
          | inl c ↦ inl c
          | inr c ↦ inr c
        ])
    | no d ↦
        let out : (leb cur pos && ltb pos (cur + part cur end)) ≡ false = ground arith in
        rw out (
          byte_of-written_ne sb l s' v here (leaf-IsLeaf (cur / 4096) (block_lt cur (omega arith)))
            ne new (leaf (pos / 4096)) (leaf-IsLeaf (pos / 4096) (block_lt pos p))
            (λ q.
              d (
                leaf_inj (pos / 4096) (cur / 4096) (block_lt pos p) (block_lt cur (omega arith)) q))
            (pos % 4096)
          ∙ contents (leaf (pos / 4096)) (leaf-IsLeaf (pos / 4096) (block_lt pos p)) (pos % 4096))
  ]
    where
      here : Node
      here = leaf (cur / 4096)

      new : Block
      new = copy_in (s'.disk (at (leaf (cur / 4096)) s')) (cur % 4096) (part cur end) src total

      same_block :
          pos / 4096 ≡ cur / 4096
          → ((leb cur pos && ltb pos (cur + part cur end)) ≡ true)
            ⊎ ((leb cur pos && ltb pos (cur + part cur end)) ≡ false)
          → copy_in
              (s'.disk (at (leaf (cur / 4096)) s'))
              (cur % 4096)
              (part cur end)
              src
              total
              (pos % 4096)
            ≡ (if leb cur pos && ltb pos (cur + part cur end)
                then src (total + (pos - cur))
                else data_at s pos)
      same_block e (inl c) =
          let d : (leb (cur % 4096) (pos % 4096) && ltb (pos % 4096) (cur % 4096 + part cur end))
              ≡ true =
            ground arith in
          let f : pos % 4096 - cur % 4096 ≡ pos - cur = ground arith in rw (c, d, f) refl
      same_block e (inr c) =
          let d : (leb (cur % 4096) (pos % 4096) && ltb (pos % 4096) (cur % 4096 + part cur end))
              ≡ false =
            ground arith in
          let f : byte_of (leaf (cur / 4096)) s' (pos % 4096) ≡ data_at s pos =
            contents (leaf (cur / 4096)) (leaf-IsLeaf (cur / 4096) (block_lt cur (omega arith)))
              (pos % 4096)
            ∙ ap (λ x. byte_of (leaf x) s (pos % 4096)) (sym e) in
          rw (c, d) ((rw (neb_of_ne (at (leaf (cur / 4096)) s') 0 ne) at f))

  pub copied-InOrder :
      (cur total : ℕ) (s' : Store)
      → cur < end
      → InOrder sb s'
      → at (leaf (cur / 4096)) s' ≢ 0
      → InOrder sb (copied cur total (at (leaf (cur / 4096)) s') s')
  copied-InOrder cur total s' lt v ne =
      written-InOrder sb l s' v (leaf (cur / 4096))
        (leaf-IsLeaf (cur / 4096) (block_lt cur (omega arith))) ne _
        (λ a.
          ground
            (arith, is_bytes (total + (a - cur % 4096)), v.bytes (at (leaf (cur / 4096)) s') a))
