-- ===== src/Fs/Data/Read.antt =====
-- `inode_read_data`: the bytes read are those of the file, and no byte of the file changes.
use biglab.Prelude.{
  ℕ, zero, suc, ◌+◌, ◌-◌, ◌/◌, ◌%◌, ◌^◌, ◌≤◌, ◌<◌, ◌≡◌, refl, ◌≢◌, ◌⊎◌, true, false, ◌&&◌, arith,
  ltb, leb, if◌then◌else◌, sym, ◌∙◌, ap, subst, inl, inr, Bool-cases, neb_of_ne, some, none, Option,
  u32,
}
use native.Mathlib.Decide.{ℕ_discrete}
use biglab.Prelude.Run.{Run, ok}
use biglab.Fs.Disk.{SuperBlock}
use biglab.Fs.Bitmap.Numbers.{IsLayout}
use biglab.Fs.Index.{Store, locate_or_add_block}
use biglab.Fs.Index.Nodes.{Node, IsNode, IsLeaf, at, byte_of, InOrder}
use biglab.Fs.Index.Ensure.{IsFull}
use biglab.Fs.Index.Leaves.{leaf, leaf-IsLeaf, leaf-IsNode}
use biglab.Fs.Index.Locate.{Located, locate_or_add_block-Located}
use biglab.Fs.Data.{copy_out, part, read_loop}
use biglab.Fs.Data.Round.{data_at}

-- The `w` bytes of the file from `cur` on are in `dst'` from `total` on, the rest of the buffer and the
-- file have not changed. Fewer than asked for are read only at a hole, where no data block is left.
pub record WasRead (sb : SuperBlock) (cur end total w : ℕ) (dst dst' : ℕ → ℕ) (s s' : Store)
    : Type 0 where
  pub in_order : InOrder sb s'
  pub at_most : cur + w ≤ end
  pub all_or_hole : (cur + w ≡ end) ⊎ (IsFull sb s'.disk × (at (leaf ((cur + w) / 4096)) s ≡ 0))
  pub kept : (q : Node) → IsNode q → at q s ≢ 0 → at q s' ≡ at q s
  pub same : (pos : ℕ) → pos < 2 ^ 32 → data_at s' pos ≡ data_at s pos
  pub filled :
      (i : ℕ)
      → dst' i ≡ (if leb total i && ltb i (total + w) then data_at s (cur + (i - total)) else dst i)

module _ (sb : SuperBlock) (l : IsLayout sb) (end : ℕ) (small : end < 2 ^ 32) where
  in_block :
      (cur k : ℕ)
      → cur < end
      → k < part cur end
      → ((cur + k) / 4096 ≡ cur / 4096) × ((cur + k) % 4096 ≡ cur % 4096 + k)
  in_block cur k lt h = (ground arith, ground arith)

  -- What one round copies.
  round_filled :
      (cur total : ℕ) (dst : ℕ → ℕ) (s s' : Store)
      → cur < end
      → at (leaf (cur / 4096)) s' ≢ 0
      → ((q : Node) → IsLeaf q → (a : ℕ) → byte_of q s' a ≡ byte_of q s a)
      → (i : ℕ)
      → copy_out dst total (part cur end) (s'.disk (at (leaf (cur / 4096)) s')) (cur % 4096) i ≡ (
          if leb total i && ltb i (total + part cur end)
          then data_at s (cur + (i - total))
          else dst i)
  round_filled cur total dst s s' lt ne contents i =
      elim (Bool-cases (leb total i && ltb i (total + part cur end))) [
        | inl c ↦
            let (e, f) = in_block cur (i - total) lt (ground arith) in
            let g =
              contents (leaf (cur / 4096)) (leaf-IsLeaf (cur / 4096) (omega arith))
                (cur % 4096 + (i - total)) in
            rw (c, e, f) (rw (neb_of_ne (at (leaf (cur / 4096)) s') 0 ne) at g)
        | inr c ↦ rw c refl
      ]

  -- A round, and then what the rest of the loop reads.
  WasRead-next :
      (cur total n w : ℕ) (dst dst₁ dst' : ℕ → ℕ) (s t s' : Store)
      → ((q : Node) → IsNode q → at q s ≢ 0 → at q t ≡ at q s)
      → ((pos : ℕ) → pos < 2 ^ 32 → data_at t pos ≡ data_at s pos)
      → ((i : ℕ)
          → dst₁ i
            ≡ (if leb total i && ltb i (total + n) then data_at s (cur + (i - total)) else dst i))
      → WasRead sb (cur + n) end (total + n) w dst₁ dst' t s'
      → WasRead sb cur end total (n + w) dst dst' s s'
  WasRead-next cur total n w dst dst₁ dst' s t s' kept same first rest = record {
    in_order = rest.in_order;
    at_most = omega (arith, rest.at_most);
    all_or_hole = elim rest.all_or_hole [
      | inl f ↦ inl (omega (arith, f))
      | inr f ↦
          let g : cur + n + w ≡ cur + (n + w) = omega arith in
          let inside : (cur + (n + w)) / 4096 < 1050634 = omega (arith, rest.at_most) in
          inr (
            f.0,
            was_free (leaf ((cur + (n + w)) / 4096)) (leaf-IsNode ((cur + (n + w)) / 4096) inside)
                (rw g at (f.1)),
          )
    ];
    kept = λ q i ne. rest.kept q i (λ z. ne (sym (kept q i ne) ∙ z)) ∙ kept q i ne;
    same = λ pos p. rest.same pos p ∙ same pos p;
    filled = λ i. elim (Bool-cases (leb (total + n) i && ltb i (total + n + w))) [
      | inl c ↦
          let d : (leb total i && ltb i (total + (n + w))) ≡ true = ground arith in
          let f : cur + n + (i - (total + n)) ≡ cur + (i - total) = ground arith in
          let g : cur + (i - total) < 2 ^ 32 = ground (arith, rest.at_most) in
          rw (d, sym f) ((rw c at (rest.filled i)) ∙ same (cur + n + (i - (total + n))) (rw f g))
      | inr c ↦
          let d : (leb total i && ltb i (total + (n + w))) ≡ (leb total i && ltb i (total + n)) =
            ground arith in
          rw d ((rw c at (rest.filled i)) ∙ first i)
    ];
  }
    where
      was_free : (q : Node) → IsNode q → at q t ≡ 0 → at q s ≡ 0
      was_free q i z = elim (ℕ_discrete (at q s) 0) [
        | yes y ↦ y
        | no d ↦ absurd (d (sym (kept q i d) ∙ z))
      ]

  abbrev DidRead : (cur total : ℕ) → (ℕ → ℕ) → Store → Run (Store × (ℕ → ℕ)) ℕ → Type 0
  DidRead cur total dst s r =
      (w : ℕ) × (s' : Store) × (dst' : ℕ → ℕ) × (r ≡ ok (total + w) (s', dst'))
      × WasRead sb cur end total w dst dst' s s'

  round-DidRead :
      (fuel cur total : ℕ) (dst : ℕ → ℕ) (s : Store) (r : Option ℕ × Store)
      → cur < end
      → Located sb (cur / 4096) s r
      → ((dst₁ : ℕ → ℕ) (t : Store)
          → InOrder sb t
          → DidRead
              (cur + part cur end)
              (total + part cur end)
              dst₁
              t
              (read_loop sb fuel (cur + part cur end) end (total + part cur end) dst₁ t))
      → DidRead cur total dst s (elim r.0 [
        | none ↦ ok total (r.1, dst)
        | some b ↦
            read_loop sb fuel
              (u32 (cur + part cur end))
              end
              (total + part cur end)
              (copy_out dst total (part cur end) (r.1.disk b) (cur % 4096))
              r.1
      ])
  round-DidRead fuel cur total dst s (none, s') lt (v, kept, contents, full, hole) rest =
      let z : total ≡ total + 0 = omega arith in
      (
        0,
        s',
        dst,
        ap (λ x. ok x (s', dst)) z,
        record {
          in_order = v;
          at_most = omega arith;
          all_or_hole = inr (full, let g : cur + 0 ≡ cur = omega arith in rw g hole);
          kept = kept;
          same = λ pos p.
              contents (leaf (pos / 4096)) (leaf-IsLeaf (pos / 4096) (omega arith)) (pos % 4096);
          filled =
              λ i. let c : (leb total i && ltb i (total + 0)) ≡ false = ground arith in rw c refl;
        },
      )
  round-DidRead fuel cur total dst s (some b, s') lt (v, here, ne, others, kept, contents) rest =
      subst
        (λ x. DidRead cur total dst s (
          read_loop sb fuel (u32 (cur + part cur end)) end (total + part cur end)
            (copy_out dst total (part cur end) (s'.disk x) (cur % 4096)) s'))
        here found
    where
      found : DidRead cur total dst s (
          read_loop sb fuel
            (u32 (cur + part cur end))
            end
            (total + part cur end)
            (copy_out dst total (part cur end) (s'.disk (at (leaf (cur / 4096)) s')) (cur % 4096))
            s')
      found =
          let here_ne : at (leaf (cur / 4096)) s' ≢ 0 = λ z. ne (sym here ∙ z) in
          let (w, s₂, dst', run, m) =
            rest
              (copy_out dst total (part cur end) (s'.disk (at (leaf (cur / 4096)) s')) (cur % 4096))
              s' v in
          let e : u32 (cur + part cur end) ≡ cur + part cur end = ground arith in
          let f : total + part cur end + w ≡ total + (part cur end + w) = omega arith in
          (
            part cur end + w,
            s₂,
            dst',
            rw e (run ∙ ap (λ x. ok x (s₂, dst')) f),
            WasRead-next cur total (part cur end) w dst _ dst' s s' s₂ kept
                (λ pos p.
                  contents (leaf (pos / 4096)) (leaf-IsLeaf (pos / 4096) (omega arith))
                    (pos % 4096))
                (round_filled cur total dst s s' lt here_ne contents) m,
          )

  -- On a layout whose bitmaps have a bit for each number, all within 32 bits, an index whose tree is in order
  -- and an end below 2^32, the loop of `inode_read_data`, run with a round for each byte and one more, returns: the tree stays
  -- in order, no byte of the file changes, the bytes that it counts are those of the file from
  -- `cur` on, the rest of the buffer is as it was, and it stops short of the end only at a hole of the file, where no data block is left.
  pub read_loop-WasRead :
      (fuel cur total : ℕ) (dst : ℕ → ℕ) (s : Store)
      → end - cur < fuel
      → cur ≤ end
      → InOrder sb s
      → (w : ℕ) × (s' : Store) × (dst' : ℕ → ℕ) × (read_loop sb fuel cur end total dst s
          ≡ ok (total + w) (s', dst'))
        × WasRead sb cur end total w dst dst' s s'
  unfolding read_loop
  read_loop-WasRead zero cur total dst s enough le v = absurd (omega arith)
  read_loop-WasRead (suc fuel) cur total dst s enough le v = elim (Bool-cases (ltb cur end)) [
    | inr e ↦
        let z : total ≡ total + 0 = omega arith in
        (
          0,
          s,
          dst,
          rw e (ap (λ x. ok x (s, dst)) z),
          record {
            in_order = v;
            at_most = omega arith;
            all_or_hole = inl (ground arith);
            kept = λ q i n. refl;
            same = λ pos p. refl;
            filled =
                λ i. let c : (leb total i && ltb i (total + 0)) ≡ false = ground arith in rw c refl;
          },
        )
    | inl e ↦
        let lt : cur < end = ground arith in
        rw e (
          round-DidRead fuel cur total dst s (locate_or_add_block sb (cur / 4096) s) lt
            (locate_or_add_block-Located sb l (cur / 4096) s (omega arith) v)
            (λ dst₁ t w.
              read_loop-WasRead fuel (cur + part cur end) (total + part cur end) dst₁ t
                (ground arith) (ground arith) w))
  ]
