-- ===== src/Fs/Data/Write.antt =====
-- `inode_write_data`: the bytes written are there, and all other bytes are as they were.
use biglab.Prelude.{
  ℕ, zero, suc, ◌+◌, ◌-◌, ◌/◌, ◌%◌, ◌^◌, ◌≤◌, ◌<◌, ◌≡◌, refl, ◌≢◌, ◌⊎◌, true, false, ◌&&◌, arith,
  ltb, leb, if◌then◌else◌, sym, ◌∙◌, ap, subst, inl, inr, Bool-cases, some, none, Option, u32,
}
use biglab.Prelude.Run.{Run, ok}
use biglab.Fs.Disk.{SuperBlock}
use biglab.Fs.Bitmap.Numbers.{IsLayout}
use biglab.Fs.Index.{Store, locate_or_add_block}
use biglab.Fs.Index.Nodes.{Node, IsNode, at, InOrder}
use biglab.Fs.Index.Ensure.{IsFull}
use biglab.Fs.Index.Leaves.{leaf, leaf-IsLeaf, leaf-IsNode}
use biglab.Fs.Index.Locate.{Located, locate_or_add_block-Located}
use biglab.Fs.Data.{part, write_loop}
use biglab.Fs.Data.Overwrite.{at-written}
use biglab.Fs.Data.Round.{data_at, copied, block_lt, round_data, copied-InOrder}

-- The bytes from `cur` on, `w` of them, are those of `src` from `total` on; the others have not changed.
-- Their positions have blocks now. Fewer than asked for are written only where no data block is left.
pub record Written (sb : SuperBlock) (cur end total w : ℕ) (src : ℕ → ℕ) (s s' : Store)
    : Type 0 where
  pub in_order : InOrder sb s'
  pub at_most : cur + w ≤ end
  pub all_or_full : (cur + w ≡ end) ⊎ IsFull sb s'.disk
  pub kept : (q : Node) → IsNode q → at q s ≢ 0 → at q s' ≡ at q s
  pub present : (pos : ℕ) → cur ≤ pos → pos < cur + w → at (leaf (pos / 4096)) s' ≢ 0
  pub bytes :
      (pos : ℕ)
      → pos < 2 ^ 32
      → data_at s' pos
        ≡ (if leb cur pos && ltb pos (cur + w) then src (total + (pos - cur)) else data_at s pos)

module _ (sb : SuperBlock) (l : IsLayout sb) (end : ℕ) (src : ℕ → ℕ) (small : end < 2 ^ 32)
    (is_bytes : (i : ℕ) → src i < 256) where
  -- A round, and then what the rest of the loop writes.
  Written-next :
      (cur total n w : ℕ) (s t s' : Store)
      → n ≡ part cur end
      → cur < end
      → ((q : Node) → IsNode q → at q s ≢ 0 → at q t ≡ at q s)
      → at (leaf (cur / 4096)) t ≢ 0
      → ((pos : ℕ)
          → pos < 2 ^ 32
          → data_at t pos ≡ (
              if leb cur pos && ltb pos (cur + n)
              then src (total + (pos - cur))
              else data_at s pos))
      → Written sb (cur + n) end (total + n) w src t s'
      → Written sb cur end total (n + w) src s s'
  Written-next cur total n w s t s' e lt kept here first rest = record {
    in_order = rest.in_order;
    at_most = omega (arith, rest.at_most);
    all_or_full = elim rest.all_or_full [ inl f ↦ inl (omega (arith, f)) | inr f ↦ inr f ];
    kept = λ q i ne. rest.kept q i (λ z. ne (sym (kept q i ne) ∙ z)) ∙ kept q i ne;
    present = λ pos lo hi. elim (Bool-cases (leb (cur + n) pos)) [
      | inl c ↦ rest.present pos (ground (arith, c)) (omega (arith, hi))
      | inr c ↦
          let same : pos / 4096 ≡ cur / 4096 = ground (arith, c, e) in
          rw same (λ z. here (
            sym (
              rest.kept (leaf (cur / 4096))
                (leaf-IsNode (cur / 4096) (block_lt sb l end src small is_bytes cur (omega arith)))
                here)
            ∙ z))
    ];
    bytes = λ pos p. elim (Bool-cases (leb (cur + n) pos && ltb pos (cur + n + w))) [
      | inl c ↦
          let d : (leb cur pos && ltb pos (cur + (n + w))) ≡ true = ground arith in
          let f : total + n + (pos - (cur + n)) ≡ total + (pos - cur) = ground arith in
          rw (d, sym f) ((rw c at (rest.bytes pos p)))
      | inr c ↦
          let d : (leb cur pos && ltb pos (cur + (n + w))) ≡ (leb cur pos && ltb pos (cur + n)) =
            ground arith in
          rw d ((rw c at (rest.bytes pos p)) ∙ first pos p)
    ];
  }

  abbrev Wrote : (cur total : ℕ) → Store → Run Store ℕ → Type 0
  Wrote cur total s r =
      (w : ℕ) × (s' : Store) × (r ≡ ok (total + w) s') × Written sb cur end total w src s s'

  round-Written :
      (fuel cur total : ℕ) (s : Store) (r : Option ℕ × Store)
      → cur < end
      → Located sb (cur / 4096) s r
      → ((t : Store)
          → InOrder sb t
          → Wrote
              (cur + part cur end)
              (total + part cur end)
              t
              (write_loop sb fuel (cur + part cur end) end (total + part cur end) src t))
      → Wrote cur total s (elim r.0 [
        | none ↦ ok total r.1
        | some b ↦
            write_loop sb fuel
              (u32 (cur + part cur end))
              end
              (total + part cur end)
              src
              (copied sb l end src small is_bytes cur total b r.1)
      ])
  round-Written fuel cur total s (none, s') lt (v, kept, contents, full, hole) rest =
      let z : total ≡ total + 0 = omega arith in
      (
        0,
        s',
        ap (λ x. ok x s') z,
        record {
          in_order = v;
          at_most = omega arith;
          all_or_full = inr full;
          kept = kept;
          present = λ pos lo hi. absurd (omega (arith, lo, hi));
          bytes = λ pos p.
              let c : (leb cur pos && ltb pos (cur + 0)) ≡ false = ground arith in
              rw c (
                contents (leaf (pos / 4096))
                  (leaf-IsLeaf (pos / 4096) (block_lt sb l end src small is_bytes pos p))
                  (pos % 4096));
        },
      )
  round-Written fuel cur total s (some b, s') lt (v, here, ne, others, kept, contents) rest =
      subst
        (λ x. Wrote cur total s (
          write_loop sb fuel (u32 (cur + part cur end)) end (total + part cur end) src
            (copied sb l end src small is_bytes cur total x s')))
        here found
    where
      found : Wrote cur total s (
          write_loop sb fuel
            (u32 (cur + part cur end))
            end
            (total + part cur end)
            src
            (copied sb l end src small is_bytes cur total (at (leaf (cur / 4096)) s') s'))
      found =
          let here_ne : at (leaf (cur / 4096)) s' ≢ 0 = λ z. ne (sym here ∙ z) in
          let (w, s₂, run, m) =
            rest (copied sb l end src small is_bytes cur total (at (leaf (cur / 4096)) s') s')
              (copied-InOrder sb l end src small is_bytes cur total s' lt v here_ne) in
          let e : u32 (cur + part cur end) ≡ cur + part cur end = ground arith in
          let f : total + part cur end + w ≡ total + (part cur end + w) = omega arith in
          (
            part cur end + w,
            s₂,
            rw e (run ∙ ap (λ x. ok x s₂) f),
            Written-next cur total (part cur end) w s _ s₂ refl lt
                (λ q i n.
                  at-written sb l s' v (leaf (cur / 4096))
                    (leaf-IsLeaf (cur / 4096)
                      (block_lt sb l end src small is_bytes cur (omega arith)))
                    here_ne _ q i
                  ∙ kept q i n)
                (λ z. here_ne (
                  sym (
                    at-written sb l s' v (leaf (cur / 4096))
                      (leaf-IsLeaf (cur / 4096)
                        (block_lt sb l end src small is_bytes cur (omega arith)))
                      here_ne _ (leaf (cur / 4096))
                      (leaf-IsNode (cur / 4096)
                        (block_lt sb l end src small is_bytes cur (omega arith))))
                  ∙ z))
                (round_data sb l end src small is_bytes cur total s s' lt v here_ne contents) m,
          )

  -- On a layout whose bitmaps have a bit for each number, all within 32 bits, an index whose tree is in order, a source
  -- of bytes and an end below 2^32, the loop of `inode_write_data`, run with a round for each byte and one more, returns: the tree stays in order, the bytes
  -- that it counts are in the file at their positions, every other byte of the file is as it was,
  -- and it stops short of the end only where no data block is left.
  pub write_loop-Written :
      (fuel cur total : ℕ) (s : Store)
      → end - cur < fuel
      → cur ≤ end
      → InOrder sb s
      → (w : ℕ) × (s' : Store) × (write_loop sb fuel cur end total src s ≡ ok (total + w) s')
        × Written sb cur end total w src s s'
  unfolding write_loop
  write_loop-Written zero cur total s enough le v = absurd (omega arith)
  write_loop-Written (suc fuel) cur total s enough le v = elim (Bool-cases (ltb cur end)) [
    | inr e ↦
        let z : total ≡ total + 0 = omega arith in
        (
          0,
          s,
          rw e (ap (λ x. ok x s) z),
          record {
            in_order = v;
            at_most = omega arith;
            all_or_full = inl (ground arith);
            kept = λ q i n. refl;
            present = λ pos lo hi. absurd (omega (arith, lo, hi));
            bytes = λ pos p.
                let c : (leb cur pos && ltb pos (cur + 0)) ≡ false = ground arith in rw c refl;
          },
        )
    | inl e ↦
        let lt : cur < end = ground arith in
        rw e (
          round-Written fuel cur total s (locate_or_add_block sb (cur / 4096) s) lt
            (locate_or_add_block-Located sb l (cur / 4096) s
              (block_lt sb l end src small is_bytes cur (omega arith)) v)
            (λ t w.
              write_loop-Written fuel (cur + part cur end) (total + part cur end) t (ground arith)
                (ground arith) w))
  ]
