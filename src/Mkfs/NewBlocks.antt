-- ===== src/Mkfs/NewBlocks.antt =====
-- The first loop of `inode_append`.
use biglab.Prelude.{
  ℕ, zero, suc, ◌+◌, ◌-◌, ◌/◌, ◌≤◌, ◌<◌, ◌≡◌, refl, ap, ◌∙◌, inl, inr, arith, ◌==◌, update,
  Bool-cases, neb_of_ne, eqb_refl, eqb→eq,
}
use biglab.Mkfs.{sb, Image, mark, block_alloc, alloc_loop}
use biglab.Mkfs.Blocks.{Exact, block_alloc-Exact}

-- The slots from `i` up to `i + n` have the next `n` blocks, and the data of the image is as before.
pub record NewBlocks (n i : ℕ) (index index' : ℕ → ℕ) (s s' : Image) : Type 0 where
  pub old : (j : ℕ) → j < i → index' j ≡ index j
  pub new : (k : ℕ) → k < n → index' (i + k) ≡ sb.data_firstblock + s.global_block_num + k
  pub counted : s'.global_block_num ≡ s.global_block_num + n
  pub same_inodes : s'.global_inode_num ≡ s.global_inode_num
  pub same_data : (b : ℕ) → sb.data_firstblock ≤ b → s'.disk b ≡ s.disk b
  pub same_buf : s'.data_buf ≡ s.data_buf
  pub exact : Exact s'

pub alloc_loop-NewBlocks :
    (n i : ℕ) (index : ℕ → ℕ) (s : Image)
    → Exact s
    → s.global_block_num + n ≤ sb.data_blocks
    → let r = alloc_loop n i index s in NewBlocks n i index r.0 s r.1
unfolding alloc_loop block_alloc mark
alloc_loop-NewBlocks zero i index s v room = record {
  old = λ j h. refl;
  new = λ k h. absurd (omega (arith, h));
  counted = omega arith;
  same_inodes = refl;
  same_data = λ b h. refl;
  same_buf = refl;
  exact = v;
}
alloc_loop-NewBlocks (suc n) i index s v room =
    let s₁ = (block_alloc s).1 in
    let d =
      alloc_loop-NewBlocks n (i + 1) (update index i (block_alloc s).0) s₁
        (block_alloc-Exact s v (omega (arith, room))) (omega (arith, room)) in
    let index' = (alloc_loop n (i + 1) (update index i (block_alloc s).0) s₁).0 in
    record {
      old =
          λ j h. d.old j (omega (arith, h)) ∙ (rw (neb_of_ne i j (λ e. omega (arith, e, h))) refl);
      new = λ k h. elim (Bool-cases (k == 0)) [
        | inl e ↦
            let z = eqb→eq k 0 e in
            let here : i + k ≡ i = omega (arith, z) in
            let number : sb.data_firstblock + s.global_block_num
                ≡ sb.data_firstblock + s.global_block_num + k =
              omega (arith, z) in
            ap (λ j. index' j) here ∙ d.old i (omega arith) ∙ (rw (eqb_refl i) number)
        | inr e ↦
            let here : i + k ≡ i + 1 + (k - 1) = ground (arith, e) in
            ap (λ j. index' j) here ∙ d.new (k - 1) (ground (arith, e, h)) ∙ (ground (arith, e))
      ];
      counted = d.counted ∙ (omega arith);
      same_inodes = d.same_inodes;
      same_data = λ b h.
          d.same_data b h
          ∙ (rw
              (neb_of_ne (sb.data_bitmap_firstblock + s.global_block_num / 32768) b
                (λ e. omega (arith, e, h, room)))
              refl);
      same_buf = d.same_buf;
      exact = d.exact;
    }
