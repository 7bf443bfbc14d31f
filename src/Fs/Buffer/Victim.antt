-- ===== src/Fs/Buffer/Victim.antt =====
-- Which buffer gives way to another block.
use biglab.Prelude.{
  ℕ, ◌≡◌, refl, ap, ◌∙◌, inl, inr, ◌≢◌, true, false, none, List, [], ◌∷◌, arith, has, erase, ◌==◌,
  Bool-cases, eqb_refl, sub32,
}
use biglab.Prelude.Run.{ok, and_then, ◌>>◌}
use biglab.Fs.Buffer.{
  Buffer, Buffers, block_num_unused, set_buf, insert_node, find, buffer_get, buffer_put,
}
use biglab.Fs.Buffer.Coherence.{Coherent, cached, has-erase}
use biglab.Fs.Buffer.Change.{drop-Coherent, is_only}
use biglab.Fs.Buffer.Get.{get_first}

find-none_of :
    (bufs : ℕ → Buffer) (bn : ℕ) (xs : List ℕ)
    → ((j : ℕ) → has j xs ≡ true → (bufs j).block_num ≢ bn)
    → find bufs bn xs ≡ none
find-none_of bufs bn [] h = refl
find-none_of bufs bn (x ∷ xs) h =
    ground (arith, h x, find-none_of bufs bn xs λ j m. h j (ground arith))

-- On a coherent cache, the buffer that was given back last is the first to lose its block: when its only
-- holder puts a buffer of a block, the next get of a block that no buffer has takes this very buffer.
pub buffer_get-put :
    (s : Buffers) (i bn : ℕ)
    → Coherent s
    → has i s.active ≡ true
    → (s.bufs i).ref ≡ 1
    → (s.bufs i).block_num ≢ block_num_unused
    → bn ≢ block_num_unused
    → ((j : ℕ) → cached s j ≡ true → (s.bufs j).block_num ≢ bn)
    → (s' : Buffers) × ((buffer_put i >> buffer_get bn) s ≡ ok i s')
unfolding buffer_put
buffer_get-put s i bn v m one own valid missing =
    let buf = record (s.bufs i) { ref = 0; slk = none } in
    let t = insert_node i false true (set_buf i buf s) in
    let v' =
      drop-Coherent s v i m buf refl refl (v.fresh i (ground (arith, m)))
        (is_only s v i m buf refl) in
    let zero : sub32 (s.bufs i).ref 1 ≡ 0 = rw one refl in
    let put : buffer_put i s ≡ ok tt t = rw zero refl in
    let away : (j : ℕ) → cached t j ≡ true → (t.bufs j).block_num ≢ bn = λ j c p.
      elim (Bool-cases (i == j)) [
        | inl e ↦ missing i (ground (arith, m)) (ground arith)
        | inr e ↦
            missing j
              (ground (
                arith,
                has-erase i j s.active v.active_distinct,
                has-erase i j s.inactive v.inactive_distinct,
              ))
              (ground arith)
      ] in
    (
      _,
      ap (λ r. and_then r λ _. buffer_get bn) put
          ∙ get_first t v' bn valid i (erase i s.inactive) refl
              (find-none_of t.bufs bn t.active λ j h. away j (ground (arith, h)))
              (find-none_of t.bufs bn t.inactive λ j h. away j (ground (arith, h)))
              (s.disk (s.bufs i).block_num) (rw (eqb_refl i) (v.fresh i (ground (arith, m)) own)),
    )
