-- ===== src/Memory/Heap/Grow.antt =====
-- The loop of `uvm_heap_grow`.
use biglab.Prelude.{
  ℕ, zero, suc, ◌+◌, ◌*◌, ◌%◌, ◌≤◌, ◌<◌, ◌≡◌, refl, List, [], ◌∷◌, arith, page_size, length, u64,
  ltb, true, ap, ◌∙◌,
}
use biglab.Prelude.Run.{ok, and_then}
use biglab.Memory.Space.{Space, mmap_begin, take_from, map_page-mapped_at}
use biglab.Memory.Heap.{grow_loop, heap_perm}
use biglab.Memory.Regions.Filled.{Filled, upward, one_more, Filled-none, Filled-step}

pub grow_loop-Filled :
    (n fuel a top : ℕ) (s : Space) (xs : List ℕ)
    → s.frames ≡ xs
    → a % page_size ≡ 0
    → top ≤ a + n * page_size
    → a + n * page_size < top + page_size
    → top ≤ mmap_begin
    → n < fuel
    → n ≤ length xs
    → 2 * n ≤ s.tables
    → (s' : Space) × (grow_loop fuel a top s ≡ ok tt s') × Filled upward n a heap_perm s s'
unfolding grow_loop take_from
grow_loop-Filled n zero a top s xs e al le near small enough few room = absurd (omega arith)
grow_loop-Filled zero (suc fuel) a top s xs e al le near small enough few room =
    (s, ground (arith), Filled-none upward a heap_perm s)
grow_loop-Filled (suc n) (suc fuel) a top s [] e al le near small enough few room =
    absurd (omega arith)
grow_loop-Filled (suc n) (suc fuel) a top s (x ∷ xs) e al le near small enough few room =
    let t = one_more a heap_perm x xs s in
    let (s', run, f) =
      grow_loop-Filled n fuel (a + page_size) top t xs refl (omega arith) (omega arith)
        (omega arith) small (omega arith) (omega arith) (ground (arith, room)) in
    let next : u64 (a + page_size) ≡ a + page_size = omega (arith, le, near, small) in
    let more : ltb a top ≡ true = ground (arith, near) in
    let page =
      map_page-mapped_at a x heap_perm (record s { frames = xs }) al (omega (arith, near, small))
        (omega (arith, room)) in
    let rest = ap (λ r. and_then r (λ _. grow_loop fuel (a + page_size) top)) page ∙ run in
    (s', rw (more, e, next) rest, Filled-step n a heap_perm x xs s s' e f)
