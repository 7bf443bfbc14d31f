-- ===== src/Memory/Heap/Shrink.antt =====
-- `uvm_heap_grow`, and `uvm_heap_ungrow` after it.
use biglab.Prelude.{
  ℕ, ◌+◌, ◌-◌, ◌*◌, ◌/◌, ◌%◌, ◌≤◌, ◌≡◌, refl, arith, page_size, length, u64, none, ltb, false,
  Bool-cases, inl, inr, ◌==◌, if◌then◌else◌, subst, sym, sub64,
}
use biglab.Prelude.Run.{Run, ok, ◌>>=◌, and_then, pure}
use biglab.Memory.Space.{Space, mmap_begin, unmap_pages}
use biglab.Memory.Heap.{grow_loop, heap_perm, page_up, user_base, uvm_heap_grow, uvm_heap_ungrow}
use biglab.Memory.Heap.Grow.{grow_loop-Filled}
use biglab.Memory.Regions.Filled.{Filled, upward}
use biglab.Memory.Regions.Munmap.{within, unmap_pages-Unmapped}

-- The pages that a heap of `top` bytes lacks to have `len` more.
abbrev pub lacking : ℕ → ℕ → ℕ
lacking top len = page_up (top + len) / page_size - page_up top / page_size

-- A command that returns, and then a number.
then_pure :
    (m : Run Space (Unit {0})) (x y : ℕ) (s' : Space)
    → m ≡ ok tt s'
    → x ≡ y
    → and_then m (λ _. pure x) ≡ ok y s'
then_pure m x y s' run e = rw (run, e) refl

module _ (top len : ℕ) (s : Space) (room : top + len ≤ mmap_begin)
    (frames : lacking top len ≤ length s.frames) (tables : 2 * lacking top len ≤ s.tables) where
  -- Below the mmap area, with a free user page and two free kernel pages for each page, `uvm_heap_grow` returns the new top; each page between the
  -- old and the new end, both rounded up to pages, is mapped with the permissions of the heap, the first to the first of
  -- the free user pages and so on, and no other page changes.
  pub uvm_heap_grow-Filled :
      (s' : Space) × (uvm_heap_grow top len s ≡ ok (top + len) s')
      × Filled upward (lacking top len) (page_up top) heap_perm s s'
  unfolding uvm_heap_grow
  uvm_heap_grow-Filled =
      let e : u64 (top + len) ≡ top + len = omega arith in
      let (s', run, f) =
        grow_loop-Filled (lacking top len) (len / page_size + 2) (page_up top) (top + len) s
          s.frames refl (omega arith) (omega arith) (omega arith) room (omega arith) frames
          tables in
      (
        s',
        then_pure (grow_loop (len / page_size + 2) (page_up top) (u64 (top + len)) s)
            (u64 (top + len)) (top + len) s'
            (subst (λ t. grow_loop (len / page_size + 2) (page_up top) t s ≡ ok tt s') (sym e) run)
            e,
        f,
      )

  -- Below the mmap area, with enough free pages of the user and of the kernel and a heap that ends behind the first user page,
  -- growing the heap and shrinking it again by as much returns the old top, and leaves the pages
  -- that were added unmapped and every other page as it was.
  pub uvm_heap_ungrow-grow :
      user_base + page_size ≤ top
      → (s' : Space) × ((uvm_heap_grow top len >>= λ new_top. uvm_heap_ungrow new_top len) s
          ≡ ok top s')
        × ((a : ℕ)
            → a % page_size ≡ 0
            → s'.pt a ≡ (if within (page_up top) (page_up (top + len)) a then none else s.pt a))
  unfolding uvm_heap_ungrow
  uvm_heap_ungrow-grow low =
      let (s₁, run, f) = uvm_heap_grow-Filled in
      let (s₂, run₂, pt) = shrunk s₁ f in
      (s₂, subst (λ r. and_then r (λ t. uvm_heap_ungrow t len) ≡ ok top s₂) (sym run) run₂, pt)
    where
      back : (if ltb len (top + len) then top + len - len else 0) ≡ top
      back = ground arith

      up : ltb (page_up top) (user_base + page_size) ≡ false
      up = ground arith

      shrunk :
          (s₁ : Space)
          → Filled upward (lacking top len) (page_up top) heap_perm s s₁
          → (s₂ : Space) × (uvm_heap_ungrow (top + len) len s₁ ≡ ok top s₂)
            × ((a : ℕ)
                → a % page_size ≡ 0
                → s₂.pt a ≡ (if within (page_up top) (page_up (top + len)) a then none else s.pt a))
      shrunk s₁ f = elim (Bool-cases (len == 0)) [
        | inl e ↦
            let q : top + len ≡ top = ground arith in
            (s₁, rw e (rw q refl), λ a al. ground (arith, f.others a))
        | inr e ↦ elim (Bool-cases (ltb (page_up top) (page_up (top + len)))) [
          | inl g ↦
              let (s₂, run₂, u) =
                unmap_pages-Unmapped (page_up top) (page_up (top + len)) s₁ (omega arith)
                  (omega arith) (ground arith) (omega arith) in
              (
                s₂,
                rw (e, back, up)
                    (rw g (
                      then_pure
                        (unmap_pages (page_up top) (sub64 (page_up (top + len)) (page_up top)) s₁)
                        top top s₂ run₂ refl)),
                λ a al. ground (arith, u.pt a al, f.others a),
              )
          | inr g ↦ (s₁, rw (e, back, up) (rw g refl), λ a al. ground (arith, f.others a))
        ]
      ]
