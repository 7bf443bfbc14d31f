-- ===== src/Memory/Heap/Stack.antt =====
-- `uvm_ustack_grow`.
use biglab.Prelude.{
  sym, ◌∙◌, eqb_refl, drop, ℕ, zero, suc, ◌+◌, ◌-◌, ◌*◌, ◌/◌, ◌%◌, ◌≤◌, ◌<◌, ◌≡◌, refl, ap, List,
  [], ◌∷◌, arith, page_size, length, some, none, leb, ltb, inl, inr, Bool-cases, if◌then◌else◌, u32,
  u64, sub64, subst, ◌&&◌, Bool, true, false,
}
use biglab.Prelude.Run.{ok, and_then}
use biglab.Memory.Space.{Space, trapframe, mmap_end, take_from, map_page-mapped_at}
use biglab.Memory.Heap.{ustack_loop, heap_perm, uvm_ustack_grow}
use biglab.Memory.Regions.Filled.{Filled, Filled-none, one_more}

-- From the last of `n` pages down.
abbrev pub downward : ℕ → ℕ → ℕ
downward n i = n - (i + 1)

-- One page above a range that is filled.
Filled-above :
    (n va top x : ℕ) (xs : List ℕ) (s s' : Space)
    → s.frames ≡ x ∷ xs
    → top ≡ va + n * page_size
    → Filled (downward n) n va heap_perm (one_more top heap_perm x xs s) s'
    → Filled (downward (suc n)) (suc n) va heap_perm s s'
Filled-above n va top x xs s s' e t f = record {
  mapped = λ i lt. elim (Bool-cases (ltb i n)) [
    | inl c ↦
        let (pa, g, h) = f.mapped i (ground (arith, c)) in
        let place : suc n - (i + 1) ≡ suc (n - (i + 1)) = ground (arith, c) in
        (pa, rw (e, place) g, h)
    | inr c ↦
        let same : va + i * page_size ≡ top = ground (arith, c, lt, t) in
        let place : suc n - (i + 1) ≡ 0 = ground (arith, c) in
        (
          x,
          rw (e, place) refl,
          rw same (f.others top (inr (omega (arith, t))) ∙ rw (eqb_refl top) refl),
        )
  ];
  others = λ a o. ground (arith, t, o, f.others a);
  frames = f.frames ∙ ap (drop (suc n)) (sym e);
  tables = ground (arith, f.tables);
  nodes = f.nodes;
}

ustack_loop-Filled :
    (n i bottom : ℕ) (s : Space) (xs : List ℕ)
    → s.frames ≡ xs
    → bottom % page_size ≡ 0
    → bottom ≤ trapframe
    → (i + n) * page_size ≤ bottom
    → n ≤ length xs
    → 2 * n ≤ s.tables
    → (s' : Space) × (ustack_loop n i bottom s ≡ ok tt s')
      × Filled (downward n) n (bottom - (i + n) * page_size) heap_perm s s'
unfolding ustack_loop take_from
ustack_loop-Filled zero i bottom s xs e al small room few enough =
    (s, refl, Filled-none (downward 0) (bottom - (i + 0) * page_size) heap_perm s)
ustack_loop-Filled (suc n) i bottom s [] e al small room few enough = absurd (omega arith)
ustack_loop-Filled (suc n) i bottom s (x ∷ xs) e al small room few enough =
    let va = bottom - (i + 1) * page_size in
    let (s', run, f) =
      ustack_loop-Filled n (suc i) bottom (one_more va heap_perm x xs s) xs refl al small
        (omega arith) (omega arith) (ground (arith, enough)) in
    let base : bottom - (suc i + n) * page_size ≡ bottom - (i + suc n) * page_size = omega arith in
    let at : sub64 bottom ((i + 1) * page_size) ≡ va = omega (arith, small, room) in
    let page =
      map_page-mapped_at va x heap_perm (record s { frames = xs }) (omega (arith, al, room))
        (omega (arith, small)) (omega (arith, enough)) in
    let rest = ap (λ r. and_then r (λ _. ustack_loop n (suc i) bottom)) page ∙ run in
    (
      s',
      rw (e, at) rest,
      Filled-above n (bottom - (i + suc n) * page_size) va x xs s s' e (omega (arith, room))
          (subst (λ b. Filled (downward n) n b heap_perm (one_more va heap_perm x xs s) s') base f),
    )

-- The addresses of a stack: from MMAP_END up to the trapframe.
abbrev pub in_stack : ℕ → Bool
in_stack fault_addr = leb mmap_end fault_addr && ltb fault_addr trapframe

-- The pages that a stack of `current_pages` lacks to reach the address.
abbrev pub lacking_for : ℕ → ℕ → ℕ
lacking_for current_pages fault_addr =
    if in_stack fault_addr then (trapframe - fault_addr + 4095) / page_size - current_pages else 0

module _ (current_pages fault_addr : ℕ) (s : Space) where
  abbrev lacks : ℕ
  lacks = lacking_for current_pages fault_addr

  pub record Grown (s' : Space) : Type 0 where
    pub run :
        uvm_ustack_grow current_pages fault_addr s
        ≡ ok (if in_stack fault_addr then some (current_pages + lacks) else none) s'
    pub filled :
        Filled
          (downward lacks)
          lacks
          (trapframe - (current_pages + lacks) * page_size)
          heap_perm
          s
          s'
    pub reaches :
        in_stack fault_addr ≡ true → trapframe - (current_pages + lacks) * page_size ≤ fault_addr
    pub at_most : current_pages + lacks ≤ 4096

  abbrev bottom : ℕ
  bottom = trapframe - current_pages * page_size

  abbrev many : ℕ
  many = (trapframe - fault_addr + 4095) / page_size - current_pages

  -- The address is below the stack, and the loop has mapped the pages.
  Grown-below :
      (s' : Space)
      → current_pages ≤ 4096
      → in_stack fault_addr ≡ true
      → leb bottom fault_addr ≡ false
      → ustack_loop many 0 bottom s ≡ ok tt s'
      → Filled (downward many) many (trapframe - (current_pages + many) * page_size) heap_perm s s'
      → Grown s'
  unfolding uvm_ustack_grow
  Grown-below s' small inside below run f =
      let c : leb trapframe fault_addr ≡ false = ground (arith, inside) in
      let d : ltb fault_addr mmap_end ≡ false = ground (arith, inside) in
      let at : sub64 trapframe (u64 (current_pages * page_size)) ≡ bottom = omega (arith, small) in
      let above : mmap_end ≤ fault_addr = ground (arith, inside) in
      let under : fault_addr < bottom = ground (arith, below) in
      let needed : u32 (sub64 bottom (fault_addr - fault_addr % page_size) / page_size) ≡ many =
        omega (arith, above, under, small) in
      let total : u64 (current_pages + many) ≡ current_pages + many = omega (arith, small, above) in
      record {
        run = rw (c, d, at, below, needed, inside) (rw (run, total) refl);
        filled = rw inside f;
        reaches = λ e. rw inside (omega (arith, above, under, small));
        at_most = rw inside (omega (arith, above, small));
      }

  -- For a stack of at most 4096 pages, with a free user page and two free kernel pages for each page that it lacks: `uvm_ustack_grow` returns -1 exactly if the
  -- address is not between MMAP_END and the trapframe; otherwise it returns a number of pages with which the stack reaches the address,
  -- which is the old number if it reaches it already, and at most 4096. Each page that was lacking is mapped with the permissions of the stack, the
  -- uppermost to the first of the free user pages, the next below to the second and so on, which are free no more; and no other page changes.
  pub uvm_ustack_grow-Grown :
      current_pages ≤ 4096
      → lacks ≤ length s.frames
      → 2 * lacks ≤ s.tables
      → (s' : Space) × Grown s'
  unfolding uvm_ustack_grow
  uvm_ustack_grow-Grown small enough tables = elim (Bool-cases (in_stack fault_addr)) [
    | inr out ↦ (
      s,
      record {
        run = rw out (elim (Bool-cases (leb trapframe fault_addr)) [
          | inl c ↦ rw c refl
          | inr c ↦
              let d : ltb fault_addr mmap_end ≡ true = ground (arith, out, c) in rw (c, d) refl
        ]);
        filled = rw out (Filled-none (downward 0) _ heap_perm s);
        reaches = λ e. ground (arith, e, out);
        at_most = rw out (omega (arith, small));
      },
    )
    | inl inside ↦
        let c : leb trapframe fault_addr ≡ false = ground (arith, inside) in
        let d : ltb fault_addr mmap_end ≡ false = ground (arith, inside) in
        let at : sub64 trapframe (u64 (current_pages * page_size)) ≡ bottom =
          omega (arith, small) in
        let lacking : lacks ≡ many = rw inside refl in
        elim (Bool-cases (leb bottom fault_addr)) [
          | inl there ↦
              let z : many ≡ 0 = ground (arith, inside, there, small) in
              let plain : current_pages + 0 ≡ current_pages = omega arith in
              (
                s,
                record {
                  run = rw (c, d, at, there, inside) (rw (z, plain) refl);
                  filled = rw (inside, z) (Filled-none (downward 0) _ heap_perm s);
                  reaches = λ e. rw (inside, z) (ground (arith, there, small));
                  at_most = rw (inside, z) (omega (arith, small));
                },
              )
          | inr below ↦
              let above : mmap_end ≤ fault_addr = ground (arith, inside) in
              let under : fault_addr < bottom = ground (arith, below) in
              let (s', run, f) =
                ustack_loop-Filled many 0 bottom s s.frames refl (omega (arith, small))
                  (omega arith) (omega (arith, above, under, small))
                  (omega (arith, enough, lacking)) (omega (arith, tables, lacking)) in
              let base : bottom - (0 + many) * page_size
                  ≡ trapframe - (current_pages + many) * page_size =
                omega arith in
              (
                s',
                Grown-below s' small inside below run
                    (subst (λ b. Filled (downward many) many b heap_perm s s') base f),
              )
        ]
  ]
