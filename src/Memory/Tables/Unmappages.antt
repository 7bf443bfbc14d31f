-- ===== src/Memory/Tables/Unmappages.antt =====
-- `vm_unmappages`: the pages of a range lose their mappings, and every other page keeps its own.
use biglab.Prelude.{
  ℕ, zero, suc, ◌+◌, ◌*◌, ◌/◌, ◌%◌, ◌≤◌, ◌<◌, ◌≡◌, refl, sym, ap, ◌∙◌, inl, inr, true, false, ◌&&◌,
  Option, none, List, [], ◌∷◌, arith, ◌==◌, ltb, leb, if◌then◌else◌, update, Bool-cases, eqb→eq,
  page_size, u64,
}
use biglab.Prelude.Run.{and_then}
use biglab.Memory.Space.{va_max}
use biglab.Memory.Pmem.{Pmem}
use biglab.Memory.Tables.{vpn, is_valid, unmap_one, unmap_loop, vm_unmappages}
use biglab.Memory.Tables.Tree.{at, low, leaf, lookup}
use biglab.Memory.Tables.Ensure.{vm_getpte-low}
use biglab.Memory.Tables.Map.{vpn-page}
use biglab.Memory.Tables.Views.{Views, with_page, write-Views, Ends}
use biglab.Memory.Tables.Mappages.{Views-by, one_more, pages_of}

-- Addresses of one page have one mapping.
lookup-page :
    (mem : ℕ → ℕ) (root va vb : ℕ)
    → va / page_size ≡ vb / page_size
    → lookup mem root va ≡ lookup mem root vb
lookup-page mem root va vb e =
    let (e₀, e₁, e₂) = vpn-page va vb e in
    ap
      (λ k.
        leaf (at mem root (k ∷ vpn va 2 ∷ []))
          (mem (at mem root (k ∷ vpn va 2 ∷ []) + 8 * vpn va 0)))
      e₁
    ∙ ap
        (λ k.
          leaf (at mem root (vpn vb 1 ∷ k ∷ []))
            (mem (at mem root (vpn vb 1 ∷ k ∷ []) + 8 * vpn va 0)))
        e₂
    ∙ ap (λ k. leaf (low mem root vb) (mem (low mem root vb + 8 * k))) e₀

-- The `n` pages from `va` on without mappings.
abbrev pub without_range : ℕ → ℕ → (ℕ → Option ℕ) → ℕ → Option ℕ
without_range va n view vb =
    let first = va / page_size in
    let page = vb / page_size in if leb first page && ltb page (first + n) then none else view vb

module _ (kern root : ℕ) (us : List ℕ) where
  -- Where a page has no mapping, nothing is to be done.
  no_mapping :
      (s : Pmem) (va : ℕ) (ks : List ℕ) (view : ℕ → Option ℕ)
      → Views s root ks us view
      → lookup s.mem root va ≡ none
      → Views s root ks us (with_page va none view)
  no_mapping s va ks view v missing = record {
    inv = v.inv;
    tree = v.tree;
    mapped = λ vb h. elim (Bool-cases (va / page_size == vb / page_size)) [
      | inl e ↦ rw e (
          sym (lookup-page s.mem root va vb (eqb→eq (va / page_size) (vb / page_size) e)) ∙ missing)
      | inr e ↦ rw e (v.mapped vb h)
    ];
  }

  unmap_one-Ends :
      (s : Pmem) (va : ℕ) (ks : List ℕ) (view : ℕ → Option ℕ)
      → Views s root ks us view
      → va < va_max
      → Ends (unmap_one kern root va false s) root ks us (with_page va none view) 0
  unmap_one-Ends s va ks view v below =
      let get = vm_getpte-low kern s root va ks us v.inv v.tree in
      let in_range : leb va_max va ≡ false = ground (arith, below) in
      elim (Bool-cases (low s.mem root va == 0)) [
        | inl z ↦ record {
          after = s;
          left = ks;
          run = rw (unmap_one, get) (rw (in_range, z) refl);
          views = no_mapping s va ks view v (rw z refl);
          used_up = omega arith;
        }
        | inr nz ↦ elim (Bool-cases (is_valid (s.mem (low s.mem root va + 8 * vpn va 0)))) [
          | inr e ↦ record {
            after = s;
            left = ks;
            run = rw (unmap_one, get) (rw (in_range, nz) (rw e refl));
            views = no_mapping s va ks view v (rw (nz, e) refl);
            used_up = omega arith;
          }
          | inl e ↦ record {
            after = record s { mem = update s.mem (low s.mem root va + 8 * vpn va 0) 0 };
            left = ks;
            run = rw (unmap_one, get) (rw (in_range, nz) (rw e refl));
            views = write-Views s root va 0 ks us view below v (λ q. ground (arith, nz));
            used_up = omega arith;
          }
        ]
      ]

  fewer_pages :
      (n va : ℕ) (view : ℕ → Option ℕ) (vb : ℕ)
      → va % page_size ≡ 0
      → without_range (va + page_size) n (with_page va none view) vb
        ≡ without_range va (suc n) view vb
  fewer_pages n va view vb al =
      let next : (va + page_size) / page_size ≡ va / page_size + 1 = omega arith in
      ap
        (λ a.
          if leb a (vb / page_size) && ltb (vb / page_size) (a + n)
          then none
          else with_page va none view vb)
        next
      ∙ one_more (va / page_size) (vb / page_size) n 0 (λ p. none) (view vb)

  no_page : (va : ℕ) (view : ℕ → Option ℕ) (vb : ℕ) → view vb ≡ without_range va 0 view vb
  no_page va view vb =
      let out : (leb (va / page_size) (vb / page_size) && ltb (vb / page_size) (va / page_size + 0))
          ≡ false =
        ground arith in
      rw out refl

  unmap_loop-Ends :
      (n fuel end : ℕ) (s : Pmem) (curr : ℕ) (ks : List ℕ) (view : ℕ → Option ℕ)
      → Views s root ks us view
      → n < fuel
      → curr % page_size ≡ 0
      → end ≤ curr + page_size * n
      → curr + page_size * n < end + page_size
      → end ≤ va_max
      → Ends (unmap_loop fuel kern root curr end false s) root ks us (without_range curr n view) 0
  unfolding unmap_loop
  unmap_loop-Ends n zero end s curr ks view v f al lo hi top = absurd (omega (arith, f))
  unmap_loop-Ends zero (suc fuel) end s curr ks view v f al lo hi top =
      let stop : ltb curr end ≡ false = ground (arith, lo) in
      record {
        after = s;
        left = ks;
        run = rw stop refl;
        views = Views-by (no_page curr view) v;
        used_up = omega arith;
      }
  unmap_loop-Ends (suc n) (suc fuel) end s curr ks view v f al lo hi top =
      let e = unmap_one-Ends s curr ks view v (omega (arith, hi, top)) in
      let go : ltb curr end ≡ true = ground (arith, hi) in
      let next : u64 (curr + page_size) ≡ curr + page_size = omega (arith, hi, top) in
      let d =
        unmap_loop-Ends n fuel end e.after (curr + page_size) e.left (with_page curr none view)
          e.views (omega (arith, f)) (omega (arith, al)) (omega (arith, lo)) (omega (arith, hi))
          top in
      let start : unmap_loop (suc fuel) kern root curr end false s
          ≡ and_then (unmap_one kern root curr false s)
              (λ _. unmap_loop fuel kern root (curr + page_size) end false) =
        rw (go, next) refl in
      record {
        after = d.after;
        left = d.left;
        run =
            start
            ∙ ap (λ r. and_then r (λ _. unmap_loop fuel kern root (curr + page_size) end false))
                e.run
            ∙ d.run;
        views = Views-by (λ vb. fewer_pages n curr view vb al) d.views;
        used_up = omega (arith, d.used_up, e.used_up);
      }

  -- For a page address, a range that is not empty and ends at VA_MAX at most, pools in order and tables that form a
  -- tree, `vm_unmappages` without `do_free` returns: the pages of the range have no mapping, every other page below VA_MAX keeps its own, the pools
  -- and the tables stay in order, and no page of the kernel is used.
  pub vm_unmappages-Ends :
      (va len : ℕ) (s : Pmem) (ks : List ℕ) (view : ℕ → Option ℕ)
      → Views s root ks us view
      → va % page_size ≡ 0
      → 0 < len
      → va + len ≤ va_max
      → Ends
          (vm_unmappages kern root va len false s)
          root
          ks
          us
          (without_range va (pages_of len) view)
          0
  vm_unmappages-Ends va len s ks view v al pos top =
      let e =
        unmap_loop-Ends (pages_of len) (len / page_size + 2) (va + len) s va ks view v (omega arith)
          al (omega arith) (omega arith) top in
      let t₁ : (va % page_size == 0) ≡ true = ground (arith, al) in
      let t₂ : (len == 0) ≡ false = ground (arith, pos) in
      let small : u64 (va + len) ≡ va + len = omega (arith, top) in
      let start : vm_unmappages kern root va len false s
          ≡ unmap_loop (len / page_size + 2) kern root va (va + len) false s =
        rw (t₁, t₂, small) refl in
      record {
        after = e.after;
        left = e.left;
        run = start ∙ e.run;
        views = e.views;
        used_up = e.used_up;
      }
