-- ===== src/Memory/Pmem/Init.antt =====
-- `pmem_init` puts every page of the memory into one of the two pools.
use biglab.Prelude.{
  ℕ, zero, suc, ◌+◌, ◌-◌, ◌*◌, ◌/◌, ◌%◌, ◌^◌, ◌≤◌, ◌<◌, ◌≡◌, refl, sym, ◌∙◌, ◌⊎◌, true, List, [],
  ◌∷◌, arith, page_size, has, length, update, ltb, u64,
}
use mathlib.Core.Path.{subst₂}
use biglab.Prelude.Run.{Run, ok}
use biglab.Memory.Pmem.{
  Pool, Pmem, push_page, init_loop, init_pool, init_both, pmem_init, kern_pages,
}
use biglab.Memory.Pmem.Chain.{Chain-update}
use biglab.Memory.Pmem.Pages.{IsPage, Lists, Inv, Lists-frame, length-le_of_pages}

-- The pool lists exactly the pages of the range from `lo` up to `hi`.
pub record Filled (mem : ℕ → ℕ) (p : Pool) (lo hi : ℕ) (xs : List ℕ) : Type 0 where
  pub lists : Lists mem p lo hi xs
  pub complete : (a : ℕ) → IsPage lo hi a → has a xs ≡ true

-- Words outside the range are as they were.
abbrev pub SameOutside : ℕ → ℕ → (ℕ → ℕ) → (ℕ → ℕ) → Type 0
SameOutside lo hi mem mem' = (a : ℕ) → (a < lo) ⊎ (hi ≤ a) → mem' a ≡ mem a

-- A run that ends with the range listed, its bounds and all memory outside it unchanged.
abbrev Inited : (ℕ → ℕ) → Pool → ℕ → ℕ → Run ((ℕ → ℕ) × Pool) (Unit {0}) → Type 0
Inited mem p lo hi run =
    (mem' : ℕ → ℕ) × (p' : Pool) × (xs : List ℕ) × (run ≡ ok tt (mem', p'))
    × Filled mem' p' lo hi xs
    × (p'.begin ≡ p.begin)
    × (p'.end ≡ p.end)
    × SameOutside lo hi mem mem'

module _ (lo : ℕ) (lo_aligned : lo % page_size ≡ 0) (lo_positive : 0 < lo) where
  Filled-push :
      (mem : ℕ → ℕ) (p : Pool) (addr : ℕ) (xs : List ℕ)
      → addr % page_size ≡ 0
      → lo ≤ addr
      → addr + page_size ≤ lo + page_size * 2 ^ 31
      → length xs < 2 ^ 31
      → Filled mem p lo addr xs
      → Filled (update mem addr p.head) (push_page p addr) lo (addr + page_size) (addr ∷ xs)
  Filled-push mem p addr xs al le room few f = record {
    lists = record {
      chain = (
        refl,
        ground (
          arith,
          Chain-update mem p.head addr p.head xs (ground (arith, f.lists.pages addr)) f.lists.chain,
        ),
      );
      distinct = (ground (arith, f.lists.pages addr), f.lists.distinct);
      pages = λ a m. ground (arith, f.lists.pages a);
      counted = omega (arith, f.lists.counted);
      aligned = lo_aligned;
      positive = lo_positive;
      small = room;
    };
    complete = λ a is. ground (arith, f.complete a);
  }

  -- The loop of `init_pool` ends, and the pool then lists the whole range.
  init_loop-Filled :
      (r k addr hi : ℕ) (mem : ℕ → ℕ) (p : Pool) (xs : List ℕ)
      → r < k
      → p.end ≡ hi
      → hi ≡ addr + page_size * r
      → lo ≤ addr
      → addr % page_size ≡ 0
      → hi ≤ lo + page_size * 2 ^ 31
      → hi < 2 ^ 56
      → Filled mem p lo addr xs
      → Inited mem p lo hi (init_loop k addr (mem, p))
  unfolding init_loop
  init_loop-Filled r zero addr hi mem p xs fuel q e le al small bound f = absurd (omega arith)
  init_loop-Filled zero (suc k) addr hi mem p xs fuel q e le al small bound f = (
    mem,
    p,
    xs,
    ground arith,
    rw (let e' : hi ≡ addr = omega arith in e') f,
    refl,
    refl,
    λ a o. refl,
  )
  init_loop-Filled (suc r) (suc k) addr hi mem p xs fuel q e le al small bound f =
      let next =
        init_loop-Filled r k (addr + page_size) hi (update mem addr p.head) (push_page p addr)
          (addr ∷ xs) (omega arith) q (omega arith) (omega arith) (omega arith) small bound
          (Filled-push mem p addr xs al le (omega arith) (few) f) in
      let wraps : u64 (addr + page_size) ≡ addr + page_size = omega arith in
      let test : ltb addr p.end ≡ true = ground arith in
      (
        next.0,
        next.1,
        next.2,
        rw (test, wraps) next.3,
        next.4,
        next.5,
        next.6,
        λ a o. ground (arith, next.7 a),
      )
    where
      few : length xs < 2 ^ 31
      few = omega (
        arith,
        length-le_of_pages (2 ^ 31 - 1) lo xs f.lists.distinct lo_aligned
            λ a m. ground (arith, f.lists.pages a),
      )

  empty-Filled : (mem : ℕ → ℕ) (p : Pool) → p.head ≡ 0 → p.allocable ≡ 0 → Filled mem p lo lo []
  empty-Filled mem p h c = record {
    lists = record {
      chain = h;
      distinct = tt;
      pages = λ a m. cc;
      counted = c;
      aligned = lo_aligned;
      positive = lo_positive;
      small = omega arith;
    };
    complete = λ a is. absurd (omega arith);
  }

  init_pool-Filled :
      (hi : ℕ) (mem : ℕ → ℕ)
      → lo ≤ hi
      → hi % page_size ≡ 0
      → hi ≤ lo + page_size * 2 ^ 31
      → hi < 2 ^ 56
      → Inited mem
          (record { begin = lo; end = hi; allocable = 0; head = 0 })
          lo
          hi
          (init_pool mem lo hi)
  unfolding init_pool
  init_pool-Filled hi mem le al small bound =
      init_loop-Filled ((hi - lo) / page_size) _ lo hi mem _ [] (omega arith) refl (omega arith)
        (omega arith) lo_aligned small bound (empty-Filled mem _ refl refl)

-- Both pools are in order, and every page of the memory is in one of them.
pub record Ready (lo hi : ℕ) (s : Pmem) (ks us : List ℕ) : Type 0 where
  pub inv : Inv s ks us
  pub kernel_range : (s.kernel_pool.begin ≡ lo) × (s.kernel_pool.end ≡ lo + kern_pages * page_size)
  pub user_range : (s.user_pool.begin ≡ s.kernel_pool.end) × (s.user_pool.end ≡ hi)
  pub kernel_all : (a : ℕ) → IsPage lo (lo + kern_pages * page_size) a → has a ks ≡ true
  pub user_all : (a : ℕ) → IsPage (lo + kern_pages * page_size) hi a → has a us ≡ true

module _ (lo hi : ℕ) (mem : ℕ → ℕ) (pos : 0 < lo) (lo_aligned : lo % page_size ≡ 0)
    (hi_aligned : hi % page_size ≡ 0) (room : lo + kern_pages * page_size ≤ hi)
    (small : hi ≤ lo + page_size * 2 ^ 31) (bound : hi < 2 ^ 56) where
  abbrev middle : ℕ
  middle = lo + kern_pages * page_size

  -- The two runs of `init_pool`, the second over the memory that the first leaves.
  two_pools :
      (mem₁ mem₂ : ℕ → ℕ) (kp up : Pool) (ks us : List ℕ)
      → Filled mem₁ kp lo middle ks
      → Filled mem₂ up middle hi us
      → SameOutside middle hi mem₁ mem₂
      → (kp.begin ≡ lo) × (kp.end ≡ middle)
      → (up.begin ≡ middle) × (up.end ≡ hi)
      → Ready lo hi (record { mem = mem₂; kernel_pool = kp; user_pool = up }) ks us
  two_pools mem₁ mem₂ kp up ks us f g o (kb, ke) (ub, ue) = record {
    inv = record {
      kernel = subst₂ (λ a b. Lists mem₂ kp a b ks) (sym kb) (sym ke) kernel;
      user = subst₂ (λ a b. Lists mem₂ up a b us) (sym ub) (sym ue) g.lists;
      apart = omega arith;
    };
    kernel_range = (kb, ke);
    user_range = (ub ∙ sym ke, ue);
    kernel_all = f.complete;
    user_all = g.complete;
  }
    where
      kernel : Lists mem₂ kp lo middle ks
      kernel = Lists-frame mem₂ (λ a m. ground (arith, o a, f.lists.pages a)) f.lists

  init_both-Ready :
      (s : Pmem) × (ks us : List ℕ) × (init_both lo middle hi mem ≡ ok tt s) × Ready lo hi s ks us
  unfolding init_both
  init_both-Ready =
      let k =
        init_pool-Filled lo lo_aligned pos middle mem (omega arith) (omega arith) (omega arith)
          (omega arith) in
      let u =
        init_pool-Filled middle (omega arith) (omega arith) hi k.0 room hi_aligned (omega arith)
          bound in
      (
        _,
        k.2,
        u.2,
        ground (arith, k.3, u.3),
        two_pools k.0 u.0 k.1 u.1 k.2 u.2 k.4 u.4 u.7 (k.5, k.6) (u.5, u.6),
      )

-- On memory of whole pages from an address that is not 0, with room for the kernel's pages, of at
-- most 8 TB and below 2^56, `pmem_init` ends, both pools are in order, the kernel pool lists exactly
-- the first 1024 pages and the user pool exactly the others.
pub pmem_init-Ready :
    (lo hi : ℕ) (mem : ℕ → ℕ)
    → 0 < lo
    → lo % page_size ≡ 0
    → hi % page_size ≡ 0
    → lo + kern_pages * page_size ≤ hi
    → hi ≤ lo + page_size * 2 ^ 31
    → hi < 2 ^ 56
    → (s : Pmem) × (ks us : List ℕ) × (pmem_init lo hi mem ≡ ok tt s) × Ready lo hi s ks us
unfolding pmem_init
pmem_init-Ready lo hi mem pos al ah room small bound =
    let (s, ks, us, e, r) = init_both-Ready lo hi mem pos al ah room small bound in
    (s, ks, us, ground (arith, e), r)
