-- ===== src/Memory/Pmem/Alloc.antt =====
-- `pmem_alloc` and `pmem_free` on pools in order.
use biglab.Prelude.{
  ℕ, ◌+◌, ◌%◌, ◌^◌, ◌≤◌, ◌<◌, ◌≡◌, refl, sym, ◌⊎◌, ◌≢◌, ◌↔◌, Bool, true, false, List, [], ◌∷◌,
  arith, page_size, has, length, update, sub32, if◌then◌else◌,
}
use biglab.Prelude.Run.{ok, panic, ◌>>=◌}
use biglab.Memory.Pmem.{
  Pool, Pmem, clear_page, pool_of, put_pool, push_page, pmem_alloc, pmem_free, pmem_stat,
}
use biglab.Memory.Pmem.Chain.{Chain-frame, Chain-update}
use biglab.Memory.Pmem.Pages.{IsPage, Lists, Inv, Lists-frame, length-le_of_pages}

module _ {mem : ℕ → ℕ} {p : Pool} {lo hi : ℕ} {xs : List ℕ} where
  Lists-clear :
      (x : ℕ)
      → x % page_size ≡ 0
      → has x xs ≡ false
      → Lists mem p lo hi xs
      → Lists (clear_page mem x) p lo hi xs
  Lists-clear x al out l = Lists-frame _ (λ a m. ground (arith, l.pages a)) l

  pub Lists-update :
      (x v : ℕ) → has x xs ≡ false → Lists mem p lo hi xs → Lists (update mem x v) p lo hi xs
  Lists-update x v out l = Lists-frame _ (λ a m. ground arith) l

  length-le_of_Lists : Lists mem p lo hi xs → length xs ≤ 2 ^ 31
  length-le_of_Lists l = omega (
    arith,
    length-le_of_pages (2 ^ 31) lo xs l.distinct l.aligned
        λ a m. ground (arith, l.pages a m, l.small),
  )

  -- A page of the range that is not listed can be put in front.
  Lists-push :
      (x : ℕ)
      → IsPage lo hi x
      → has x xs ≡ false
      → Lists mem p lo hi xs
      → Lists (update mem x p.head) (push_page p x) lo hi (x ∷ xs)
  Lists-push x is out l = record {
    chain = (refl, ground (arith, Chain-update mem p.head x p.head xs out l.chain));
    distinct = (out, l.distinct);
    pages = λ a m. ground (arith, l.pages a);
    counted = omega (arith, l.counted, length-le_of_Lists l);
    aligned = l.aligned;
    positive = l.positive;
    small = l.small;
  }

module _ {mem : ℕ → ℕ} {p : Pool} {lo hi x : ℕ} {xs : List ℕ} where
  -- The first page leaves the list, and is zeroed.
  Lists-pop :
      Lists mem p lo hi (x ∷ xs)
      → Lists
          (clear_page mem p.head)
          (record p { head = mem p.head; allocable = sub32 p.allocable 1 })
          lo
          hi
          xs
  Lists-pop l = record {
    chain =
        Chain-frame mem _ (mem p.head) xs (λ a m. ground (arith, l.pages a, l.pages x))
          (rw l.chain.0 l.chain.1);
    distinct = l.distinct.1;
    pages = λ a m. l.pages a (ground arith);
    counted = omega (arith, l.counted, length-le_of_Lists l);
    aligned = l.aligned;
    positive = l.positive;
    small = l.small;
  }

-- The state in which `pmem_alloc` leaves a pool with a free page.
abbrev popped : Bool → Pmem → Pmem
popped k s =
    let p = pool_of k s in
    put_pool k (record p { head = s.mem p.head; allocable = sub32 p.allocable 1 })
      (record s { mem = clear_page s.mem p.head })

module _ (s : Pmem) (x : ℕ) (xs other : List ℕ) where
  popped-kernel : Inv s (x ∷ xs) other → Inv (popped true s) xs other
  popped-kernel v = record {
    kernel = Lists-pop v.kernel;
    user =
        Lists-clear s.kernel_pool.head (ground (arith, v.kernel.pages x))
          (ground (arith, v.kernel.pages x, v.user.pages x, v.apart)) v.user;
    apart = v.apart;
  }

  popped-user : Inv s other (x ∷ xs) → Inv (popped false s) other xs
  popped-user v = record {
    kernel =
        Lists-clear s.user_pool.head (ground (arith, v.user.pages x))
          (ground (arith, v.kernel.pages x, v.user.pages x, v.apart)) v.kernel;
    user = Lists-pop v.user;
    apart = v.apart;
  }

-- What `pmem_alloc` has done when it gives out the page `x`.
pub record Allocated (k : Bool) (s s' : Pmem) (x : ℕ) (xs other : List ℕ) : Type 0 where
  pub inv : Inv s' (if k then xs else other) (if k then other else xs)
  pub zeroed : (a : ℕ) → x ≤ a → a < x + page_size → s'.mem a ≡ 0
  pub kept : (a : ℕ) → (a < x) ⊎ (x + page_size ≤ a) → s'.mem a ≡ s.mem a
  pub same_begin : s'.kernel_pool.begin ≡ s.kernel_pool.begin
  pub same_end : s'.kernel_pool.end ≡ s.kernel_pool.end
  pub same_user : s'.user_pool.begin ≡ s.user_pool.begin
  pub same_user_end : s'.user_pool.end ≡ s.user_pool.end

-- With both pools in order, in a pool that has a free page, `pmem_alloc` gives out the first one: the page is zeroed, no other
-- memory changes, the ranges of the pools stay, the page is listed no more, and both pools stay in order.
pub pmem_alloc-head :
    (k : Bool) (s : Pmem) (x : ℕ) (xs other : List ℕ)
    → Inv s (if k then x ∷ xs else other) (if k then other else x ∷ xs)
    → (s' : Pmem) × (pmem_alloc k s ≡ ok x s') × Allocated k s s' x xs other
unfolding pmem_alloc
pmem_alloc-head true s x xs other v = (
  popped true s,
  ground (arith, v.kernel.pages x),
  record {
    inv = popped-kernel s x xs other v;
    zeroed = λ a h g. ground arith;
    kept = λ a h. ground arith;
    same_begin = refl;
    same_end = refl;
    same_user = refl;
    same_user_end = refl;
  },
)
pmem_alloc-head false s x xs other v = (
  popped false s,
  ground (arith, v.user.pages x),
  record {
    inv = popped-user s x xs other v;
    zeroed = λ a h g. ground arith;
    kept = λ a h. ground arith;
    same_begin = refl;
    same_end = refl;
    same_user = refl;
    same_user_end = refl;
  },
)

-- With both pools in order, `pmem_alloc` panics exactly when its pool has no free page left.
pub pmem_alloc-panic :
    (k : Bool) (s : Pmem) (xs other : List ℕ)
    → Inv s (if k then xs else other) (if k then other else xs)
    → (pmem_alloc k s ≡ panic) ↔ (xs ≡ [])
unfolding pmem_alloc
pmem_alloc-panic true s [] other v = (λ _. refl, λ _. ground (arith, v.kernel.chain))
pmem_alloc-panic false s [] other v = (λ _. refl, λ _. ground (arith, v.user.chain))
pmem_alloc-panic true s (x ∷ xs) other v =
    (λ h. ground (arith, v.kernel.pages x, v.kernel.positive), λ h. cc)
pmem_alloc-panic false s (x ∷ xs) other v =
    (λ h. ground (arith, v.user.pages x, v.user.positive), λ h. cc)

abbrev pushed : Bool → ℕ → Pmem → Pmem
pushed k page s =
    let p = pool_of k s in
    put_pool k (push_page p page) (record s { mem = update s.mem page p.head })

abbrev pub InPool : Bool → Pmem → ℕ → Type 0
InPool k s page = IsPage (pool_of k s).begin (pool_of k s).end page

-- With both pools in order, a page of the pool's range that is not listed goes back to the front of the free pages; only its first word
-- changes, and both pools stay in order.
pub pmem_free-push :
    (k : Bool) (s : Pmem) (page : ℕ) (xs other : List ℕ)
    → Inv s (if k then xs else other) (if k then other else xs)
    → InPool k s page
    → has page xs ≡ false
    → (s' : Pmem) × (pmem_free page k s ≡ ok tt s')
      × Inv s' (if k then page ∷ xs else other) (if k then other else page ∷ xs)
      × ((a : ℕ) → a ≢ page → s'.mem a ≡ s.mem a)
unfolding pmem_free
pmem_free-push true s page xs other v is out = (
  pushed true page s,
  ground arith,
  record {
    kernel = Lists-push page is out v.kernel;
    user = Lists-update page s.kernel_pool.head (ground (arith, v.user.pages page, v.apart)) v.user;
    apart = v.apart;
  },
  λ a ne. ground arith,
)
pmem_free-push false s page xs other v is out = (
  pushed false page s,
  ground arith,
  record {
    kernel =
        Lists-update page s.user_pool.head (ground (arith, v.kernel.pages page, v.apart)) v.kernel;
    user = Lists-push page is out v.user;
    apart = v.apart;
  },
  λ a ne. ground arith,
)

-- An address that is no page of the pool is refused: `pmem_free` panics.
pub pmem_free-panic :
    (k : Bool) (s : Pmem) (page : ℕ) → ¬ InPool k s page → pmem_free page k s ≡ panic
unfolding pmem_free
pmem_free-panic true s page h = ground (arith, h)
pmem_free-panic false s page h = ground (arith, h)

-- With both pools in order, `pmem_stat` reports how many pages each pool lists.
pub pmem_stat-length :
    (s : Pmem) (ks us : List ℕ) → Inv s ks us → pmem_stat s ≡ (length ks, length us)
unfolding pmem_stat
pmem_stat-length s ks us v = ground (arith, v.kernel.counted, v.user.counted)

-- With both pools in order, a page of the pool's range that is not listed, once given back, is the
-- next to be given out; then both pools are in order, with the lists and the counts of before.
pub pmem_alloc-free :
    (k : Bool) (s : Pmem) (page : ℕ) (xs other : List ℕ)
    → Inv s (if k then xs else other) (if k then other else xs)
    → InPool k s page
    → has page xs ≡ false
    → (s' : Pmem) × ((pmem_free page k >>= λ _. pmem_alloc k) s ≡ ok page s')
      × Inv s' (if k then xs else other) (if k then other else xs)
      × (pmem_stat s' ≡ pmem_stat s)
pmem_alloc-free k s page xs other v is out =
    let (s₁, e₁, v₁, _) = pmem_free-push k s page xs other v is out in
    let (s₂, e₂, done) = pmem_alloc-head k s₁ page xs other v₁ in
    (s₂, rw e₁ e₂, done.inv, rw (pmem_stat-length s₂ _ _ done.inv) (sym (pmem_stat-length s _ _ v)))
