-- ===== src/Memory/Pmem/Pages.antt =====
-- When a pool is in order: its links list distinct pages of its range, as many as it counts.
use biglab.Prelude.{
  ℕ, zero, suc, ◌+◌, ◌*◌, ◌%◌, ◌^◌, ◌≤◌, ◌<◌, ◌≡◌, true, List, [], ◌∷◌, arith, page_size, length,
  has, Distinct, erase, has-erase_ne, has-erase_self, erase-Distinct, length-erase,
}
use biglab.Memory.Pmem.{Pool, Pmem}
use biglab.Memory.Pmem.Chain.{Chain, Chain-frame}

-- The pages of the range from `lo` up to `hi`.
abbrev pub IsPage : ℕ → ℕ → ℕ → Type 0
IsPage lo hi a = (a % page_size ≡ 0) × (lo ≤ a) × (a < hi)

-- The pool `p` lists `xs`, pages of the range from `lo` up to `hi`.
pub record Lists (mem : ℕ → ℕ) (p : Pool) (lo hi : ℕ) (xs : List ℕ) : Type 0 where
  pub chain : Chain mem p.head xs
  pub distinct : Distinct xs
  pub pages : (a : ℕ) → has a xs ≡ true → IsPage lo hi a
  pub counted : p.allocable ≡ length xs
  pub aligned : lo % page_size ≡ 0
  pub positive : 0 < lo
  pub small : hi ≤ lo + page_size * 2 ^ 31

-- Both pools are in order, and the user pool lies above the kernel pool.
pub record Inv (s : Pmem) (ks us : List ℕ) : Type 0 where
  pub kernel : Lists s.mem s.kernel_pool s.kernel_pool.begin s.kernel_pool.end ks
  pub user : Lists s.mem s.user_pool s.user_pool.begin s.user_pool.end us
  pub apart : s.kernel_pool.end ≤ s.user_pool.begin

module _ {mem : ℕ → ℕ} {p : Pool} {lo hi : ℕ} {xs : List ℕ} where
  -- Words of other pages do not matter.
  pub Lists-frame :
      (mem' : ℕ → ℕ)
      → ((a : ℕ) → has a xs ≡ true → mem' a ≡ mem a)
      → Lists mem p lo hi xs
      → Lists mem' p lo hi xs
  Lists-frame mem' same l = record {
    chain = Chain-frame mem mem' p.head xs same l.chain;
    distinct = l.distinct;
    pages = l.pages;
    counted = l.counted;
    aligned = l.aligned;
    positive = l.positive;
    small = l.small;
  }

pub length-le_of_pages :
    (n lo : ℕ) (xs : List ℕ)
    → Distinct xs
    → lo % page_size ≡ 0
    → ((a : ℕ) → has a xs ≡ true → IsPage lo (lo + page_size * n) a)
    → length xs ≤ n
length-le_of_pages zero lo [] d l h = omega arith
length-le_of_pages zero lo (x ∷ xs) d l h = absurd (ground (arith, h x))
length-le_of_pages (suc n) lo xs d l h = omega (
  arith,
  length-erase top xs,
  length-le_of_pages n lo (erase top xs) (erase-Distinct top xs d) l below,
)
  where
    top : ℕ
    top = lo + page_size * n

    below : (a : ℕ) → has a (erase top xs) ≡ true → IsPage lo (lo + page_size * n) a
    below a m = ground (arith, h a, has-erase_ne a top xs, has-erase_self top xs d)
