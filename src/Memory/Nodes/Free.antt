-- ===== src/Memory/Nodes/Free.antt =====
-- The free nodes as a list: allocation takes the first, and what is given back becomes the first.
use biglab.Prelude.{
  ℕ, zero, suc, ◌+◌, ◌-◌, ◌<◌, ◌≡◌, ◌≢◌, refl, sym, ap, ◌∙◌, true, false, Option, none, some, List,
  [], ◌∷◌, arith, has, Distinct, length, ◌==◌, ltb, update, neb_of_ne, eqb_refl,
}
use biglab.Prelude.Run.{ok, panic, ◌>>=◌}
use biglab.Memory.Nodes.{NodePool, n_mmap, mmap_init, mmap_region_alloc, mmap_region_free}

abbrev Linked : (ℕ → Option ℕ) → Option ℕ → List ℕ → Type 0
Linked link o [] = o ≡ none
Linked link o (x ∷ xs) = (o ≡ some x) × Linked link (link x) xs

-- The free nodes are `xs`, in this order.
pub record IsFree (s : NodePool) (xs : List ℕ) : Type 0 where
  pub linked : Linked s.link s.first xs
  pub distinct : Distinct xs

Linked-update :
    (link : ℕ → Option ℕ) (i : ℕ) (v o : Option ℕ) (xs : List ℕ)
    → has i xs ≡ false
    → Linked link o xs
    → Linked (update link i v) o xs
Linked-update link i v o [] out l = l
Linked-update link i v o (x ∷ xs) out l =
    let other : (i == x) ≡ false = ground (arith, out) in
    (l.0, rw other (Linked-update link i v (link x) xs (ground (arith, out)) l.1))

-- What `mmap_region_alloc` has done when it gives out the node `x`.
pub record Given (s s' : NodePool) (x : ℕ) (xs : List ℕ) : Type 0 where
  pub free : IsFree s' xs
  pub empty : s'.mmap x ≡ record { begin = 0; npages = 0; next = none }
  pub others : (i : ℕ) → i ≢ x → s'.mmap i ≡ s.mmap i

pub mmap_region_alloc-Given :
    (s : NodePool) (x : ℕ) (xs : List ℕ)
    → IsFree s (x ∷ xs)
    → (s' : NodePool) × (mmap_region_alloc s ≡ ok x s') × Given s s' x xs
unfolding mmap_region_alloc
mmap_region_alloc-Given s x xs v = (
  record s {
    first = s.link x;
    mmap = update s.mmap x (record { begin = 0; npages = 0; next = none });
  },
  rw (mmap_region_alloc, v.linked.0) refl,
  record {
    free = record { linked = v.linked.1; distinct = v.distinct.1 };
    empty = rw (eqb_refl x) refl;
    others = λ i ne. rw (neb_of_ne x i (λ e. ne (sym e))) refl;
  },
)

pub mmap_region_alloc-panic : (s : NodePool) → IsFree s [] → mmap_region_alloc s ≡ panic
unfolding mmap_region_alloc
mmap_region_alloc-panic s v = rw (mmap_region_alloc, v.linked) refl

pub mmap_region_free-IsFree :
    (s : NodePool) (i : ℕ) (xs : List ℕ)
    → IsFree s xs
    → has i xs ≡ false
    → (s' : NodePool) × (mmap_region_free (some i) s ≡ ok tt s')
      × IsFree s' (i ∷ xs)
      × (s'.mmap ≡ s.mmap)
unfolding mmap_region_free
mmap_region_free-IsFree s i xs v out = (
  record s { link = update s.link i s.first; first = some i },
  refl,
  record {
    linked = (refl, rw (eqb_refl i) (Linked-update s.link i s.first s.first xs out v.linked));
    distinct = (out, v.distinct);
  },
  refl,
)

-- The numbers from `i` on.
abbrev pub from : ℕ → ℕ → List ℕ
from zero i = []
from (suc n) i = i ∷ from n (i + 1)

has-from : (n i j : ℕ) → j < i → has j (from n i) ≡ false
has-from zero i j h = refl
has-from (suc n) i j h = ground (arith, has-from n (i + 1) j)

length-from : (n i : ℕ) → length (from n i) ≡ n
length-from zero i = refl
length-from (suc n) i = ap suc (length-from n (i + 1))

from-Distinct : (n i : ℕ) → Distinct (from n i)
from-Distinct zero i = tt
from-Distinct (suc n) i = (has-from n (i + 1) i (omega arith), from-Distinct n (i + 1))

init_linked :
    (n i : ℕ) (s : NodePool)
    → i + suc n ≡ n_mmap
    → Linked (mmap_init s).link (some i) (from (suc n) i)
unfolding mmap_init
init_linked zero i s e =
    let t₁ : ltb i (n_mmap - 1) ≡ false = ground (arith, e) in
    let t₂ : ltb i n_mmap ≡ true = ground (arith, e) in (refl, rw (t₁, t₂) refl)
init_linked (suc n) i s e =
    let t₁ : ltb i (n_mmap - 1) ≡ true = ground (arith, e) in
    (refl, rw t₁ (init_linked n (i + 1) s (omega (arith, e))))

-- Whatever the pool holds before, after `mmap_init` all N_MMAP nodes are free, from the first to the last.
pub mmap_init-IsFree :
    (s : NodePool) → IsFree (mmap_init s) (from n_mmap 0) × (length (from n_mmap 0) ≡ n_mmap)
unfolding mmap_init
mmap_init-IsFree s = (
  record { linked = init_linked 255 0 s refl; distinct = from-Distinct n_mmap 0 },
  length-from n_mmap 0,
)

-- With `xs` for the free nodes, a node that is not free and is given back is the next to be given out, empty; the free nodes are then those of before,
-- and the regions of all other nodes stay as they are.
pub mmap_region_alloc-free :
    (s : NodePool) (i : ℕ) (xs : List ℕ)
    → IsFree s xs
    → has i xs ≡ false
    → (s' : NodePool) × ((mmap_region_free (some i) >>= λ _. mmap_region_alloc) s ≡ ok i s')
      × Given s s' i xs
mmap_region_alloc-free s i xs v out =
    let (s₁, e₁, v₁, same) = mmap_region_free-IsFree s i xs v out in
    let (s₂, e₂, g) = mmap_region_alloc-Given s₁ i xs v₁ in
    (
      s₂,
      rw e₁ e₂,
      record {
        free = g.free;
        empty = g.empty;
        others = λ j ne. g.others j ne ∙ ap (λ m. m j) same;
      },
    )
