-- ===== src/Memory/Nodes.antt =====
-- src/kernel/mem/mmap.c: the pool of the nodes of mmap regions. A node is its position in `region_pool`;
-- the spinlock of the pool makes each operation one step.
pub mod Free
mod Tests
use biglab.Prelude.{ℕ, ◌+◌, ◌-◌, Option, none, some, ltb, if◌then◌else◌, update}
use biglab.Prelude.Run.{ok, panic, Cmd}

-- N_MMAP.
abbrev pub n_mmap : ℕ
n_mmap = 256

-- `mmap_region_t`; `none` is NULL.
pub record Region : Type 0 where
  pub begin : ℕ
  pub npages : ℕ
  pub next : Option ℕ

-- The regions of `region_pool`, the links of its nodes, and `pool_sentinel.next`.
pub record NodePool : Type 0 where
  pub mmap : ℕ → Region
  pub link : ℕ → Option ℕ
  pub first : Option ℕ

pub mmap_init : NodePool → NodePool
mmap_init s = record s {
  first = some 0;
  link = λ i. if ltb i (n_mmap - 1) then some (i + 1) else if ltb i n_mmap then none else s.link i;
}

pub mmap_region_alloc : Cmd NodePool ℕ
mmap_region_alloc s = elim s.first [
  | none ↦ panic
  | some i ↦ ok i (record s {
    first = s.link i;
    mmap = update s.mmap i (record { begin = 0; npages = 0; next = none });
  })
]

pub mmap_region_free : Option ℕ → Cmd NodePool (Unit {0})
mmap_region_free none s = ok tt s
mmap_region_free (some i) s = ok tt (record s { link = update s.link i s.first; first = some i })
