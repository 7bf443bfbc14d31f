-- ===== src/Memory/Pmem/Tests.antt =====
-- The theorems on the physical pages at concrete memories.
use biglab.Prelude.{
  ℕ, ◌+◌, ◌*◌, ◌≡◌, refl, ◌≢◌, true, List, [], ◌∷◌, arith, page_size, ◌==◌, if◌then◌else◌,
}
use biglab.Prelude.Run.{ok}
use biglab.Memory.Pmem.{Pmem, pmem_init, pmem_alloc, pmem_free}
use biglab.Memory.Pmem.Pages.{Inv}
use biglab.Memory.Pmem.Init.{Ready, pmem_init-Ready}
use biglab.Memory.Pmem.Alloc.{Allocated, pmem_alloc-head, pmem_free-push}

-- Kernel pages 8192 and 4096 are free, in this order, and of the user pool page 16384.
abbrev links : ℕ → ℕ
links a = if a == 8192 then 4096 else 0

abbrev small_memory : Pmem
small_memory = record {
  mem = links;
  kernel_pool = record { begin = 4096; end = 16384; allocable = 2; head = 8192 };
  user_pool = record { begin = 16384; end = 20480; allocable = 1; head = 16384 };
}

small_memory-Inv : Inv small_memory (8192 ∷ 4096 ∷ []) (16384 ∷ [])
small_memory-Inv = record {
  kernel = record {
    chain = (refl, (refl, refl));
    distinct = (refl, (refl, tt));
    pages = λ a m. ground arith;
    counted = refl;
    aligned = refl;
    positive = omega arith;
    small = omega arith;
  };
  user = record {
    chain = (refl, refl);
    distinct = (refl, tt);
    pages = λ a m. ground arith;
    counted = refl;
    aligned = refl;
    positive = omega arith;
    small = omega arith;
  };
  apart = omega arith;
}

pmem_init_example :
    (s : Pmem) × (ks us : List ℕ) × (pmem_init 4096 (4096 + 1030 * page_size) (λ _. 7) ≡ ok tt s)
    × Ready 4096 (4096 + 1030 * page_size) s ks us
pmem_init_example =
    pmem_init-Ready 4096 (4096 + 1030 * page_size) (λ _. 7) (omega arith) refl refl (omega arith)
      (omega arith) (omega arith)

pmem_alloc_example :
    (s' : Pmem) × (pmem_alloc true small_memory ≡ ok 8192 s')
    × Allocated true small_memory s' 8192 (4096 ∷ []) (16384 ∷ [])
pmem_alloc_example =
    pmem_alloc-head true small_memory 8192 (4096 ∷ []) (16384 ∷ []) small_memory-Inv

pmem_free_example :
    (s' : Pmem) × (pmem_free 12288 true small_memory ≡ ok tt s')
    × Inv s' (12288 ∷ 8192 ∷ 4096 ∷ []) (16384 ∷ [])
    × ((a : ℕ) → a ≢ 12288 → s'.mem a ≡ small_memory.mem a)
pmem_free_example =
    pmem_free-push true small_memory 12288 (8192 ∷ 4096 ∷ []) (16384 ∷ []) small_memory-Inv
      (refl, omega arith, omega arith) refl
