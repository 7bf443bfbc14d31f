-- ===== src/Memory/Tables/Tests.antt =====
-- A small memory with an empty page table, and the theorems on it.
use biglab.Prelude.{
  ℕ, ◌+◌, ◌*◌, ◌<◌, ◌≡◌, refl, false, none, List, [], ◌∷◌, arith, ◌==◌, if◌then◌else◌,
}
use biglab.Memory.Pmem.{Pmem}
use biglab.Memory.Tables.Fresh.{empty-IsTree, lookup-empty}
use biglab.Memory.Pmem.Pages.{Inv}
use biglab.Memory.Tables.{vm_mappages, vm_unmappages}
use biglab.Memory.Tables.Ensure.{Ensured, vm_getpte-Ensured}
use biglab.Memory.Tables.Views.{Views, Ends}
use biglab.Memory.Tables.Mappages.{with_range, vm_mappages-Ends}
use biglab.Memory.Tables.Unmappages.{without_range, vm_unmappages-Ends}

-- The kernel's pages are 1 to 4, the table's page first, and 2 to 4 free; the user's page is 5.
abbrev small_mem : Pmem
small_mem = record {
  mem = λ a. if a == 8192 then 12288 else if a == 12288 then 16384 else 0;
  kernel_pool = record { begin = 4096; end = 20480; allocable = 3; head = 8192 };
  user_pool = record { begin = 20480; end = 24576; allocable = 1; head = 20480 };
}

abbrev free_pages : List ℕ
free_pages = 8192 ∷ 12288 ∷ 16384 ∷ []

small_mem-Inv : Inv small_mem free_pages (20480 ∷ [])
small_mem-Inv = record {
  kernel = record {
    chain = (refl, (refl, (refl, refl)));
    distinct = (refl, (refl, (refl, tt)));
    pages = λ a m. ground arith;
    counted = refl;
    aligned = refl;
    positive = omega arith;
    small = omega arith;
  };
  user = record {
    chain = (refl, refl);
    distinct = (refl, tt);
    pages = λ a m. ground arith;
    counted = refl;
    aligned = refl;
    positive = omega arith;
    small = omega arith;
  };
  apart = omega arith;
}

no_entry : (k : ℕ) → k < 512 → small_mem.mem (4096 + 8 * k) ≡ 0
no_entry k h = ground arith

small_mem-Views : Views small_mem 4096 free_pages (20480 ∷ []) (λ va. none)
small_mem-Views = record {
  inv = small_mem-Inv;
  tree =
      empty-IsTree small_mem.mem 4096 4096 20480 free_pages no_entry
        (refl, omega arith, omega arith) (omega arith) (omega arith) refl;
  mapped = λ va h. lookup-empty small_mem.mem 4096 4096 20480 free_pages no_entry va;
}

vm_mappages-Ends_example :
    Ends
      (vm_mappages 0 4096 12288 20480 4096 6 small_mem)
      4096
      free_pages
      (20480 ∷ [])
      (with_range 12288 1 20480 6 (λ va. none))
      2
vm_mappages-Ends_example =
    vm_mappages-Ends 0 4096 12288 20480 4096 6 small_mem free_pages (20480 ∷ []) (λ va. none)
      small_mem-Views refl refl (omega arith) (omega arith) (omega arith) (omega arith)
      (omega arith)

vm_unmappages-Ends_example :
    Ends
      (vm_unmappages 0 4096 12288 8192 false small_mem)
      4096
      free_pages
      (20480 ∷ [])
      (without_range 12288 2 (λ va. none))
      0
vm_unmappages-Ends_example =
    vm_unmappages-Ends 0 4096 (20480 ∷ []) 12288 8192 small_mem free_pages (λ va. none)
      small_mem-Views refl (omega arith) (omega arith)

vm_getpte-Ensured_example : Ensured 0 small_mem 4096 free_pages (20480 ∷ []) 12288
vm_getpte-Ensured_example =
    vm_getpte-Ensured 0 small_mem 4096 12288 free_pages (20480 ∷ []) small_mem-Inv
      small_mem-Views.tree (omega arith) (omega arith)
