-- ===== src/Memory/Nodes/Tests.antt =====
-- A pool with one free node.
use biglab.Prelude.{refl, none, some, [], ◌∷◌}
use biglab.Memory.Nodes.{NodePool}
use biglab.Memory.Nodes.Free.{IsFree}

abbrev one_node : NodePool
one_node = record {
  mmap = λ i. record { begin = 4096; npages = 2; next = none };
  link = λ i. none;
  first = some 1;
}

one_node-IsFree : IsFree one_node (1 ∷ [])
one_node-IsFree = record { linked = (refl, refl); distinct = (refl, tt) }
