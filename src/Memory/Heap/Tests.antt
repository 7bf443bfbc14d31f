-- ===== src/Memory/Heap/Tests.antt =====
-- A stack that grows.
use biglab.Prelude.{◌+◌, ◌-◌, ◌*◌, ◌==◌, ◌≡◌, refl, Bool, true, false, arith, some, none, [], ◌∷◌}
use biglab.Prelude.Run.{ok, panic, out_of_fuel, blocked}
use biglab.Memory.Space.{Space, trapframe, take_from}
use biglab.Memory.Heap.{uvm_ustack_grow, ustack_loop}
use biglab.Memory.Heap.Stack.{Grown, uvm_ustack_grow-Grown}

abbrev space : Space
space = record {
  pt = λ a. none;
  mids = λ k. false;
  lows = λ k. false;
  tables = 4;
  frames = 40960 ∷ 45056 ∷ [];
  nodes = 0;
}

-- A stack of a page, and an address in the third.
uvm_ustack_grow_example : (s' : Space) × Grown 1 (trapframe - 3 * 4096 + 8) space s'
uvm_ustack_grow_example =
    uvm_ustack_grow-Grown 1 (trapframe - 3 * 4096 + 8) space (omega arith) (ground arith)
      (ground arith)

uvm_ustack_grow-runs :
    (elim (uvm_ustack_grow 1 (trapframe - 3 * 4096 + 8) space) as (λ r. Bool) [
      | ok (some n) s ↦ n == 3
      | ok none s ↦ false
      | panic ↦ false
      | out_of_fuel ↦ false
      | blocked ↦ false
    ])
    ≡ true
unfolding uvm_ustack_grow ustack_loop take_from
uvm_ustack_grow-runs = refl
