-- ===== src/Lock/Spin/Nesting.antt =====
-- Sequences of `push_off` and `pop_off`.
use biglab.Prelude.{ℕ, zero, suc, ◌≡◌, refl, Bool, false, arith, List, [], ◌∷◌, Option, none, some}
use biglab.Prelude.Run.{Run, ok, panic, Cmd, ◌>>◌, pure}
use biglab.Lock.Spin.{Cpu, push_off, pop_off}

pub data Switch : Type 0 where
  push : Switch
  pop : Switch

abbrev pub run : List Switch → Cmd Cpu (Unit {0})
run [] = pure tt
run (push ∷ ops) = λ cpu. run ops (push_off cpu)
run (pop ∷ ops) = pop_off >> run ops

-- How deep a sequence ends that begins at depth `d`; `none` where it pops too often.
abbrev pub depth : List Switch → ℕ → Option ℕ
depth [] d = some d
depth (push ∷ ops) d = depth ops (suc d)
depth (pop ∷ ops) zero = none
depth (pop ∷ ops) (suc d) = depth ops d

-- A CPU at depth `d` over the interrupt state `base`.
abbrev pub IsNested : Bool → ℕ → Cpu → Type 0
IsNested base zero cpu = (cpu.noff ≡ 0) × (cpu.intr ≡ base)
IsNested base (suc d) cpu = (cpu.noff ≡ suc d) × (cpu.intr ≡ false) × (cpu.origin ≡ base)

abbrev pub Ended : Bool → Option ℕ → Run Cpu (Unit {0}) → Type 0
Ended base none r = r ≡ panic
Ended base (some d) r = (cpu : Cpu) × (r ≡ ok tt cpu) × IsNested base d cpu

pub push_off-IsNested :
    (base : Bool) (d : ℕ) (cpu : Cpu) → IsNested base d cpu → IsNested base (suc d) (push_off cpu)
unfolding push_off
push_off-IsNested base zero cpu (n, i) = ground (arith, n, i)
push_off-IsNested base (suc d) cpu (n, i, o) = ground (arith, n, i, o)

pub pop_off-IsNested :
    (base : Bool) (d : ℕ) (cpu : Cpu)
    → IsNested base (suc d) cpu
    → (cpu' : Cpu) × (pop_off cpu ≡ ok tt cpu') × IsNested base d cpu'
unfolding pop_off
pop_off-IsNested base zero cpu (n, i, o) =
    (record cpu { noff = 0; intr = base }, ground (arith, n, i, o), (refl, refl))
pop_off-IsNested base (suc d) cpu (n, i, o) =
    (record cpu { noff = suc d; intr = false }, ground (arith, n, i, o), (refl, refl, o))

too_often : (cpu : Cpu) → cpu.noff ≡ 0 → pop_off cpu ≡ panic
unfolding pop_off
too_often cpu n = ground (arith, n)

-- From a CPU at some depth, any sequence of `push_off` and `pop_off` that never pops more often than it
-- pushed ends at the depth counted, with interrupts off, and on again at depth 0 exactly if they
-- were on at first; a sequence that pops too often panics.
pub run-Ended :
    (base : Bool) (ops : List Switch) (d : ℕ) (cpu : Cpu)
    → IsNested base d cpu
    → Ended base (depth ops d) (run ops cpu)
run-Ended base [] d cpu h = (cpu, refl, h)
run-Ended base (push ∷ ops) d cpu h =
    run-Ended base ops (suc d) (push_off cpu) (push_off-IsNested base d cpu h)
run-Ended base (pop ∷ ops) zero cpu (n, i) = rw (too_often cpu n) refl
run-Ended base (pop ∷ ops) (suc d) cpu h =
    let (cpu', e, h') = pop_off-IsNested base d cpu h in rw e (run-Ended base ops d cpu' h')
