-- ===== src/Lock/Spin/Schedule.antt =====
-- Every interleaving of the CPUs' steps.
use biglab.Prelude.{ℕ, ◌≡◌, refl, Bool, true, false, List, [], ◌∷◌, Option, none, some, arith}
use biglab.Prelude.Run.{ok, Cmd, ◌>>◌, pure}
use biglab.Lock.Spin.{World, step, spinlock_init, spinlock_holding, outside, inside}
use biglab.Lock.Spin.Exclusion.{Inv, step-Inv, is, is_some}

-- All CPUs outside the lock.
abbrev pub start : (ℕ → Bool) → World
start base = record {
  place = λ c. outside;
  cpus = λ c. record { noff = 0; origin = false; intr = base c };
  lock = spinlock_init;
}

-- The CPUs take their steps in the order of the list.
abbrev pub schedule : List ℕ → Cmd World (Unit {0})
schedule [] = pure tt
schedule (c ∷ cs) = step c >> schedule cs

pub record Safe (base : ℕ → Bool) (w : World) : Type 0 where
  pub alone : (c d : ℕ) → w.place c ≡ inside → w.place d ≡ inside → c ≡ d
  pub holding : (c : ℕ) → w.place c ≡ inside → spinlock_holding c w.lock ≡ true
  pub quiet : (c : ℕ) → w.place c ≡ inside → (w.cpus c).intr ≡ false
  pub restored : (c : ℕ) → w.place c ≡ outside → (w.cpus c).intr ≡ base c

Inv-Safe : (base : ℕ → Bool) (owner : Option ℕ) (w : World) → Inv base owner w → Safe base w
Inv-Safe base owner w v = record {
  alone = λ c d e f. same owner c d (rw e at (v.owners c)) (rw f at (v.owners d));
  holding = λ c e. ground (arith, v.id c, v.locked, v.owners c, owned owner c);
  quiet = λ c e. (rw e at (v.nested c)).1;
  restored = λ c e. (rw e at (v.nested c)).1;
}
  where
    same : (owner : Option ℕ) (c d : ℕ) → true ≡ is owner c → true ≡ is owner d → c ≡ d
    same none c d e f = ground arith
    same (some a) c d e f = ground arith

    owned : (owner : Option ℕ) (c : ℕ) → true ≡ is owner c → is_some owner ≡ true
    owned none c e = ground arith
    owned (some a) c e = refl

schedule-Inv :
    (base : ℕ → Bool) (cs : List ℕ) (owner : Option ℕ) (w : World)
    → Inv base owner w
    → (w' : World) × (schedule cs w ≡ ok tt w') × Safe base w'
schedule-Inv base [] owner w v = (w, refl, Inv-Safe base owner w v)
schedule-Inv base (c ∷ cs) owner w v =
    let (w₁, owner₁, e, v₁) = step-Inv base w c owner v (w.place c) refl in
    let (w₂, f, safe) = schedule-Inv base cs owner₁ w₁ v₁ in (w₂, rw e f, safe)

-- From CPUs outside the lock, whatever their number, their interrupt states and the order of their
-- steps: no step panics, so that neither the test for a recursive lock nor the test for a holder fails;
-- at most one CPU is inside; a CPU inside is the holder and has interrupts off; and a CPU outside
-- has its first interrupt state.
pub schedule-Safe :
    (base : ℕ → Bool) (cs : List ℕ)
    → (w : World) × (schedule cs (start base) ≡ ok tt w) × Safe base w
schedule-Safe base cs =
    schedule-Inv base cs none (start base)
      (record { locked = refl; owners = λ c. refl; id = λ c. refl; nested = λ c. (refl, refl) })
