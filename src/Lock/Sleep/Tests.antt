-- ===== src/Lock/Sleep/Tests.antt =====
-- Two processes at a sleeplock.
use biglab.Prelude.{ℕ, suc, ◌≡◌, refl, arith, List, [], ◌∷◌}
use biglab.Lock.Sleep.{sleeplock_init, interleave, advance, asleep, ready}
use biglab.Lock.Sleep.Safe.{Safe, interleave-Safe}

abbrev pid_of : ℕ → ℕ
pid_of p = suc p

-- Process 0 takes the lock, process 1 goes to sleep on it, and process 0 gives it back and wakes process 1.
abbrev handover : List ℕ
handover = 0 ∷ 0 ∷ 0 ∷ 1 ∷ 1 ∷ 1 ∷ 0 ∷ 0 ∷ 0 ∷ 0 ∷ []

interleave-asleep : (interleave pid_of (0 ∷ 0 ∷ 0 ∷ 1 ∷ 1 ∷ 1 ∷ []) sleeplock_init).stage 1 ≡ asleep
unfolding interleave advance
interleave-asleep = refl

interleave-ready : (interleave pid_of handover sleeplock_init).stage 1 ≡ ready
unfolding interleave advance
interleave-ready = refl

interleave_example : Safe pid_of (interleave pid_of handover sleeplock_init)
interleave_example = interleave-Safe pid_of handover (
  omega arith,
  (
    omega arith,
    (
      omega arith,
      (
        omega arith,
        (
          omega arith,
          (omega arith, (omega arith, (omega arith, (omega arith, (omega arith, tt))))),
        ),
      ),
    ),
  ),
)
