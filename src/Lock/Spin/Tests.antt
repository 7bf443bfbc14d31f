-- ===== src/Lock/Spin/Tests.antt =====
-- The spinlock with two CPUs.
use biglab.Prelude.{ℕ, ◌≡◌, true, false, List, [], ◌∷◌}
use biglab.Prelude.Run.{ok}
use biglab.Lock.Spin.{Cpu, World}
use biglab.Lock.Spin.Schedule.{start, schedule, Safe, schedule-Safe}

abbrev cpu_on : Cpu
cpu_on = record { noff = 0; origin = false; intr = true }

-- CPU 0 enters, CPU 1 spins, CPU 0 leaves and CPU 1 enters.
abbrev two_cpus : List ℕ
two_cpus = 0 ∷ 0 ∷ 0 ∷ 1 ∷ 1 ∷ 1 ∷ 0 ∷ 0 ∷ 0 ∷ 0 ∷ 0 ∷ 1 ∷ 1 ∷ []

schedule_example :
    (w : World) × (schedule two_cpus (start (λ c. true)) ≡ ok tt w) × Safe (λ c. true) w
schedule_example = schedule-Safe (λ c. true) two_cpus
