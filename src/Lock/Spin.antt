-- ===== src/Lock/Spin.antt =====
-- src/kernel/lock/spinlock.c: nested switching of the interrupts, and spinlocks between CPUs.
-- `noff` is an int, which no nesting brings near its limit. One step of a CPU is one access of the
-- lock: the code between two of them is the CPU's own.
pub mod Nesting
mod Exclusion
pub mod Schedule
mod Tests
use biglab.Prelude.{
  ℕ, suc, ◌+◌, ◌-◌, Bool, true, false, ◌&&◌, not, Option, none, some, ◌==◌, ltb, if◌then◌else◌,
  update,
}
use biglab.Prelude.Run.{Run, ok, panic, out_of_fuel, blocked, Cmd}

-- `cpu_t` of lib/type.h without the process and the context, and the interrupt bit of the CPU.
pub record Cpu : Type 0 where
  pub noff : ℕ
  pub origin : Bool
  pub intr : Bool

pub push_off : Cpu → Cpu
push_off cpu =
    let old = cpu.intr in
    record cpu {
      intr = false;
      origin = if cpu.noff == 0 then old else cpu.origin;
      noff = cpu.noff + 1;
    }

pub pop_off : Cmd Cpu (Unit {0})
pop_off cpu =
    let noff = cpu.noff - 1 in
    if cpu.intr
    then panic
    else if ltb cpu.noff 1
    then panic
    else ok tt (record cpu { noff = noff; intr = (noff == 0) && cpu.origin })

-- `spinlock_t`; `none` is the cpuid -1.
pub record Spinlock : Type 0 where
  pub locked : Bool
  pub cpuid : Option ℕ

abbrev pub spinlock_init : Spinlock
spinlock_init = record { locked = false; cpuid = none }

abbrev pub spinlock_holding : ℕ → Spinlock → Bool
spinlock_holding c lk = lk.locked && (elim lk.cpuid [ none ↦ false | some d ↦ d == c ])

-- Where a CPU is in `spinlock_acquire` and `spinlock_release` of the lock.
pub data Place : Type 0 where
  outside : Place
  checking : Place  -- after push_off
  spinning : Place
  owning : Place  -- after test-and-set, before it writes its cpuid
  inside : Place
  clearing : Place  -- after it found itself the holder
  unlocking : Place  -- after it wrote -1
  popping : Place

pub record World : Type 0 where
  pub place : ℕ → Place
  pub cpus : ℕ → Cpu
  pub lock : Spinlock

abbrev goto : ℕ → Place → World → World
goto c p w = record w { place = update w.place c p }

-- The next step of the CPU `c`: it goes through `spinlock_acquire` from outside the lock, and
-- through `spinlock_release` from inside.
pub step : ℕ → Cmd World (Unit {0})
unfolding push_off pop_off
step c w =
    let cpu = w.cpus c in
    let popped = pop_off cpu in
    elim (w.place c) [
      | outside ↦ ok tt (record (goto c checking w) { cpus = update w.cpus c (push_off cpu) })
      | checking ↦ if spinlock_holding c w.lock then panic else ok tt (goto c spinning w)
      | spinning ↦
          if w.lock.locked
          then ok tt w
          else ok tt (record (goto c owning w) { lock = record w.lock { locked = true } })
      | owning ↦ ok tt (record (goto c inside w) { lock = record w.lock { cpuid = some c } })
      | inside ↦ if spinlock_holding c w.lock then ok tt (goto c clearing w) else panic
      | clearing ↦ ok tt (record (goto c unlocking w) { lock = record w.lock { cpuid = none } })
      | unlocking ↦ ok tt (record (goto c popping w) { lock = record w.lock { locked = false } })
      | popping ↦ elim popped [
        | ok _ cpu' ↦ ok tt (record (goto c outside w) { cpus = update w.cpus c cpu' })
        | panic ↦ panic
        | out_of_fuel ↦ out_of_fuel
        | blocked ↦ blocked
      ]
    ]
