-- ===== src/Lock/Sleep.antt =====
-- src/kernel/lock/sleeplock.c: the processes that take, wait for and give back one sleeplock, with
-- `proc_sleep` and `proc_wakeup` of src/kernel/proc/proc.c as they treat its channel. One step of a process
-- is one access of the lock or of a process's state. `spin` is the spinlock inside the sleeplock: a process that
-- finds it taken stays where it is. The process at the index `p` has the pid `pid_of p`.
mod Waiters
mod Steps
pub mod Safe
mod Tests
use biglab.Prelude.{
  ℕ, suc, ◌+◌, Bool, true, false, ◌&&◌, ◌==◌, ltb, if◌then◌else◌, List, [], ◌∷◌, update,
}
use biglab.Prelude.Run.{Cmd, pure, ok, ◌>>=◌, ◌>>◌}
use biglab.Proc.Table.{n_proc}

-- Where a process is in `sleeplock_acquire` and `sleeplock_release` of the lock.
pub data Stage : Type 0 where
  away : Stage
  testing : Stage  -- at the test of the loop, with the spinlock
  dozing : Stage  -- in proc_sleep: it has released the spinlock, and holds its own `lk`
  asleep : Stage  -- SLEEPING on the lock
  ready : Stage  -- RUNNABLE again, before it takes the spinlock back
  taken : Stage  -- it has written itself into the lock, with the spinlock
  holding : Stage  -- behind sleeplock_acquire
  clearing : Stage  -- in sleeplock_release, with the spinlock
  waking : ℕ → Stage  -- in proc_wakeup, before the process at the index

-- `sleeplock_t`, and the stages of the processes.
pub record Sleeplock : Type 0 where
  pub stage : ℕ → Stage
  pub spin : Bool
  pub is_locked : Bool
  pub pid : ℕ

-- `sleeplock_init`.
abbrev pub sleeplock_init : Sleeplock
sleeplock_init = record { stage = λ p. away; spin = false; is_locked = false; pid = 0 }

abbrev pub set_stage : ℕ → Stage → Sleeplock → Sleeplock
set_stage p st s = record s { stage = update s.stage p st }

-- `spinlock_acquire(&slk->lock)`, and then the stage `st`.
abbrev pub take_spin : ℕ → Stage → Sleeplock → Sleeplock
take_spin p st s = if s.spin then s else record (set_stage p st s) { spin = true }

abbrev pub drop_spin : ℕ → Stage → Sleeplock → Sleeplock
drop_spin p st s = record (set_stage p st s) { spin = false }

-- A round of `proc_wakeup` of `p` at the process `k`, whose stage is given. The `lk` of a process that is
-- still going to sleep is held, and `p` waits for it.
abbrev pub wake : ℕ → ℕ → Stage → Sleeplock → Sleeplock
wake p k dozing s = s
wake p k asleep s = set_stage p (waking (suc k)) (set_stage k ready s)
wake p k _ s = set_stage p (waking (suc k)) s

module _ (pid_of : ℕ → ℕ) where
  -- The next step of the process `p`: from `away` it goes through `sleeplock_acquire`, and from `holding`
  -- through `sleeplock_release`.
  abbrev pub advance_from : Stage → ℕ → Sleeplock → Sleeplock
  advance_from away p s = take_spin p testing s
  advance_from testing p s =
      if s.is_locked
      then drop_spin p dozing s
      else record (set_stage p taken s) { is_locked = true; pid = pid_of p }
  advance_from dozing p s = set_stage p asleep s
  advance_from asleep p s = s
  advance_from ready p s = take_spin p testing s
  advance_from taken p s = drop_spin p holding s
  advance_from holding p s = take_spin p clearing s
  advance_from clearing p s = record (set_stage p (waking 0) s) { is_locked = false; pid = 0 }
  advance_from (waking k) p s =
      if ltb k n_proc
      then (if k == p then set_stage p (waking (suc k)) s else wake p k (s.stage k) s)
      else drop_spin p away s

  unfoldable pub advance : ℕ → Sleeplock → Sleeplock
  advance p s = advance_from (s.stage p) p s

  -- The processes take their steps in the order of the list.
  unfoldable pub interleave : List ℕ → Sleeplock → Sleeplock
  interleave [] s = s
  interleave (p ∷ ps) s = interleave ps (advance p s)

  -- `sleeplock_holding`, without the spinlock around it.
  abbrev pub sleeplock_holding : ℕ → Sleeplock → Bool
  sleeplock_holding p s = s.is_locked && (s.pid == pid_of p)
