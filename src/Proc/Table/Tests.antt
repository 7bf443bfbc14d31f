-- ===== src/Proc/Table/Tests.antt =====
-- The process table with four processes.
use biglab.Prelude.{
  ℕ, ◌≡◌, refl, true, false, ◌==◌, none, some, arith, if◌then◌else◌, Option, update,
}
use biglab.Prelude.Run.{ok, panic}
use biglab.Proc.Table.{
  Table, Proc, State, unused, running, sleeping, zombie, runnable, n_proc, is_child, proc_wakeup,
  proc_exit, proc_wait, slept, wait_loop, proc_sleep, addr_of,
}
use biglab.Proc.Table.Wakeup.{proc_wakeup-panic}
use biglab.Proc.Table.Exit.{Exited, proc_exit-Exited}
use biglab.Proc.Table.Wait.{Ends, proc_wait-Ends}
use biglab.Proc.Table.Handover.{switched, proc_exit-proc_wait}

abbrev proc : ℕ → State → Option ℕ → Proc
proc pid state parent = record {
  pid = pid;
  state = state;
  parent = parent;
  exit_code = 0;
  sleep_space = 0;
}

-- Process 1 is a child of process 0, the first one; 2 and 3 are children of 1, and 3 is in `state`.
abbrev family : State → Table
family state = record {
  procs = λ j.
      if j == 0
      then proc 1 runnable none
      else if j == 1
      then proc 2 running (some 0)
      else if j == 2
      then proc 3 runnable (some 1)
      else if j == 3
      then proc 4 state (some 1)
      else proc 0 unused none;
  init = 0;
  held = λ j. false;
  lifecycle = false;
}

abbrev holding_three : Table
holding_three = record (family zombie) { held = λ j. j == 3 }

proc_wakeup_panic_example : proc_wakeup 1 1 holding_three ≡ panic
proc_wakeup_panic_example = proc_wakeup-panic 1 1 3 holding_three (omega arith) (omega arith) refl

proc_exit_example :
    (s' : Table) × (proc_exit 1 7 (family runnable) ≡ ok tt s') × Exited 1 7 (family runnable) s'
proc_exit_example =
    proc_exit-Exited 1 7 (family runnable) (omega arith) (λ j. refl) refl refl
      (λ j lt. ground arith)

proc_wait_example : Ends 1 0 n_proc false (family zombie) (proc_wait 1 (family zombie))
proc_wait_example = proc_wait-Ends 1 (family zombie) (λ j. refl) refl

abbrev asleep : Table
asleep = record (family runnable) {
  procs =
      update (family runnable).procs 1
        (record ((family runnable).procs 1) { sleep_space = addr_of 1; state = sleeping });
  held =
      update (update (update (update (update (λ j. false) 2 true) 2 false) 3 true) 3 false) 1 true;
}

one_sleeps : proc_wait 1 (family runnable) ≡ ok slept asleep
unfolding proc_wait wait_loop proc_sleep
one_sleeps = refl

proc_exit-proc_wait_example :
    (s₂ : Table) × (proc_exit 2 9 (switched 1 asleep) ≡ ok tt s₂)
    × ((s₂.procs 1).state ≡ runnable)
    × (is_child 1 (s₂.procs 2) ≡ true)
    × ((s₂.procs 2).state ≡ zombie)
    × ((s₂.procs 2).exit_code ≡ 9)
proc_exit-proc_wait_example =
    proc_exit-proc_wait 1 2 9 (family runnable) asleep (λ j. refl) refl one_sleeps (omega arith)
      (omega arith) (omega arith) refl (omega arith) (λ j lt. ground arith)
