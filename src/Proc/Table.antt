-- ===== src/Proc/Table.antt =====
-- src/kernel/proc/proc.c: the process table in sleep, wakeup, exit, wait, yield and the scheduler, for
-- the process at the index `me` on its CPU. `held` are the locks that this CPU holds: acquiring one
-- of them panics, as spinlock.c does, and one that another CPU holds is free when the call returns.
-- A switch to the scheduler ends an operation; what follows the switch is an operation of its own.
pub mod Wakeup
mod Reparent
pub mod Exit
pub mod Wait
pub mod Handover
mod Tests
use biglab.Prelude.{
  ℕ, zero, suc, ◌+◌, Bool, true, false, ◌&&◌, Option, none, some, ◌==◌, not, if◌then◌else◌, update,
}
use biglab.Prelude.Run.{Run, ok, panic, out_of_fuel, blocked, Cmd, ◌>>=◌, ◌>>◌, pure}

-- N_PROC.
abbrev pub n_proc : ℕ
n_proc = 32

-- `enum proc_state`.
pub data State : Type 0 where
  unused : State
  runnable : State
  running : State
  sleeping : State
  zombie : State

abbrev pub is_runnable : State → Bool
is_runnable runnable = true
is_runnable _ = false

abbrev pub is_sleeping : State → Bool
is_sleeping sleeping = true
is_sleeping _ = false

abbrev pub is_zombie : State → Bool
is_zombie zombie = true
is_zombie _ = false

-- `proc_t` without the memory and the files. The parent is an index of the table. A channel is a
-- number: 0 is NULL, and `addr_of i` the address of the process at the index `i`.
pub record Proc : Type 0 where
  pub pid : ℕ
  pub state : State
  pub parent : Option ℕ
  pub exit_code : ℕ
  pub sleep_space : ℕ

abbrev pub addr_of : ℕ → ℕ
addr_of i = suc i

abbrev pub is_child : ℕ → Proc → Bool
is_child me p = elim p.parent [ none ↦ false | some i ↦ i == me ]

pub record Table : Type 0 where
  pub procs : ℕ → Proc
  pub init : ℕ  -- the index of init_process
  pub held : ℕ → Bool  -- the locks `lk` of the processes
  pub lifecycle : Bool  -- lifecycle_lock

abbrev pub put : ℕ → Proc → Table → Table
put i p s = record s { procs = update s.procs i p }

-- `spinlock_acquire` and `spinlock_release` of the lock of a process and of `lifecycle_lock`.
abbrev pub acquire : ℕ → Cmd Table (Unit {0})
acquire i s = if s.held i then panic else ok tt (record s { held = update s.held i true })

abbrev pub release : ℕ → Cmd Table (Unit {0})
release i s = if s.held i then ok tt (record s { held = update s.held i false }) else panic

abbrev pub acquire_lifecycle : Cmd Table (Unit {0})
acquire_lifecycle s = if s.lifecycle then panic else ok tt (record s { lifecycle = true })

abbrev pub release_lifecycle : Cmd Table (Unit {0})
release_lifecycle s = if s.lifecycle then ok tt (record s { lifecycle = false }) else panic

abbrev pub modify : ℕ → (Proc → Proc) → Cmd Table (Unit {0})
modify i f s = ok tt (put i (f (s.procs i)) s)

-- One round of `proc_wakeup`.
abbrev pub woken : ℕ → Proc → Proc
woken chan p =
    if is_sleeping p.state && (p.sleep_space == chan) then record p { state = runnable } else p

pub wakeup_one : ℕ → ℕ → ℕ → Cmd Table (Unit {0})
wakeup_one me chan i = if i == me then pure tt else do acquire i; modify i (woken chan); release i

pub wakeup_loop : ℕ → ℕ → ℕ → ℕ → Cmd Table (Unit {0})
unfolding wakeup_one
wakeup_loop me chan zero i = pure tt
wakeup_loop me chan (suc n) i = wakeup_one me chan i >> wakeup_loop me chan n (suc i)

-- `proc_wakeup`.
pub proc_wakeup : ℕ → ℕ → Cmd Table (Unit {0})
unfolding wakeup_loop
proc_wakeup me chan = wakeup_loop me chan n_proc 0

-- `proc_sleep` up to its switch; `unlock` is the release of the lock that it is given.
pub proc_sleep : ℕ → ℕ → Cmd Table (Unit {0}) → Cmd Table (Unit {0})
proc_sleep me chan unlock = do
  acquire me
  unlock
  modify me (λ p. record p { sleep_space = chan; state = sleeping })

-- `proc_sleep` after its switch.
pub proc_sleep_return : ℕ → Cmd Table (Unit {0}) → Cmd Table (Unit {0})
proc_sleep_return me lock = do modify me (λ p. record p { sleep_space = 0 }); release me; lock

-- `proc_yield` up to its switch.
pub proc_yield : ℕ → Cmd Table (Unit {0})
proc_yield me = do acquire me; modify me (λ p. record p { state = runnable })

-- One round of the scheduler's loop: true where it switches to the process, with its lock held.
pub schedule_one : ℕ → Cmd Table Bool
schedule_one i =
    let switch = modify i (λ p. record p { state = running }) >> pure true in
    let skip = release i >> pure false in
    do acquire i; p ← (λ s. ok (s.procs i) s); (if is_runnable p.state then switch else skip)

-- One round of the loop of `proc_exit`: a child goes to the first process.
pub reparent_one : ℕ → ℕ → Cmd Table (Unit {0})
unfolding proc_wakeup
reparent_one me i s =
    let give =
      (do
        modify i (λ p. record p { parent = some s.init })
        acquire i
        (if is_zombie (s.procs i).state then proc_wakeup me (addr_of s.init) else pure tt)
        release i)
        s in
    if is_child me (s.procs i) then give else ok tt s

pub reparent_loop : ℕ → ℕ → ℕ → Cmd Table (Unit {0})
unfolding reparent_one
reparent_loop me zero i = pure tt
reparent_loop me (suc n) i = reparent_one me i >> reparent_loop me n (suc i)

-- The channel on which `proc_exit` wakes its parent.
abbrev pub parent_chan : Proc → ℕ
parent_chan p = elim p.parent [ none ↦ 0 | some i ↦ addr_of i ]

-- `proc_exit` up to its last switch.
pub proc_exit : ℕ → ℕ → Cmd Table (Unit {0})
unfolding reparent_loop proc_wakeup
proc_exit me code s =
    let leave =
      (do
        acquire_lifecycle
        reparent_loop me n_proc 0
        acquire me
        modify me (λ p. record p { exit_code = code; state = zombie })
        p ← (λ s. ok (s.procs me) s)
        proc_wakeup me (parent_chan p)
        release me
        release_lifecycle
        acquire me)
        s in
    if me == s.init then panic else leave

-- `proc_free` on the fields of the table, up to the release of the lock, which it ends with.
pub proc_free : ℕ → Cmd Table (Unit {0})
proc_free i = do modify i (λ p. record p { pid = 0; parent = none; state = unused }); release i

-- How a pass of `proc_wait` ends: with a zombie's pid and exit code, with -1, or asleep.
pub data Waited : Type 0 where
  reaped : ℕ → ℕ → Waited
  no_children : Waited
  slept : Waited

-- The pass of `proc_wait` over `n` processes from the `i`th, with `lifecycle_lock` held.
pub wait_loop : ℕ → ℕ → ℕ → Bool → Cmd Table Waited
unfolding proc_free proc_sleep
wait_loop me zero i have_kids s =
    let sleep = (proc_sleep me (addr_of me) release_lifecycle >> pure slept) s in
    let give_up = (release_lifecycle >> pure no_children) s in if have_kids then sleep else give_up
wait_loop me (suc n) i have_kids s =
    let p = s.procs i in
    let other = wait_loop me n (suc i) have_kids s in
    let reap =
      (acquire i >> proc_free i >> release_lifecycle >> pure (reaped p.pid p.exit_code)) s in
    let alive = (acquire i >> release i >> wait_loop me n (suc i) true) s in
    if not (is_child me p) then other else if is_zombie p.state then reap else alive

-- `proc_wait` up to its return or its switch, with the exit code as an answer; `proc_wait_to` has its copy to the user.
pub proc_wait : ℕ → Cmd Table Waited
unfolding wait_loop
proc_wait me = acquire_lifecycle >> wait_loop me n_proc 0 false

module _ {M : Type 0} (copy : ℕ → ℕ → Cmd M (Unit {0})) where
  -- The end of a pass: an exit code goes to the user's address, if it is not 0. `copy addr code` is
  -- `uvm_copyout(curr->pgtbl, addr, (uint64)&code, sizeof(int))`, which panics where the user may not write.
  pub answer_wait : ℕ → Run Table Waited → Cmd M (Waited × Table)
  answer_wait addr (ok (reaped pid code) s) m =
      if addr == 0
      then ok (reaped pid code, s) m
      else (copy addr code >> pure (reaped pid code, s)) m
  answer_wait addr (ok no_children s) m = ok (no_children, s) m
  answer_wait addr (ok slept s) m = ok (slept, s) m
  answer_wait addr panic m = panic
  answer_wait addr out_of_fuel m = out_of_fuel
  answer_wait addr blocked m = blocked

  pub proc_wait_to : ℕ → ℕ → Table → Cmd M (Waited × Table)
  unfolding answer_wait
  proc_wait_to addr me s = answer_wait addr (proc_wait me s)

-- `proc_wait` after the switch: the next pass.
pub proc_wait_return : ℕ → Cmd Table Waited
unfolding wait_loop proc_sleep_return
proc_wait_return me = proc_sleep_return me acquire_lifecycle >> wait_loop me n_proc 0 false
