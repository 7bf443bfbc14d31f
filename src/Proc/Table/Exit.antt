-- ===== src/Proc/Table/Exit.antt =====
-- `proc_exit`: what it leaves behind, and when it panics.
use biglab.Prelude.{
  ℕ, ◌≡◌, refl, sym, ◌≢◌, ◌∙◌, ap, ◌<◌, true, false, ◌&&◌, ◌==◌, ltb, leb, update, arith,
  Bool-cases, inl, inr, eqb_refl, neb_of_ne,
}
use biglab.Prelude.Run.{ok, panic}
use biglab.Proc.Table.{
  Table, Proc, zombie, n_proc, is_child, is_zombie, woken, proc_exit, parent_chan,
}
use biglab.Proc.Table.Wakeup.{Woken, chosen, proc_wakeup-Woken}
use biglab.Proc.Table.Reparent.{adopt, Reparented, reparent_loop-Reparented, reparent_loop-panic}

-- The process `me` has left with `code`: it waits at its last switch, with its own lock only.
pub record Exited (me code : ℕ) (s s' : Table) : Type 0 where
  pub self : s'.procs me ≡ record (s.procs me) { state = zombie; exit_code = code }
  pub others :
      (j : ℕ)
      → j < n_proc
      → j ≢ me
      → s'.procs j ≡ woken (parent_chan (s.procs me)) (adopt me s.init (s.procs j))
  pub held : (j : ℕ) → s'.held j ≡ (me == j)
  pub lifecycle : s'.lifecycle ≡ false
  pub init : s'.init ≡ s.init

module _ (me code : ℕ) (s : Table) (not_first : me ≢ s.init) (free : (j : ℕ) → s.held j ≡ false)
    (idle : s.lifecycle ≡ false) (own : is_child me (s.procs me) ≡ false) where
  -- A process other than the first, that holds no lock and is not its own parent, panics in
  -- `proc_exit` if it has a child that is a zombie: the child's lock is taken twice.
  pub proc_exit-panic :
      (k : ℕ)
      → k < n_proc
      → is_child me (s.procs k) ≡ true
      → is_zombie (s.procs k).state ≡ true
      → proc_exit me code s ≡ panic
  unfolding proc_exit
  proc_exit-panic k lt c z =
      let stop =
        reparent_loop-panic me n_proc 0 k (record s { lifecycle = true }) free (omega arith)
          (omega arith) (omega arith) own c z in
      rw (neb_of_ne me s.init not_first, idle, stop) refl

  abbrev with_zombie : Table → Table
  with_zombie t = record t {
    procs = update t.procs me (record (t.procs me) { exit_code = code; state = zombie });
    held = update t.held me true;
  }

  abbrev left : Table → Table
  left u = record u { held = update (update u.held me false) me true; lifecycle = false }

  me_same :
      (t : Table)
      → Reparented me 0 n_proc (record s { lifecycle = true }) t
      → t.procs me ≡ s.procs me
  me_same t r = elim (Bool-cases (leb 0 me && ltb me n_proc)) [
    | inl e ↦ rw (e, own) at (r.procs me)
    | inr e ↦ rw e at (r.procs me)
  ]

  -- From the table `t` after the loop and `u` after the wakeup.
  Exited-left :
      (t u : Table)
      → Reparented me 0 n_proc (record s { lifecycle = true }) t
      → Woken me (parent_chan (s.procs me)) 0 n_proc (with_zombie t) u
      → Exited me code s (left u)
  Exited-left t u r w = record {
    self =
        let c : chosen me 0 n_proc me ≡ false = (unfold chosen in ground arith) in
        (rw (c, eqb_refl me) at (w.procs me))
        ∙ ap (λ (p : Proc). record p { exit_code = code; state = zombie }) (me_same t r);
    others = λ j lt ne.
        let c : chosen me 0 n_proc j ≡ true = (unfold chosen in ground arith) in
        let d : (leb 0 j && ltb j n_proc) ≡ true = ground arith in
        (rw (c, neb_of_ne me j (λ q. ne (sym q))) at (w.procs j))
        ∙ ap (woken (parent_chan (s.procs me))) (rw d at (r.procs j));
    held = λ j. elim (Bool-cases (me == j)) [
      | inl e ↦ rw e refl
      | inr e ↦ rw e ((rw e at (w.held j)) ∙ r.held j ∙ free j)
    ];
    lifecycle = refl;
    init = w.init ∙ r.init;
  }

  -- A process other than the first, that holds no lock and is not its own parent, leaves through
  -- `proc_exit` if none of its children is a zombie: it is a zombie with the code, and holds its own
  -- lock only; its children belong to the first process; every process that slept on its
  -- parent's channel is runnable; and nothing else has changed.
  pub proc_exit-Exited :
      ((j : ℕ) → j < n_proc → (is_child me (s.procs j) && is_zombie (s.procs j).state) ≡ false)
      → (s' : Table) × (proc_exit me code s ≡ ok tt s') × Exited me code s s'
  unfolding proc_exit
  proc_exit-Exited live =
      let (t, e, r) =
        reparent_loop-Reparented me n_proc 0 (record s { lifecycle = true }) free
          (λ j lo hi. live j hi) in
      let (u, f, w) =
        proc_wakeup-Woken me (parent_chan (s.procs me)) (with_zombie t)
          (λ j lt ne. rw (neb_of_ne me j (λ q. ne (sym q))) (r.held j ∙ free j)) in
      let h : t.held me ≡ false = r.held me ∙ free me in
      let chan : parent_chan (t.procs me) ≡ parent_chan (s.procs me) =
        ap parent_chan (me_same t r) in
      let uh : u.held me ≡ true = (rw (eqb_refl me) at (w.held me)) in
      let ul : u.lifecycle ≡ true = w.lifecycle ∙ r.lifecycle in
      (
        left u,
        rw (neb_of_ne me s.init not_first, idle)
            (rw (e, h) (rw (eqb_refl me) (rw (chan, f) (rw (uh, ul) (rw (eqb_refl me) refl))))),
        Exited-left t u r w,
      )
