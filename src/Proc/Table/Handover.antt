-- ===== src/Proc/Table/Handover.antt =====
-- No wakeup is lost between `proc_wait` and `proc_exit`.
use biglab.Prelude.{
  ℕ, ◌≡◌, refl, sym, ◌≢◌, ◌∙◌, ap, ◌<◌, Bool, true, false, ◌&&◌, ◌==◌, none, some, update, arith,
  Bool-cases, Option-cases, inl, inr, subst, eqb_refl, neb_of_ne, eqb→eq,
}
use biglab.Prelude.Run.{Run, ok, panic, out_of_fuel, blocked}
use biglab.Proc.Table.{
  Table, Proc, zombie, sleeping, runnable, n_proc, addr_of, is_child, is_zombie, woken, parent_chan,
  proc_exit, Waited, slept, proc_wait,
}
use biglab.Proc.Table.Reparent.{adopt}
use biglab.Proc.Table.Exit.{proc_exit-Exited}
use biglab.Proc.Table.Wait.{Ends, Pass, proc_wait-Ends}

-- The scheduler, to which a process has switched, releases its lock.
abbrev pub switched : ℕ → Table → Table
switched me s = record s { held = update s.held me false }

abbrev Outcome : ℕ → Table → Run Table Waited → Type 0
Outcome me s (ok w s') =
    Pass me 0 n_proc false s.procs w s' × (s'.lifecycle ≡ false) × (s'.init ≡ s.init)
Outcome me s panic = Unit
Outcome me s out_of_fuel = Unit
Outcome me s blocked = ⊥

outcome : (me : ℕ) (s : Table) (r : Run Table Waited) → Ends me 0 n_proc false s r → Outcome me s r
outcome me s r (w, s', run, pass, l, q) = subst (Outcome me s) (sym run) (pass, l, q)

parent_of_child : (me : ℕ) (p : Proc) → is_child me p ≡ true → p.parent ≡ some me
parent_of_child me p h = elim (Option-cases p.parent) [
  | inl e ↦ ground (arith, rw e at h)
  | inr (i, e) ↦ e ∙ ap some (eqb→eq i me (rw e at h))
]

woken_adopted :
    (k init chan : ℕ) (p : Proc)
    → p.state ≡ sleeping
    → p.sleep_space ≡ chan
    → (woken chan (adopt k init p)).state ≡ runnable
woken_adopted k init chan p e f = elim (Bool-cases (is_child k p)) [
  | inl c ↦ rw (c, e, f) (rw (eqb_refl chan) refl)
  | inr c ↦ rw (c, e, f) (rw (eqb_refl chan) refl)
]

no_zombie : (b : Bool) → (b && false) ≡ false
no_zombie b = ground arith

module _ (me k code : ℕ) (s s₁ : Table) (free : (j : ℕ) → s.held j ≡ false)
    (idle : s.lifecycle ≡ false) (sleeps : proc_wait me s ≡ ok slept s₁) (me_in : me < n_proc)
    (k_in : k < n_proc) (differ : k ≢ me) (child : is_child me (s.procs k) ≡ true)
    (not_first : k ≢ s.init)
    (live : (j : ℕ)
      → j < n_proc
      → (is_child k (s.procs j) && is_zombie (s.procs j).state) ≡ false) where
  -- A process that went to sleep in `proc_wait` is made runnable by the next exit of one of its children, which
  -- then is a zombie child of it with the code: for a child in the table, not the first process, that has no zombie child.
  pub proc_exit-proc_wait :
      (s₂ : Table) × (proc_exit k code (switched me s₁) ≡ ok tt s₂)
      × ((s₂.procs me).state ≡ runnable)
      × (is_child me (s₂.procs k) ≡ true)
      × ((s₂.procs k).state ≡ zombie)
      × ((s₂.procs k).exit_code ≡ code)
  proc_exit-proc_wait =
      let (pass, l, q) =
        subst (Outcome me s) sleeps
          (outcome me s (proc_wait me s) (proc_wait-Ends me s free idle)) in
      let same : s₁.procs k ≡ s.procs k =
        rw (neb_of_ne me k (λ q. differ (sym q))) at (pass.procs k) in
      let mine : s₁.procs me ≡ record (s.procs me) { sleep_space = addr_of me; state = sleeping } =
        rw (eqb_refl me) at (pass.procs me) in
      let parent : (s₁.procs k).parent ≡ some me =
        ap (λ (p : Proc). p.parent) same ∙ parent_of_child me (s.procs k) child in
      let apart : (me == k) ≡ false = neb_of_ne me k (λ q. differ (sym q)) in
      let unlocked : (j : ℕ) → (switched me s₁).held j ≡ false = λ j. elim (Bool-cases (me == j)) [
        | inl e ↦ rw e refl
        | inr e ↦ rw e ((rw e at (pass.held j)))
      ] in
      let no_dead : (j : ℕ)
          → j < n_proc
          → (is_child k (s₁.procs j) && is_zombie (s₁.procs j).state) ≡ false =
        λ j lt. elim (Bool-cases (me == j)) [
          | inl e ↦ rw (rw e at (pass.procs j)) (no_zombie (is_child k (s.procs me)))
          | inr e ↦ rw (rw e at (pass.procs j)) (live j lt)
        ] in
      let (s₂, run, x) =
        proc_exit-Exited k code (switched me s₁) (λ z. not_first (z ∙ q)) unlocked l
          (rw parent (rw apart refl)) no_dead in
      (
        s₂,
        run,
        ap (λ (p : Proc). p.state) (x.others me me_in (λ q. differ (sym q)))
            ∙ woken_adopted k s₁.init (parent_chan (s₁.procs k)) (s₁.procs me)
                (ap (λ (p : Proc). p.state) mine)
                (ap (λ (p : Proc). p.sleep_space) mine
                  ∙ sym (ap (λ o. elim o [ none ↦ 0 | some i ↦ addr_of i ]) parent)),
        rw x.self (rw same child),
        ap (λ (p : Proc). p.state) x.self,
        ap (λ (p : Proc). p.exit_code) x.self,
      )
