-- ===== src/Proc/Table/Reparent.antt =====
-- The loop of `proc_exit` that gives the children of a process to the first process.
use biglab.Prelude.{
  eqb_refl, ℕ, zero, suc, ◌+◌, ◌≤◌, ◌<◌, ◌≡◌, refl, sym, ◌≢◌, ◌∙◌, ap, Bool, true, false, ◌&&◌,
  some, ◌==◌, ltb, leb, if◌then◌else◌, update, arith, Bool-cases, inl, inr, subst, eqb→eq,
}
use biglab.Prelude.Run.{ok, panic}
use biglab.Proc.Table.{
  Table, Proc, n_proc, is_child, is_zombie, reparent_one, reparent_loop, addr_of,
}
use biglab.Proc.Table.Wakeup.{proc_wakeup-panic}

-- A child of `me` becomes a child of `init`.
abbrev pub adopt : ℕ → ℕ → Proc → Proc
adopt me init p = if is_child me p then record p { parent = some init } else p

-- From `s` to `s'` the children of `me` from `lo` up to `hi` go to the first process.
pub record Reparented (me lo hi : ℕ) (s s' : Table) : Type 0 where
  pub procs :
      (j : ℕ)
      → s'.procs j ≡ (if leb lo j && ltb j hi then adopt me s.init (s.procs j) else s.procs j)
  pub held : (j : ℕ) → s'.held j ≡ s.held j
  pub init : s'.init ≡ s.init
  pub lifecycle : s'.lifecycle ≡ s.lifecycle

differ : (f : ℕ → Bool) (a b : ℕ) → f a ≡ true → f b ≡ false → a ≢ b
differ f a b t h e = ground (arith, t, h, ap f e)

module _ (me : ℕ) where
  abbrev one : ℕ → Table → Table
  one i s =
      if is_child me (s.procs i)
      then (record s {
        procs = update s.procs i (record (s.procs i) { parent = some s.init });
        held = update (update s.held i true) i false;
      })
      else s

  reparent_one-run :
      (i : ℕ) (s : Table)
      → s.held i ≡ false
      → (is_child me (s.procs i) && is_zombie (s.procs i).state) ≡ false
      → reparent_one me i s ≡ ok tt (one i s)
  unfolding reparent_one
  reparent_one-run i s free z = elim (Bool-cases (is_child me (s.procs i))) [
    | inl e ↦
        let live : is_zombie (s.procs i).state ≡ false = ground (arith, e, z) in
        rw (e, free) (rw live (rw (eqb_refl i) refl))
    | inr e ↦ rw e refl
  ]

  -- A zombie child panics the loop: `proc_wakeup` takes its lock a second time.
  reparent_one-panic :
      (i : ℕ) (s : Table)
      → i < n_proc
      → i ≢ me
      → is_child me (s.procs i) ≡ true
      → is_zombie (s.procs i).state ≡ true
      → reparent_one me i s ≡ panic
  unfolding reparent_one
  reparent_one-panic i s lt ne e z = elim (Bool-cases (s.held i)) [
    | inl h ↦ rw (e, h) refl
    | inr h ↦
        let stop =
          proc_wakeup-panic me (addr_of s.init) i
            (record s {
              procs = update s.procs i (record (s.procs i) { parent = some s.init });
              held = update s.held i true;
            })
            lt ne (rw (eqb_refl i) refl) in
        rw (e, h) (rw z (rw stop refl))
  ]

  one-held : (i : ℕ) (s : Table) → s.held i ≡ false → (j : ℕ) → (one i s).held j ≡ s.held j
  one-held i s free j = elim (Bool-cases (is_child me (s.procs i))) [
    | inl e ↦ rw e (ground (arith, ap s.held))
    | inr e ↦ rw e refl
  ]

  one-init : (i : ℕ) (s : Table) → (one i s).init ≡ s.init
  one-init i s = elim (Bool-cases (is_child me (s.procs i))) [
    | inl e ↦ rw e refl
    | inr e ↦ rw e refl
  ]

  one-lifecycle : (i : ℕ) (s : Table) → (one i s).lifecycle ≡ s.lifecycle
  one-lifecycle i s = elim (Bool-cases (is_child me (s.procs i))) [
    | inl e ↦ rw e refl
    | inr e ↦ rw e refl
  ]

  one_self : (i : ℕ) (s : Table) → (one i s).procs i ≡ adopt me s.init (s.procs i)
  one_self i s = elim (Bool-cases (is_child me (s.procs i))) [
    | inl e ↦ rw e (rw (eqb_refl i) refl)
    | inr e ↦ rw e refl
  ]

  one-ne : (i j : ℕ) (s : Table) → (i == j) ≡ false → (one i s).procs j ≡ s.procs j
  one-ne i j s ne = elim (Bool-cases (is_child me (s.procs i))) [
    | inl e ↦ rw e (rw ne refl)
    | inr e ↦ rw e refl
  ]

  one-own :
      (i : ℕ) (s : Table)
      → is_child me (s.procs me) ≡ false
      → is_child me ((one i s).procs me) ≡ false
  one-own i s own = elim (Bool-cases (is_child me (s.procs i))) [
    | inl e ↦
        let far : i ≢ me = differ (λ x. is_child me (s.procs x)) i me e own in
        rw (one-ne i me s (ground (arith, far))) own
    | inr e ↦ rw e own
  ]

  pub reparent_loop-Reparented :
      (n i : ℕ) (s : Table)
      → ((j : ℕ) → s.held j ≡ false)
      → ((j : ℕ)
          → i ≤ j
          → j < i + n
          → (is_child me (s.procs j) && is_zombie (s.procs j).state) ≡ false)
      → (s' : Table) × (reparent_loop me n i s ≡ ok tt s') × Reparented me i (i + n) s s'
  unfolding reparent_loop
  reparent_loop-Reparented zero i s free live = (
    s,
    refl,
    record {
      procs = λ j. let c : (leb i j && ltb j (i + 0)) ≡ false = ground arith in rw c refl;
      held = λ j. refl;
      init = refl;
      lifecycle = refl;
    },
  )
  reparent_loop-Reparented (suc n) i s free live =
      let (s', e, w) =
        reparent_loop-Reparented n (suc i) (one i s) (λ j. one-held i s (free i) j ∙ free j)
          (λ j lo hi. rw (one-ne i j s (ground arith)) (live j (omega arith) (omega arith))) in
      (
        s',
        rw (reparent_one-run i s (free i) (live i (omega arith) (omega arith)), e) refl,
        record {
          procs = λ j. procs j s' w;
          held = λ j. w.held j ∙ one-held i s (free i) j;
          init = w.init ∙ one-init i s;
          lifecycle = w.lifecycle ∙ one-lifecycle i s;
        },
      )
    where
      procs :
          (j : ℕ) (s' : Table)
          → Reparented me (suc i) (suc i + n) (one i s) s'
          → s'.procs j
            ≡ (if leb i j && ltb j (i + suc n) then adopt me s.init (s.procs j) else s.procs j)
      procs j s' w = elim (Bool-cases (i == j)) [
        | inl f ↦
            let c : (leb (suc i) j && ltb j (suc i + n)) ≡ false = ground arith in
            let d : (leb i j && ltb j (i + suc n)) ≡ true = ground arith in
            rw d (
              (rw c at (w.procs j))
              ∙ subst (λ x. (one i s).procs x ≡ adopt me s.init (s.procs x)) (eqb→eq i j f)
                  (one_self i s))
        | inr f ↦
            let d : (leb (suc i) j && ltb j (suc i + n)) ≡ (leb i j && ltb j (i + suc n)) =
              ground arith in
            rw (d, one-init i s, one-ne i j s f) at (w.procs j)
      ]

  pub reparent_loop-panic :
      (n i k : ℕ) (s : Table)
      → ((j : ℕ) → s.held j ≡ false)
      → i + n ≤ n_proc
      → i ≤ k
      → k < i + n
      → is_child me (s.procs me) ≡ false
      → is_child me (s.procs k) ≡ true
      → is_zombie (s.procs k).state ≡ true
      → reparent_loop me n i s ≡ panic
  unfolding reparent_loop
  reparent_loop-panic zero i k s free le lo hi own c z = absurd (omega arith)
  reparent_loop-panic (suc n) i k s free le lo hi own c z =
      elim (Bool-cases (is_child me (s.procs i) && is_zombie (s.procs i).state)) [
        | inl e ↦
            let stop =
              reparent_one-panic i s (omega arith)
                (differ (λ x. is_child me (s.procs x)) i me (ground (arith, e)) own)
                (ground (arith, e)) (ground (arith, e)) in
            rw stop refl
        | inr e ↦
            let far : i ≢ k = λ q.
              differ (λ x. is_child me (s.procs x) && is_zombie (s.procs x).state) k i
                (ground (arith, c, z)) e (sym q) in
            let ne : (i == k) ≡ false = ground (arith, far) in
            let rest =
              reparent_loop-panic n (suc i) k (one i s) (λ j. one-held i s (free i) j ∙ free j)
                (omega arith) (ground (arith, far)) (omega arith) (one-own i s own)
                (rw (one-ne i k s ne) c) (rw (one-ne i k s ne) z) in
            rw (reparent_one-run i s (free i) e, rest) refl
      ]
