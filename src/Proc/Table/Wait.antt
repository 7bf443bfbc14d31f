-- ===== src/Proc/Table/Wait.antt =====
-- `proc_wait`: every way a pass can end.
use biglab.Prelude.{
  ℕ, zero, suc, ◌≡◌, refl, ◌<◌, ◌+◌, ◌≤◌, Bool, true, false, ◌&&◌, ◌||◌, ◌==◌, none, if◌then◌else◌,
  update, arith, Bool-cases, inl, inr, subst, eqb_refl, eqb→eq, ◌⊎◌,
}
use biglab.Prelude.Run.{Run, ok}
use biglab.Proc.Table.{
  Table, Proc, unused, sleeping, n_proc, addr_of, is_child, is_zombie, proc_sleep, proc_free,
  Waited, reaped, no_children, slept, wait_loop, proc_wait,
}

module _ (me : ℕ) where
  -- The processes from `lo` up to `hi` have no child of `me` that is a zombie.
  abbrev pub NoZombie : ℕ → ℕ → (ℕ → Proc) → Type 0
  NoZombie lo hi before =
      (j : ℕ) → lo ≤ j → j < hi → (is_child me (before j) && is_zombie (before j).state) ≡ false

  -- A pass over the processes from `lo` up to `hi` freed the zombie at `k`, the first one.
  pub record Reaped (lo hi k pid code : ℕ) (before : ℕ → Proc) (s' : Table) : Type 0 where
    pub range : (lo ≤ k) × (k < hi)
    pub first : NoZombie lo k before
    pub child : is_child me (before k) ≡ true
    pub dead : is_zombie (before k).state ≡ true
    pub answer : (pid ≡ (before k).pid) × (code ≡ (before k).exit_code)
    pub freed :
        (j : ℕ)
        → s'.procs j ≡ (
            if k == j
            then record (before k) { pid = 0; parent = none; state = unused }
            else before j)
    pub held : (j : ℕ) → s'.held j ≡ false

  -- It found no child; `kids` tells of a child found before.
  pub record Childless (lo hi : ℕ) (kids : Bool) (before : ℕ → Proc) (s' : Table) : Type 0 where
    pub alone : (kids ≡ false) × ((j : ℕ) → lo ≤ j → j < hi → is_child me (before j) ≡ false)
    pub procs : (j : ℕ) → s'.procs j ≡ before j
    pub held : (j : ℕ) → s'.held j ≡ false

  -- It found children, none of them a zombie, and went to sleep with its own lock only.
  pub record Asleep (lo hi : ℕ) (kids : Bool) (before : ℕ → Proc) (s' : Table) : Type 0 where
    pub child : (kids ≡ true) ⊎ ((k : ℕ) × (lo ≤ k) × (k < hi) × (is_child me (before k) ≡ true))
    pub none_dead : NoZombie lo hi before
    pub procs :
        (j : ℕ)
        → s'.procs j ≡ (
            if me == j
            then record (before me) { sleep_space = addr_of me; state = sleeping }
            else before j)
    pub held : (j : ℕ) → s'.held j ≡ (me == j)

  abbrev pub Pass : ℕ → ℕ → Bool → (ℕ → Proc) → Waited → Table → Type 0
  Pass lo hi kids before (reaped pid code) s' = (k : ℕ) × Reaped lo hi k pid code before s'
  Pass lo hi kids before no_children s' = Childless lo hi kids before s'
  Pass lo hi kids before slept s' = Asleep lo hi kids before s'

  -- The pass ends with `lifecycle_lock` released.
  abbrev pub Ends : ℕ → ℕ → Bool → Table → Run Table Waited → Type 0
  Ends lo hi kids s r =
      (w : Waited) × (s' : Table) × (r ≡ ok w s')
      × Pass lo hi kids s.procs w s'
      × (s'.lifecycle ≡ false)
      × (s'.init ≡ s.init)

  -- One more process, which is no zombie child; `kids'` is true where it is a child.
  Pass-skip :
      (i n : ℕ) (before : ℕ → Proc) (w : Waited) (s' : Table) (kids kids' : Bool)
      → (is_child me (before i) && is_zombie (before i).state) ≡ false
      → kids' ≡ (kids || is_child me (before i))
      → Pass (suc i) (suc i + n) kids' before w s'
      → Pass i (i + suc n) kids before w s'
  Pass-skip i n before (reaped pid code) s' kids kids' o q (k, r) = (
    k,
    record {
      range = omega (arith, r.range);
      first = λ j lo hi. elim (Bool-cases (i == j)) [
        | inl e ↦
            subst (λ x. (is_child me (before x) && is_zombie (before x).state) ≡ false)
              (eqb→eq i j e) o
        | inr e ↦ r.first j (ground arith) hi
      ];
      child = r.child;
      dead = r.dead;
      answer = r.answer;
      freed = r.freed;
      held = r.held;
    },
  )
  Pass-skip i n before no_children s' kids kids' o q r = record {
    alone = (
      ground (arith, r.alone, q),
      λ j lo hi. elim (Bool-cases (i == j)) [
        | inl e ↦
            subst (λ x. is_child me (before x) ≡ false) (eqb→eq i j e) (ground (arith, r.alone, q))
        | inr e ↦ r.alone.1 j (ground arith) (omega arith)
      ],
    );
    procs = r.procs;
    held = r.held;
  }
  Pass-skip i n before slept s' kids kids' o q r = record {
    child = elim r.child [
      | inl e ↦ elim (Bool-cases kids) [
        | inl t ↦ inl t
        | inr f ↦ inr (i, omega arith, omega arith, ground (arith, e, q, f))
      ]
      | inr (k, lo, hi, c) ↦ inr (k, omega arith, omega arith, c)
    ];
    none_dead = λ j lo hi. elim (Bool-cases (i == j)) [
      | inl e ↦
          subst (λ x. (is_child me (before x) && is_zombie (before x).state) ≡ false) (eqb→eq i j e)
            o
      | inr e ↦ r.none_dead j (ground arith) (omega arith)
    ];
    procs = r.procs;
    held = r.held;
  }

  abbrev looked : ℕ → Table → Table
  looked i s = record s { held = update (update s.held i true) i false }

  wait_loop-Ends :
      (n i : ℕ) (kids : Bool) (s : Table)
      → ((j : ℕ) → s.held j ≡ false)
      → s.lifecycle ≡ true
      → Ends i (i + n) kids s (wait_loop me n i kids s)
  unfolding wait_loop proc_sleep proc_free
  wait_loop-Ends zero i true s free life = (
    slept,
    record s {
      procs =
          update s.procs me (record (s.procs me) { sleep_space = addr_of me; state = sleeping });
      held = update s.held me true;
      lifecycle = false;
    },
    rw (free me) (rw life refl),
    record {
      child = inl refl;
      none_dead = λ j lo hi. absurd (omega arith);
      procs = λ j. refl;
      held = λ j. ground (arith, free j);
    },
    refl,
    refl,
  )
  wait_loop-Ends zero i false s free life = (
    no_children,
    record s { lifecycle = false },
    rw life refl,
    record { alone = (refl, λ j lo hi. absurd (omega arith)); procs = λ j. refl; held = free },
    refl,
    refl,
  )
  wait_loop-Ends (suc n) i kids s free life = elim (Bool-cases (is_child me (s.procs i))) [
    | inr e ↦
        let (w, s', run, pass, l, q) = wait_loop-Ends n (suc i) kids s free life in
        (
          w,
          s',
          rw e run,
          Pass-skip i n s.procs w s' kids kids (ground (arith, e)) (ground (arith, e)) pass,
          l,
          q,
        )
    | inl e ↦ elim (Bool-cases (is_zombie (s.procs i).state)) [
      | inl z ↦ (
        reaped (s.procs i).pid (s.procs i).exit_code,
        record s {
          procs = update s.procs i (record (s.procs i) { pid = 0; parent = none; state = unused });
          held = update (update s.held i true) i false;
          lifecycle = false;
        },
        rw (e, z, free i) (rw (eqb_refl i) (rw life refl)),
        (
          i,
          record {
            range = omega arith;
            first = λ j lo hi. absurd (omega arith);
            child = e;
            dead = z;
            answer = (refl, refl);
            freed = λ j. refl;
            held = λ j. ground (arith, free j);
          },
        ),
        refl,
        refl,
      )
      | inr z ↦
          let (w, s', run, pass, l, q) =
            wait_loop-Ends n (suc i) true (looked i s) (λ j. ground (arith, free j)) life in
          (
            w,
            s',
            rw (e, z, free i) (rw (eqb_refl i) run),
            Pass-skip i n s.procs w s' kids true (ground (arith, z)) (ground (arith, e)) pass,
            l,
            q,
          )
    ]
  ]

  -- Holding no lock, a process returns from a pass of `proc_wait`, or goes to sleep in it. If it has a zombie
  -- child, the first one in the table is freed, and its pid and exit code are the answer; if it has
  -- no child, nothing changes and the answer is -1; if it has children, none a zombie, it sleeps on
  -- its own channel with its own lock only. `lifecycle_lock` is released in every case.
  pub proc_wait-Ends :
      (s : Table)
      → ((j : ℕ) → s.held j ≡ false)
      → s.lifecycle ≡ false
      → Ends 0 n_proc false s (proc_wait me s)
  unfolding proc_wait
  proc_wait-Ends s free idle =
      let (w, s', run, pass, l, q) =
        wait_loop-Ends n_proc 0 false (record s { lifecycle = true }) free refl in
      (w, s', rw idle run, pass, l, q)
