-- ===== src/Proc/Table/Wakeup.antt =====
-- What `proc_wakeup` does to the table.
use biglab.Prelude.{
  eqb_refl, ℕ, zero, suc, ◌+◌, ◌≤◌, ◌<◌, ◌≡◌, refl, ◌≢◌, ◌∙◌, ap, Bool, true, false, ◌&&◌, not,
  ◌==◌, ltb, leb, if◌then◌else◌, update, arith, Bool-cases, inl, inr, subst, eqb→eq,
}
use biglab.Prelude.Run.{ok, panic}
use biglab.Proc.Table.{Table, n_proc, woken, wakeup_one, wakeup_loop, proc_wakeup}

-- The processes from `lo` up to `hi` but `me`.
unfoldable pub chosen : ℕ → ℕ → ℕ → ℕ → Bool
chosen me lo hi j = (leb lo j && ltb j hi) && not (j == me)

-- From `s` to `s'` the processes from `lo` up to `hi` but `me` are woken if they sleep on `chan`;
-- nothing else changes.
pub record Woken (me chan lo hi : ℕ) (s s' : Table) : Type 0 where
  pub procs :
      (j : ℕ) → s'.procs j ≡ (if chosen me lo hi j then woken chan (s.procs j) else s.procs j)
  pub held : (j : ℕ) → s'.held j ≡ s.held j
  pub init : s'.init ≡ s.init
  pub lifecycle : s'.lifecycle ≡ s.lifecycle

abbrev one : ℕ → ℕ → ℕ → Table → Table
one me chan i s = if i == me then s else (record s {
  procs = update s.procs i (woken chan (s.procs i));
  held = update (update s.held i true) i false;
})

wakeup_one-run :
    (me chan i : ℕ) (s : Table)
    → (i ≢ me → s.held i ≡ false)
    → wakeup_one me chan i s ≡ ok tt (one me chan i s)
unfolding wakeup_one
wakeup_one-run me chan i s free = elim (Bool-cases (i == me)) [
  | inl e ↦ rw e refl
  | inr e ↦ rw (e, free (ground arith), eqb_refl i) refl
]

one-Woken :
    (me chan i : ℕ) (s : Table)
    → (i ≢ me → s.held i ≡ false)
    → Woken me chan i (suc i) s (one me chan i s)
one-Woken me chan i s free = elim (Bool-cases (i == me)) [
  | inl e ↦ rw e (record {
    procs = λ j.
        let c : chosen me i (suc i) j ≡ false = (unfold chosen in ground (arith, e)) in rw c refl;
    held = λ j. refl;
    init = refl;
    lifecycle = refl;
  })
  | inr e ↦ rw e (record {
    procs = λ j. elim (Bool-cases (i == j)) [
      | inl f ↦
          subst
            (λ x.
              update s.procs i (woken chan (s.procs i)) x
              ≡ (if chosen me i (suc i) x then woken chan (s.procs x) else s.procs x))
            (eqb→eq i j f)
            (let c : chosen me i (suc i) i ≡ true = (unfold chosen in ground (arith, e)) in
              rw (eqb_refl i, c) refl)
      | inr f ↦
          let c : chosen me i (suc i) j ≡ false = (unfold chosen in ground (arith, f)) in
          rw (f, c) refl
    ];
    held = λ j. ground (arith, free (ground arith));
    init = refl;
    lifecycle = refl;
  })
]

Woken-trans :
    (me chan lo mid hi : ℕ) (s t u : Table)
    → lo ≤ mid
    → mid ≤ hi
    → Woken me chan lo mid s t
    → Woken me chan mid hi t u
    → Woken me chan lo hi s u
Woken-trans me chan lo mid hi s t u l h v w = record {
  procs = λ j. elim (Bool-cases (ltb j mid)) [
    | inl e ↦
        let c : chosen me mid hi j ≡ false = (unfold chosen in ground arith) in
        let d : chosen me lo mid j ≡ chosen me lo hi j = (unfold chosen in ground arith) in
        (rw c at (w.procs j)) ∙ (rw d at (v.procs j))
    | inr e ↦
        let c : chosen me mid hi j ≡ chosen me lo hi j = (unfold chosen in ground arith) in
        let d : chosen me lo mid j ≡ false = (unfold chosen in ground arith) in
        rw (c, (rw d at (v.procs j))) at (w.procs j)
  ];
  held = λ j. w.held j ∙ v.held j;
  init = w.init ∙ v.init;
  lifecycle = w.lifecycle ∙ v.lifecycle;
}

wakeup_loop-Woken :
    (me chan n i : ℕ) (s : Table)
    → ((j : ℕ) → i ≤ j → j < i + n → j ≢ me → s.held j ≡ false)
    → (s' : Table) × (wakeup_loop me chan n i s ≡ ok tt s') × Woken me chan i (i + n) s s'
unfolding wakeup_loop
wakeup_loop-Woken me chan zero i s free = (
  s,
  refl,
  record {
    procs =
        λ j. let c : chosen me i (i + 0) j ≡ false = (unfold chosen in ground arith) in rw c refl;
    held = λ j. refl;
    init = refl;
    lifecycle = refl;
  },
)
wakeup_loop-Woken me chan (suc n) i s free =
    let mine = λ (ne : i ≢ me). free i (omega arith) (omega arith) ne in
    let first = one-Woken me chan i s mine in
    let (s', e, w) =
      wakeup_loop-Woken me chan n (suc i) (one me chan i s)
        (λ j lo hi ne. first.held j ∙ free j (omega arith) (omega arith) ne) in
    let shift : suc i + n ≡ i + suc n = omega arith in
    (
      s',
      rw (wakeup_one-run me chan i s mine, e) refl,
      Woken-trans me chan i (suc i) (i + suc n) s (one me chan i s) s' (omega arith) (omega arith)
          first (subst (λ k. Woken me chan (suc i) k (one me chan i s) s') shift w),
    )

-- Where this CPU holds no other process's lock, `proc_wakeup` returns, and it makes runnable exactly
-- the other processes that sleep on the channel; nothing else changes, and the locks are held as before.
pub proc_wakeup-Woken :
    (me chan : ℕ) (s : Table)
    → ((j : ℕ) → j < n_proc → j ≢ me → s.held j ≡ false)
    → (s' : Table) × (proc_wakeup me chan s ≡ ok tt s') × Woken me chan 0 n_proc s s'
unfolding proc_wakeup
proc_wakeup-Woken me chan s free = wakeup_loop-Woken me chan n_proc 0 s (λ j lo hi ne. free j hi ne)

wakeup_loop-panic :
    (me chan n i k : ℕ) (s : Table)
    → i ≤ k
    → k < i + n
    → k ≢ me
    → s.held k ≡ true
    → wakeup_loop me chan n i s ≡ panic
unfolding wakeup_loop
wakeup_loop-panic me chan zero i k s lo hi ne h = absurd (omega arith)
wakeup_loop-panic me chan (suc n) i k s lo hi ne h = elim (Bool-cases (i == me)) [
  | inl e ↦
      let stay : wakeup_one me chan i s ≡ ok tt s = (unfold wakeup_one in rw e refl) in
      rw (stay, wakeup_loop-panic me chan n (suc i) k s (ground arith) (omega arith) ne h) refl
  | inr e ↦ elim (Bool-cases (s.held i)) [
    | inl f ↦
        let stop : wakeup_one me chan i s ≡ panic = (unfold wakeup_one in rw (e, f) refl) in
        rw stop refl
    | inr f ↦
        let differ : (i == k) ≡ false = ground (arith, h, f, ap s.held) in
        rw
          (
            wakeup_one-run me chan i s (λ _. f),
            wakeup_loop-panic me chan n (suc i) k (one me chan i s) (ground arith) (omega arith) ne
                (rw (e, differ) h),
          )
          refl
  ]
]

-- Where this CPU holds the lock of some other process of the table, `proc_wakeup` panics: it takes
-- that lock again.
pub proc_wakeup-panic :
    (me chan k : ℕ) (s : Table)
    → k < n_proc
    → k ≢ me
    → s.held k ≡ true
    → proc_wakeup me chan s ≡ panic
unfolding proc_wakeup
proc_wakeup-panic me chan k s hi ne h = wakeup_loop-panic me chan n_proc 0 k s (omega arith) hi ne h
