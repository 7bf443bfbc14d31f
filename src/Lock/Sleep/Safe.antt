-- ===== src/Lock/Sleep/Safe.antt =====
-- Every interleaving of the processes' steps on a sleeplock.
use biglab.Prelude.{
  ℕ, ◌≡◌, ◌≤◌, ◌<◌, refl, ◌≢◌, Bool, true, false, arith, ◌==◌, ltb, if◌then◌else◌, Option, none,
  some, Bool-cases, ◌⊎◌, inl, inr, List, [], ◌∷◌, ◌∙◌, subst, eqb→eq, eqb_refl,
}
use biglab.Proc.Table.{n_proc}
use biglab.Lock.Sleep.{
  Stage, Sleeplock, away, testing, dozing, asleep, ready, taken, holding, clearing, waking, advance,
  set_stage, wake, sleeplock_init, sleeplock_holding, interleave,
}
use biglab.Lock.Sleep.Waiters.{Inv, is, is_some, Awaited-set, waits, has_lock, in_wakeup, reached}
use biglab.Lock.Sleep.Steps.{
  stayed, enter-Inv, leave-Inv, clearing-Inv, passed, woken-Inv, ended-Inv, Advanced, nobody, only,
  somebody,
}

if_true : (b : Bool) (x y : Sleeplock) → b ≡ true → x ≡ (if b then x else y)
if_true b x y e = rw e refl

-- Every process of the list is one of the table.
abbrev pub InTable : List ℕ → Type 0
InTable [] = Unit
InTable (p ∷ ps) = (p < n_proc) × InTable ps

differ : (st : Stage) {k : ℕ} → st ≡ waking k → st ≢ asleep
differ st e f = ground (arith, e, f)

module _ (pid_of : ℕ → ℕ) where
  module _ (s : Sleeplock) (p : ℕ) where
    wake-Inv :
        (owner holder : Option ℕ) (k : ℕ)
        → Inv pid_of owner holder s
        → s.stage p ≡ waking k
        → (st : Stage) → s.stage k ≡ st
        → Inv pid_of owner holder (wake p k st s)
    wake-Inv owner holder k v e dozing f = v
    wake-Inv owner holder k v e asleep f =
        let s' : Sleeplock = set_stage k ready s in
        passed pid_of s' p owner holder k (woken-Inv pid_of s k owner holder v f)
          (elim (Bool-cases (k == p)) [
            | inl g ↦ absurd (differ (s.stage p) e (rw⁻¹ (eqb→eq k p g) f))
            | inr g ↦ rw g e
          ])
          (rw (eqb_refl k) refl)
    wake-Inv owner holder k v e away f = passed pid_of s p owner holder k v e (rw f refl)
    wake-Inv owner holder k v e testing f = passed pid_of s p owner holder k v e (rw f refl)
    wake-Inv owner holder k v e ready f = passed pid_of s p owner holder k v e (rw f refl)
    wake-Inv owner holder k v e taken f = passed pid_of s p owner holder k v e (rw f refl)
    wake-Inv owner holder k v e holding f = passed pid_of s p owner holder k v e (rw f refl)
    wake-Inv owner holder k v e clearing f = passed pid_of s p owner holder k v e (rw f refl)
    wake-Inv owner holder k v e (waking j) f = passed pid_of s p owner holder k v e (rw f refl)

    round-Inv :
        (owner holder : Option ℕ) (k : ℕ)
        → Inv pid_of owner holder s
        → s.stage p ≡ waking k
        → Advanced pid_of s p (waking k)
    round-Inv owner holder k v e = elim (Bool-cases (ltb k n_proc)) [
      | inr end ↦ (none, holder, rw end (ended-Inv pid_of s p owner holder k v e end))
      | inl go ↦ elim (Bool-cases (k == p)) [
        | inl me ↦ (
          owner,
          holder,
          rw (go, me) (passed pid_of s p owner holder k v e (ground (arith, e, me))),
        )
        | inr other ↦ (owner, holder, rw (go, other) (wake-Inv owner holder k v e (s.stage k) refl))
      ]
    ]

    advance_from-Inv :
        (owner holder : Option ℕ)
        → Inv pid_of owner holder s
        → p < n_proc
        → (st : Stage) → s.stage p ≡ st
        → Advanced pid_of s p st
    advance_from-Inv owner holder v lt away e =
        enter-Inv pid_of s p owner holder away testing v e refl refl refl refl
    advance_from-Inv owner holder v lt testing e = elim (Bool-cases s.is_locked) [
      | inl l ↦ (
        none,
        holder,
        subst (Inv pid_of none holder) (if_true s.is_locked _ _ l) (
            leave-Inv pid_of s p owner holder testing dozing v e refl refl refl refl
              (λ w. (l, lt))),
      )
      | inr l ↦ (
        owner,
        some p,
        simp (l) (
            stayed pid_of s p owner holder owner (some p) taken s.spin true (pid_of p) v (rw e refl)
              (λ x. refl) v.spin (λ d. ground (arith, v.owners d, e)) refl
              (λ d. ground (arith, v.holders d, v.locked, nobody holder d))
              (λ d x. ground (arith, x)) (λ x. ground arith)),
      )
    ]
    advance_from-Inv owner holder v lt dozing e = (
      owner,
      holder,
      stayed pid_of s p owner holder owner holder asleep s.spin s.is_locked s.pid v (rw e refl)
          (λ x. x) v.spin (λ d. ground (arith, v.owners d, e)) v.locked
          (λ d. ground (arith, v.holders d, e)) v.id
          (λ x.
            let w : waits (s.stage p) ≡ true = rw e refl in
            (
              Awaited-set pid_of s p asleep s.spin s.is_locked s.pid (rw e refl) (λ y. y) p
                  (v.waiters p w),
              lt,
            )),
    )
    advance_from-Inv owner holder v lt asleep e = (owner, holder, v)
    advance_from-Inv owner holder v lt ready e =
        enter-Inv pid_of s p owner holder ready testing v e refl refl refl refl
    advance_from-Inv owner holder v lt taken e = (
      none,
      holder,
      leave-Inv pid_of s p owner holder taken holding v e refl refl refl refl (λ w. ground arith),
    )
    advance_from-Inv owner holder v lt holding e =
        enter-Inv pid_of s p owner holder holding clearing v e refl refl refl refl
    advance_from-Inv owner holder v lt clearing e =
        (owner, none, clearing-Inv pid_of s p owner holder v e)
    advance_from-Inv owner holder v lt (waking k) e = round-Inv owner holder k v e

  -- While `p` is behind sleeplock_acquire, it is alone there, and sleeplock_holding is true for it and false for
  -- a process with another pid. While `p` sleeps, another process has the lock, or is in its proc_wakeup and
  -- has not passed `p`.
  pub record Safe (s : Sleeplock) : Type 0 where
    pub alone : (p q : ℕ) → s.stage p ≡ holding → s.stage q ≡ holding → p ≡ q
    pub held : (p : ℕ) → s.stage p ≡ holding → sleeplock_holding pid_of p s ≡ true
    pub by_none_else :
        (p q : ℕ) → s.stage p ≡ holding → pid_of q ≢ pid_of p → sleeplock_holding pid_of q s ≡ false
    pub awaited :
        (p : ℕ)
        → s.stage p ≡ asleep
        → (q : ℕ) × ((has_lock (s.stage q) ≡ true)
            ⊎ ((in_wakeup (s.stage q) ≡ true) × (reached (s.stage q) ≤ p)))

  Inv-Safe : (owner holder : Option ℕ) (s : Sleeplock) → Inv pid_of owner holder s → Safe s
  Inv-Safe owner holder s v = record {
    alone = λ p q e f. only holder p q (owned p e) (owned q f);
    held = λ p e. ground (arith, mine p e, lock p e);
    by_none_else = λ p q e ne. ground (arith, mine p e, ne);
    awaited = λ p e. elim (v.waiters p (rw e refl)) [
      | inl l ↦ someone holder (λ q. v.holders q) (rw⁻¹ v.locked l)
      | inr (q, w, le) ↦ (q, inr (w, le))
    ];
  }
    where
      owned : (p : ℕ) → s.stage p ≡ holding → is holder p ≡ true
      owned p e = ground (arith, v.holders p, e)

      mine : (p : ℕ) → s.stage p ≡ holding → s.pid ≡ pid_of p
      mine p e = v.id p (owned p e)

      lock : (p : ℕ) → s.stage p ≡ holding → s.is_locked ≡ true
      lock p e = ground (arith, v.locked, somebody holder p (owned p e))

      someone :
          {R : ℕ → Type 0} (h : Option ℕ)
          → ((q : ℕ) → has_lock (s.stage q) ≡ is h q)
          → is_some h ≡ true
          → (q : ℕ) × ((has_lock (s.stage q) ≡ true) ⊎ R q)
      someone none hs e = ground arith
      someone (some a) hs e = (a, inl (hs a ∙ eqb_refl a))

  interleave-Inv :
      (ps : List ℕ) (owner holder : Option ℕ) (s : Sleeplock)
      → InTable ps
      → Inv pid_of owner holder s
      → Safe (interleave pid_of ps s)
  unfolding interleave advance
  interleave-Inv [] owner holder s b v = Inv-Safe owner holder s v
  interleave-Inv (p ∷ ps) owner holder s b v =
      let (owner', holder', v') = advance_from-Inv s p owner holder v b.0 (s.stage p) refl in
      interleave-Inv ps owner' holder' _ b.1 v'

  -- However the processes below N_PROC take their steps from a new lock: a process behind sleeplock_acquire is alone
  -- there, and sleeplock_holding is true for it and false for every process with another pid; and while a
  -- process sleeps, another one has the lock or is in a proc_wakeup that has not passed the sleeper, so that no
  -- wakeup is lost.
  pub interleave-Safe : (ps : List ℕ) → InTable ps → Safe (interleave pid_of ps sleeplock_init)
  interleave-Safe ps b = interleave-Inv ps none none sleeplock_init b (record {
    spin = refl;
    owners = λ p. refl;
    locked = refl;
    holders = λ p. refl;
    id = λ p e. ground arith;
    waiters = λ p w. ground arith;
    below = λ p w. ground arith;
  })
