-- ===== src/Lock/Sleep/Steps.antt =====
-- Every step of a process keeps the invariant of a sleeplock.
use biglab.Prelude.{
  ℕ, suc, ◌≡◌, ◌≤◌, ◌<◌, refl, Bool, true, false, arith, ◌==◌, ltb, if◌then◌else◌, Option, none,
  some, Bool-cases, ◌⊎◌, inl, inr, eqb_refl,
}
use biglab.Proc.Table.{n_proc}
use biglab.Lock.Sleep.{
  Stage, Sleeplock, away, testing, dozing, asleep, ready, taken, holding, clearing, waking,
  advance_from, set_stage, take_spin, drop_spin,
}
use biglab.Lock.Sleep.Waiters.{
  Inv, moved, changed, Awaited, Awaited-set, is, is_some, waits, has_lock, has_spin, in_wakeup,
}

sole : (o : Option ℕ) (p d : ℕ) → is o p ≡ true → (p == d) ≡ false → is o d ≡ false
sole none p d e ne = refl
sole (some a) p d e ne = ground (arith, e, ne)

pub nobody : (o : Option ℕ) (d : ℕ) → is_some o ≡ false → is o d ≡ false
nobody none d e = refl
nobody (some a) d e = ground arith

pub only : (o : Option ℕ) (p q : ℕ) → is o p ≡ true → is o q ≡ true → p ≡ q
only none p q e f = ground arith
only (some a) p q e f = ground (arith, e, f)

pub somebody : (o : Option ℕ) (p : ℕ) → is o p ≡ true → is_some o ≡ true
somebody none p e = ground arith
somebody (some a) p e = refl

pub in_wakeup-has_spin : (st : Stage) → in_wakeup st ≡ true → has_spin st ≡ true
in_wakeup-has_spin (waking k) e = refl
in_wakeup-has_spin away e = ground arith
in_wakeup-has_spin testing e = ground arith
in_wakeup-has_spin dozing e = ground arith
in_wakeup-has_spin asleep e = ground arith
in_wakeup-has_spin ready e = ground arith
in_wakeup-has_spin taken e = ground arith
in_wakeup-has_spin holding e = ground arith
in_wakeup-has_spin clearing e = ground arith

module _ (pid_of : ℕ → ℕ) (s : Sleeplock) (p : ℕ) where
  -- The same for a process that was not in its `proc_wakeup` and does not give the lock back.
  pub stayed :
      (owner holder owner' holder' : Option ℕ) (st : Stage) (spin lock : Bool) (pid : ℕ)
      → Inv pid_of owner holder s
      → in_wakeup (s.stage p) ≡ false
      → (s.is_locked ≡ true → lock ≡ true)
      → spin ≡ is_some owner'
      → ((d : ℕ) → (if p == d then has_spin st else has_spin (s.stage d)) ≡ is owner' d)
      → lock ≡ is_some holder'
      → ((d : ℕ) → (if p == d then has_lock st else has_lock (s.stage d)) ≡ is holder' d)
      → ((d : ℕ) → is holder' d ≡ true → pid ≡ pid_of d)
      → (waits st ≡ true → Awaited (changed s p st spin lock pid) p × (p < n_proc))
      → Inv pid_of owner' holder' (changed s p st spin lock pid)
  stayed owner holder owner' holder' st spin lock pid v nw keeps e o l h i new =
      moved pid_of s p owner holder owner' holder' st spin lock pid v e o l h i new
        (λ d f w. Awaited-set pid_of s p st spin lock pid nw keeps d (v.waiters d w))

  abbrev pub Advanced : Stage → Type 0
  Advanced st =
      (owner' : Option ℕ) × (holder' : Option ℕ) × Inv pid_of owner' holder'
        (advance_from pid_of st p s)

  -- The process takes the spinlock, or finds it taken.
  pub enter-Inv :
      (owner holder : Option ℕ) (from to : Stage)
      → Inv pid_of owner holder s
      → s.stage p ≡ from
      → in_wakeup from ≡ false
      → has_spin to ≡ true
      → has_lock to ≡ has_lock from
      → waits to ≡ false
      → (owner' : Option ℕ) × (holder' : Option ℕ) × Inv pid_of owner' holder' (take_spin p to s)
  enter-Inv owner holder from to v e nw sp lk wt = elim (Bool-cases s.spin) [
    | inl f ↦ (owner, holder, simp (f) v)
    | inr f ↦ (
      some p,
      holder,
      simp (f) (
          stayed owner holder (some p) holder to true s.is_locked s.pid v (rw e nw) (λ x. x) refl
            (λ d. ground (arith, sp, nobody owner d, v.owners d, v.spin, f)) v.locked
            (λ d. ground (arith, lk, e, v.holders d)) v.id (λ x. ground (arith, x, wt))),
    )
  ]

  -- The process drops the spinlock.
  pub leave-Inv :
      (owner holder : Option ℕ) (from to : Stage)
      → Inv pid_of owner holder s
      → s.stage p ≡ from
      → in_wakeup from ≡ false
      → has_spin from ≡ true
      → has_spin to ≡ false
      → has_lock to ≡ has_lock from
      → (waits to ≡ true → (s.is_locked ≡ true) × (p < n_proc))
      → Inv pid_of none holder (drop_spin p to s)
  leave-Inv owner holder from to v e nw sp sp' lk new =
      stayed owner holder none holder to false s.is_locked s.pid v (rw e nw) (λ x. x) refl
        (λ d. ground (arith, sp', v.owners d, sole owner p d (ground (arith, v.owners p, e, sp))))
        v.locked (λ d. ground (arith, lk, e, v.holders d)) v.id (λ x. (inl (new x).0, (new x).1))

  -- The lock is given back, and every process that waits is before the round 0 of `proc_wakeup`.
  pub clearing-Inv :
      (owner holder : Option ℕ)
      → Inv pid_of owner holder s
      → s.stage p ≡ clearing
      → Inv pid_of owner none (advance_from pid_of clearing p s)
  clearing-Inv owner holder v e =
      moved pid_of s p owner holder owner none (waking 0) s.spin false 0 v v.spin
        (λ d. ground (arith, v.owners d, e)) refl
        (λ d. ground (arith, v.holders d, sole holder p d (ground (arith, v.holders p, e))))
        (λ d x. ground arith) (λ x. ground arith)
        (λ d f w. inr (p, rw (eqb_refl p) refl, rw (eqb_refl p) (omega arith)))

  -- A waiter has not been passed.
  Awaited-waking :
      (owner holder : Option ℕ) (k d : ℕ)
      → Inv pid_of owner holder s
      → s.stage p ≡ waking k
      → waits (s.stage d) ≡ true
      → (s.is_locked ≡ true) ⊎ (k ≤ d)
  Awaited-waking owner holder k d v e w = elim (v.waiters d w) [
    | inl l ↦ inl l
    | inr (q, iw, le) ↦
        let here : is owner p ≡ true = ground (arith, v.owners p, e) in
        let there : is owner q ≡ true =
          ground (arith, v.owners q, in_wakeup-has_spin (s.stage q) iw) in
        let same : p ≡ q = only owner p q here there in inr (ground (arith, same, e, le))
  ]

  -- The round of `proc_wakeup` at a process that does not wait.
  pub passed :
      (owner holder : Option ℕ) (k : ℕ)
      → Inv pid_of owner holder s
      → s.stage p ≡ waking k
      → waits (s.stage k) ≡ false
      → Inv pid_of owner holder (set_stage p (waking (suc k)) s)
  passed owner holder k v e nw =
      moved pid_of s p owner holder owner holder (waking (suc k)) s.spin s.is_locked s.pid v v.spin
        (λ d. ground (arith, v.owners d, e)) v.locked (λ d. ground (arith, v.holders d, e)) v.id
        (λ x. ground arith)
        (λ d f w. elim (Awaited-waking owner holder k d v e w) [
          | inl l ↦ inl l
          | inr le ↦ inr (p, rw (eqb_refl p) refl, rw (eqb_refl p) (further d le w))
        ])
    where
      further : (d : ℕ) → k ≤ d → waits (s.stage d) ≡ true → suc k ≤ d
      further d le w = elim (Bool-cases (k == d)) [
        | inl f ↦ ground (arith, nw, w, f)
        | inr f ↦ ground (arith, le, f)
      ]

  -- A process that sleeps is made RUNNABLE.
  pub woken-Inv :
      (owner holder : Option ℕ)
      → Inv pid_of owner holder s
      → s.stage p ≡ asleep
      → Inv pid_of owner holder (set_stage p ready s)
  woken-Inv owner holder v e =
      stayed owner holder owner holder ready s.spin s.is_locked s.pid v (rw e refl) (λ x. x) v.spin
        (λ d. ground (arith, v.owners d, e)) v.locked (λ d. ground (arith, v.holders d, e)) v.id
        (λ x. ground arith)

  -- The end of `proc_wakeup`, when it has passed every process.
  pub ended-Inv :
      (owner holder : Option ℕ) (k : ℕ)
      → Inv pid_of owner holder s
      → s.stage p ≡ waking k
      → ltb k n_proc ≡ false
      → Inv pid_of none holder (drop_spin p away s)
  ended-Inv owner holder k v e end =
      moved pid_of s p owner holder none holder away false s.is_locked s.pid v refl
        (λ d. ground (arith, v.owners d, sole owner p d (ground (arith, v.owners p, e)))) v.locked
        (λ d. ground (arith, v.holders d, e)) v.id (λ x. ground arith)
        (λ d f w. elim (Awaited-waking owner holder k d v e w) [
          | inl l ↦ inl l
          | inr le ↦ ground (arith, v.below d w, end, le)
        ])
