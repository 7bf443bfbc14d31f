-- ===== src/Lock/Sleep/Waiters.antt =====
-- The invariant of a sleeplock: who has its spinlock, who has the lock, and what each sleeper waits for.
use biglab.Prelude.{
  ℕ, ◌≡◌, ◌≤◌, ◌<◌, Bool, true, false, arith, ◌==◌, if◌then◌else◌, Option, none, some, Bool-cases,
  ◌⊎◌, inl, inr, update, eqb→eq, subst,
}
use biglab.Proc.Table.{n_proc}
use biglab.Lock.Sleep.{
  Stage, Sleeplock, away, testing, dozing, asleep, ready, taken, holding, clearing, waking,
}

-- The stages with the spinlock, those with the lock, and those in which the process waits to be woken.
abbrev pub has_spin : Stage → Bool
has_spin away = false
has_spin testing = true
has_spin dozing = false
has_spin asleep = false
has_spin ready = false
has_spin taken = true
has_spin holding = false
has_spin clearing = true
has_spin (waking k) = true

abbrev pub has_lock : Stage → Bool
has_lock away = false
has_lock testing = false
has_lock dozing = false
has_lock asleep = false
has_lock ready = false
has_lock taken = true
has_lock holding = true
has_lock clearing = true
has_lock (waking k) = false

abbrev pub waits : Stage → Bool
waits away = false
waits testing = false
waits dozing = true
waits asleep = true
waits ready = false
waits taken = false
waits holding = false
waits clearing = false
waits (waking k) = false

-- The index that a `proc_wakeup` has reached; 0 elsewhere.
abbrev pub reached : Stage → ℕ
reached (waking k) = k
reached _ = 0

abbrev pub in_wakeup : Stage → Bool
in_wakeup (waking k) = true
in_wakeup _ = false

abbrev pub is : Option ℕ → ℕ → Bool
is none c = false
is (some d) c = d == c

abbrev pub is_some : Option ℕ → Bool
is_some none = false
is_some (some c) = true

-- The lock is taken, or a process is in its `proc_wakeup` and has not passed `p`.
abbrev pub Awaited : Sleeplock → ℕ → Type 0
Awaited s p =
    (s.is_locked ≡ true) ⊎ ((q : ℕ) × (in_wakeup (s.stage q) ≡ true) × (reached (s.stage q) ≤ p))

abbrev pub changed : Sleeplock → ℕ → Stage → Bool → Bool → ℕ → Sleeplock
changed s p st spin lock pid = record {
  stage = update s.stage p st;
  spin = spin;
  is_locked = lock;
  pid = pid;
}

module _ (pid_of : ℕ → ℕ) where
  -- `owner` has the spinlock, and `holder` the lock.
  pub record Inv (owner holder : Option ℕ) (s : Sleeplock) : Type 0 where
    pub spin : s.spin ≡ is_some owner
    pub owners : (p : ℕ) → has_spin (s.stage p) ≡ is owner p
    pub locked : s.is_locked ≡ is_some holder
    pub holders : (p : ℕ) → has_lock (s.stage p) ≡ is holder p
    pub id : (p : ℕ) → is holder p ≡ true → s.pid ≡ pid_of p
    pub waiters : (p : ℕ) → waits (s.stage p) ≡ true → Awaited s p
    pub below : (p : ℕ) → waits (s.stage p) ≡ true → p < n_proc

  module _ (s : Sleeplock) (p : ℕ) where
    -- A waiter elsewhere still has what it waits for if `p` was not in its `proc_wakeup`.
    pub Awaited-set :
        (st : Stage) (spin : Bool) (lock : Bool) (pid : ℕ)
        → in_wakeup (s.stage p) ≡ false
        → (s.is_locked ≡ true → lock ≡ true)
        → (d : ℕ) → Awaited s d
        → Awaited (changed s p st spin lock pid) d
    Awaited-set st spin lock pid not_waking keeps d (inl e) = inl (keeps e)
    Awaited-set st spin lock pid not_waking keeps d (inr (q, w, le)) = elim (Bool-cases (p == q)) [
      | inl f ↦ ground (arith, f)
      | inr f ↦ inr (q, ground (arith, f), ground (arith, f))
    ]

    -- A step that changes the stage of `p`, and the lock. `new` is what `p` waits for afterwards.
    pub moved :
        (owner holder owner' holder' : Option ℕ) (st : Stage) (spin lock : Bool) (pid : ℕ)
        → Inv owner holder s
        → spin ≡ is_some owner'
        → ((d : ℕ) → (if p == d then has_spin st else has_spin (s.stage d)) ≡ is owner' d)
        → lock ≡ is_some holder'
        → ((d : ℕ) → (if p == d then has_lock st else has_lock (s.stage d)) ≡ is holder' d)
        → ((d : ℕ) → is holder' d ≡ true → pid ≡ pid_of d)
        → (waits st ≡ true → Awaited (changed s p st spin lock pid) p × (p < n_proc))
        → ((d : ℕ)
            → (p == d) ≡ false
            → waits (s.stage d) ≡ true
            → Awaited (changed s p st spin lock pid) d)
        → Inv owner' holder' (changed s p st spin lock pid)
    moved owner holder owner' holder' st spin lock pid v e o l h i new others = record {
      spin = e;
      owners = λ d. ground (arith, o d);
      locked = l;
      holders = λ d. ground (arith, h d);
      id = i;
      waiters = λ d w. elim (Bool-cases (p == d)) [
        | inl f ↦ subst (Awaited (changed s p st spin lock pid)) (eqb→eq p d f) (new (rw f at w)).0
        | inr f ↦ others d f (rw f at w)
      ];
      below = λ d w. elim (Bool-cases (p == d)) [
        | inl f ↦ ground (arith, f, (new (rw f at w)).1)
        | inr f ↦ v.below d (rw f at w)
      ];
    }
