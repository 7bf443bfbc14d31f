-- ===== src/Lock/Spin/Exclusion.antt =====
-- At most one CPU is inside the lock, and no step of the lock's code panics.
use biglab.Prelude.{
  eqb_refl, ℕ, ◌≡◌, refl, Bool, true, false, arith, ◌==◌, if◌then◌else◌, Option, none, some,
  Bool-cases, inl, inr, update, subst, eqb→eq,
}
use biglab.Prelude.Run.{ok}
use biglab.Lock.Spin.{
  Cpu, push_off, Spinlock, Place, World, step, outside, checking, spinning, owning, inside,
  clearing, unlocking, popping, goto,
}
use biglab.Lock.Spin.Nesting.{IsNested, push_off-IsNested, pop_off-IsNested}

-- From its test-and-set until it clears `locked` a CPU owns the lock.
abbrev pub owns : Place → Bool
owns outside = false
owns checking = false
owns spinning = false
owns owning = true
owns inside = true
owns clearing = true
owns unlocking = true
owns popping = false

-- Its cpuid stands in the lock.
abbrev pub named : Place → Bool
named inside = true
named clearing = true
named outside = false
named checking = false
named spinning = false
named owning = false
named unlocking = false
named popping = false

named-owns : (p : Place) → owns p ≡ false → named p ≡ false
named-owns outside h = refl
named-owns checking h = refl
named-owns spinning h = refl
named-owns owning h = refl
named-owns inside h = h
named-owns clearing h = h
named-owns unlocking h = refl
named-owns popping h = refl

abbrev pub level : Place → ℕ
level outside = 0
level checking = 1
level spinning = 1
level owning = 1
level inside = 1
level clearing = 1
level unlocking = 1
level popping = 1

abbrev pub is_some : Option ℕ → Bool
is_some none = false
is_some (some c) = true

abbrev pub is : Option ℕ → ℕ → Bool
is none c = false
is (some d) c = d == c

-- `owner` is the CPU that owns the lock; `base` is the interrupt state of each CPU outside it.
pub record Inv (base : ℕ → Bool) (owner : Option ℕ) (w : World) : Type 0 where
  pub locked : w.lock.locked ≡ is_some owner
  pub owners : (c : ℕ) → owns (w.place c) ≡ is owner c
  pub id : (c : ℕ) → is w.lock.cpuid c ≡ named (w.place c)
  pub nested : (c : ℕ) → IsNested (base c) (level (w.place c)) (w.cpus c)

module _ (base : ℕ → Bool) (w : World) (c : ℕ) where
  -- Another CPU is where it was.
  IsNested-update :
      (p : Place) (cpu : Cpu)
      → ((d : ℕ) → IsNested (base d) (level (w.place d)) (w.cpus d))
      → IsNested (base c) (level p) cpu
      → (d : ℕ) → IsNested (base d) (level (update w.place c p d)) (update w.cpus c cpu d)
  IsNested-update p cpu all new d = elim (Bool-cases (c == d)) [
    | inl e ↦
        subst
          (λ x.
            IsNested (base x) (level (if c == x then p else w.place x))
              (if c == x then cpu else w.cpus x))
          (eqb→eq c d e) (rw (eqb_refl c) new)
    | inr e ↦ rw e (all d)
  ]

  IsNested-goto :
      (p : Place)
      → ((d : ℕ) → IsNested (base d) (level (w.place d)) (w.cpus d))
      → level (w.place c) ≡ level p
      → (d : ℕ) → IsNested (base d) (level (update w.place c p d)) (w.cpus d)
  IsNested-goto p all same d = elim (Bool-cases (c == d)) [
    | inl e ↦
        subst (λ x. IsNested (base x) (level (if c == x then p else w.place x)) (w.cpus x))
          (eqb→eq c d e)
          (rw (eqb_refl c) (subst (λ n. IsNested (base c) n (w.cpus c)) same (all c)))
    | inr e ↦ rw e (all d)
  ]

  -- A change of the place, of the CPU's own state and of the lock keeps the invariant.
  moved :
      (owner' : Option ℕ) (p : Place) (cpus : ℕ → Cpu) (lk : Spinlock)
      → lk.locked ≡ is_some owner'
      → ((d : ℕ) → (if c == d then owns p else owns (w.place d)) ≡ is owner' d)
      → ((d : ℕ) → is lk.cpuid d ≡ (if c == d then named p else named (w.place d)))
      → ((d : ℕ) → IsNested (base d) (level (update w.place c p d)) (cpus d))
      → Inv base owner' (record { place = update w.place c p; cpus = cpus; lock = lk })
  moved owner' p cpus lk l o i n = record {
    locked = l;
    owners = λ d. ground (arith, o d);
    id = λ d. ground (arith, i d);
    nested = n;
  }

  -- No other CPU owns the lock if `c` does.
  sole :
      (owner : Option ℕ)
      → Inv base owner w
      → owns (w.place c) ≡ true
      → (d : ℕ) → (c == d) ≡ false
      → owns (w.place d) ≡ false
  sole none v o d ne = ground (arith, v.owners c)
  sole (some a) v o d ne = ground (arith, v.owners c, v.owners d)

  alone :
      (owner : Option ℕ)
      → Inv base owner w
      → owns (w.place c) ≡ true
      → (d : ℕ) → (c == d) ≡ false
      → named (w.place d) ≡ false
  alone owner v o d ne = named-owns (w.place d) (sole owner v o d ne)

  abbrev Stepped : Type 0
  Stepped = (w' : World) × (owner' : Option ℕ) × (step c w ≡ ok tt w') × Inv base owner' w'

  pub step-Inv : (owner : Option ℕ) → Inv base owner w → (p : Place) → w.place c ≡ p → Stepped
  unfolding step
  step-Inv owner v outside e = (
    _,
    owner,
    rw (step, e) refl,
    moved owner checking _ w.lock v.locked (λ d. ground (arith, v.owners d))
        (λ d. ground (arith, v.id d))
        (IsNested-update checking (push_off (w.cpus c)) v.nested
          (push_off-IsNested (base c) 0 (w.cpus c) (rw e at (v.nested c)))),
  )
  step-Inv owner v checking e = (
    _,
    owner,
    ground (arith, e, v.id c),
    moved owner spinning _ w.lock v.locked (λ d. ground (arith, v.owners d))
        (λ d. ground (arith, v.id d)) (IsNested-goto spinning v.nested (rw e refl)),
  )
  step-Inv owner v spinning e = elim (Bool-cases (w.lock.locked)) [
    | inl l ↦ (w, owner, rw (step, e, l) refl, v)
    | inr l ↦ (
      record (goto c owning w) { lock = record w.lock { locked = true } },
      some c,
      rw (step, e, l) refl,
      moved (some c) owning _ _ refl (λ d. ground (arith, v.owners d, v.locked))
          (λ d. ground (arith, v.id d)) (IsNested-goto owning v.nested (rw e refl)),
    )
  ]
  step-Inv owner v owning e = (
    record (goto c inside w) { lock = record w.lock { cpuid = some c } },
    owner,
    rw (step, e) refl,
    moved owner inside _ _ v.locked (λ d. ground (arith, v.owners d))
        (λ d. ground (arith, alone owner v (rw e refl) d))
        (IsNested-goto inside v.nested (rw e refl)),
  )
  step-Inv owner v inside e = (
    _,
    owner,
    ground (arith, e, v.id c, v.owners c, v.locked),
    moved owner clearing _ w.lock v.locked (λ d. ground (arith, v.owners d))
        (λ d. ground (arith, v.id d)) (IsNested-goto clearing v.nested (rw e refl)),
  )
  step-Inv owner v clearing e = (
    record (goto c unlocking w) { lock = record w.lock { cpuid = none } },
    owner,
    rw (step, e) refl,
    moved owner unlocking _ _ v.locked (λ d. ground (arith, v.owners d))
        (λ d. ground (arith, alone owner v (rw e refl) d))
        (IsNested-goto unlocking v.nested (rw e refl)),
  )
  step-Inv owner v unlocking e = (
    record (goto c popping w) { lock = record w.lock { locked = false } },
    none,
    rw (step, e) refl,
    moved none popping _ _ refl (λ d. ground (arith, v.owners d, sole owner v (rw e refl) d))
        (λ d. ground (arith, v.id d)) (IsNested-goto popping v.nested (rw e refl)),
  )
  step-Inv owner v popping e =
      let (cpu', f, n) = pop_off-IsNested (base c) 0 (w.cpus c) (rw e at (v.nested c)) in
      (
        _,
        owner,
        rw (step, e, f) refl,
        moved owner outside _ w.lock v.locked (λ d. ground (arith, v.owners d))
            (λ d. ground (arith, v.id d)) (IsNested-update outside cpu' v.nested n),
      )
