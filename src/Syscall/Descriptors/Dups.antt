-- ===== src/Syscall/Descriptors/Dups.antt =====
-- A descriptor of the same file, and its return.
use biglab.Prelude.{
  ℕ, zero, suc, ◌+◌, ◌-◌, ◌^◌, ◌≤◌, ◌<◌, ◌≡◌, ◌≢◌, refl, sym, ap, subst, ◌∙◌, ◌⊎◌, inl, inr, false,
  Option, none, some, arith, ◌==◌, leb, update, Bool-cases, Option-cases, eqb→eq, eqb_refl,
  neb_of_ne,
}
use biglab.Prelude.Run.{ok, and_then, ◌>>◌, pure}
use biglab.Fs.Disk.{SuperBlock}
use biglab.Fs.File.{file_close}
use biglab.Fs.File.Counts.{file_close-dup}
use biglab.Syscall.Descriptors.{
  Caller, n_open_file, minus_one, free_fd, file_of, lift_files, on_files, on_file, set_fd, dup_to,
  dup_fd, sys_close, sys_dup,
}

-- The lowest free descriptor from `i` up to `i + n`.
abbrev pub Lowest : ℕ → ℕ → (ℕ → Option ℕ) → Option ℕ → Type 0
Lowest n i open_file none = (j : ℕ) → i ≤ j → j < i + n → open_file j ≢ none
Lowest n i open_file (some fd) =
    (i ≤ fd)
    × (fd < i + n)
    × (open_file fd ≡ none)
    × ((j : ℕ) → i ≤ j → j < fd → open_file j ≢ none)

some_not_none : {k : ℕ} → some k ≡ none → ⊥
some_not_none e = cc

Lowest-next :
    (n i : ℕ) (open_file : ℕ → Option ℕ) (k : ℕ) (o : Option ℕ)
    → open_file i ≡ some k
    → Lowest n (suc i) open_file o
    → Lowest (suc n) i open_file o
Lowest-next n i open_file k none e l = λ j lo hi z. elim (Bool-cases (i == j)) [
  | inl p ↦ some_not_none (sym e ∙ ap open_file (eqb→eq i j p) ∙ z)
  | inr p ↦ l j (ground (arith, lo, p)) (omega (arith, hi)) z
]
Lowest-next n i open_file k (some fd) e (lo, hi, free, below) = (
  omega (arith, lo),
  omega (arith, hi),
  free,
  λ j le lt z. elim (Bool-cases (i == j)) [
    | inl p ↦ some_not_none (sym e ∙ ap open_file (eqb→eq i j p) ∙ z)
    | inr p ↦ below j (ground (arith, le, p)) lt z
  ],
)

free_fd-Lowest : (n i : ℕ) (open_file : ℕ → Option ℕ) → Lowest n i open_file (free_fd n i open_file)
unfolding free_fd
free_fd-Lowest zero i open_file = λ j lo hi. absurd (omega (arith, lo, hi))
free_fd-Lowest (suc n) i open_file = elim (Option-cases (open_file i)) [
  | inl e ↦
      let found : free_fd (suc n) i open_file ≡ some i = rw (free_fd, e) refl in
      subst (Lowest (suc n) i open_file) (sym found)
        (omega arith, omega arith, e, λ j lo hi. absurd (omega (arith, lo, hi)))
  | inr (k, e) ↦
      let later : free_fd (suc n) i open_file ≡ free_fd n (suc i) open_file =
        rw (free_fd, e) refl in
      subst (Lowest (suc n) i open_file) (sym later) (
        Lowest-next n i open_file k (free_fd n (suc i) open_file) e
          (free_fd-Lowest n (suc i) open_file))
]

-- The descriptor that `sys_dup` gives, and the state after it.
pub record Dup (sb : SuperBlock) (fd k : ℕ) (s : Caller) : Type 0 where
  pub new : ℕ
  pub after : Caller
  pub back : Caller
  pub run : sys_dup sb fd s ≡ ok new after
  pub lowest : Lowest n_open_file 0 s.open_file (some new)
  pub both : (after.open_file new ≡ some k) × (after.open_file fd ≡ some k)
  pub closed : sys_close sb new after ≡ ok 0 back
  pub same_files : (j : ℕ) → back.files.file_table j ≡ s.files.file_table j
  pub same_fs : back.files.fs ≡ s.files.fs
  pub same_fds : (j : ℕ) → back.open_file j ≡ s.open_file j

-- For an open descriptor of a file with references below their limit: when no descriptor is free, `sys_dup` gives -1 and changes nothing;
-- else it gives the lowest free one, which then has the same file, and closing it brings back all descriptors and files and leaves the inodes alone.
pub sys_dup-Dup :
    (sb : SuperBlock) (fd k : ℕ) (s : Caller)
    → fd < n_open_file
    → s.open_file fd ≡ some k
    → 1 ≤ (s.files.file_table k).ref
    → (s.files.file_table k).ref < 2 ^ 32 - 1
    → ((sys_dup sb fd s ≡ ok minus_one s) × ((j : ℕ) → j < n_open_file → s.open_file j ≢ none))
      ⊎ Dup sb fd k s
unfolding sys_dup sys_close
sys_dup-Dup sb fd k s lt is_open used few =
    let passed : leb n_open_file fd ≡ false = ground (arith, lt) in
    let file : file_of fd s ≡ some k = rw passed is_open in
    let go = ap (λ o. on_file minus_one (dup_to sb) o s) file in
    let lowest = free_fd-Lowest n_open_file 0 s.open_file in
    let (s₁, s₂, dup, close, table, fs) = file_close-dup sb k s.files used few in
    elim (Option-cases (free_fd n_open_file 0 s.open_file)) [
      | inl e ↦
          let full = subst (Lowest n_open_file 0 s.open_file) e lowest in
          inl (go ∙ ap (λ o. dup_fd sb k o s) e, λ j h. full j (omega arith) (omega (arith, h)))
      | inr (i, e) ↦
          let l = subst (Lowest n_open_file 0 s.open_file) e lowest in
          let after = record s { open_file = update s.open_file i (some k); files = s₁ } in
          let given : dup_fd sb k (some i) s ≡ ok i after =
            ap (λ r. and_then (lift_files r s) (λ f. set_fd i (some f) >> pure i)) dup in
          let small : leb n_open_file i ≡ false = ground (arith, l.1) in
          let here : update s.open_file i (some k) i ≡ some k = rw (eqb_refl i) refl in
          let new_file : file_of i after ≡ some k = rw small here in
          let closing : (on_files (file_close sb k) >> set_fd i none >> pure 0) after
              ≡ ok 0 (record s {
                open_file = update (update s.open_file i (some k)) i none;
                files = s₂;
              }) =
            ap (λ r. and_then (and_then (lift_files r after) λ _. set_fd i none) λ _. pure 0)
              close in
          let other : (i == fd) ≡ false =
            neb_of_ne i fd λ z. some_not_none (sym is_open ∙ ap s.open_file (sym z) ∙ l.2) in
          inr (record {
            new = i;
            after = after;
            back = record s {
              open_file = update (update s.open_file i (some k)) i none;
              files = s₂;
            };
            run = go ∙ ap (λ o. dup_fd sb k o s) e ∙ given;
            lowest = l;
            both = (here, rw other is_open);
            closed =
                ap
                  (λ o.
                    on_file minus_one (λ f. on_files (file_close sb f) >> set_fd i none >> pure 0) o
                      after)
                  new_file
                ∙ closing;
            same_files = table;
            same_fs = fs;
            same_fds = λ j. elim (Bool-cases (i == j)) [
              | inl z ↦ rw z (sym (sym (ap s.open_file (eqb→eq i j z)) ∙ l.2))
              | inr z ↦ rw z refl
            ];
          })
    ]
