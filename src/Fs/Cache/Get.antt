-- ===== src/Fs/Cache/Get.antt =====
-- `inode_get`: the slot it returns, and what else it changes.
use biglab.Prelude.{
  ℕ, zero, suc, ◌+◌, ◌≤◌, ◌<◌, ◌≡◌, refl, ◌≢◌, ◌⊎◌, Bool, true, false, ◌&&◌, arith, Option, none,
  some, ◌==◌, sym, subst, inl, inr, Bool-cases, neb_of_ne, eqb_refl, eqb→eq, u32,
}
use biglab.Prelude.Run.{Run, ok, panic, out_of_fuel, blocked}
use biglab.Fs.Inode.{Inode}
use biglab.Fs.Cache.{Fs, Search, hit, miss, first_empty, search_slots, use_slot, inode_get}

-- The slot has the inode, and what is in it is valid.
abbrev pub has : ℕ → Inode → Bool
has n ip = (ip.inode_num == n) && ip.valid_info

-- What the search over `m` slots from the `i`th finds, with `e` the first empty one before.
abbrev Finds : ℕ → ℕ → ℕ → Option ℕ → (ℕ → Inode) → Search → Type 0
Finds m i n e cache (hit j) = (i ≤ j) × (j < i + m) × (has n (cache j) ≡ true)
Finds m i n e cache (miss none) =
    (e ≡ none) × ((k : ℕ) → i ≤ k → k < i + m → ((cache k).ref ≢ 0) × (has n (cache k) ≡ false))
Finds m i n e cache (miss (some j)) =
    ((e ≡ some j) ⊎ ((i ≤ j) × (j < i + m) × ((cache j).ref ≡ 0)))
    × ((k : ℕ) → i ≤ k → k < i + m → has n (cache k) ≡ false)

module _ (n : ℕ) (cache : ℕ → Inode) where
  -- One slot more, which does not have the inode.
  Finds-next :
      (m i : ℕ) (e : Option ℕ) (r : Search)
      → has n (cache i) ≡ false
      → Finds m (suc i) n (first_empty e (cache i) i) cache r
      → Finds (suc m) i n e cache r
  Finds-next m i e (hit j) absent (lo, hi, h) = (omega (arith, lo), omega (arith, hi), h)
  Finds-next m i e (miss none) absent (z, all) = (
    none_before e z,
    λ k lo hi. elim (Bool-cases (i == k)) [
      | inl q ↦
          subst (λ x. ((cache x).ref ≢ 0) × (has n (cache x) ≡ false)) (eqb→eq i k q)
            (in_use e z, absent)
      | inr q ↦ all k (ground (arith, q)) (omega (arith, hi))
    ],
  )
    where
      none_before : (e : Option ℕ) → first_empty e (cache i) i ≡ none → e ≡ none
      none_before none z = refl
      none_before (some j) z = z

      in_use : (e : Option ℕ) → first_empty e (cache i) i ≡ none → (cache i).ref ≢ 0
      in_use none z f = cc (rw (f) at z)
      in_use (some j) z f = cc z
  Finds-next m i e (miss (some j)) absent (which, all) = (
    found e which,
    λ k lo hi. elim (Bool-cases (i == k)) [
      | inl q ↦ subst (λ x. has n (cache x) ≡ false) (eqb→eq i k q) absent
      | inr q ↦ all k (ground (arith, q)) (omega (arith, hi))
    ],
  )
    where
      found :
          (e : Option ℕ)
          → (first_empty e (cache i) i ≡ some j)
            ⊎ ((suc i ≤ j) × (j < suc i + m) × ((cache j).ref ≡ 0))
          → (e ≡ some j) ⊎ ((i ≤ j) × (j < i + suc m) × ((cache j).ref ≡ 0))
      found e (inr (lo, hi, z)) = inr (omega (arith, lo), omega (arith, hi), z)
      found (some x) (inl z) = inl z
      found none (inl z) = elim (Bool-cases ((cache i).ref == 0)) [
        | inl q ↦
            let x : i ≡ j = cc (rw q at z) in
            inr
              (omega (arith, x), omega (arith, x), subst (λ y. (cache y).ref ≡ 0) x (eqb→eq _ 0 q))
        | inr q ↦ absurd (cc (rw q at z))
      ]

  search_slots-Finds : (m i : ℕ) (e : Option ℕ) → Finds m i n e cache (search_slots m i n e cache)
  unfolding search_slots
  search_slots-Finds zero i none = (refl, λ k lo hi. absurd (omega (arith, lo, hi)))
  search_slots-Finds zero i (some j) = (inl refl, λ k lo hi. absurd (omega (arith, lo, hi)))
  search_slots-Finds (suc m) i e = elim (Bool-cases (has n (cache i))) [
    | inl c ↦ rw c (omega arith, omega arith, c)
    | inr c ↦ rw c (Finds-next m i e _ c (search_slots-Finds m (suc i) (first_empty e (cache i) i)))
  ]

-- The answer of `inode_get`.
abbrev pub Got : ℕ → Fs → Run Fs ℕ → Type 0
Got n s (ok j s') =
    (j < 64)
    × (s'.disk ≡ s.disk)
    × ((k : ℕ) → k ≢ j → s'.cache k ≡ s.cache k)
    × ((s'.cache j).inode_num ≡ n)
    × (((has n (s.cache j) ≡ true)
          × (s'.cache j ≡ record (s.cache j) { ref = u32 ((s.cache j).ref + 1) }))
        ⊎ (((s.cache j).ref ≡ 0)
            × ((s'.cache j).ref ≡ 1)
            × ((s'.cache j).valid_info ≡ false)
            × ((k : ℕ) → k < 64 → has n (s.cache k) ≡ false)))
Got n s panic = (k : ℕ) → k < 64 → ((s.cache k).ref ≢ 0) × (has n (s.cache k) ≡ false)
Got n s out_of_fuel = ⊥
Got n s blocked = ⊥

use_slot-Got :
    (n : ℕ) (s : Fs) (r : Search) → Finds 64 0 n none s.cache r → Got n s (use_slot n r s)
use_slot-Got n s (hit j) (lo, hi, h) = (
  omega (arith, hi),
  refl,
  λ k ne. rw (neb_of_ne j k (λ e. ne (sym e))) refl,
  rw (eqb_refl j) (ground (arith, h)),
  inl (h, rw (eqb_refl j) refl),
)
use_slot-Got n s (miss none) (z, all) = λ k lt. all k (omega arith) (omega (arith, lt))
use_slot-Got n s (miss (some j)) (inl z, all) = absurd (cc z)
use_slot-Got n s (miss (some j)) (inr (lo, hi, z), all) = (
  omega (arith, hi),
  refl,
  λ k ne. rw (neb_of_ne j k (λ e. ne (sym e))) refl,
  rw (eqb_refl j) refl,
  inr (
    z,
    rw (eqb_refl j) refl,
    rw (eqb_refl j) refl,
    λ k lt. all k (omega arith) (omega (arith, lt)),
  ),
)

-- `inode_get` of a number returns a slot below 64 that has this number: one that had it with valid contents, which are kept
-- and get one more reference; or, if there is no such slot, one that had no reference, which has one now and is not valid.
-- Every other slot and the disk stay as they are. It panics only if no slot has the inode valid and all have references.
pub inode_get-Got : (n : ℕ) (s : Fs) → Got n s (inode_get n s)
unfolding inode_get
inode_get-Got n s =
    use_slot-Got n s (search_slots 64 0 n none s.cache) (search_slots-Finds n s.cache 64 0 none)

-- If no slot has an inode with valid contents, and `inode_get` of its number is called twice, with no `inode_lock` between,
-- the second call returns another slot than the first: the inode is in two slots.
pub inode_get_twice :
    (n i j : ℕ) (s s' s'' : Fs)
    → ((k : ℕ) → k < 64 → has n (s.cache k) ≡ false)
    → inode_get n s ≡ ok i s'
    → inode_get n s' ≡ ok j s''
    → j ≢ i
inode_get_twice n i j s s' s'' absent e f same =
    let (lt, disk, others, num, first) = subst (Got n s) e (inode_get-Got n s) in
    let (lt', disk', others', num', second) = subst (Got n s') f (inode_get-Got n s') in
    elim first [
      | inl (h, _) ↦ absurd (ground (arith, absent i lt, h))
      | inr (_, one, invalid, _) ↦ elim second [
        | inl (h, _) ↦
            let h' : has n (s'.cache i) ≡ true = rw same at h in ground (arith, h', invalid)
        | inr (free, _, _, _) ↦
            let z : (s'.cache i).ref ≡ 0 = rw same at free in omega (arith, z, one)
      ]
    ]
