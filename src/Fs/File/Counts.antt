-- ===== src/Fs/File/Counts.antt =====
-- `file_dup` and `file_close`: the references of a file.
use biglab.Prelude.{
  ℕ, ◌+◌, ◌-◌, ◌^◌, ◌≤◌, ◌<◌, ◌≡◌, refl, true, false, arith, ◌==◌, ltb, ap, inl, inr, Bool-cases,
  eqb_refl, eqb→eq, u32,
}
use biglab.Prelude.Run.{ok}
use biglab.Fs.Disk.{SuperBlock}
use biglab.Fs.File.{Files, set_file, file_dup, file_close}

-- For an open file with fewer than 2^32 - 1 references, `file_close` after `file_dup` leaves every file as it was, and does not touch the inodes.
pub file_close-dup :
    (sb : SuperBlock) (k : ℕ) (s : Files)
    → 1 ≤ (s.file_table k).ref
    → (s.file_table k).ref < 2 ^ 32 - 1
    → (s' s'' : Files) × (file_dup k s ≡ ok k s')
      × (file_close sb k s' ≡ ok tt s'')
      × ((j : ℕ) → s''.file_table j ≡ s.file_table j)
      × (s''.fs ≡ s.fs)
unfolding file_dup file_close
file_close-dup sb k s open_file small =
    let f = s.file_table k in
    let e : ltb f.ref 1 ≡ false = ground (arith, open_file) in
    let u : u32 (f.ref + 1) ≡ f.ref + 1 = omega (arith, small) in
    let e' : ltb (u32 (f.ref + 1)) 1 ≡ false = ground (arith, u) in
    let g : ltb 0 (u32 (f.ref + 1) - 1) ≡ true = ground (arith, u, open_file) in
    let back : u32 (f.ref + 1) - 1 ≡ f.ref = omega (arith, u) in
    let s₁ = set_file k (record f { ref = u32 (f.ref + 1) }) s in
    (
      s₁,
      set_file k (record (s₁.file_table k) { ref = (s₁.file_table k).ref - 1 }) s₁,
      rw e refl,
      rw (eqb_refl k, e', g) refl,
      (λ j. elim (Bool-cases (k == j)) [
        | inl c ↦ rw (c, eqb_refl k, back) (ap s.file_table (eqb→eq k j c))
        | inr c ↦ rw c refl
      ]),
      refl,
    )
