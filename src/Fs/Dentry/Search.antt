-- ===== src/Fs/Dentry/Search.antt =====
-- `dentry_search` against a search over the entries of the directory's bytes.
use biglab.Prelude.{
  ℕ, zero, suc, ◌+◌, ◌-◌, ◌*◌, ◌/◌, ◌^◌, ◌≤◌, ◌<◌, ◌≡◌, refl, ◌≢◌, ◌⊎◌, true, false, arith, ◌==◌,
  ltb, if◌then◌else◌, sym, ◌∙◌, ap, inl, inr, Bool-cases, u32, eqb_refl, neb_of_ne,
}
use mathlib.Core.Path.{fun_ext}
use biglab.Prelude.Run.{Run, ok, Cmd, pure}
use biglab.Fs.Disk.{Disk, SuperBlock}
use biglab.Fs.Bitmap.Numbers.{IsLayout}
use biglab.Fs.Index.Nodes.{at, InOrder}
use biglab.Fs.Index.Leaves.{leaf}
use biglab.Fs.Inode.{Inode}
use biglab.Fs.Inode.Area.{tree}
use biglab.Fs.Data.Round.{data_at}
use biglab.Fs.Data.WholeRead.{InodeRead, inode_read_data-InodeRead}
use biglab.Fs.Cache.{Fs, set_slot}
use biglab.Fs.Dentry.{
  dentry_num, has_name, no_entry, after_read, read_slot, each_entry, dentry_search,
}

-- The bytes of the entry `k` of a directory.
abbrev pub entry_at : (ℕ → ℕ) → ℕ → ℕ → ℕ
entry_at file k a = if ltb a 64 then file (64 * k + a) else 0

-- The number in the first entry with the name, among `m` entries from the `k`th.
abbrev pub search_entries : (ℕ → ℕ) → (ℕ → ℕ) → ℕ → ℕ → ℕ
search_entries file name zero k = 2 ^ 32 - 1
search_entries file name (suc m) k =
    let rest = search_entries file name m (suc k) in
    if has_name (entry_at file k) name then dentry_num (entry_at file k) else rest

-- A directory in the slot `i`, of `size` bytes without holes, which are those of `file`.
pub record Dir (sb : SuperBlock) (i size : ℕ) (file : ℕ → ℕ) (s : Fs) : Type 0 where
  pub in_order : InOrder sb (tree (s.cache i) s.disk)
  pub contents : (pos : ℕ) → pos < 2 ^ 32 → data_at (tree (s.cache i) s.disk) pos ≡ file pos
  pub no_hole : (pos : ℕ) → pos < size → at (leaf (pos / 4096)) (tree (s.cache i) s.disk) ≢ 0
  pub is_size : (s.cache i).disk_info.size ≡ size
  pub is_type : (s.cache i).disk_info.type ≡ 1

module _ (sb : SuperBlock) (l : IsLayout sb) (i size : ℕ) (file : ℕ → ℕ)
    (small : size + 64 ≤ 2 ^ 32) where
  -- What a read of an entry has done: the directory is as it was, and so are the other inodes; the entry is
  -- there, or the directory ends within it.
  abbrev EntryRead : ℕ → Fs → ℕ → (ℕ → ℕ) → Fs → Type 0
  EntryRead k s n de s' =
      Dir sb i size file s'
      × ((j : ℕ) → j ≢ i → s'.cache j ≡ s.cache j)
      × (((n ≡ 64) × (de ≡ entry_at file k) × (64 * k + 64 ≤ size))
          ⊎ ((n ≢ 64) × (size < 64 * k + 64)))

  module _ (k : ℕ) (s : Fs) (v : Dir sb i size file s) (inside : 64 * k < size) where
    abbrev after : Inode → Disk → Fs
    after ip' disk' = record (set_slot i ip' s) { disk = disk' }

    abbrev last : ℕ
    last =
        if ltb (s.cache i).disk_info.size (64 * k + 64)
        then (s.cache i).disk_info.size
        else 64 * k + 64

    -- No hole stops the read.
    whole :
        (w : ℕ) (de : ℕ → ℕ) (ip' : Inode) (disk' : Disk)
        → InodeRead sb (s.cache i) (64 * k) last w no_entry de s.disk ip' disk'
        → 64 * k + w ≡ last
    whole w de ip' disk' m = elim m.all_or_hole [
      | inl e ↦ e
      | inr (full, hole) ↦ elim (Bool-cases (ltb (64 * k + w) size)) [
        | inl c ↦ absurd (v.no_hole (64 * k + w) (ground (arith, c)) hole)
        | inr c ↦ ground (arith, c, v.is_size, m.at_most)
      ]
    ]

    Dir-after :
        (w : ℕ) (de : ℕ → ℕ) (ip' : Inode) (disk' : Disk)
        → InodeRead sb (s.cache i) (64 * k) last w no_entry de s.disk ip' disk'
        → Dir sb i size file (after ip' disk')
    Dir-after w de ip' disk' m = record {
      in_order = rw (eqb_refl i) m.in_order;
      contents = λ pos p. rw (eqb_refl i) (m.same pos p ∙ v.contents pos p);
      no_hole = λ pos p. rw (eqb_refl i) (m.kept pos (omega (arith, p, small)) (v.no_hole pos p));
      is_size = rw (eqb_refl i) (ap (λ (x : Inode). x.disk_info.size) m.same_info ∙ v.is_size);
      is_type = rw (eqb_refl i) (ap (λ (x : Inode). x.disk_info.type) m.same_info ∙ v.is_type);
    }

    outcome :
        (w : ℕ) (de : ℕ → ℕ) (ip' : Inode) (disk' : Disk)
        → InodeRead sb (s.cache i) (64 * k) last w no_entry de s.disk ip' disk'
        → ((w ≡ 64) × (de ≡ entry_at file k) × (64 * k + 64 ≤ size))
          ⊎ ((w ≢ 64) × (size < 64 * k + 64))
    outcome w de ip' disk' m = elim (Bool-cases (ltb size (64 * k + 64))) [
      | inl c ↦ inr (ground (arith, c, whole w de ip' disk' m, v.is_size), ground (arith, c))
      | inr c ↦
          let e : w ≡ 64 = ground (arith, c, whole w de ip' disk' m, v.is_size) in
          inl (e, fun_ext (λ a. m.filled a ∙ same_byte a e), ground (arith, c))
    ]
      where
        same_byte :
            (a : ℕ)
            → w ≡ 64
            → (if ltb a w then data_at (tree (s.cache i) s.disk) (64 * k + a) else 0)
              ≡ entry_at file k a
        same_byte a e = rw e (elim (Bool-cases (ltb a 64)) [
          | inl c ↦ rw c (v.contents (64 * k + a) (ground (arith, c, inside, small)))
          | inr c ↦ rw c refl
        ])

    read_entry :
        (n : ℕ) × (de : ℕ → ℕ) × (s' : Fs) × (read_slot sb i (64 * k) 64 no_entry s ≡ ok (n, de) s')
        × EntryRead k s n de s'
    read_entry =
        let (w, ip', disk', de, run, m) =
          inode_read_data-InodeRead sb l (s.cache i) (64 * k) 64 no_entry s.disk
            (omega (arith, v.is_size, small)) v.in_order (rw (v.is_type) refl)
            (omega (arith, inside, small)) (omega (arith, inside, v.is_size)) in
        (
          w,
          de,
          after ip' disk',
          ap (after_read i s) run,
          (
            Dir-after w de ip' disk' m,
            (λ j ne. rw (neb_of_ne i j (λ e. ne (sym e))) refl),
            outcome w de ip' disk' m,
          ),
        )

  abbrev search_step : (ℕ → ℕ) → ℕ → (ℕ → ℕ) → Unit {0} → (Unit {0} → Cmd Fs ℕ) → Cmd Fs ℕ
  search_step name off de u next = if has_name de name then pure (dentry_num de) else next u

  abbrev Searched : ℕ → Fs → Run Fs ℕ → Type 0
  Searched r s x =
      (s' : Fs) × (x ≡ ok r s') × Dir sb i size file s' × ((j : ℕ) → j ≢ i → s'.cache j ≡ s.cache j)

  abbrev search_run : (ℕ → ℕ) → ℕ → ℕ → Cmd Fs ℕ
  search_run name fuel off = each_entry sb fuel (λ u. 2 ^ 32 - 1) (search_step name) i off tt

  -- After an entry is read, given what the rest of the search does.
  round-Searched :
      (name : ℕ → ℕ) (fuel k m n : ℕ) (de : ℕ → ℕ) (s s' : Fs)
      → k + m ≡ size / 64
      → EntryRead k s n de s'
      → ((m' : ℕ) (t : Fs)
          → suc m' ≡ m
          → Dir sb i size file t
          → Searched (search_entries file name m' (suc k)) t (search_run name fuel (64 * suc k) t))
      → Searched (search_entries file name m k) s (
          (if n == 64
              then search_step name (64 * k) de tt (λ u. search_run name fuel (u32 (64 * k + 64)))
              else pure (2 ^ 32 - 1))
            s')
  round-Searched name fuel k zero n de s s' e (d, others, inl (a, b, c)) rest =
      absurd (omega (arith, e, c))
  round-Searched name fuel k zero n de s s' e (d, others, inr (ne, c)) rest =
      rw (neb_of_ne n 64 ne) (s', refl, d, others)
  round-Searched name fuel k (suc m) n de s s' e (d, others, inr (ne, c)) rest =
      absurd (omega (arith, e, c))
  round-Searched name fuel k (suc m) n de s s' e (d, others, inl (a, b, c)) rest =
      let f : (n == 64) ≡ true = ground (arith, a) in
      let g : u32 (64 * k + 64) ≡ 64 * suc k = omega (arith, c, small) in
      elim (Bool-cases (has_name (entry_at file k) name)) [
        | inl h ↦ rw (f, b, h) (s', refl, d, others)
        | inr h ↦
            let (t, run, dt, others') = rest m s' refl d in
            rw (f, b, h, g) (t, run, dt, λ j ne. others' j ne ∙ others j ne)
      ]

  search_loop-Searched :
      (name : ℕ → ℕ) (fuel m k : ℕ) (s : Fs)
      → k + m ≡ size / 64
      → m < fuel
      → Dir sb i size file s
      → Searched (search_entries file name m k) s (search_run name fuel (64 * k) s)
  unfolding each_entry
  search_loop-Searched name zero m k s e lt v = absurd (omega (arith, lt))
  search_loop-Searched name (suc fuel) m k s e lt v = elim (Bool-cases (ltb (64 * k) size)) [
    | inr c ↦
        let z : m ≡ 0 = ground (arith, c, e) in
        let d : ltb (64 * k) (s.cache i).disk_info.size ≡ false = ground (arith, c, v.is_size) in
        rw (d, z) (s, refl, v, λ j ne. refl)
    | inl c ↦
        let (n, de, s', run, r) = read_entry k s v (ground (arith, c)) in
        let d : ltb (64 * k) (s.cache i).disk_info.size ≡ true = ground (arith, c, v.is_size) in
        rw (d, run)
          (round-Searched name fuel k m n de s s' e r (λ m' t q dt.
            search_loop-Searched name fuel m' (suc k) t (omega (arith, e, q)) (omega (arith, lt, q))
              dt))
  ]

  -- On a layout whose bitmaps have a bit for each number, all within 32 bits, for a directory in the slot `i` whose tree is in order, without
  -- holes, and whose size is at most 2^32 - 64: `dentry_search` returns, and its answer is that of a search over the entries of the directory's bytes: the number in
  -- the first entry with the name, or INVALID_INODE_NUM. The directory stays in order and keeps its bytes, and the
  -- other inodes in memory are as they were.
  pub dentry_search-search_entries :
      (name : ℕ → ℕ) (s : Fs)
      → Dir sb i size file s
      → (s' : Fs) × (dentry_search sb i name s ≡ ok (search_entries file name (size / 64) 0) s')
        × Dir sb i size file s'
        × ((j : ℕ) → j ≢ i → s'.cache j ≡ s.cache j)
  unfolding dentry_search
  dentry_search-search_entries name s v =
      rw (v.is_type, v.is_size)
        (search_loop-Searched name (suc (suc (size / 64))) (size / 64) 0 s (omega arith)
          (omega arith) v)
