-- ===== src/Fs/Buffer/Coherence.antt =====
-- When the buffer cache stands for the disk, and that getting a block keeps it so.
use biglab.Prelude.{
  ℕ, ◌≤◌, ◌≡◌, refl, sym, ◌∙◌, ◌≢◌, inl, inr, Bool, true, false, ◌||◌, none, some, List, [], ◌∷◌,
  arith, has, Distinct, erase, has-erase_ne, has-erase_self, erase-Distinct, ◌==◌, Bool-cases,
  eqb→eq, update,
}
use biglab.Fs.Disk.{Disk}
use biglab.Fs.Buffer.{Buffer, Buffers, block_num_unused, set_buf, insert_node}

-- The buffer is in one of the rings.
abbrev pub cached : Buffers → ℕ → Bool
cached s i = has i s.active || has i s.inactive

-- A buffer of a block has the block's content.
abbrev pub IsFresh : Disk → Buffer → Type 0
IsFresh disk buf = buf.block_num ≢ block_num_unused → buf.page ≡ some (disk buf.block_num)

-- The rings are two lists without repetition and without a common buffer; the active buffers are
-- those in use; every buffer of a block has its content, and no block has two buffers.
pub record Coherent (s : Buffers) : Type 0 where
  pub active_distinct : Distinct s.active
  pub inactive_distinct : Distinct s.inactive
  pub apart : (i : ℕ) → has i s.active ≡ true → has i s.inactive ≡ false
  pub in_use : (i : ℕ) → has i s.active ≡ true → 1 ≤ (s.bufs i).ref
  pub idle : (i : ℕ) → has i s.inactive ≡ true → (s.bufs i).ref ≡ 0
  pub unlocked : (i : ℕ) → has i s.inactive ≡ true → (s.bufs i).slk ≡ none
  pub fresh : (i : ℕ) → cached s i ≡ true → IsFresh s.disk (s.bufs i)
  pub single :
      (i j : ℕ)
      → cached s i ≡ true
      → cached s j ≡ true
      → (s.bufs i).block_num ≡ (s.bufs j).block_num
      → (s.bufs i).block_num ≢ block_num_unused
      → i ≡ j

-- The buffer `i` of `s'`, locked by the running process, has the content of the block on the disk.
pub record Got (s s' : Buffers) (i block_num : ℕ) : Type 0 where
  pub coherent : Coherent s'
  pub is_active : has i s'.active ≡ true
  pub number : (s'.bufs i).block_num ≡ block_num
  pub content : (s'.bufs i).page ≡ some (s.disk block_num)
  pub locked : (s'.bufs i).slk ≡ some s.pid
  pub same_disk : s'.disk ≡ s.disk

-- A member of a list without `i` is another number of the list.
pub has-erase :
    (i j : ℕ) (xs : List ℕ) → Distinct xs → has j (erase i xs) ≡ true → (i ≢ j) × (has j xs ≡ true)
has-erase i j xs d h = elim (Bool-cases (i == j)) [
  | inl e ↦ absurd (ground (arith, has-erase_self i xs d, eqb→eq i j e))
  | inr e ↦ (λ p. ground (arith), ground (arith, has-erase_ne j i xs))
]

pub has-erase_out : (i j : ℕ) (xs : List ℕ) → has j xs ≡ false → has j (erase i xs) ≡ false
has-erase_out i j [] h = refl
has-erase_out i j (x ∷ xs) h = ground (arith, has-erase_out i j xs)

module _ (s : Buffers) (v : Coherent s) (i : ℕ) (buf : Buffer) where
  -- No other buffer has the block of `buf`.
  abbrev pub IsOnly : Type 0
  IsOnly =
      (j : ℕ)
      → cached s j ≡ true
      → i ≢ j
      → buf.block_num ≢ block_num_unused
      → (s.bufs j).block_num ≢ buf.block_num

  -- With `buf` for the buffer `i`, the buffers of the blocks stay single and fresh.
  pub update-single :
      (j k : ℕ)
      → IsOnly
      → (i ≢ j → cached s j ≡ true)
      → (i ≢ k → cached s k ≡ true)
      → (update s.bufs i buf j).block_num ≡ (update s.bufs i buf k).block_num
      → (update s.bufs i buf j).block_num ≢ block_num_unused
      → j ≡ k
  update-single j k only cj ck e ne = elim (Bool-cases (i == j)) [
    | inl p ↦ elim (Bool-cases (i == k)) [
      | inl q ↦ sym (eqb→eq i j p) ∙ eqb→eq i k q
      | inr q ↦ absurd (ground (arith, only k))
    ]
    | inr p ↦ elim (Bool-cases (i == k)) [
      | inl q ↦ absurd (ground (arith, only j))
      | inr q ↦ ground (arith, v.single j k)
    ]
  ]

  pub update-IsFresh :
      (j : ℕ)
      → IsFresh s.disk buf
      → (i ≢ j → cached s j ≡ true)
      → IsFresh s.disk (update s.bufs i buf j)
  update-IsFresh j fr cj = elim (Bool-cases (i == j)) [
    | inl p ↦ rw p fr
    | inr p ↦ rw p (v.fresh j (cj λ q. ground arith))
  ]

module _ (s : Buffers) (v : Coherent s) where
  -- A node of the inactive ring goes to the front of the active one, with its buffer changed to `buf`.
  pub raise-Coherent :
      (i : ℕ) (buf : Buffer) (p : ℕ)
      → has i s.inactive ≡ true
      → 1 ≤ buf.ref
      → IsFresh s.disk buf
      → IsOnly s v i buf
      → Coherent (insert_node i true true (set_buf i buf (record s { pages = p })))
  raise-Coherent i buf p m pos fr other = record {
    active_distinct = (
      has-erase_out i i s.active (ground (arith, v.apart i)),
      erase-Distinct i s.active v.active_distinct,
    );
    inactive_distinct = erase-Distinct i s.inactive v.inactive_distinct;
    apart = λ j n. elim (Bool-cases (i == j)) [
      | inl e ↦ ground (arith, has-erase_self i s.inactive v.inactive_distinct, eqb→eq i j e)
      | inr e ↦
          has-erase_out i j s.inactive
            (ground (arith, has-erase i j s.active v.active_distinct, v.apart j))
    ];
    in_use = λ j n. ground (arith, has-erase i j s.active v.active_distinct, v.in_use j);
    idle = λ j n. ground (arith, has-erase i j s.inactive v.inactive_distinct, v.idle j);
    unlocked = λ j n. ground (arith, has-erase i j s.inactive v.inactive_distinct, v.unlocked j);
    fresh = λ j n. update-IsFresh s v i buf j fr (still j n);
    single = λ j k nj nk. update-single s v i buf j k other (still j nj) (still k nk);
  }
    where
      still :
          (j : ℕ)
          → cached (insert_node i true true (set_buf i buf (record s { pages = p }))) j ≡ true
          → i ≢ j
          → cached s j ≡ true
      still j n ne = ground (
        arith,
        has-erase i j s.inactive v.inactive_distinct,
        has-erase i j s.active v.active_distinct,
      )

  -- A buffer in use is changed.
  pub set-Coherent :
      (i : ℕ) (buf : Buffer)
      → has i s.active ≡ true
      → 1 ≤ buf.ref
      → IsFresh s.disk buf
      → IsOnly s v i buf
      → Coherent (set_buf i buf s)
  set-Coherent i buf m pos fr other = record {
    active_distinct = v.active_distinct;
    inactive_distinct = v.inactive_distinct;
    apart = v.apart;
    in_use = λ j n. ground (arith, v.in_use j);
    idle = λ j n. ground (arith, v.idle j, v.apart i);
    unlocked = λ j n. ground (arith, v.unlocked j, v.apart i);
    fresh = λ j n. update-IsFresh s v i buf j fr (λ _. n);
    single = λ j k nj nk. update-single s v i buf j k other (λ _. nj) (λ _. nk);
  }
