-- ===== src/Fs/Buffer/Get.antt =====
-- How `buffer_get` ends.
use biglab.Prelude.{
  ℕ, ◌+◌, ◌-◌, ◌^◌, ◌<◌, ◌≡◌, refl, sym, ◌∙◌, ap, ◌≢◌, ◌⊎◌, inl, inr, true, false, Option, none,
  some, List, [], ◌∷◌, arith, has, ◌==◌, Bool-cases, Option-cases, eqb→eq, eqb_refl, u32,
}
use biglab.Prelude.Run.{Run, ok, panic, blocked, ◌>>◌, pure, and_then}
use biglab.Fs.Disk.{Block}
use biglab.Fs.Buffer.{
  Buffer, Buffers, block_num_unused, set_buf, find, lock_buf, buffer_read, take_victim, get_victim,
  buffer_get,
}
use biglab.Fs.Buffer.Rings.{find-some, find-none}
use biglab.Fs.Buffer.Coherence.{Coherent, Got, cached, raise-Coherent, set-Coherent}
use biglab.Fs.Buffer.Locked.{
  List-cases, raised, set_buf-raised, at-set_buf, lock_held, lock-set_buf, lock-raised,
}

-- The first inactive buffer cannot be taken: there is none, or it has no page and none is free.
pub data IsFull (s : Buffers) : Type 0 where
  no_buffer : s.inactive ≡ [] → IsFull s
  no_page :
      (i : ℕ) (xs : List ℕ) → s.inactive ≡ i ∷ xs → (s.bufs i).page ≡ none → s.pages ≡ 0 → IsFull s

-- The ways in which `buffer_get` ends.
pub data Gets (s : Buffers) (block_num : ℕ) : Type 0 where
  got :
      (i : ℕ) (s' : Buffers)
      → buffer_get block_num s ≡ ok i s'
      → Got s s' i block_num
      → Gets s block_num
  full :
      buffer_get block_num s ≡ panic
      → ((i : ℕ) → cached s i ≡ true → (s.bufs i).block_num ≢ block_num)
      → IsFull s
      → Gets s block_num
  waits :
      (i p : ℕ)
      → buffer_get block_num s ≡ blocked
      → has i s.active ≡ true
      → (s.bufs i).block_num ≡ block_num
      → (s.bufs i).slk ≡ some p
      → Gets s block_num

module _ (s : Buffers) (v : Coherent s) (bn : ℕ) (valid : bn ≢ block_num_unused) where
  abbrev hit : ℕ → Buffer
  hit i = record (s.bufs i) { ref = u32 ((s.bufs i).ref + 1); slk = some s.pid }

  -- An active buffer has the block.
  get_active : (i : ℕ) → (s.bufs i).ref < 2 ^ 32 - 1 → find s.bufs bn s.active ≡ some i → Gets s bn
  unfolding buffer_get
  get_active i few e =
      let (m, num) = find-some s.bufs bn s.active i e in
      elim (Option-cases (s.bufs i).slk) [
        | inl free ↦
            got i (set_buf i (hit i) s)
              (rw (buffer_get, e)
                (lock-set_buf i (record (s.bufs i) { ref = u32 ((s.bufs i).ref + 1) }) s free))
              (record {
                coherent =
                    set-Coherent s v i (hit i) m (omega (arith, few))
                      (v.fresh i (ground (arith, m)))
                      λ j c ne u p. ne (v.single i j (ground (arith, m)) c (sym p) u);
                is_active = m;
                number = rw (eqb_refl i) num;
                content = rw (eqb_refl i) (
                    v.fresh i (ground (arith, m)) (λ u. valid (sym num ∙ u))
                    ∙ ap (λ b. some (s.disk b)) num);
                locked = rw (eqb_refl i) refl;
                same_disk = refl;
              })
        | inr (p, held) ↦
            waits i p
              (rw (buffer_get, e)
                (lock_held i p (set_buf i (record (s.bufs i) { ref = u32 ((s.bufs i).ref + 1) }) s)
                  (rw (eqb_refl i) held)))
              m num held
      ]

  abbrev revived : ℕ → Buffer
  revived i = record (s.bufs i) { ref = 1; slk = some s.pid }

  -- An inactive buffer has the block.
  get_inactive :
      (i : ℕ) → find s.bufs bn s.active ≡ none → find s.bufs bn s.inactive ≡ some i → Gets s bn
  unfolding buffer_get
  get_inactive i e₁ e =
      let (m, num) = find-some s.bufs bn s.inactive i e in
      got i (raised i (set_buf i (revived i) s))
        (rw (buffer_get, e₁, e) (lock-raised i (record (s.bufs i) { ref = 1 }) s (v.unlocked i m)))
        (record {
          coherent =
              raise-Coherent s v i (revived i) s.pages m (omega arith)
                (v.fresh i (ground (arith, m)))
                λ j c ne u p. ne (v.single i j (ground (arith, m)) c (sym p) u);
          is_active = rw (eqb_refl i) refl;
          number = rw (eqb_refl i) num;
          content = rw (eqb_refl i) (
              v.fresh i (ground (arith, m)) (λ u. valid (sym num ∙ u))
              ∙ ap (λ b. some (s.disk b)) num);
          locked = rw (eqb_refl i) refl;
          same_disk = refl;
        })

  no_buffer_of :
      find s.bufs bn s.active ≡ none
      → find s.bufs bn s.inactive ≡ none
      → (j : ℕ) → cached s j ≡ true
      → (s.bufs j).block_num ≢ bn
  no_buffer_of none₁ none₂ j c = elim (Bool-cases (has j s.active)) [
    | inl a ↦ find-none s.bufs bn s.active j none₁ a
    | inr a ↦ find-none s.bufs bn s.inactive j none₂ (ground (arith, c, a))
  ]

  module _ (i : ℕ) (xs : List ℕ) (first : s.inactive ≡ i ∷ xs)
      (none₁ : find s.bufs bn s.active ≡ none) (none₂ : find s.bufs bn s.inactive ≡ none) where
    -- The buffer once it has read the block.
    abbrev filled : Buffer
    filled = record { block_num = bn; ref = 1; page = some (s.disk bn); slk = some s.pid }

    abbrev emptied : Option Block → Buffer
    emptied page = record { block_num = bn; ref = 1; page = page; slk = (s.bufs i).slk }

    is_inactive : has i s.inactive ≡ true
    is_inactive = rw (first, eqb_refl i) refl

    abbrev pub end_state : ℕ → Buffers
    end_state p = raised i (set_buf i filled (record s { pages = p }))

    -- With any page, the buffer is locked and read.
    fill :
        (page : Option Block) (p : ℕ)
        → (lock_buf i >> buffer_read i >> pure i)
            (raised i (set_buf i (emptied page) (record s { pages = p })))
          ≡ ok i (end_state p)
    fill page p =
        let st = record s { pages = p } in
        let c = record (emptied page) { slk = some s.pid } in
        rw (lock-raised i (emptied page) st (v.unlocked i is_inactive)) (
          ap
            (λ x. ok i (
              set_buf i (record x { page = some (s.disk x.block_num) })
                (raised i (set_buf i c st))))
            (at-set_buf i c s.bufs)
          ∙ ap (ok i) (set_buf-raised i filled c st))

    filled-Got : (p : ℕ) → Got s (end_state p) i bn
    filled-Got p = record {
      coherent =
          raise-Coherent s v i filled p is_inactive (omega arith) (λ u. refl)
            λ j c ne u. no_buffer_of none₁ none₂ j c;
      is_active = rw (eqb_refl i) refl;
      number = rw (eqb_refl i) refl;
      content = rw (eqb_refl i) refl;
      locked = rw (eqb_refl i) refl;
      same_disk = refl;
    }

    -- What follows once the buffer is taken, and ends in `r`.
    abbrev after_take : Run Buffers (Unit {0}) → Run Buffers ℕ
    after_take r = and_then (and_then (and_then r λ _. lock_buf i) λ _. buffer_read i) λ _. pure i

    victim_is : get_victim bn s.inactive s ≡ after_take (take_victim bn i s)
    victim_is = ap (λ l. get_victim bn l s) first

    take_some :
        (b : Block)
        → (s.bufs i).page ≡ some b
        → get_victim bn s.inactive s ≡ ok i (end_state s.pages)
    take_some b e =
        let taken : take_victim bn i s ≡ ok tt (raised i (set_buf i (emptied (s.bufs i).page) s)) =
          rw (take_victim, e) (ap (λ g. ok tt (raised i (set_buf i (emptied g) s))) e) in
        victim_is ∙ ap after_take taken ∙ fill (s.bufs i).page s.pages

    take_none :
        (s.bufs i).page ≡ none
        → (s.pages == 0) ≡ false
        → get_victim bn s.inactive s ≡ ok i (end_state (s.pages - 1))
    take_none e left =
        let taken : take_victim bn i s
            ≡ ok tt (
                raised i (set_buf i (emptied (some (λ a. 0))) (record s { pages = s.pages - 1 }))) =
          rw (take_victim, e, left) refl in
        victim_is ∙ ap after_take taken ∙ fill (some (λ a. 0)) (s.pages - 1)

    take_no_page :
        (s.bufs i).page ≡ none → (s.pages == 0) ≡ true → get_victim bn s.inactive s ≡ panic
    take_no_page e empty =
        let taken : take_victim bn i s ≡ panic = rw (take_victim, e, empty) refl in
        victim_is ∙ ap after_take taken

    pub get_first :
        (b : Block) → (s.bufs i).page ≡ some b → buffer_get bn s ≡ ok i (end_state s.pages)
    unfolding buffer_get
    get_first b e = rw (buffer_get, none₁, none₂) (take_some b e)

    -- No buffer has the block: the first of the inactive ones is taken.
    get_miss : Gets s bn
    unfolding buffer_get
    get_miss = elim (Option-cases (s.bufs i).page) [
      | inr (b, has_page) ↦ got i (end_state s.pages) (get_first b has_page) (filled-Got s.pages)
      | inl bare ↦ elim (Bool-cases (s.pages == 0)) [
        | inl empty ↦
            full (rw (buffer_get, none₁, none₂) (take_no_page bare empty))
              (no_buffer_of none₁ none₂) (no_page i xs first bare (eqb→eq s.pages 0 empty))
        | inr left ↦
            got i (end_state (s.pages - 1)) (rw (buffer_get, none₁, none₂) (take_none bare left))
              (filled-Got (s.pages - 1))
      ]
    ]

  get_none :
      find s.bufs bn s.active ≡ none
      → find s.bufs bn s.inactive ≡ none
      → (s.inactive ≡ []) ⊎ ((i : ℕ) × (xs : List ℕ) × (s.inactive ≡ i ∷ xs))
      → Gets s bn
  unfolding buffer_get
  get_none none₁ none₂ (inr (i, xs, first)) = get_miss i xs first none₁ none₂
  get_none none₁ none₂ (inl nothing) =
      full (rw (buffer_get, none₁, none₂) (ap (λ l. get_victim bn l s) nothing))
        (no_buffer_of none₁ none₂) (no_buffer nothing)

  -- `buffer_get` on a coherent cache.
  pub buffer_get-Gets : ((i : ℕ) → (s.bufs i).ref < 2 ^ 32 - 1) → Gets s bn
  buffer_get-Gets few = elim (Option-cases (find s.bufs bn s.active)) [
    | inr (i, e) ↦ get_active i (few i) e
    | inl none₁ ↦ elim (Option-cases (find s.bufs bn s.inactive)) [
      | inr (i, e) ↦ get_inactive i none₁ e
      | inl none₂ ↦ get_none none₁ none₂ (List-cases s.inactive)
    ]
  ]
