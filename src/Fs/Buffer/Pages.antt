-- ===== src/Fs/Buffer/Pages.antt =====
-- The pages that `buffer_freemem` gives back.
use biglab.Prelude.{
  ℕ, ◌+◌, ◌^◌, ◌≤◌, ◌<◌, ◌≡◌, refl, ◌∙◌, ap, inl, inr, true, false, none, List, [], ◌∷◌, arith, has,
  ◌==◌, ltb, Bool-cases, Option-cases, eqb→eq, update, u32,
}
use biglab.Prelude.Run.{ok}
use biglab.Fs.Buffer.{Buffer, Buffers, block_num_unused, set_buf, free_loop, buffer_freemem}
use biglab.Fs.Buffer.Coherence.{Coherent, update-single, update-IsFresh}

-- The buffer loses its page and its block.
abbrev invalid : Buffer → Buffer
invalid b = record b { page = none; block_num = block_num_unused }

abbrev give_back : ℕ → Buffers → Buffers
give_back i s = set_buf i (invalid (s.bufs i)) (record s { pages = s.pages + 1 })

give_back-Coherent :
    (i : ℕ) (s : Buffers) → has i s.inactive ≡ true → Coherent s → Coherent (give_back i s)
give_back-Coherent i s m v = record {
  active_distinct = v.active_distinct;
  inactive_distinct = v.inactive_distinct;
  apart = v.apart;
  in_use = λ j n. ground (arith, v.in_use j);
  idle = λ j n. ground (arith, v.idle j);
  unlocked = λ j n. ground (arith, v.unlocked j);
  fresh = λ j n. update-IsFresh s v i (invalid (s.bufs i)) j (λ u. absurd (u refl)) (λ _. n);
  single = λ j k nj nk.
      update-single s v i (invalid (s.bufs i)) j k (λ l c ne u. absurd (u refl)) (λ _. nj)
        (λ _. nk);
}

-- What the loop has done from `s` on, when it ends with `n` for `freed`.
pub record Freed (count freed n : ℕ) (xs : List ℕ) (s s' : Buffers) : Type 0 where
  pub coherent : Coherent s'
  pub same_disk : s'.disk ≡ s.disk
  pub same_rings : (s'.active ≡ s.active) × (s'.inactive ≡ s.inactive)
  pub same_active : (i : ℕ) → has i s.active ≡ true → s'.bufs i ≡ s.bufs i
  pub at_most : n ≤ count
  pub given_back : s'.pages + freed ≡ s.pages + n
  pub stay_empty : (i : ℕ) → (s.bufs i).page ≡ none → (s'.bufs i).page ≡ none
  pub all_empty : n < count → (i : ℕ) → has i xs ≡ true → (s'.bufs i).page ≡ none

at_other : (x i : ℕ) (b : Buffer) (f : ℕ → Buffer) → (x == i) ≡ false → update f x b i ≡ f i
at_other x i b f e = rw e refl

stays : (x i : ℕ) (s : Buffers) → (s.bufs i).page ≡ none → ((give_back x s).bufs i).page ≡ none
stays x i s e = elim (Bool-cases (x == i)) [ inl p ↦ rw p refl | inr p ↦ rw p e ]

free_loop-Freed :
    (count : ℕ) (xs : List ℕ) (freed : ℕ) (s : Buffers)
    → count < 2 ^ 32
    → freed ≤ count
    → ((i : ℕ) → has i xs ≡ true → has i s.inactive ≡ true)
    → Coherent s
    → (n : ℕ) × (s' : Buffers) × (free_loop count xs freed s ≡ ok n s')
      × Freed count freed n xs s s'
unfolding free_loop
free_loop-Freed count [] freed s small le sub v = (
  freed,
  s,
  refl,
  record {
    coherent = v;
    same_disk = refl;
    same_rings = (refl, refl);
    same_active = λ i m. refl;
    at_most = le;
    given_back = refl;
    stay_empty = λ i e. e;
    all_empty = λ lt i m. absurd (cc);
  },
)
free_loop-Freed count (x ∷ xs) freed s small le sub v = elim (Bool-cases (ltb freed count)) [
  | inr stop ↦ (
    freed,
    s,
    rw stop refl,
    record {
      coherent = v;
      same_disk = refl;
      same_rings = (refl, refl);
      same_active = λ i m. refl;
      at_most = le;
      given_back = refl;
      stay_empty = λ i e. e;
      all_empty = λ lt i m. absurd (ground arith);
    },
  )
  | inl go ↦ elim (Option-cases (s.bufs x).page) [
    | inl bare ↦
        let (n, s', run, d) =
          free_loop-Freed count xs freed s small le (λ i m. sub i (ground arith)) v in
        (
          n,
          s',
          rw (go, bare) run,
          record {
            coherent = d.coherent;
            same_disk = d.same_disk;
            same_rings = d.same_rings;
            same_active = d.same_active;
            at_most = d.at_most;
            given_back = d.given_back;
            stay_empty = d.stay_empty;
            all_empty = λ lt i m. elim (Bool-cases (i == x)) [
              | inl e ↦ d.stay_empty i (ap (λ k. (s.bufs k).page) (eqb→eq i x e) ∙ bare)
              | inr e ↦ d.all_empty lt i (ground (arith, m, e))
            ];
          },
        )
    | inr (b, full) ↦
        let (n, s', run, d) =
          free_loop-Freed count xs (u32 (freed + 1)) (give_back x s) small (ground arith)
            (λ i m. sub i (ground arith)) (give_back-Coherent x s (sub x (ground arith)) v) in
        (
          n,
          s',
          rw (go, full) run,
          record {
            coherent = d.coherent;
            same_disk = d.same_disk;
            same_rings = d.same_rings;
            same_active = λ i m.
                d.same_active i m
                ∙ at_other x i (invalid (s.bufs x)) s.bufs (ground (arith, v.apart i, sub x));
            at_most = d.at_most;
            given_back = ground (arith, d.given_back);
            stay_empty = λ i e. d.stay_empty i (stays x i s e);
            all_empty = λ lt i m. elim (Bool-cases (i == x)) [
              | inl e ↦ d.stay_empty i (ground (arith, e))
              | inr e ↦ d.all_empty lt i (ground (arith, m, e))
            ];
          },
        )
  ]
]

-- On a coherent cache, for a count of 32 bits, `buffer_freemem` gives back as many pages as it returns, at most the count, and
-- fewer only when no inactive buffer has a page left. The disk, the rings and the active buffers stay as they are, and the cache stays coherent.
pub buffer_freemem-Freed :
    (count : ℕ) (s : Buffers)
    → Coherent s
    → count < 2 ^ 32
    → (n : ℕ) × (s' : Buffers) × (buffer_freemem count s ≡ ok n s')
      × Freed count 0 n s.inactive s s'
buffer_freemem-Freed count s v small =
    free_loop-Freed count s.inactive 0 s small (omega arith) (λ i m. m) v
