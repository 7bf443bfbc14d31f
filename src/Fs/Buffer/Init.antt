-- ===== src/Fs/Buffer/Init.antt =====
-- The first state of the cache.
use biglab.Prelude.{
  ℕ, zero, suc, ◌+◌, ◌<◌, ◌≡◌, refl, ap, inl, inr, true, false, none, [], arith, has, has-erase_ne,
  Distinct, erase-Distinct, subst, ◌==◌, Bool-cases, eqb→eq,
}
use biglab.Fs.Buffer.{
  Buffer, Buffers, block_num_unused, set_buf, insert_node, init_nodes, buffer_init, n_buffer,
}
use biglab.Fs.Buffer.Coherence.{Coherent, cached, has-erase_out, has-erase}

abbrev unused_buf : Buffer
unused_buf = record { block_num = block_num_unused; ref = 0; page = none; slk = none }

-- A cache in which every inactive buffer is unused, no buffer is active, and the buffers from `i` on are outside the rings.
record Blank (i : ℕ) (s : Buffers) : Type 0 where
  no_active : s.active ≡ []
  everyone : (j : ℕ) → j < i → has j s.inactive ≡ true
  distinct : Distinct s.inactive
  unused : (j : ℕ) → has j s.inactive ≡ true → (j < i) × (s.bufs j ≡ unused_buf)

init_nodes-Blank : (k i : ℕ) (s : Buffers) → Blank i s → Blank (i + k) (init_nodes k i s)
unfolding init_nodes
init_nodes-Blank zero i s b = subst (λ n. Blank n s) (omega arith) b
init_nodes-Blank (suc k) i s b =
    subst (λ n. Blank n (init_nodes (suc k) i s)) (omega arith)
      (init_nodes-Blank k (i + 1) (insert_node i false true (set_buf i unused_buf s)) (record {
        no_active = rw b.no_active refl;
        everyone = λ j lt. ground (arith, b.everyone j, has-erase_ne j i s.inactive);
        distinct = (
          has-erase_out i i s.inactive (elim (Bool-cases (has i s.inactive)) [
            | inl h ↦ absurd (omega (arith, (b.unused i h).0))
            | inr h ↦ h
          ]),
          erase-Distinct i s.inactive b.distinct,
        );
        unused = λ j m. elim (Bool-cases (i == j)) [
          | inl e ↦ (omega (arith, eqb→eq i j e), rw e refl)
          | inr e ↦
              let (lt, same) =
                b.unused j (ground (arith, m, has-erase i j s.inactive b.distinct)) in
              (omega (arith, lt), rw e same)
        ];
      }))

init_nodes-disk : (k i : ℕ) (s : Buffers) → (init_nodes k i s).disk ≡ s.disk
unfolding init_nodes
init_nodes-disk zero i s = refl
init_nodes-disk (suc k) i s =
    init_nodes-disk k (i + 1) (insert_node i false true (set_buf i unused_buf s))

-- The cache holds no block: `n` inactive buffers without pages.
pub record Empty (n : ℕ) (s : Buffers) : Type 0 where
  pub coherent : Coherent s
  pub no_active : s.active ≡ []
  pub all_inactive : (i : ℕ) → i < n → has i s.inactive ≡ true
  pub no_page : (i : ℕ) → has i s.inactive ≡ true → (s.bufs i).page ≡ none

Blank-Empty : (n : ℕ) (s : Buffers) → Blank n s → Empty n s
Blank-Empty n s b = record {
  coherent = record {
    active_distinct = rw b.no_active tt;
    inactive_distinct = b.distinct;
    apart = λ i m. absurd (none_active i m);
    in_use = λ i m. absurd (none_active i m);
    idle = λ i m. ap Buffer.ref (b.unused i m).1;
    unlocked = λ i m. ap Buffer.slk (b.unused i m).1;
    fresh = λ i m u. absurd (u (no_block i m));
    single = λ i j mi mj e u. absurd (u (no_block i mi));
  };
  no_active = b.no_active;
  all_inactive = b.everyone;
  no_page = λ i m. ap Buffer.page (b.unused i m).1;
}
  where
    none_active : (i : ℕ) → ¬ (has i s.active ≡ true)
    none_active i = rw b.no_active (λ m. cc)

    no_block : (i : ℕ) → cached s i ≡ true → (s.bufs i).block_num ≡ block_num_unused
    no_block i m = ap Buffer.block_num (b.unused i (ground (arith, m, none_active i))).1

-- Whatever the memory of the cache holds before, after `buffer_init` the cache is coherent and holds no block:
-- no buffer is active, every buffer is inactive, none has a page, and the disk is as before.
pub buffer_init-Empty :
    (s : Buffers) → Empty n_buffer (buffer_init s) × ((buffer_init s).disk ≡ s.disk)
unfolding buffer_init
buffer_init-Empty s =
    let t = record s { active = []; inactive = [] } in
    (
      Blank-Empty n_buffer (init_nodes n_buffer 0 t) (
          init_nodes-Blank n_buffer 0 t (record {
            no_active = refl;
            everyone = λ j lt. absurd (omega (arith, lt));
            distinct = tt;
            unused = λ j m. absurd (cc);
          })),
      init_nodes-disk n_buffer 0 t,
    )
