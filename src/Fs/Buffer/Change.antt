-- ===== src/Fs/Buffer/Change.antt =====
-- A change of a block through the cache is the change of the block on the disk.
use biglab.Prelude.{
  ℕ, ◌-◌, ◌^◌, ◌<◌, ◌≡◌, refl, sym, ◌∙◌, ap, ◌≢◌, inl, inr, true, false, none, some, arith, has,
  erase-Distinct, ◌==◌, Bool-cases, eqb→eq, neb_of_ne, eqb_refl, update, sub32,
}
use biglab.Prelude.Run.{Run, ok, panic, blocked, ◌>>◌, and_then}
use biglab.Fs.Disk.{Block}
use biglab.Fs.Buffer.{
  Buffer, Buffers, block_num_unused, set_buf, insert_node, buffer_put, buffer_write, modify,
  change_block,
}
use biglab.Fs.Buffer.Coherence.{
  Coherent, Got, cached, IsFresh, IsOnly, has-erase, has-erase_out, update-single, update-IsFresh,
  set-Coherent,
}
use biglab.Fs.Buffer.Get.{got, full, waits, IsFull, buffer_get-Gets}
use biglab.Fs.Buffer.Locked.{at-set_buf}

neb→ne : (a b : ℕ) → (a == b) ≡ false → a ≢ b
neb→ne a b h e = ground arith

module _ (s : Buffers) (v : Coherent s) (i : ℕ) (m : has i s.active ≡ true) where
  -- A node of the active ring goes to the front of the inactive one.
  pub drop-Coherent :
      (buf : Buffer)
      → buf.ref ≡ 0
      → buf.slk ≡ none
      → IsFresh s.disk buf
      → IsOnly s v i buf
      → Coherent (insert_node i false true (set_buf i buf s))
  drop-Coherent buf zero free fr only = record {
    active_distinct = erase-Distinct i s.active v.active_distinct;
    inactive_distinct = (
      has-erase_out i i s.inactive (v.apart i m),
      erase-Distinct i s.inactive v.inactive_distinct,
    );
    apart = λ j n.
        ground (
          arith,
          has-erase i j s.active v.active_distinct,
          has-erase_out i j s.inactive,
          v.apart j,
        );
    in_use = λ j n. ground (arith, has-erase i j s.active v.active_distinct, v.in_use j);
    idle = λ j n. ground (arith, has-erase i j s.inactive v.inactive_distinct, v.idle j);
    unlocked = λ j n. ground (arith, has-erase i j s.inactive v.inactive_distinct, v.unlocked j);
    fresh = λ j n. update-IsFresh s v i buf j fr (still j n);
    single = λ j k nj nk. update-single s v i buf j k only (still j nj) (still k nk);
  }
    where
      still :
          (j : ℕ)
          → cached (insert_node i false true (set_buf i buf s)) j ≡ true
          → i ≢ j
          → cached s j ≡ true
      still j n ne = ground (
        arith,
        has-erase i j s.active v.active_distinct,
        has-erase i j s.inactive v.inactive_distinct,
      )

  pub is_only : (buf : Buffer) → buf.block_num ≡ (s.bufs i).block_num → IsOnly s v i buf
  is_only buf e j c ne u p =
      ne (v.single i j (ground (arith, m)) c (sym e ∙ sym p) (λ q. u (e ∙ q)))

  -- On a coherent cache, `buffer_put` of a buffer in use returns, leaves the disk alone, and keeps the cache coherent.
  pub buffer_put-Coherent :
      (s' : Buffers) × (buffer_put i s ≡ ok tt s') × Coherent s' × (s'.disk ≡ s.disk)
  unfolding buffer_put
  buffer_put-Coherent =
      let buf = record (s.bufs i) { ref = sub32 (s.bufs i).ref 1; slk = none } in
      let fr : IsFresh s.disk buf = v.fresh i (ground (arith, m)) in
      elim (Bool-cases (sub32 (s.bufs i).ref 1 == 0)) [
        | inl e ↦ (
          insert_node i false true (set_buf i buf s),
          rw e refl,
          drop-Coherent buf (eqb→eq (sub32 (s.bufs i).ref 1) 0 e) refl fr (is_only buf refl),
          refl,
        )
        | inr e ↦ (
          set_buf i buf s,
          rw e refl,
          set-Coherent s v i buf m (ground arith) fr (is_only buf refl),
          refl,
        )
      ]

  -- With another content, in memory and on the disk, of the block of a buffer in use.
  write-Coherent :
      (b : Block)
      → Coherent (record (set_buf i (record (s.bufs i) { page = some b }) s) {
        disk = update s.disk (s.bufs i).block_num b;
      })
  write-Coherent b = record {
    active_distinct = v.active_distinct;
    inactive_distinct = v.inactive_distinct;
    apart = v.apart;
    in_use = λ j n. ground (arith, v.in_use j, v.in_use i);
    idle = λ j n. ground (arith, v.idle j, v.apart i);
    unlocked = λ j n. ground (arith, v.unlocked j, v.apart i);
    fresh = λ j n. elim (Bool-cases (i == j)) [
      | inl p ↦ rw p (λ u. rw (eqb_refl (s.bufs i).block_num) refl)
      | inr p ↦ rw p (λ u.
          rw
            (neb_of_ne (s.bufs i).block_num (s.bufs j).block_num
              (λ q. neb→ne i j p (v.single i j (ground (arith, m)) n q (λ r. u (sym q ∙ r)))))
            (v.fresh j n u))
    ];
    single = λ j k nj nk.
        update-single s v i (record (s.bufs i) { page = some b }) j k
          (is_only (record (s.bufs i) { page = some b }) refl) (λ _. nj) (λ _. nk);
  }

write_some :
    (i : ℕ) (s : Buffers) (b : Block)
    → (s.bufs i).page ≡ some b
    → buffer_write i s ≡ ok tt (record s { disk = update s.disk (s.bufs i).block_num b })
unfolding buffer_write
write_some i s b e = rw (buffer_write, e) refl

abbrev finish : (Block → Block) → ℕ → Buffers → Run Buffers (Unit {0})
finish f i = modify f i >> buffer_write i >> buffer_put i

-- What the caller does with a block that it got.
finish-Changed :
    (f : Block → Block) (bn i : ℕ) (s s' : Buffers)
    → Got s s' i bn
    → (s'' : Buffers) × (finish f i s' ≡ ok tt s'')
      × Coherent s''
      × (s''.disk ≡ update s.disk bn (f (s.disk bn)))
finish-Changed f bn i s s' g =
    let b = f (s.disk bn) in
    let c = record (s'.bufs i) { page = some b } in
    let t = record (set_buf i c s') { disk = update s'.disk (s'.bufs i).block_num b } in
    let modified : modify f i s' ≡ ok tt (set_buf i c s') = rw (modify, g.content) refl in
    let written : buffer_write i (set_buf i c s') ≡ ok tt t =
      write_some i (set_buf i c s') b (ap Buffer.page (at-set_buf i c s'.bufs))
      ∙ ap (λ x. ok tt (record (set_buf i c s') { disk = update s'.disk x.block_num b }))
          (at-set_buf i c s'.bufs) in
    let (s'', put, v, same) =
      buffer_put-Coherent t (write-Coherent s' g.coherent i g.is_active b) i g.is_active in
    (
      s'',
      ap (λ r. and_then (and_then r λ _. buffer_write i) λ _. buffer_put i) modified
          ∙ ap (λ r. and_then r λ _. buffer_put i) written
          ∙ put,
      v,
      same ∙ ap (λ n. update s'.disk n b) g.number ∙ ap (λ d. update d bn b) g.same_disk,
    )

-- The outcomes of a change of a block.
pub data Changes (f : Block → Block) (block_num : ℕ) (s : Buffers) : Type 0 where
  changed :
      (s' : Buffers)
      → change_block f block_num s ≡ ok tt s'
      → Coherent s'
      → s'.disk ≡ update s.disk block_num (f (s.disk block_num))
      → Changes f block_num s
  no_room :
      change_block f block_num s ≡ panic
      → ((i : ℕ) → cached s i ≡ true → (s.bufs i).block_num ≢ block_num)
      → IsFull s
      → Changes f block_num s
  waiting :
      (i p : ℕ)
      → change_block f block_num s ≡ blocked
      → has i s.active ≡ true
      → (s.bufs i).block_num ≡ block_num
      → (s.bufs i).slk ≡ some p
      → Changes f block_num s

-- The rings, the locks and the copies in memory are invisible: on a coherent cache, for a valid block number and with
-- reference counts below their limit, a change of a block through
-- `buffer_get`, `buffer_write` and `buffer_put` is the same change of the block on the disk, and leaves a coherent cache.
-- Otherwise it panics, and then no buffer has the block and none can be taken for it, or it
-- waits for the process that holds the block's buffer.
pub change_block-Changes :
    (f : Block → Block) (bn : ℕ) (s : Buffers)
    → Coherent s
    → bn ≢ block_num_unused
    → ((i : ℕ) → (s.bufs i).ref < 2 ^ 32 - 1)
    → Changes f bn s
unfolding change_block
change_block-Changes f bn s v valid few = elim (buffer_get-Gets s v bn valid few) [
  | got i s' run g ↦
      let (s'', end, v'', disk) = finish-Changed f bn i s s' g in
      changed s'' (ap (λ r. and_then r (finish f)) run ∙ end) v'' disk
  | full run none_of is_full ↦ no_room (ap (λ r. and_then r (finish f)) run) none_of is_full
  | waits i p run m num held ↦ waiting i p (ap (λ r. and_then r (finish f)) run) m num held
]
