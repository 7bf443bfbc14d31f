-- ===== src/Memory/Copy/Roundtrip.antt =====
-- What is copied to user memory is read back.
use mathlib.Core.Path.{fun_ext}
use biglab.Prelude.{
  ℕ, zero, suc, ◌+◌, ◌≤◌, ◌<◌, ◌≡◌, refl, ap, ◌∙◌, sym, ◌≢◌, true, false, ◌&&◌, arith, Option, some,
  ltb, leb, ◌==◌, if◌then◌else◌, inl, inr, Bool-cases, update, u64, eqb_refl, eqb→eq, neb_of_ne,
}
use biglab.Prelude.Run.{ok}
use biglab.Memory.Copy.{Bytes, is_readable, is_writable, allowed, uvm_copyin, uvm_copyout}
use biglab.Memory.Copy.Bytewise.{PageWise, address_in, each_byte}
use biglab.Memory.Copy.In.{read_byte, copied_in, uvm_copyin-each_byte}
use biglab.Memory.Copy.Out.{write_byte, copied_out, uvm_copyout-each_byte}

-- The `len` bytes from `va` on stand at the addresses `at`, which the user may read and write and which are all different.
pub record Mapped (pt : ℕ → Option ℕ) (va len : ℕ) (at : ℕ → ℕ) : Type 0 where
  pub readable :
      (i : ℕ)
      → i < len
      → address_in (allowed is_readable (pt (u64 (va + i)))) (u64 (va + i)) ≡ some (at i)
  pub writable :
      (i : ℕ)
      → i < len
      → address_in (allowed is_writable (pt (u64 (va + i)))) (u64 (va + i)) ≡ some (at i)
  pub apart : (i j : ℕ) → i < j → j < len → at i ≢ at j

module _ (pt : ℕ → Option ℕ) (va len : ℕ) (at : ℕ → ℕ) (m : Mapped pt va len at) (src : Bytes) where
  abbrev Written : ℕ → Bytes → Bytes → Type 0
  Written i mem mem' =
      ((k : ℕ) → i ≤ k → k < len → mem' (at k) ≡ src k)
      × ((a : ℕ) → ((k : ℕ) → i ≤ k → k < len → at k ≢ a) → mem' a ≡ mem a)

  bytes-Written :
      (n i : ℕ) (mem : Bytes)
      → i + n ≡ len
      → (mem' : Bytes) × (each_byte (write_byte src) is_writable pt va n i mem ≡ some mem')
        × Written i mem mem'
  unfolding each_byte
  bytes-Written zero i mem e =
      (mem, refl, ((λ k l h. absurd (omega (arith, l, h, e))), λ a f. refl))
  bytes-Written (suc n) i mem e =
      let lt : i < len = omega (arith, e) in
      let (mem', run, (new, old)) =
        bytes-Written n (suc i) (update mem (at i) (src i)) (omega (arith, e)) in
      (
        mem',
        rw (m.writable i lt) run,
        (
          (λ k l h. elim (Bool-cases (i == k)) [
            | inl f ↦
                let same : i ≡ k = eqb→eq i k f in
                ap (λ j. mem' (at j)) (sym same)
                ∙ old (at i) (λ j p q z. m.apart i j (omega (arith, p)) q (sym z))
                ∙ rw (eqb_refl (at i)) (ap src same)
            | inr f ↦ new k (ground (arith, f, l)) h
          ]),
          (λ a f.
              old a (λ k l h. f k (omega (arith, l)) h)
              ∙ rw (neb_of_ne (at i) a (f i (omega arith) lt)) refl),
        ),
      )

  -- The buffer with the bytes of memory from the index `i` on.
  abbrev filled : ℕ → Bytes → Bytes → Bytes
  filled i mem dst k = if leb i k && ltb k len then mem (at k) else dst k

  bytes-filled :
      (n i : ℕ) (mem dst : Bytes)
      → i + n ≡ len
      → each_byte (read_byte mem) is_readable pt va n i dst ≡ some (filled i mem dst)
  unfolding each_byte
  bytes-filled zero i mem dst e = ap some (
      fun_ext (λ k.
        let none_left : (leb i k && ltb k len) ≡ false = ground (arith, e) in rw none_left refl))
  bytes-filled (suc n) i mem dst e = rw (m.readable i (omega (arith, e))) (
      bytes-filled n (suc i) mem (update dst i (mem (at i))) (omega (arith, e))
      ∙ ap some (fun_ext (λ k. one_more k)))
    where
      one_more : (k : ℕ) → filled (suc i) mem (update dst i (mem (at i))) k ≡ filled i mem dst k
      one_more k = elim (Bool-cases (i == k)) [
        | inl f ↦
            let passed : (leb (suc i) k && ltb k len) ≡ false = ground (arith, f) in
            let reached : (leb i k && ltb k len) ≡ true = ground (arith, f, e) in
            rw (passed, reached, f) (ap (λ j. mem (at j)) (eqb→eq i k f))
        | inr f ↦ ground (arith, f)
      ]

  -- If the addresses of a page have the same entry, and the bytes from `va` on stand at different addresses that the user
  -- may read and write: `uvm_copyout` returns, and `uvm_copyin` from there brings the same bytes back, with the rest
  -- of the buffer as it was.
  pub uvm_copyin-copyout :
      (mem dst : Bytes)
      → PageWise pt
      → (mem' : Bytes) × (uvm_copyout pt va src len mem ≡ ok tt mem')
        × (uvm_copyin pt dst va len mem' ≡ ok (λ k. if ltb k len then src k else dst k) mem')
  uvm_copyin-copyout mem dst same_page =
      let (mem', run, (new, old)) = bytes-Written len 0 mem (omega arith) in
      (
        mem',
        uvm_copyout-each_byte pt same_page src va len mem ∙ ap copied_out run,
        uvm_copyin-each_byte pt same_page mem' va len dst
            ∙ ap (copied_in mem') (
                bytes-filled len 0 mem' dst (omega arith)
                ∙ ap some (fun_ext (λ k. read_back k mem' new))),
      )
    where
      read_back :
          (k : ℕ) (mem' : Bytes)
          → ((j : ℕ) → 0 ≤ j → j < len → mem' (at j) ≡ src j)
          → filled 0 mem' dst k ≡ (if ltb k len then src k else dst k)
      read_back k mem' new =
          let z : leb 0 k ≡ true = ground arith in
          elim (Bool-cases (ltb k len)) [
            | inl c ↦ rw (z, c) (new k (omega arith) (ground (arith, c)))
            | inr c ↦ rw (z, c) refl
          ]
