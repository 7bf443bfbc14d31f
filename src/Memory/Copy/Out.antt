-- ===== src/Memory/Copy/Out.antt =====
-- `uvm_copyout` against a copy byte by byte.
use biglab.Prelude.{
  ℕ, zero, suc, ◌+◌, ◌-◌, ◌%◌, ◌≤◌, ◌<◌, ◌≡◌, refl, ap, ◌∙◌, sym, arith, Option, none, some, ltb,
  inl, inr, Bool-cases, Option-cases, update, u64, page_size,
}
use biglab.Prelude.Run.{Run, ok, panic}
use biglab.Memory.Tables.{pte_to_pa}
use biglab.Memory.Copy.{Bytes, is_writable, allowed, move, copyout_loop, uvm_copyout}
use biglab.Memory.Copy.Bytewise.{
  PageWise, each_byte, page_bytes, first_byte-none, move-none, move-suc,
}
use biglab.Memory.Copy.In.{round_len_bounds}

-- The byte at the index `i` of the buffer goes to user memory.
abbrev pub write_byte : Bytes → ℕ → ℕ → Bytes → Bytes
write_byte src i a mem = update mem a (src i)

abbrev pub copied_out : Option Bytes → Run Bytes (Unit {0})
copied_out none = panic
copied_out (some mem) = ok tt mem

module _ (pt : ℕ → Option ℕ) (same_page : PageWise pt) (src : Bytes) (dst len : ℕ) where
  abbrev pub bytes_out : ℕ → ℕ → Bytes → Option Bytes
  bytes_out = each_byte (write_byte src) is_writable pt dst

  copyout_loop-each_byte :
      (fuel copied : ℕ) (mem : Bytes)
      → copied ≤ len
      → len - copied < fuel
      → copyout_loop pt fuel src dst len copied mem
        ≡ copied_out (bytes_out (len - copied) copied mem)
  unfolding copyout_loop each_byte
  copyout_loop-each_byte zero copied mem le lt = absurd (omega (arith, lt))
  copyout_loop-each_byte (suc fuel) copied mem le lt = elim (Bool-cases (ltb copied len)) [
    | inr end ↦ let e : len - copied ≡ 0 = ground (arith, end) in rw (end, e) refl
    | inl more ↦
        let pos : 0 < len - copied = ground (arith, more) in
        let va = u64 (dst + copied) in
        elim (Option-cases (allowed is_writable (pt va))) [
          | inl no_entry ↦
              let (m, e) : (m : ℕ) × (len - copied ≡ suc m) =
                (len - copied - 1, omega (arith, pos)) in
              rw (more, no_entry, e)
                (ap copied_out
                  (sym (first_byte-none (write_byte src) is_writable pt dst m copied mem no_entry)))
          | inr (pte, entry) ↦
              let (n, e, fits, rest) = round_len_bounds va (len - copied) pos in
              let left = len - (copied + suc n) in
              let f : suc n + left ≡ len - copied = omega (arith, rest) in
              let a = pte_to_pa pte + va % page_size in
              let moved = move mem a src copied (suc n) in
              let loop : copyout_loop pt (suc fuel) src dst len copied mem
                  ≡ copyout_loop pt fuel src dst len (copied + suc n) moved =
                rw (more, entry, e) refl in
              loop
              ∙ copyout_loop-each_byte fuel (copied + suc n) moved (omega (arith, le, rest))
                  (omega (arith, lt, pos))
              ∙ ap copied_out (
                  sym (
                    page_bytes (write_byte src) is_writable pt dst same_page
                      (λ k i b x. move x b src i k) (λ i b x. move-none x b src i)
                      (λ k i b x. move-suc x b src i k) pte n left copied mem fits entry))
              ∙ ap (λ k. copied_out (bytes_out k copied mem)) f
        ]
  ]

  -- If the addresses of a page have the same entry, `uvm_copyout` is the copy byte by byte, each byte to the address that its
  -- own entry gives: it returns with these bytes in memory and the rest of the memory as it was, or it panics if one of
  -- them has no entry that is valid, writable and the user's.
  pub uvm_copyout-each_byte :
      (mem : Bytes) → uvm_copyout pt dst src len mem ≡ copied_out (bytes_out len 0 mem)
  unfolding uvm_copyout
  uvm_copyout-each_byte mem =
      let e : len - 0 ≡ len = omega arith in
      copyout_loop-each_byte (suc len) 0 mem (omega arith) (omega arith)
      ∙ ap (λ n. copied_out (bytes_out n 0 mem)) e
