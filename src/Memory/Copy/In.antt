-- ===== src/Memory/Copy/In.antt =====
-- `uvm_copyin` against a copy byte by byte.
use biglab.Prelude.{
  ℕ, zero, suc, ◌+◌, ◌-◌, ◌%◌, ◌≤◌, ◌<◌, ◌≡◌, refl, ap, ◌∙◌, sym, arith, Option, none, some, ltb,
  inl, inr, Bool-cases, Option-cases, update, u64, page_size,
}
use biglab.Prelude.Run.{Run, ok, panic}
use biglab.Memory.Tables.{pte_to_pa}
use biglab.Memory.Copy.{Bytes, is_readable, allowed, round_len, move, copyin_loop, uvm_copyin}
use biglab.Memory.Copy.Bytewise.{
  PageWise, each_byte, page_bytes, first_byte-none, move-none, move-suc,
}

-- The bytes of a round: at least one, within the page and the copy.
pub round_len_bounds :
    (va remaining : ℕ)
    → 0 < remaining
    → (n : ℕ) × (round_len va remaining ≡ suc n)
      × (va % page_size + suc n ≤ page_size)
      × (suc n ≤ remaining)
round_len_bounds va remaining h =
    (round_len va remaining - 1, ground arith, ground arith, ground arith)

-- A byte of user memory comes to the index `i` of the buffer.
abbrev pub read_byte : Bytes → ℕ → ℕ → Bytes → Bytes
read_byte mem i a dst = update dst i (mem a)

-- The bytes are in the buffer and the memory is as it was, or the kernel stops.
abbrev pub copied_in : Bytes → Option Bytes → Run Bytes Bytes
copied_in mem none = panic
copied_in mem (some dst) = ok dst mem

module _ (pt : ℕ → Option ℕ) (same_page : PageWise pt) (mem : Bytes) (src len : ℕ) where
  abbrev pub bytes_in : ℕ → ℕ → Bytes → Option Bytes
  bytes_in = each_byte (read_byte mem) is_readable pt src

  copyin_loop-each_byte :
      (fuel copied : ℕ) (dst : Bytes)
      → copied ≤ len
      → len - copied < fuel
      → copyin_loop pt fuel mem src len copied dst
        ≡ copied_in mem (bytes_in (len - copied) copied dst)
  unfolding copyin_loop each_byte
  copyin_loop-each_byte zero copied dst le lt = absurd (omega (arith, lt))
  copyin_loop-each_byte (suc fuel) copied dst le lt = elim (Bool-cases (ltb copied len)) [
    | inr end ↦ let e : len - copied ≡ 0 = ground (arith, end) in rw (end, e) refl
    | inl more ↦
        let pos : 0 < len - copied = ground (arith, more) in
        let va = u64 (src + copied) in
        elim (Option-cases (allowed is_readable (pt va))) [
          | inl no_entry ↦
              let (m, e) : (m : ℕ) × (len - copied ≡ suc m) =
                (len - copied - 1, omega (arith, pos)) in
              rw (more, no_entry, e)
                (ap (copied_in mem)
                  (sym (first_byte-none (read_byte mem) is_readable pt src m copied dst no_entry)))
          | inr (pte, entry) ↦
              let (n, e, fits, rest) = round_len_bounds va (len - copied) pos in
              let left = len - (copied + suc n) in
              let f : suc n + left ≡ len - copied = omega (arith, rest) in
              let a = pte_to_pa pte + va % page_size in
              let moved = move dst copied mem a (suc n) in
              let loop : copyin_loop pt (suc fuel) mem src len copied dst
                  ≡ copyin_loop pt fuel mem src len (copied + suc n) moved =
                rw (more, entry, e) refl in
              loop
              ∙ copyin_loop-each_byte fuel (copied + suc n) moved (omega (arith, le, rest))
                  (omega (arith, lt, pos))
              ∙ ap (copied_in mem) (
                  sym (
                    page_bytes (read_byte mem) is_readable pt src same_page
                      (λ k i b x. move x i mem b k) (λ i b x. move-none x i mem b)
                      (λ k i b x. move-suc x i mem b k) pte n left copied dst fits entry))
              ∙ ap (λ k. copied_in mem (bytes_in k copied dst)) f
        ]
  ]

  -- If the addresses of a page have the same entry, `uvm_copyin` is the copy byte by byte, each byte from the address that
  -- its own entry gives: it returns with these bytes in the buffer, the rest of the buffer and the memory as they were, or it
  -- panics if one of them has no entry that is valid, readable and the user's.
  pub uvm_copyin-each_byte :
      (dst : Bytes) → uvm_copyin pt dst src len mem ≡ copied_in mem (bytes_in len 0 dst)
  unfolding uvm_copyin
  uvm_copyin-each_byte dst =
      let e : len - 0 ≡ len = omega arith in
      copyin_loop-each_byte (suc len) 0 dst (omega arith) (omega arith)
      ∙ ap (λ n. copied_in mem (bytes_in n 0 dst)) e
