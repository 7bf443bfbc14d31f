-- ===== src/Memory/Copy.antt =====
-- src/kernel/mem/uvm.c, part 1: copies between the kernel and user memory. `pt va` is the entry to which `vm_getpte`
-- of kvm.c points for an address, without `alloc`, or `none` for NULL; a copy only reads it. `Bytes` are the
-- bytes at physical addresses, and a buffer of the kernel is a function of the index, apart from the user's pages.
pub mod Bytewise
pub mod In
pub mod Out
pub mod Roundtrip
pub mod Entries
pub mod Str
mod Tests
use biglab.Prelude.{
  ℕ, zero, suc, ◌+◌, ◌-◌, ◌/◌, ◌%◌, Bool, ◌&&◌, Option, none, some, ◌==◌, ltb, leb, if◌then◌else◌,
  update, u64, sub32, page_size,
}
use biglab.Prelude.Run.{Run, ok, panic, out_of_fuel}
use biglab.Memory.Tables.{pte_to_pa, is_valid}

abbrev pub Bytes : Type 0
Bytes = ℕ → ℕ

-- `pte & PTE_R`, `pte & PTE_W` and `pte & PTE_U`.
abbrev pub is_readable : ℕ → Bool
is_readable pte = pte / 2 % 2 == 1

abbrev pub is_writable : ℕ → Bool
is_writable pte = pte / 4 % 2 == 1

abbrev pub is_user : ℕ → Bool
is_user pte = pte / 16 % 2 == 1

-- The entry of an address, if it passes the test of `uvm_copyin` (`can` is is_readable) or of `uvm_copyout`
-- (`can` is is_writable).
abbrev pub allowed : (ℕ → Bool) → Option ℕ → Option ℕ
allowed can none = none
allowed can (some pte) = if is_valid pte && can pte && is_user pte then some pte else none

-- The number of bytes of a round: the rest of the page, or what is left to copy.
abbrev pub round_len : ℕ → ℕ → ℕ
round_len va remaining =
    let bytes_this_page = page_size - va % page_size in
    if ltb bytes_this_page remaining then bytes_this_page else remaining

-- `memmove(dst + at, src + from, n)`.
abbrev pub move : Bytes → ℕ → Bytes → ℕ → ℕ → Bytes
move dst at src from n a = if leb at a && ltb a (at + n) then src (from + (a - at)) else dst a

-- The inner loop of `uvm_copyin_str`, over the bytes from `p_str` to the end of the page, `left` of them: the buffer,
-- and the index after it, or `none` where it has met the NUL.
unfoldable pub copyin_str_page : ℕ → Bytes → ℕ → ℕ → ℕ → Bytes → Bytes × Option ℕ
copyin_str_page zero mem maxlen p_str n dst = (dst, some n)
copyin_str_page (suc left) mem maxlen p_str n dst =
    let dst' = update dst n (mem p_str) in
    let rest = copyin_str_page left mem maxlen (suc p_str) (suc n) dst' in
    if ltb n maxlen then (if mem p_str == 0 then (dst', none) else rest) else (dst, some n)

-- The copy is complete, or goes on with the next page.
abbrev pub after_page : Bytes → (ℕ → Bytes → Run Bytes Bytes) → Bytes × Option ℕ → Run Bytes Bytes
after_page mem k (dst, none) = ok dst mem
after_page mem k (dst, some n) = k n dst

module _ (pt : ℕ → Option ℕ) where
  -- The loop of `uvm_copyin`, with `copied` bytes of `len` copied.
  unfoldable pub copyin_loop : ℕ → Bytes → ℕ → ℕ → ℕ → Bytes → Run Bytes Bytes
  copyin_loop zero mem src len copied dst = out_of_fuel
  copyin_loop (suc fuel) mem src len copied dst =
      let va = u64 (src + copied) in
      let n = round_len va (len - copied) in
      let round = λ (pte : ℕ).
        copyin_loop fuel mem src len (copied + n)
          (move dst copied mem (pte_to_pa pte + va % page_size) n) in
      if ltb copied len
      then (elim (allowed is_readable (pt va)) [ none ↦ panic | some pte ↦ round pte ])
      else ok dst mem

  -- `uvm_copyin`; a round copies at least one byte. The result is the buffer `dst`.
  pub uvm_copyin : Bytes → ℕ → ℕ → Bytes → Run Bytes Bytes
  unfolding copyin_loop
  uvm_copyin dst src len mem = copyin_loop (suc len) mem src len 0 dst

  -- The loop of `uvm_copyout`.
  unfoldable pub copyout_loop : ℕ → Bytes → ℕ → ℕ → ℕ → Bytes → Run Bytes (Unit {0})
  copyout_loop zero src dst len copied mem = out_of_fuel
  copyout_loop (suc fuel) src dst len copied mem =
      let va = u64 (dst + copied) in
      let n = round_len va (len - copied) in
      let round = λ (pte : ℕ).
        copyout_loop fuel src dst len (copied + n)
          (move mem (pte_to_pa pte + va % page_size) src copied n) in
      if ltb copied len
      then (elim (allowed is_writable (pt va)) [ none ↦ panic | some pte ↦ round pte ])
      else ok tt mem

  pub uvm_copyout : ℕ → Bytes → ℕ → Bytes → Run Bytes (Unit {0})
  unfolding copyout_loop
  uvm_copyout dst src len mem = copyout_loop (suc len) src dst len 0 mem

  -- The outer loop, and the NUL that ends a text that is too long.
  unfoldable pub copyin_str_loop : ℕ → Bytes → ℕ → ℕ → ℕ → Bytes → Run Bytes Bytes
  copyin_str_loop zero mem src maxlen n dst = out_of_fuel
  copyin_str_loop (suc fuel) mem src maxlen n dst =
      let va = u64 (src + n) in
      let offset = va % page_size in
      let round = λ (pte : ℕ).
        after_page mem (copyin_str_loop fuel mem src maxlen)
          (copyin_str_page (page_size - offset) mem maxlen (pte_to_pa pte + offset) n dst) in
      if ltb n maxlen
      then (elim (allowed is_readable (pt va)) [ none ↦ panic | some pte ↦ round pte ])
      else ok (update dst (sub32 maxlen 1) 0) mem

  unfoldable pub uvm_copyin_str : Bytes → ℕ → ℕ → Bytes → Run Bytes Bytes
  unfolding copyin_str_loop copyin_str_page
  uvm_copyin_str dst src maxlen mem = copyin_str_loop (suc maxlen) mem src maxlen 0 dst
