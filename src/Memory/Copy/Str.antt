-- ===== src/Memory/Copy/Str.antt =====
-- `uvm_copyin_str` against a copy byte by byte up to the NUL.
use biglab.Prelude.{
  ℕ, zero, suc, ◌+◌, ◌-◌, ◌/◌, ◌%◌, ◌^◌, ◌≤◌, ◌<◌, ◌≡◌, refl, ap, ◌∙◌, sym, arith, Option, none,
  some, ltb, ◌==◌, if◌then◌else◌, inl, inr, Bool-cases, Option-cases, update, u64, sub32, page_size,
  eqb_refl, eqb→eq,
}
use biglab.Memory.Tables.{pte_to_pa}
use biglab.Memory.Copy.{
  Bytes, is_readable, allowed, copyin_str_page, after_page, copyin_str_loop, uvm_copyin_str,
}
use biglab.Memory.Copy.Bytewise.{PageWise, address_in}
use biglab.Memory.Copy.In.{copied_in}

module _ (pt : ℕ → Option ℕ) (mem : Bytes) (src maxlen : ℕ) where
  abbrev next_char : Bytes → ℕ → (Bytes → Option Bytes) → Option ℕ → Option Bytes
  next_char dst i k none = none
  next_char dst i k (some a) =
      let rest = k (update dst i (mem a)) in
      if mem a == 0 then some (update dst i (mem a)) else rest

  -- The bytes up to the first NUL, `n` of them at most from the index `i` on, each from the address that its own entry
  -- gives; after the last of them the buffer's end becomes NUL. `none` where an address does not pass the test.
  pub text_bytes : ℕ → ℕ → Bytes → Option Bytes
  text_bytes zero i dst = some (update dst (sub32 maxlen 1) 0)
  text_bytes (suc n) i dst =
      next_char dst i (text_bytes n (suc i))
        (address_in (allowed is_readable (pt (u64 (src + i)))) (u64 (src + i)))

  abbrev rest_from : ℕ → Bytes → Option Bytes
  rest_from i = text_bytes (maxlen - i) i

  -- What a page of the text leaves to do, from the index `i` with `left` bytes of the page.
  abbrev Passed : ℕ → ℕ → Bytes → Bytes × Option ℕ → Type 0
  Passed i left dst (dst', none) = rest_from i dst ≡ some dst'
  Passed i left dst (dst', some n) =
      (rest_from i dst ≡ rest_from n dst')
      × (n ≡ (if ltb maxlen (i + left) then maxlen else i + left))

  abbrev address : ℕ → Option ℕ
  address i = address_in (allowed is_readable (pt (u64 (src + i)))) (u64 (src + i))

  -- The bytes of the page are at the addresses from `a` on.
  abbrev InPage : ℕ → ℕ → ℕ → Type 0
  InPage i left a = (j : ℕ) → i ≤ j → j < i + left → address j ≡ some (a + (j - i))

  Passed-suc :
      (i left : ℕ) (dst dst₁ : Bytes) (r : Bytes × Option ℕ)
      → rest_from i dst ≡ rest_from (suc i) dst₁
      → Passed (suc i) left dst₁ r
      → Passed i (suc left) dst r
  Passed-suc i left dst dst₁ (dst', none) e h = e ∙ h
  Passed-suc i left dst dst₁ (dst', some n) e (f, g) = (e ∙ f, ground (arith, g))

  first_char :
      (i a : ℕ) (dst : Bytes)
      → i < maxlen
      → address i ≡ some a
      → rest_from i dst ≡ (
          if mem a == 0
          then some (update dst i (mem a))
          else rest_from (suc i) (update dst i (mem a)))
  unfolding text_bytes
  first_char i a dst lt here =
      let e : maxlen - i ≡ suc (maxlen - suc i) = omega (arith, lt) in
      ap (λ k. text_bytes k i dst) e ∙ rw here refl

  copyin_str_page-Passed :
      (left i a : ℕ) (dst : Bytes)
      → i ≤ maxlen
      → InPage i left a
      → Passed i left dst (copyin_str_page left mem maxlen a i dst)
  unfolding copyin_str_page
  copyin_str_page-Passed zero i a dst le inside = (refl, ground (arith, le))
  copyin_str_page-Passed (suc left) i a dst le inside = elim (Bool-cases (ltb i maxlen)) [
    | inr end ↦ rw end (refl, ground (arith, end, le))
    | inl more ↦
        let lt : i < maxlen = ground (arith, more) in
        let z : a + (i - i) ≡ a = omega arith in
        let here : address i ≡ some a = inside i (omega arith) (omega arith) ∙ ap some z in
        let first = first_char i a dst lt here in
        elim (Bool-cases (mem a == 0)) [
          | inl nul ↦ rw (more, nul) (first ∙ rw nul refl)
          | inr char ↦
              rw (more, char)
                (Passed-suc i left dst (update dst i (mem a)) _ (first ∙ rw char refl) (
                  copyin_str_page-Passed left (suc i) (suc a) (update dst i (mem a)) lt (λ j l h.
                    let f : a + (j - i) ≡ suc a + (j - suc i) = omega (arith, l) in
                    inside j (omega (arith, l)) (omega (arith, h)) ∙ ap some f)))
        ]
  ]

  -- A text that is returned has a NUL within the buffer.
  abbrev pub Ended : Option Bytes → Type 0
  Ended none = Unit
  Ended (some dst) = (k : ℕ) × (k < maxlen) × (dst k ≡ 0)

  text_bytes-Ended :
      (n i : ℕ) (dst : Bytes)
      → i + n ≡ maxlen
      → 0 < maxlen
      → maxlen < 2 ^ 32
      → Ended (text_bytes n i dst)
  unfolding text_bytes
  text_bytes-Ended zero i dst e pos small =
      let f : sub32 maxlen 1 ≡ maxlen - 1 = omega (arith, pos, small) in
      (maxlen - 1, omega (arith, pos), rw (f, eqb_refl (maxlen - 1)) refl)
  text_bytes-Ended (suc n) i dst e pos small = elim (Option-cases (address i)) [
    | inl none_there ↦ rw none_there tt
    | inr (a, there) ↦ elim (Bool-cases (mem a == 0)) [
      | inl nul ↦ rw (there, nul) (i, omega (arith, e), rw (eqb_refl i) (eqb→eq (mem a) 0 nul))
      | inr char ↦
          rw (there, char)
            (text_bytes-Ended n (suc i) (update dst i (mem a)) (omega (arith, e)) pos small)
    ]
  ]

  module _ (same_page : PageWise pt) where
    in_page :
        (pte i : ℕ)
        → allowed is_readable (pt (u64 (src + i))) ≡ some pte
        → let offset = u64 (src + i) % page_size in
          InPage i (page_size - offset) (pte_to_pa pte + offset)
    in_page pte i e j l h =
        let same : u64 (src + j) / page_size ≡ u64 (src + i) / page_size = omega (arith, l, h) in
        let f : pte_to_pa pte + u64 (src + j) % page_size
            ≡ pte_to_pa pte + u64 (src + i) % page_size + (j - i) =
          omega (arith, l, h) in
        ap (λ o. address_in o (u64 (src + j)))
          (ap (allowed is_readable) (same_page (u64 (src + j)) (u64 (src + i)) same) ∙ e)
        ∙ ap some f

    loop_on :
        (fuel i left : ℕ) (dst : Bytes) (r : Bytes × Option ℕ)
        → i < maxlen
        → 0 < left
        → maxlen - i < suc fuel
        → ((n : ℕ) (dst' : Bytes)
            → n ≤ maxlen
            → maxlen - n < fuel
            → copyin_str_loop pt fuel mem src maxlen n dst' ≡ copied_in mem (rest_from n dst'))
        → Passed i left dst r
        → after_page mem (copyin_str_loop pt fuel mem src maxlen) r
          ≡ copied_in mem (rest_from i dst)
    loop_on fuel i left dst (dst', none) lt pos enough rest h = ap (copied_in mem) (sym h)
    loop_on fuel i left dst (dst', some n) lt pos enough rest (h, e) =
        rest n dst' (ground (arith, e)) (ground (arith, e, lt, pos, enough))
        ∙ ap (copied_in mem) (sym h)

    copyin_str_loop-text_bytes :
        (fuel i : ℕ) (dst : Bytes)
        → i ≤ maxlen
        → maxlen - i < fuel
        → copyin_str_loop pt fuel mem src maxlen i dst ≡ copied_in mem (rest_from i dst)
    unfolding copyin_str_loop text_bytes
    copyin_str_loop-text_bytes zero i dst le enough = absurd (omega (arith, enough))
    copyin_str_loop-text_bytes (suc fuel) i dst le enough = elim (Bool-cases (ltb i maxlen)) [
      | inr end ↦ let e : maxlen - i ≡ 0 = ground (arith, end) in rw (end, e) refl
      | inl more ↦ elim (Option-cases (allowed is_readable (pt (u64 (src + i))))) [
        | inl no_entry ↦
            let e : maxlen - i ≡ suc (maxlen - suc i) = ground (arith, more) in
            rw (more, no_entry, e) (rw no_entry refl)
        | inr (pte, entry) ↦
            let offset = u64 (src + i) % page_size in
            rw (more, entry)
              (loop_on fuel i (page_size - offset) dst _ (ground (arith, more)) (omega arith) enough
                (λ n dst' h lt. copyin_str_loop-text_bytes fuel n dst' h lt)
                (copyin_str_page-Passed (page_size - offset) i (pte_to_pa pte + offset) dst le
                  (in_page pte i entry)))
      ]
    ]

    -- If the addresses of a page have the same entry and `maxlen` is a uint32 and not 0, the two loops of `uvm_copyin_str` end, within a round per byte, and do what a
    -- copy byte by byte up to the NUL does: the call returns with the text in the buffer and the memory as it was, where a text of
    -- `maxlen` bytes or more gets its last byte replaced by a NUL, or it panics if a byte up to the NUL has no entry that is
    -- valid, readable and the user's. A text that is returned has a NUL within `maxlen` bytes.
    pub uvm_copyin_str-text_bytes :
        (dst : Bytes)
        → 0 < maxlen
        → maxlen < 2 ^ 32
        → (uvm_copyin_str pt dst src maxlen mem ≡ copied_in mem (text_bytes maxlen 0 dst))
          × Ended (text_bytes maxlen 0 dst)
    unfolding uvm_copyin_str
    uvm_copyin_str-text_bytes dst pos small =
        let e : maxlen - 0 ≡ maxlen = omega arith in
        (
          copyin_str_loop-text_bytes (suc maxlen) 0 dst (omega arith) (omega arith)
              ∙ ap (λ n. copied_in mem (text_bytes n 0 dst)) e,
          text_bytes-Ended maxlen 0 dst (omega arith) pos small,
        )
