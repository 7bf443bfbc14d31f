-- ===== src/Memory/Space/Pool.antt =====
-- `pmem_free` refuses a page that is not of its pool. For the mappings of a process, which are to pages of the user
-- pool, it does not.
use biglab.Prelude.{
  ℕ, zero, suc, ◌+◌, ◌%◌, ◌≡◌, refl, ap, ◌∙◌, arith, true, false, Option, none, some, ◌==◌, leb,
  ltb, ◌||◌, not, if◌then◌else◌, inl, inr, ◌⊎◌, Bool-cases, Option-cases, update, ◌∷◌, page_size,
}
use biglab.Prelude.Run.{ok, panic, Cmd, and_then}
use biglab.Memory.Space.{Space, Mapping, unmap_page, unmap_loop}
use biglab.Memory.Pmem.Pages.{IsPage}

-- The user pool is the range from `lo` up to `hi`.
module _ (lo hi : ℕ) where
  -- `pmem_free(pa, false)`.
  abbrev pub free_frame : ℕ → Cmd Space (Unit {0})
  free_frame pa s =
      if not (pa % page_size == 0)
      then panic
      else if ltb pa lo || leb hi pa
      then panic
      else ok tt (record s { frames = pa ∷ s.frames })

  -- A mapped page loses its frame and its mapping.
  abbrev pub unmap_mapped : ℕ → Option Mapping → Cmd Space (Unit {0})
  unmap_mapped va none s = ok tt s
  unmap_mapped va (some m) s =
      and_then (if m.pa == 0 then ok tt s else free_frame m.pa s)
        (λ _ t. ok tt (record t { pt = update t.pt va none }))

  -- The loop of `vm_unmappages` with `do_free`, with the tests of `pmem_free`.
  pub free_loop : ℕ → ℕ → Cmd Space (Unit {0})
  free_loop zero va s = ok tt s
  free_loop (suc n) va s =
      and_then (unmap_mapped va (s.pt va) s) (λ _. free_loop n (va + page_size))

  -- The mapped pages are pages of the user pool, or the frame 0.
  abbrev pub Backed : Space → Type 0
  Backed s = (a : ℕ) (m : Mapping) → s.pt a ≡ some m → (m.pa ≡ 0) ⊎ IsPage lo hi m.pa

  free_frame-ok :
      (pa : ℕ) (s : Space)
      → IsPage lo hi pa
      → free_frame pa s ≡ ok tt (record s { frames = pa ∷ s.frames })
  free_frame-ok pa s (al, above, below) =
      let a : (pa % page_size == 0) ≡ true = ground (arith, al) in
      let b : (ltb pa lo || leb hi pa) ≡ false = ground (arith, above, below) in rw (a, b) refl

  unmap_mapped-unmap_page :
      (va : ℕ) (s : Space) → Backed s → unmap_mapped va (s.pt va) s ≡ ok tt (unmap_page va s)
  unfolding unmap_page
  unmap_mapped-unmap_page va s b = elim (Option-cases (s.pt va)) [
    | inl e ↦ rw (unmap_page, e) refl
    | inr (m, e) ↦ elim (Bool-cases (m.pa == 0)) [
      | inl z ↦ rw (unmap_page, e) (rw z refl)
      | inr z ↦ elim (b va m e) [
        | inl zero_frame ↦ ground (arith, z, zero_frame)
        | inr page ↦
            rw (unmap_page, e)
              (rw z (
                ap (λ r. and_then r (λ _ t. ok tt (record t { pt = update t.pt va none })))
                  (free_frame-ok m.pa s page)))
      ]
    ]
  ]

  unmap_page-Backed : (va : ℕ) (s : Space) → Backed s → Backed (unmap_page va s)
  unfolding unmap_page
  unmap_page-Backed va s b a m h = elim (Option-cases (s.pt va)) [
    | inl e ↦ b a m (rw (unmap_page, e) at h)
    | inr (m', e) ↦ elim (Bool-cases (va == a)) [
      | inl z ↦
          let g = rw (unmap_page, e) at h in let n : none ≡ some m = rw z at g in ground (arith, n)
      | inr z ↦ b a m (let g = rw (unmap_page, e) at h in rw z at g)
    ]
  ]

  -- Where every mapped page is a page of the user pool or the frame 0, no round of `vm_unmappages` with `do_free`
  -- panics in `pmem_free`: the loop with the tests of `pmem_free` is the loop of Memory/Space.
  pub free_loop-unmap_loop :
      (n va : ℕ) (s : Space) → Backed s → free_loop n va s ≡ ok tt (unmap_loop n va s)
  unfolding free_loop unmap_loop
  free_loop-unmap_loop zero va s b = refl
  free_loop-unmap_loop (suc n) va s b =
      ap (λ r. and_then r (λ _. free_loop n (va + page_size))) (unmap_mapped-unmap_page va s b)
      ∙ free_loop-unmap_loop n (va + page_size) (unmap_page va s) (unmap_page-Backed va s b)
