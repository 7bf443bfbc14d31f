-- ===== src/Memory/Tables/Mappages.antt =====
-- `vm_mappages`: a range of pages is mapped, and every other page as before.
use biglab.Prelude.{
  ℕ, zero, suc, ◌+◌, ◌-◌, ◌*◌, ◌/◌, ◌%◌, ◌^◌, ◌≤◌, ◌<◌, ◌≡◌, refl, ap, subst, ◌∙◌, inl, inr, true,
  false, ◌&&◌, Option, some, List, arith, length, ◌==◌, ltb, leb, if◌then◌else◌, Bool-cases, eqb→eq,
  page_size, u64,
}
use biglab.Prelude.Run.{Run, ok, and_then}
use biglab.Memory.Space.{va_max}
use biglab.Memory.Pmem.{Pmem}
use biglab.Memory.Tables.{make_pte, map_loop, vm_mappages}
use biglab.Memory.Tables.Views.{Views, with_page, Ends, map_one-Ends}

-- The `n` pages from `va` on, mapped to those from `pa` on.
abbrev pub with_range : ℕ → ℕ → ℕ → ℕ → (ℕ → Option ℕ) → ℕ → Option ℕ
with_range va n pa perm view vb =
    let first = va / page_size in
    let page = vb / page_size in
    if leb first page && ltb page (first + n)
    then some (make_pte (pa + (page - first) * page_size) perm)
    else view vb

pub Views-by :
    {s : Pmem} {root : ℕ} {ks us : List ℕ} {view view' : ℕ → Option ℕ}
    → ((vb : ℕ) → view vb ≡ view' vb)
    → Views s root ks us view
    → Views s root ks us view'
Views-by same v = record { inv = v.inv; tree = v.tree; mapped = λ vb h. v.mapped vb h ∙ same vb }

-- One page in front of a range, by the numbers of the pages.
pub one_more {ℓ} :
    {A : Type ℓ} (a b n pa : ℕ) (f : ℕ → A) (o : A)
    → (if leb (a + 1) b && ltb b (a + 1 + n)
        then f (pa + 4096 + (b - (a + 1)) * 4096)
        else if a == b
        then f pa
        else o)
      ≡ (if leb a b && ltb b (a + suc n) then f (pa + (b - a) * 4096) else o)
one_more a b n pa f o = elim (Bool-cases (a == b)) [
  | inl e ↦
      let out : (leb (a + 1) b && ltb b (a + 1 + n)) ≡ false = ground (arith, e) in
      let within : (leb a b && ltb b (a + suc n)) ≡ true = ground (arith, e) in
      let same : pa + (b - a) * 4096 ≡ pa = omega (arith, eqb→eq a b e) in
      rw (out, e, within, same) refl
  | inr ne ↦ elim (Bool-cases (leb (a + 1) b && ltb b (a + 1 + n))) [
    | inl e ↦
        let within : (leb a b && ltb b (a + suc n)) ≡ true = ground (arith, e) in
        let same : pa + 4096 + (b - (a + 1)) * 4096 ≡ pa + (b - a) * 4096 = ground (arith, e) in
        rw (e, within, same) refl
    | inr e ↦
        let out : (leb a b && ltb b (a + suc n)) ≡ false = ground (arith, e, ne) in
        rw (e, ne, out) refl
  ]
]

one_only {ℓ} :
    {A : Type ℓ} (a b pa : ℕ) (f : ℕ → A) (o : A)
    → (if a == b then f pa else o)
      ≡ (if leb a b && ltb b (a + 1) then f (pa + (b - a) * 4096) else o)
one_only a b pa f o = elim (Bool-cases (a == b)) [
  | inl e ↦
      let within : (leb a b && ltb b (a + 1)) ≡ true = ground (arith, e) in
      let same : pa + (b - a) * 4096 ≡ pa = omega (arith, eqb→eq a b e) in rw (e, within, same) refl
  | inr ne ↦ let out : (leb a b && ltb b (a + 1)) ≡ false = ground (arith, ne) in rw (ne, out) refl
]

module _ (kern root start perm last : ℕ) (us : List ℕ) (flags : perm < 1024)
    (top : last < va_max) where
  one_page :
      (va pa : ℕ) (view : ℕ → Option ℕ) (vb : ℕ)
      → with_page va (some (make_pte pa perm)) view vb ≡ with_range va 1 pa perm view vb
  one_page va pa view vb =
      one_only (va / page_size) (vb / page_size) pa (λ p. some (make_pte p perm)) (view vb)

  more_pages :
      (n va pa : ℕ) (view : ℕ → Option ℕ) (vb : ℕ)
      → va % page_size ≡ 0
      → with_range
          (va + page_size)
          n
          (pa + page_size)
          perm
          (with_page va (some (make_pte pa perm)) view)
          vb
        ≡ with_range va (suc n) pa perm view vb
  more_pages n va pa view vb al =
      let next : (va + page_size) / page_size ≡ va / page_size + 1 = omega arith in
      ap
        (λ a.
          if leb a (vb / page_size) && ltb (vb / page_size) (a + n)
          then some (make_pte (pa + page_size + (vb / page_size - a) * page_size) perm)
          else with_page va (some (make_pte pa perm)) view vb)
        next
      ∙ one_more (va / page_size) (vb / page_size) n pa (λ p. some (make_pte p perm)) (view vb)

  -- What `map_loop` does after a page.
  abbrev after_page : ℕ → ℕ → ℕ → Unit {0} → Pmem → Run Pmem (Unit {0})
  after_page fuel va pa _ s' =
      let va' = u64 (va + page_size) in
      if va == last
      then ok tt s'
      else if ltb va' start
      then ok tt s'
      else map_loop fuel kern root start va' (u64 (pa + page_size)) perm last s'

  map_loop-Ends :
      (m fuel : ℕ) (s : Pmem) (va pa : ℕ) (ks : List ℕ) (view : ℕ → Option ℕ)
      → Views s root ks us view
      → m < fuel
      → va % page_size ≡ 0
      → start ≤ va
      → last ≡ va + page_size * m
      → pa + page_size * m < 2 ^ 64
      → 2 * (m + 1) ≤ length ks
      → Ends
          (map_loop fuel kern root start va pa perm last s)
          root
          ks
          us
          (with_range va (suc m) pa perm view)
          (2 * (m + 1))
  unfolding map_loop
  map_loop-Ends m zero s va pa ks view v f al st la pf en = absurd (omega (arith, f))
  map_loop-Ends zero (suc fuel) s va pa ks view v f al st la pf en =
      let e =
        map_one-Ends kern s root va pa perm ks us view v (omega (arith, la, top))
          (omega (arith, en)) flags in
      let same : (va == last) ≡ true = ground (arith, la) in
      record {
        after = e.after;
        left = e.left;
        run = ap (λ r. and_then r (after_page fuel va pa)) e.run ∙ rw same refl;
        views = Views-by (one_page va pa view) e.views;
        used_up = e.used_up;
      }
  map_loop-Ends (suc m) (suc fuel) s va pa ks view v f al st la pf en =
      let e =
        map_one-Ends kern s root va pa perm ks us view v (omega (arith, la, top))
          (omega (arith, en)) flags in
      let other : (va == last) ≡ false = ground (arith, la) in
      let on : ltb (u64 (va + page_size)) start ≡ false = ground (arith, la, st, top) in
      let va_is : u64 (va + page_size) ≡ va + page_size = omega (arith, la, top) in
      let pa_is : u64 (pa + page_size) ≡ pa + page_size = omega (arith, pf) in
      let d =
        map_loop-Ends m fuel e.after (va + page_size) (pa + page_size) e.left
          (with_page va (some (make_pte pa perm)) view) e.views (omega (arith, f))
          (omega (arith, al)) (omega (arith, st)) (omega (arith, la)) (omega (arith, pf))
          (omega (arith, en, e.used_up)) in
      let round : after_page fuel va pa tt e.after
          ≡ map_loop fuel kern root start (va + page_size) (pa + page_size) perm last e.after =
        rw (other, on, va_is, pa_is) refl in
      record {
        after = d.after;
        left = d.left;
        run = ap (λ r. and_then r (after_page fuel va pa)) e.run ∙ round ∙ d.run;
        views = Views-by (λ vb. more_pages (suc m) va pa view vb al) d.views;
        used_up = omega (arith, d.used_up, e.used_up);
      }

-- The number of pages that a range of `len` bytes from a page on touches.
abbrev pub pages_of : ℕ → ℕ
pages_of len = (len + (page_size - 1)) / page_size

-- For page addresses, a range that is not empty and ends at VA_MAX at most, physical addresses within 64 bits, permissions below 1024,
-- pools in order, tables that form a tree and two free pages of the kernel for each page, `vm_mappages` returns:
-- the pages of the range are mapped to those from `pa` on with the permissions, every other page below
-- VA_MAX keeps its mapping, and the pools and the tables stay in order.
pub vm_mappages-Ends :
    (kern root va pa len perm : ℕ) (s : Pmem) (ks us : List ℕ) (view : ℕ → Option ℕ)
    → Views s root ks us view
    → va % page_size ≡ 0
    → pa % page_size ≡ 0
    → 0 < len
    → va + len ≤ va_max
    → pa + len ≤ 2 ^ 64
    → perm < 1024
    → 2 * pages_of len ≤ length ks
    → Ends
        (vm_mappages kern root va pa len perm s)
        root
        ks
        us
        (with_range va (pages_of len) pa perm view)
        (2 * pages_of len)
vm_mappages-Ends kern root va pa len perm s ks us view v al pal pos top ptop flags enough =
    let m = pages_of len - 1 in
    let last_addr = va + len - 1 in
    let last = last_addr - last_addr % page_size in
    let e =
      map_loop-Ends kern root va perm last us flags (omega (arith, top, pos)) m
        (len / page_size + 1) s va pa ks view v (omega (arith, pos)) al (omega arith)
        (omega (arith, al, pos)) (omega (arith, ptop, pos, pal)) (omega (arith, enough, pos)) in
    let count : suc m ≡ pages_of len = omega (arith, pos) in
    let t₁ : (va % page_size == 0) ≡ true = ground (arith, al) in
    let t₂ : (pa % page_size == 0) ≡ true = ground (arith, pal) in
    let t₃ : (len == 0) ≡ false = ground (arith, pos) in
    let small : u64 (va + len - 1) ≡ last_addr = omega (arith, top) in
    let t₄ : leb va_max last_addr ≡ false = ground (arith, top, pos) in
    let start : vm_mappages kern root va pa len perm s
        ≡ map_loop (len / page_size + 1) kern root va va pa perm last s =
      rw (t₁, t₂, t₃, small, t₄) refl in
    record {
      after = e.after;
      left = e.left;
      run = start ∙ e.run;
      views =
          subst (λ n. Views e.after root e.left us (with_range va n pa perm view)) count e.views;
      used_up = omega (arith, e.used_up, count);
    }
