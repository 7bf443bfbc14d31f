-- ===== src/Memory/Regions/Filled.antt =====
-- Pages mapped to the first free frames, and the loop of `uvm_mmap` that does it.
use biglab.Prelude.{
  ℕ, zero, suc, ◌+◌, ◌*◌, ◌%◌, ◌≤◌, ◌<◌, ◌≡◌, refl, sym, ap, ◌⊎◌, inl, some, List, [], ◌∷◌, arith,
  page_size, u64, length, get_elem?, drop, eqb_refl, ◌∙◌,
}
use biglab.Prelude.Run.{ok, and_then}
use biglab.Memory.Space.{Space, Mapping, mmap_end, take_from, mapped_at, map_page-mapped_at}
use biglab.Memory.Regions.{map_loop}

-- `n` pages from `va` are mapped, with `perm`, to the first free frames; `order i` is the place that the frame of the page `i` has
-- among them.
pub record Filled (order : ℕ → ℕ) (n va perm : ℕ) (s s' : Space) : Type 0 where
  pub mapped :
      (i : ℕ)
      → i < n
      → (pa : ℕ) × (get_elem? s.frames (order i) ≡ some pa)
        × (s'.pt (va + i * page_size) ≡ some (record { pa = pa; perm = perm }))
  pub others : (a : ℕ) → (a < va) ⊎ (va + n * page_size ≤ a) → s'.pt a ≡ s.pt a
  pub frames : s'.frames ≡ drop n s.frames
  pub tables : s.tables ≤ s'.tables + 2 * n
  pub nodes : s'.nodes ≡ s.nodes

-- From the first page up.
abbrev pub upward : ℕ → ℕ
upward i = i

abbrev pub one_more : ℕ → ℕ → ℕ → List ℕ → Space → Space
one_more va perm x xs s = mapped_at va x perm (record s { frames = xs })

pub Filled-none : (order : ℕ → ℕ) (va perm : ℕ) (s : Space) → Filled order 0 va perm s s
Filled-none order va perm s = record {
  mapped = λ i lt. absurd (omega (arith, lt));
  others = λ a o. refl;
  frames = refl;
  tables = omega arith;
  nodes = refl;
}

pub Filled-step :
    (n va perm x : ℕ) (xs : List ℕ) (s s' : Space)
    → s.frames ≡ x ∷ xs
    → Filled upward n (va + page_size) perm (one_more va perm x xs s) s'
    → Filled upward (suc n) va perm s s'
Filled-step n va perm x xs s s' e f = record {
  mapped = mapped;
  others = λ a o. ground (arith, f.others a);
  frames = f.frames ∙ ap (drop (suc n)) (sym e);
  tables = ground (arith, f.tables);
  nodes = f.nodes;
}
  where
    at : (a b : ℕ) (m : Mapping) → a ≡ b → s'.pt a ≡ some m → s'.pt b ≡ some m
    at a b m e h = rw (← e) h

    mapped :
        (i : ℕ)
        → i < suc n
        → (pa : ℕ) × (get_elem? s.frames i ≡ some pa)
          × (s'.pt (va + i * page_size) ≡ some (record { pa = pa; perm = perm }))
    mapped zero lt = (
      x,
      rw e refl,
      at va _ _ (omega arith) (f.others va (inl (omega arith)) ∙ rw (eqb_refl va) refl),
    )
    mapped (suc i) lt =
        let (pa, g, h) = f.mapped i (omega arith) in
        (pa, rw e g, at (va + page_size + i * page_size) _ _ (omega arith) h)

pub map_loop-Filled :
    (n va perm : ℕ) (s : Space) (xs : List ℕ)
    → s.frames ≡ xs
    → va % page_size ≡ 0
    → va + n * page_size ≤ mmap_end
    → n ≤ length xs
    → 2 * n ≤ s.tables
    → (s' : Space) × (map_loop n va perm s ≡ ok tt s') × Filled upward n va perm s s'
unfolding map_loop take_from
map_loop-Filled zero va perm s xs e al hi few room = (s, refl, Filled-none upward va perm s)
map_loop-Filled (suc n) va perm s [] e al hi few room = absurd (omega arith)
map_loop-Filled (suc n) va perm s (x ∷ xs) e al hi few room =
    let t = one_more va perm x xs s in
    let (s', run, f) =
      map_loop-Filled n (va + page_size) perm t xs refl (omega arith) (omega arith) (omega arith)
        (ground (arith, room)) in
    let next : u64 (va + page_size) ≡ va + page_size = omega (arith, hi) in
    let page =
      map_page-mapped_at va x perm (record s { frames = xs }) al (omega (arith, hi))
        (omega (arith, room)) in
    let rest = ap (λ r. and_then r (λ _. map_loop n (va + page_size) perm)) page ∙ run in
    (s', rw (e, next) rest, Filled-step n va perm x xs s s' e f)
