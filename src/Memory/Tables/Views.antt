-- ===== src/Memory/Tables/Views.antt =====
-- The mappings that the tables stand for, and a round of `vm_mappages`.
use Prim.Native.Nat.{bit_or}
use biglab.Prelude.{
  ℕ, ◌+◌, ◌*◌, ◌/◌, ◌%◌, ◌≤◌, ◌<◌, ◌≡◌, ◌≢◌, refl, ap, ◌∙◌, Bool, true, Option, none, some, List,
  arith, length, ◌==◌, if◌then◌else◌, update, eqb→eq, page_size, every, every_at,
}
use biglab.Prelude.Run.{Run, ok}
use biglab.Memory.Space.{va_max}
use biglab.Memory.Pmem.{Pmem}
use biglab.Memory.Pmem.Pages.{Inv}
use biglab.Memory.Tables.{vpn, make_pte, is_valid, map_one}
use biglab.Memory.Tables.Tree.{low, low_path, low_path-IsPath, lookup}
use biglab.Memory.Tables.Step.{Tables, write-Inv}
use biglab.Memory.Tables.Ensure.{vm_getpte-Ensured}
use biglab.Memory.Tables.Map.{written-IsTree, lookup-written}

abbrev odd_test : ℕ → Bool
odd_test perm = bit_or perm 1 % 2 == 1

odd_table : every odd_test 1024 ≡ true
unfolding every
odd_table = refl

pub make_pte-is_valid : (pa perm : ℕ) → perm < 1024 → is_valid (make_pte pa perm) ≡ true
make_pte-is_valid pa perm h =
    let odd : bit_or perm 1 % 2 ≡ 1 =
      eqb→eq (bit_or perm 1 % 2) 1 (every_at odd_test 1024 odd_table perm h) in
    let e : make_pte pa perm % 2 ≡ 1 = omega (arith, odd) in rw e refl

-- Both pools and the tables are in order, and each page below VA_MAX has the mapping `view`.
pub record Views (s : Pmem) (root : ℕ) (ks us : List ℕ) (view : ℕ → Option ℕ) : Type 0 where
  pub inv : Inv s ks us
  pub tree : Tables s root ks
  pub mapped : (vb : ℕ) → vb < va_max → lookup s.mem root vb ≡ view vb

-- The page of `va` with another mapping.
abbrev pub with_page : ℕ → Option ℕ → (ℕ → Option ℕ) → ℕ → Option ℕ
with_page va m view vb = if va / page_size == vb / page_size then m else view vb

-- The entry of a page with a lowest table is written.
pub write-Views :
    (s : Pmem) (root va w : ℕ) (ks us : List ℕ) (view : ℕ → Option ℕ)
    → va < va_max
    → Views s root ks us view
    → low s.mem root va ≢ 0
    → Views
        (record s { mem = update s.mem (low s.mem root va + 8 * vpn va 0) w })
        root
        ks
        us
        (with_page va (if is_valid w then some w else none) view)
write-Views s root va w ks us view below v there =
    let t = v.tree in
    record {
      inv =
          write-Inv s (low s.mem root va) (vpn va 0) w ks us
            (t.pages (low_path va) (low_path-IsPath va) there)
            (t.in_use (low_path va) (low_path-IsPath va) there) (omega arith) v.inv;
      tree = written-IsTree s.mem root s.kernel_pool.begin s.kernel_pool.end ks t va w there;
      mapped = λ vb h.
          lookup-written s.mem root s.kernel_pool.begin s.kernel_pool.end ks t va w there vb below h
          ∙ ap
              (λ m.
                if va / page_size == vb / page_size then if is_valid w then some w else none else m)
              (v.mapped vb h);
    }

-- A call has ended with the mappings `view`, at the cost of at most `cost` pages of the kernel.
pub record Ends (call : Run Pmem (Unit {0})) (root : ℕ) (ks us : List ℕ) (view : ℕ → Option ℕ)
    (cost : ℕ) : Type 0 where
  pub after : Pmem
  pub left : List ℕ
  pub run : call ≡ ok tt after
  pub views : Views after root left us view
  pub used_up : length ks ≤ length left + cost

pub map_one-Ends :
    (kern : ℕ) (s : Pmem) (root va pa perm : ℕ) (ks us : List ℕ) (view : ℕ → Option ℕ)
    → Views s root ks us view
    → va < va_max
    → 2 ≤ length ks
    → perm < 1024
    → Ends
        (map_one kern root va pa perm s)
        root
        ks
        us
        (with_page va (some (make_pte pa perm)) view)
        2
map_one-Ends kern s root va pa perm ks us view v below enough flags =
    let g = vm_getpte-Ensured kern s root va ks us v.inv v.tree below enough in
    let found : Views g.after root g.left us view = record {
      inv = g.kept.inv;
      tree = g.kept.tree;
      mapped = λ vb h. g.kept.same vb ∙ v.mapped vb h;
    } in
    let w = write-Views g.after root va (make_pte pa perm) g.left us view below found g.there in
    record {
      after = record g.after {
        mem = update g.after.mem (low g.after.mem root va + 8 * vpn va 0) (make_pte pa perm);
      };
      left = g.left;
      run = rw (map_one, g.run) refl;
      views = record {
        inv = w.inv;
        tree = w.tree;
        mapped = λ vb h.
            w.mapped vb h
            ∙ ap
                (λ b.
                  if va / page_size == vb / page_size
                  then if b then some (make_pte pa perm) else none
                  else view vb)
                (make_pte-is_valid pa perm flags);
      };
      used_up = g.used_up;
    }
