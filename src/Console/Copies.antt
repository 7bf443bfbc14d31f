-- ===== src/Console/Copies.antt =====
-- The copies of `cons_read`.
use mathlib.Core.Path.{fun_ext}
use biglab.Prelude.{
  ℕ, zero, suc, ◌+◌, ◌%◌, ◌≡◌, refl, ap, ◌∙◌, List, [], ◌∷◌, false, ◌==◌, Bool-cases, inl, inr, u64,
}
use biglab.Prelude.Run.{Run, ok, panic, out_of_fuel, blocked, Cmd, and_then}
use biglab.Console.{Console, cons_read, cons_read_to}

module _ {M : Type 0} (copy : ℕ → ℕ → Cmd M (Unit {0})) where
  -- Bytes copied one after the other from `dst` on.
  abbrev pub copy_all : List ℕ → ℕ → Cmd M (Unit {0})
  copy_all [] dst m = ok tt m
  copy_all (c ∷ cs) dst m = and_then (copy dst c m) (λ _. copy_all cs (u64 (dst + 1)))

  and_then_assoc :
      {A B C : Type 0} (r : Run M A) (k : A → Cmd M B) (h : B → Cmd M C)
      → and_then r (λ a m. and_then (k a m) h) ≡ and_then (and_then r k) h
  and_then_assoc (ok a m) k h = refl
  and_then_assoc panic k h = refl
  and_then_assoc out_of_fuel k h = refl
  and_then_assoc blocked k h = refl

  -- `cons_read` with its copies does what it does without, after the bytes that it takes are copied in order; it stops where a
  -- copy stops.
  pub cons_read_to-cons_read :
      (len dst : ℕ) (s : Console) (m : M)
      → cons_read_to copy len dst s m
        ≡ and_then
            (copy_all (cons_read len s).0 dst m)
            (λ _. ok ((cons_read len s).1, (cons_read len s).2))
  unfolding cons_read_to cons_read
  cons_read_to-cons_read zero dst s m = refl
  cons_read_to-cons_read (suc len) dst s m =
      let c = s.buf (s.read_idx % 128) in
      let s' = record s { read_idx = s.read_idx + 1 } in
      elim (Bool-cases (s.read_idx == s.writ_idx)) [
        | inl e ↦ rw e refl
        | inr e ↦ elim (Bool-cases (c == 10)) [
          | inl f ↦ rw (e, f) (and_then_assoc (copy dst c m) (λ _. ok tt) (λ _. ok (false, s')))
          | inr f ↦
              let r = cons_read len s' in
              rw (e, f)
                (ap (and_then (copy dst c m)) (
                    fun_ext (λ _. fun_ext (λ m'. cons_read_to-cons_read len (u64 (dst + 1)) s' m')))
                  ∙ and_then_assoc (copy dst c m) (λ _. copy_all r.0 (u64 (dst + 1)))
                      (λ _. ok (r.1, r.2)))
        ]
      ]
