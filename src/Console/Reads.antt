-- ===== src/Console/Reads.antt =====
-- `cons_read` takes characters off the lines that have been passed on.
use biglab.Prelude.{
  ℕ, zero, suc, ◌+◌, ◌-◌, ◌%◌, ◌≡◌, refl, ap, List, [], ◌∷◌, arith, Bool, true, false, ◌==◌,
  if◌then◌else◌, Bool-cases, inl, inr,
}
use biglab.Console.{Console, cons_read}
use biglab.Console.Lines.{IsConsole, view}

-- What a reader of `len` bytes takes off a list: up to the first end of line, or `len` bytes, or, where neither
-- comes, all of them, and then it sleeps (true).
abbrev pub take_line : ℕ → List ℕ → List ℕ × Bool × List ℕ
take_line zero xs = ([], false, xs)
take_line (suc len) [] = ([], true, [])
take_line (suc len) (x ∷ xs) =
    let rest = take_line len xs in
    if x == 10 then (x ∷ [], false, xs) else (x ∷ rest.0, rest.1, rest.2)

-- The answer `r` of a read, in terms of the lists.
pub record Read (len : ℕ) (s : Console) (r : List ℕ × Bool × Console) : Type 0 where
  pub bytes : r.0 ≡ (take_line len (view s).ready).0
  pub sleeps : r.1 ≡ (take_line len (view s).ready).1
  pub ready : (view (r.2)).ready ≡ (take_line len (view s).ready).2
  pub line : (view (r.2)).line ≡ (view s).line
  pub in_order : IsConsole (r.2)

abbrev next : Console → Console
next s = record s { read_idx = s.read_idx + 1 }

next-IsConsole :
    (s : Console) → IsConsole s → (s.read_idx == s.writ_idx) ≡ false → IsConsole (next s)
next-IsConsole s v ne = record {
  read_le = ground (arith, v.read_le);
  writ_le = v.writ_le;
  room = omega (arith, v.room);
  one_line = v.one_line;
}

ready-next :
    (s : Console)
    → IsConsole s
    → (s.read_idx == s.writ_idx) ≡ false
    → (view s).ready ≡ s.buf (s.read_idx % 128) ∷ (view (next s)).ready
ready-next s v ne =
    let n : s.writ_idx - s.read_idx ≡ suc (s.writ_idx - (s.read_idx + 1)) =
      ground (arith, v.read_le) in
    let m : suc s.read_idx ≡ s.read_idx + 1 = omega arith in rw (n, m) refl

-- On a console in order, `cons_read` copies out what a reader of so many bytes takes off the
-- characters passed on: through the first end of line, or all that is asked for, or, where neither
-- comes, all there are, and then it sleeps. The characters behind stay, and so does the line being typed.
pub cons_read-Read : (len : ℕ) (s : Console) → IsConsole s → Read len s (cons_read len s)
unfolding cons_read
cons_read-Read zero s v = record {
  bytes = refl;
  sleeps = refl;
  ready = refl;
  line = refl;
  in_order = v;
}
cons_read-Read (suc len) s v = elim (Bool-cases (s.read_idx == s.writ_idx)) [
  | inl e ↦
      let z : s.writ_idx - s.read_idx ≡ 0 = ground arith in
      rw e (record {
        bytes = rw z refl;
        sleeps = rw z refl;
        ready = rw z refl;
        line = refl;
        in_order = v;
      })
  | inr e ↦
      let r = cons_read-Read len (next s) (next-IsConsole s v e) in
      let q = ready-next s v e in
      elim (Bool-cases (s.buf (s.read_idx % 128) == 10)) [
        | inl f ↦
            rw (e, f)
              (record {
                bytes = rw (q, f) refl;
                sleeps = rw (q, f) refl;
                ready = rw (q, f) refl;
                line = refl;
                in_order = next-IsConsole s v e;
              })
        | inr f ↦
            rw (e, f)
              (record {
                bytes = rw (q, f) (ap (λ xs. s.buf (s.read_idx % 128) ∷ xs) r.bytes);
                sleeps = rw (q, f) r.sleeps;
                ready = rw (q, f) r.ready;
                line = r.line;
                in_order = r.in_order;
              })
      ]
]
