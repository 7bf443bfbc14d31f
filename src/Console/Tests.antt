-- ===== src/Console/Tests.antt =====
-- Typing and reading a line.
use biglab.Prelude.{ℕ, ◌≡◌, refl, arith, List, [], ◌∷◌}
use biglab.Console.{Console, cons_init, cons_edit, cons_read, kill_loop}
use biglab.Console.Lines.{IsConsole, Edits, edit, view, cons_edit-Edits}
use biglab.Console.Reads.{Read, cons_read-Read}

abbrev empty : Console
empty = cons_init (λ i. 0)

empty-IsConsole : IsConsole empty
empty-IsConsole = record {
  read_le = omega arith;
  writ_le = omega arith;
  room = omega arith;
  one_line = λ k lo hi. absurd (omega arith);
}

abbrev type_all : List ℕ → Console → Console
type_all [] s = s
type_all (c ∷ cs) s = type_all cs (cons_edit c s)

-- "ab", a backspace, "c" and a return give the line "ac".
types_line :
    view (type_all (97 ∷ 98 ∷ 8 ∷ 99 ∷ 13 ∷ 100 ∷ []) empty)
    ≡ record { ready = 97 ∷ 99 ∷ 10 ∷ []; line = 100 ∷ [] }
unfolding cons_edit kill_loop
types_line = refl

abbrev typing : Console
typing = record empty { buf = λ i. 97; edit_idx = 3; writ_idx = 1 }

typing-IsConsole : IsConsole typing
typing-IsConsole = record {
  read_le = omega arith;
  writ_le = omega arith;
  room = omega arith;
  one_line = λ k lo hi. refl;
}

cons_edit_example : Edits (edit 13 (view typing)) (cons_edit 13 typing)
cons_edit_example = cons_edit-Edits 13 typing typing-IsConsole (omega arith)

cons_read_example : Read 5 typing (cons_read 5 typing)
cons_read_example = cons_read-Read 5 typing typing-IsConsole
