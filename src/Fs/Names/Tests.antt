-- ===== src/Fs/Names/Tests.antt =====
-- The elements of "//ab/c", and two names compared.
use biglab.Prelude.{ℕ, ◌==◌, if◌then◌else◌, List, [], ◌∷◌}

abbrev some_path : List ℕ
some_path = 47 ∷ 47 ∷ 97 ∷ 98 ∷ 47 ∷ 99 ∷ []

abbrev no_name : ℕ → ℕ
no_name i = 255

abbrev name_a : ℕ → ℕ
name_a i = if i == 0 then 97 else 0
