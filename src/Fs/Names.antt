-- ===== src/Fs/Names.antt =====
-- The names of directory entries: `strncmp` of src/kernel/lib/utils.c, and `get_element` of
-- src/kernel/fs/dentry.c. A path is the list of its characters before the NUL; a buffer for a name is a function
-- of the index.
pub mod Elements
pub mod Compare
mod Tests
use biglab.Prelude.{
  ℕ, zero, suc, ◌+◌, ◌-◌, Bool, true, false, ◌&&◌, not, Option, none, some, ◌==◌, ltb,
  if◌then◌else◌, List, [], ◌∷◌, length,
}

abbrev pub slash : ℕ
slash = 47

-- MAXLEN_FILENAME.
abbrev pub maxlen_filename : ℕ
maxlen_filename = 60

-- The loop of `strncmp` from the index `i`, with `n` characters left. The result is the two characters
-- whose difference is returned.
unfoldable pub strncmp_from : (ℕ → ℕ) → (ℕ → ℕ) → ℕ → ℕ → ℕ × ℕ
strncmp_from p q zero i = (0, 0)
strncmp_from p q (suc n) i =
    let rest = strncmp_from p q n (suc i) in
    if not (p i == 0) && (p i == q i) then rest else (p i, q i)

-- `strncmp(p, q, n) == 0`.
abbrev pub strncmp_eq : (ℕ → ℕ) → (ℕ → ℕ) → ℕ → Bool
strncmp_eq p q n = let (a, b) = strncmp_from p q n 0 in a == b

-- `while (*path == '/') path++`.
unfoldable pub skip_slashes : List ℕ → List ℕ
skip_slashes [] = []
skip_slashes (c ∷ path) = let rest = skip_slashes path in if c == slash then rest else c ∷ path

-- `while (*path != '/' && *path != 0) path++`: what it passes, and what is left.
unfoldable pub take_element : List ℕ → List ℕ × List ℕ
take_element [] = ([], [])
take_element (c ∷ path) =
    let (s, rest) = take_element path in if c == slash then ([], c ∷ path) else (c ∷ s, rest)

abbrev pub char_at : List ℕ → ℕ → ℕ
char_at [] i = 0
char_at (c ∷ s) zero = c
char_at (c ∷ s) (suc i) = char_at s i

-- `memmove(name, s, len)` and `name[len] = 0`, where `len` is cut to MAXLEN_FILENAME - 1.
abbrev pub put_name : List ℕ → (ℕ → ℕ) → ℕ → ℕ
put_name s name i =
    let len = if ltb (length s) maxlen_filename then length s else maxlen_filename - 1 in
    if ltb i len then char_at s i else if i == len then 0 else name i

-- After the first slashes: nothing is left and the result is 0, or an element is copied to `name`.
abbrev pub first_element : List ℕ → (ℕ → ℕ) → Option (List ℕ × (ℕ → ℕ))
first_element [] name = none
first_element (c ∷ path) name =
    let (s, rest) = take_element (c ∷ path) in some (skip_slashes rest, put_name s name)

unfoldable pub get_element : List ℕ → (ℕ → ℕ) → Option (List ℕ × (ℕ → ℕ))
unfolding skip_slashes take_element
get_element path name = first_element (skip_slashes path) name

-- `strcpy(s, t)`: the characters of `t` up to its NUL, which comes within `n` characters.
unfoldable pub strcpy_from : ℕ → ℕ → (ℕ → ℕ) → (ℕ → ℕ) → ℕ → ℕ
strcpy_from zero i s t = s
strcpy_from (suc n) i s t =
    let first = λ (j : ℕ). if j == i then t i else s j in
    let rest = strcpy_from n (suc i) first t in if t i == 0 then first else rest
