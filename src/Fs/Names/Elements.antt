-- ===== src/Fs/Names/Elements.antt =====
-- `get_element`: the first name of a path, and the rest.
use biglab.Prelude.{
  ℕ, zero, suc, ◌≤◌, ◌<◌, ◌≡◌, ◌≢◌, Option, none, some, List, [], ◌∷◌, ◌++◌, length, get_elem?, ◌⊎◌,
}

abbrev pub slashes : ℕ → List ℕ
slashes zero = []
slashes (suc m) = 47 ∷ slashes m

-- A text without a slash; one that does not start with a slash.
abbrev pub Plain : List ℕ → Type 0
Plain [] = Unit
Plain (c ∷ s) = (c ≢ 47) × Plain s

abbrev pub NoSlash : List ℕ → Type 0
NoSlash [] = Unit
NoSlash (c ∷ s) = c ≢ 47

-- The end of an element: the end of the path, or a slash.
abbrev Stops : List ℕ → Type 0
Stops [] = Unit
Stops (c ∷ s) = c ≡ 47

-- The buffer has the text with a NUL behind it, cut to 59 characters, and is otherwise as it was.
abbrev pub HasText : List ℕ → (ℕ → ℕ) → (ℕ → ℕ) → Type 0
HasText s name name' =
    (n : ℕ) × ((n ≡ length s) ⊎ ((n ≡ 59) × (59 < length s)))
    × (n ≤ 59)
    × ((i : ℕ) → i < n → get_elem? s i ≡ some (name' i))
    × (name' n ≡ 0)
    × ((i : ℕ) → n < i → name' i ≡ name i)

abbrev pub Parsed : List ℕ → (ℕ → ℕ) → Option (List ℕ × (ℕ → ℕ)) → Type 0
Parsed path name none = (m : ℕ) × (path ≡ slashes m)
Parsed path name (some (rest, name')) =
    (m m' : ℕ) × (c : ℕ) × (s : List ℕ) × (path ≡ slashes m ++ ((c ∷ s) ++ (slashes m' ++ rest)))
    × Plain (c ∷ s)
    × NoSlash rest
    × HasText (c ∷ s) name name'
    × (length rest < length path)
