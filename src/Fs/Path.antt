-- ===== src/Fs/Path.antt =====
-- kern/fs/path.c: `skipelem`, the elements of a path. A string is the list of its characters in front of
-- the zero. The callers pass no null pointer.
pub mod Elements
use mcertikos.Base.{
  ℕ, zero, suc, ◌+◌, ◌-◌, ◌==◌, leb, if◌then◌else◌, List, [], ◌∷◌, length, Option, none, some,
}

-- `'/'`, and `DIRSIZ`
abbrev pub slash : ℕ
slash = 47

abbrev pub dirsiz : ℕ
dirsiz = 14

-- `while (*p == '/') p++`
unfoldable pub skip_slashes : List ℕ → List ℕ
skip_slashes [] = []
skip_slashes (c ∷ p) = let rest = skip_slashes p in if c == slash then rest else c ∷ p

-- The characters from `p` to `q`, and those from `q` on, after `while (*q != '/' && *q != '\0') q++`.
unfoldable pub element : List ℕ → List ℕ
element [] = []
element (c ∷ p) = let rest = element p in if c == slash then [] else c ∷ rest

unfoldable pub after_element : List ℕ → List ℕ
after_element [] = []
after_element (c ∷ p) = let rest = after_element p in if c == slash then c ∷ p else rest

-- `strncpy(name, p, n)`, for the first `n` characters
unfoldable pub first : ℕ → List ℕ → List ℕ
first zero p = []
first (suc n) [] = []
first (suc n) (c ∷ p) = c ∷ first n p

-- What ends up in `name`.
unfoldable pub truncate : List ℕ → List ℕ
unfolding first
truncate p = if leb dirsiz (length p) then first (dirsiz - 1) p else p

-- `skipelem`: null, or the rest of the path, and the name.
unfoldable pub skipelem : List ℕ → Option (List ℕ × List ℕ)
unfolding skip_slashes element after_element truncate
skipelem path = elim (skip_slashes path) [
  | [] ↦ none
  | c ∷ p ↦ some (skip_slashes (after_element (c ∷ p)), truncate (element (c ∷ p)))
]
