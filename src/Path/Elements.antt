-- ===== src/Path/Elements.antt =====
-- HW3/fs.c: `skipelem` on the bytes of the path before its zero byte.
use operating_systems.Base.{ℕ, Option, none, some, List, [], ◌∷◌, take, ◌==◌, if◌then◌else◌}

-- DIRSIZ
abbrev pub dirsiz : ℕ
dirsiz = 14

-- `while(*path == '/') path++;`
unfoldable pub skip_slashes : List ℕ → List ℕ
skip_slashes [] = []
skip_slashes (c ∷ cs) = let rest = skip_slashes cs in if c == b'/' then rest else c ∷ cs

-- `while(*path != '/' && *path != 0) path++;`: what is passed over, and what is left.
unfoldable pub element : List ℕ → List ℕ × List ℕ
element [] = ([], [])
element (c ∷ cs) =
    let (name, rest) = element cs in if c == b'/' then ([], c ∷ cs) else (c ∷ name, rest)

-- The element is cut to DIRSIZ bytes; a shorter one is ended by a zero byte.
unfoldable pub skipelem : List ℕ → Option (List ℕ × List ℕ)
skipelem path = elim (skip_slashes path) [
  | [] ↦ none
  | c ∷ cs ↦ let (name, rest) = element (c ∷ cs) in some (take dirsiz name, skip_slashes rest)
]
