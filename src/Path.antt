-- ===== src/Path.antt =====
-- kernel/fs.c: `skipelem`, which takes the first name off a path. A path is the list of its bytes
-- before the terminator.
pub mod Names
mod Tests
use paddle_os.Prelude.{◌==◌, if◌then◌else◌, take, ℕ, Option, none, some, List, [], ◌∷◌}

-- `DIRSIZ`
abbrev pub dirsiz : ℕ
dirsiz = 14

abbrev pub slash : ℕ
slash = b'/'

-- `while (*path == '/') path++;`
unfoldable pub skip_slashes : List ℕ → List ℕ
skip_slashes [] = []
skip_slashes (c ∷ path) = if c == slash then skip_slashes path else c ∷ path

-- `while (*path != '/' && *path != 0) path++;`: the bytes passed, and the rest
unfoldable pub element : List ℕ → List ℕ × List ℕ
element [] = ([], [])
element (c ∷ path) =
    let rest = element path in if c == slash then ([], c ∷ path) else (c ∷ rest.0, rest.1)

-- What `name` holds up to its end: the first 14 bytes, or all of a shorter element and a 0.
unfoldable pub skipelem : List ℕ → Option (List ℕ × List ℕ)
skipelem path = elim (skip_slashes path) [
  | [] ↦ none
  | c ∷ rest ↦ let (s, behind) = element (c ∷ rest) in some (take dirsiz s, skip_slashes behind)
]
