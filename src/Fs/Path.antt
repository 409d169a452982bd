-- ===== src/Fs/Path.antt =====
-- `skipelem` of kernel/fs.c. A path is the list of its bytes.
use os_labs.Prelude.{ℕ, zero, suc, Option, none, some, List, [], ◌∷◌, ◌==◌, if◌then◌else◌}

-- DIRSIZ
abbrev pub dirsiz : ℕ
dirsiz = 14

-- `while(*path == '/') path++;`
unfoldable pub skip_slashes : List ℕ → List ℕ
skip_slashes [] = []
skip_slashes (c ∷ path) = let rest = skip_slashes path in if c == b'/' then rest else c ∷ path

-- `while(*path != '/' && *path != 0) path++;`: what is passed, and the rest.
unfoldable pub element : List ℕ → List ℕ × List ℕ
element [] = ([], [])
element (c ∷ path) =
    let (name, rest) = element path in if c == b'/' then ([], c ∷ path) else (c ∷ name, rest)

-- At most `n` bytes of a name.
unfoldable pub cut_name : (n : ℕ) → List ℕ → List ℕ
cut_name zero name = []
cut_name (suc n) [] = []
cut_name (suc n) (c ∷ name) = c ∷ cut_name n name

abbrev pub after_slashes : List ℕ → Option (List ℕ × List ℕ)
after_slashes [] = none
after_slashes (c ∷ path) =
    let (name, rest) = element (c ∷ path) in some (cut_name dirsiz name, skip_slashes rest)

-- `skipelem`: the name and the rest of the path.
unfoldable pub skipelem : List ℕ → Option (List ℕ × List ℕ)
skipelem path = after_slashes (skip_slashes path)
