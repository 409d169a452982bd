-- ===== src/Fs/Names.antt =====
-- What `skipelem` of kernel/fs.c makes of a path.
use os_labs.Prelude.{
  ℕ, zero, suc, ◌<◌, ◌≤◌, ◌≡◌, refl, sym, ap, ◌∙◌, false, Bool-cases, ◌⊎◌, inl, inr, Option, none,
  some, List, [], ◌∷◌, ◌++◌, ◌==◌, if◌then◌else◌, length, arith,
}
use os_labs.Fs.Path.{dirsiz, skip_slashes, element, cut_name, after_slashes, skipelem}

-- `c` in front of the first piece.
abbrev push : ℕ → List (List ℕ) → List (List ℕ)
push c [] = []
push c (piece ∷ pieces) = (c ∷ piece) ∷ pieces

-- A path split at each `/`.
abbrev pub pieces : List ℕ → List (List ℕ)
pieces [] = [] ∷ []
pieces (c ∷ path) = if c == b'/' then [] ∷ pieces path else push c (pieces path)

-- The pieces that are not empty.
abbrev pub full_pieces : List (List ℕ) → List (List ℕ)
full_pieces [] = []
full_pieces ([] ∷ rest) = full_pieces rest
full_pieces ((c ∷ name) ∷ rest) = (c ∷ name) ∷ full_pieces rest

abbrev pub components : List ℕ → List (List ℕ)
components path = full_pieces (pieces path)

-- `name` is `full`, or its first `n` bytes where it is longer than that.
abbrev pub Cut : (n : ℕ) → (full name : List ℕ) → Type 0
Cut n full name =
    (lost : List ℕ) × (full ≡ name ++ lost) × (length name ≤ n) × ((lost ≡ []) ⊎ (length name ≡ n))

cut_name-Cut : (n : ℕ) (full : List ℕ) → Cut n full (cut_name n full)
unfolding cut_name
cut_name-Cut zero full = (full, refl, omega arith, inr refl)
cut_name-Cut (suc n) [] = ([], refl, omega arith, inl refl)
cut_name-Cut (suc n) (c ∷ full) =
    let (lost, split, short, ends) = cut_name-Cut n full in
    (lost, ap (λ l. c ∷ l) split, omega (arith, short), longer ends)
  where
    longer :
        {lost : List ℕ}
        → ((lost ≡ []) ⊎ (length (cut_name n full) ≡ n))
        → ((lost ≡ []) ⊎ (suc (length (cut_name n full)) ≡ suc n))
    longer (inl e) = inl e
    longer (inr e) = inr (ap suc e)

-- What is left is shorter, so that a loop over the elements ends.
abbrev pub Step : List ℕ → Option (List ℕ × List ℕ) → Type 0
Step path none = components path ≡ []
Step path (some (name, rest)) =
    (full : List ℕ) × (components path ≡ full ∷ components rest)
    × Cut dirsiz full name
    × (length rest < length path)

components-skip : (path : List ℕ) → components (skip_slashes path) ≡ components path
unfolding skip_slashes
components-skip [] = refl
components-skip (c ∷ path) = elim (Bool-cases (c == b'/')) [
  | inl e ↦ rw e (components-skip path)
  | inr e ↦ rw e (rw e refl)
]

length-skip : (path : List ℕ) → length (skip_slashes path) ≤ length path
unfolding skip_slashes
length-skip [] = omega arith
length-skip (c ∷ path) = let ih = length-skip path in ground (arith, ih)

-- What stands behind an element.
abbrev behind : List ℕ → List (List ℕ)
behind [] = []
behind (c ∷ rest) = pieces rest

pieces-element :
    (path : List ℕ)
    → (pieces path ≡ (element path).0 ∷ behind (element path).1)
      × (length (element path).1 ≤ length path)
      × ((components (element path).1) ≡ full_pieces (behind (element path).1))
unfolding element
pieces-element [] = (refl, omega arith, refl)
pieces-element (c ∷ path) =
    let (ih, short, same) = pieces-element path in
    elim (Bool-cases (c == b'/')) [
      | inl e ↦ rw e (refl, omega arith, rw e refl)
      | inr e ↦ rw (e, ih) (refl, omega (arith, short), same)
    ]

-- The path does not begin with `/`.
abbrev NoSlash : List ℕ → Type 0
NoSlash [] = Unit
NoSlash (c ∷ path) = (c == b'/') ≡ false

skip_slashes-NoSlash : (path : List ℕ) → NoSlash (skip_slashes path)
unfolding skip_slashes
skip_slashes-NoSlash [] = tt
skip_slashes-NoSlash (c ∷ path) = elim (Bool-cases (c == b'/')) [
  | inl e ↦ rw e (skip_slashes-NoSlash path)
  | inr e ↦ rw e e
]

after_slashes-Step : (path : List ℕ) → NoSlash path → Step path (after_slashes path)
unfolding element
after_slashes-Step [] at = refl
after_slashes-Step (c ∷ path) at =
    let (split, short, same) = pieces-element path in
    let skipped = components-skip (element path).1 in
    let shorter = length-skip (element path).1 in
    rw (at, split)
      (
        c ∷ (element path).0,
        ap (λ l. (c ∷ (element path).0) ∷ l) (sym (skipped ∙ same)),
        cut_name-Cut dirsiz (c ∷ (element path).0),
        omega (arith, short, shorter),
      )

-- What holds of the path behind its slashes holds of the path.
Step-skip :
    (path : List ℕ) (r : Option (List ℕ × List ℕ)) → Step (skip_slashes path) r → Step path r
Step-skip path none h = sym (components-skip path) ∙ h
Step-skip path (some (name, rest)) (full, h, cut, short) =
    let shorter = length-skip path in
    (full, sym (components-skip path) ∙ h, cut, omega (arith, short, shorter))

-- The path has no more components, or `skipelem` takes the first of them, all of it or the first DIRSIZ
-- bytes of a longer one, and leaves a shorter path with the others.
pub skipelem-Step : (path : List ℕ) → Step path (skipelem path)
unfolding skipelem
skipelem-Step path =
    Step-skip path (after_slashes (skip_slashes path))
      (after_slashes-Step (skip_slashes path) (skip_slashes-NoSlash path))
