-- ===== src/Regex.antt =====
-- The matcher of user/grep.c for regular expressions with `^`, `.`, `*` and `$`. A string is the
-- list of its bytes before the zero.
pub mod Meaning
mod Tests
use os_labs.Prelude.{ℕ, Bool, true, false, ◌&&◌, ◌||◌, List, [], ◌∷◌, ◌==◌, if◌then◌else◌}

-- `re[0]=='.' || re[0]==*text`
abbrev pub fits : (c x : ℕ) → Bool
fits c x = c == b'.' || c == x

-- `c*` and then what `here` looks for, at the beginning of the text. `here` is `matchhere` at the
-- rest of the expression.
unfoldable pub matchstar : (here : List ℕ → Bool) → (c : ℕ) → List ℕ → Bool
matchstar here c [] = here []
matchstar here c (x ∷ text) =
    if here (x ∷ text) then true else (x == c || c == b'.') && matchstar here c text

-- `*text!='\0' && (re[0]=='.' || re[0]==*text)`, and then `here` one byte on.
abbrev pub matchone : (here : List ℕ → Bool) → (c : ℕ) → List ℕ → Bool
matchone here c [] = false
matchone here c (x ∷ text) = elim (fits c x) [ true ↦ here text | false ↦ false ]

abbrev is_empty : List ℕ → Bool
is_empty [] = true
is_empty (x ∷ text) = false

unfoldable pub matchhere : (re text : List ℕ) → Bool
unfolding matchstar
matchhere [] text = true
matchhere (c ∷ []) text = elim (c == b'$') [
  | true ↦ is_empty text
  | false ↦ matchone (matchhere []) c text
]
matchhere (c ∷ d ∷ re) text = elim (d == b'*') [
  | true ↦ matchstar (matchhere re) c text
  | false ↦ matchone (matchhere (d ∷ re)) c text
]

-- The loop of `match` over the ends of the text, the empty one too.
pub match_loop : (re text : List ℕ) → Bool
match_loop re [] = matchhere re []
match_loop re (x ∷ text) = if matchhere re (x ∷ text) then true else match_loop re text

unfoldable pub match : (re text : List ℕ) → Bool
unfolding match_loop
match [] text = match_loop [] text
match (c ∷ re) text = if c == b'^' then matchhere re text else match_loop (c ∷ re) text
