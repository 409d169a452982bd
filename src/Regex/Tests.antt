-- ===== src/Regex/Tests.antt =====
-- Runs of the matcher, and its theorem at an expression.
use os_labs.Prelude.{ℕ, ◌≡◌, refl, ◌↔◌, true, false, List, [], ◌∷◌}
use os_labs.Regex.{match, matchhere}
use os_labs.Regex.Meaning.{Means, match-Means}

-- `^ab*c$`
abbrev expression : List ℕ
expression = b'^' ∷ b'a' ∷ b'b' ∷ b'*' ∷ b'c' ∷ b'$' ∷ []

abbrev abbc : List ℕ
abbc = b'a' ∷ b'b' ∷ b'b' ∷ b'c' ∷ []

runs :
    (match expression abbc ≡ true)
    × (match expression (b'x' ∷ abbc) ≡ false)
    × (match (b'b' ∷ b'.' ∷ b'$' ∷ []) (b'x' ∷ abbc) ≡ true)
    × (match (b'c' ∷ b'b' ∷ []) abbc ≡ false)
unfolding match matchhere
runs = (refl, refl, refl, refl)

match-Means_example : (match expression abbc ≡ true) ↔ Means expression abbc
match-Means_example = match-Means expression abbc
