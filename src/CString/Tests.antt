-- ===== src/CString/Tests.antt =====
-- Runs of the string routines, and their theorems at them.
use os_labs.Prelude.{
  ℕ, ◌+◌, ◌≡◌, refl, some, List, [], ◌∷◌, arith, ltb, ◌==◌, if◌then◌else◌, negsuc,
}
use os_labs.CString.{safestrcpy, strlen, strcmp, strchr, atoi}
use os_labs.CString.Scan.{strlen_lem}
use os_labs.CString.Text.{text, IsString}
use os_labs.Memory.{Memory}

-- "abc" at 0, "abd" at 100.
abbrev words : Memory
words p =
    if ltb p 3
    then 97 + p
    else if p == 100
    then 97
    else if p == 101
    then 98
    else if p == 102
    then 100
    else 0

abbrev digits : Memory
digits p = if ltb p 3 then 49 + p else 0

abc-IsString : IsString words 0 3
abc-IsString = record { ends = refl; before = λ j h z. ground arith }

runs :
    (strlen 4 words 0 ≡ some 3)
    × (strchr 4 words 0 98 ≡ some (some 1))
    × (strcmp 4 words 0 100 ≡ some (negsuc 0))
    × (atoi 9 digits 0 ≡ some 123)
    × (text (safestrcpy 200 0 3 words) 200 9 ≡ 97 ∷ 98 ∷ [])
unfolding strlen strchr strcmp atoi safestrcpy text
runs = (refl, refl, refl, refl, refl)

strlen_lem_example : strlen 4 words 0 ≡ some 3
strlen_lem_example = strlen_lem 4 words 0 3 abc-IsString (omega arith)

abbrev typed : List ℕ
typed = 104 ∷ 105 ∷ 10 ∷ 120 ∷ []
