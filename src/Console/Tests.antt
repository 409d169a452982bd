-- ===== src/Console/Tests.antt =====
-- Keys typed on a console, and an example for the theorem on them.
use os_labs.Prelude.{ℕ, ◌≡◌, refl, false, Option, none, some, List, [], ◌∷◌, arith}
use os_labs.Console.{Cons, consoleintr, kill_loop, store, Outcome, consoleread, returned}
use os_labs.Console.Line.{window, back, committed, edit_line, IsValid}
use os_labs.Console.Keys.{type_key, Does}
use os_labs.Console.Edit.{consoleintr-Does}

abbrev empty_console : Cons
empty_console = record { buf = λ i. 0; r = 0; w = 0; e = 0 }

abbrev type_keys : List ℕ → Cons → Option Cons
type_keys [] s = some s
type_keys (c ∷ keys) s = elim (consoleintr c s) [ none ↦ none | some h ↦ type_keys keys h.cons ]

abbrev lines_of : Option Cons → List ℕ
lines_of none = []
lines_of (some s) = committed s

-- "ab", ctrl-U, "cd", delete, return.
typed :
    lines_of (type_keys (b'a' ∷ b'b' ∷ 21 ∷ b'c' ∷ b'd' ∷ 0x7f ∷ b'\r' ∷ []) empty_console)
    ≡ b'c' ∷ b'\n' ∷ []
unfolding consoleintr kill_loop store committed window
typed = refl

-- A console on which "a" is typed.
abbrev one_key : Cons
one_key = record { buf = λ i. b'a'; r = 0; w = 0; e = 1 }

one_key-IsValid : IsValid one_key
unfolding edit_line back
one_key-IsValid = record {
  r_word = omega arith;
  w_word = omega arith;
  e_word = omega arith;
  fits = omega arith;
  one_line = (λ e. omega (arith, e), tt);
}

consoleintr-Does_example :
    Does (consoleintr b'\r' one_key) (type_key b'\r' (committed one_key) (edit_line one_key))
consoleintr-Does_example = consoleintr-Does b'\r' one_key one_key-IsValid (omega arith)

-- A read of two bytes takes one line.
abbrev outcome_of : Outcome × (ℕ → Option ℕ) × Cons → Outcome
outcome_of (o, mem, s) = o

read_line :
    outcome_of
      (consoleread false 2 2 0 (λ a. some 0) (record { buf = λ i. b'\n'; r = 0; w = 1; e = 1 }))
    ≡ returned 1
unfolding consoleread
read_line = refl
