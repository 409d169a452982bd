-- ===== src/Uart/Receive.antt =====
-- The first loop of `uartintr` of kernel/uart.c: bytes that arrive are typed on the console.
use mathlib.Core.Path.{subst}
use os_labs.Prelude.{ℕ, ◌<◌, ◌≡◌, refl, ap, Option, none, some, List, [], ◌∷◌, ◌++◌, All}
use os_labs.Console.{Cons, Handled, consoleintr}
use os_labs.Console.Line.{IsValid, committed, edit_line}
use os_labs.Console.Keys.{Typed, type_key, Does}
use os_labs.Console.Edit.{consoleintr-Does}
use os_labs.Uart.{echoing, receive_loop}

-- Several keys in a row: the lines, the line that is edited, and all of the echo.
abbrev pub type_keys : List ℕ → (lines edit : List ℕ) → List ℕ × List ℕ × List ℕ
type_keys [] lines edit = (lines, edit, [])
type_keys (c ∷ keys) lines edit =
    let k = type_key c lines edit in
    let (lines, edit, echo) = type_keys keys k.lines k.edit in (lines, edit, k.echo ++ echo)

abbrev pub Receives : Option (Cons × List ℕ) → List ℕ × List ℕ × List ℕ → Type 0
Receives none to = ⊥
Receives (some (s, echo)) to = IsValid s × ((committed s, edit_line s, echo) ≡ to)

echoing-Receives :
    (echo : List ℕ) (o : Option (Cons × List ℕ)) (to : List ℕ × List ℕ × List ℕ)
    → Receives o to
    → Receives (echoing echo o) (to.0, to.1, echo ++ to.2)
echoing-Receives echo none to r = r
echoing-Receives echo (some (s, more)) to (v, e) = (v, ap (λ t. (t.0, t.1, echo ++ t.2)) e)

-- The keys that follow one key.
abbrev after_key : List ℕ → Typed → List ℕ × List ℕ × List ℕ
after_key keys k =
    let (lines, edit, echo) = type_keys keys k.lines k.edit in (lines, edit, k.echo ++ echo)

key-Receives :
    (input : List ℕ) (o : Option Handled) (to : Typed)
    → Does o to
    → ((s : Cons)
        → IsValid s
        → Receives (receive_loop input s) (type_keys input (committed s) (edit_line s)))
    → Receives
        (elim o [ none ↦ none | some h ↦ echoing h.echo (receive_loop input h.cons) ])
        (after_key input to)
key-Receives input none to d rest = absurd d
key-Receives input (some h) to (v, e) rest =
    subst (λ to. Receives (echoing h.echo (receive_loop input h.cons)) (after_key input to)) e
      (echoing-Receives h.echo (receive_loop input h.cons)
        (type_keys input (committed h.cons) (edit_line h.cons)) (rest h.cons v))

-- The bytes that arrive in an interrupt, on a console in order, are typed one after the other.
pub receive_loop-Receives :
    (input : List ℕ) (s : Cons)
    → IsValid s
    → All (λ c. c < 256) input
    → Receives (receive_loop input s) (type_keys input (committed s) (edit_line s))
unfolding receive_loop
receive_loop-Receives [] s v small = (v, refl)
receive_loop-Receives (c ∷ input) s v small =
    key-Receives input (consoleintr c s) (type_key c (committed s) (edit_line s))
      (consoleintr-Does c s v small.0) (λ s' v'. receive_loop-Receives input s' v' small.1)
