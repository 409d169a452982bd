-- ===== src/Console/Line.antt =====
-- The bytes in the ring of kernel/console.c: those that readers may take, oldest first, and the
-- line that is being edited, newest first.
use os_labs.Prelude.{
  ℕ, zero, suc, ◌+◌, ◌-◌, ◌%◌, ◌^◌, ◌<◌, ◌≤◌, ◌≡◌, ◌≢◌, refl, sym, ap, ◌∙◌, List, [], ◌∷◌, ◌++◌,
  All, length, update, update_ne, arith,
}
use os_labs.Console.{Cons, input_size, previous}

abbrev pub next : ℕ → ℕ
next i = (i + 1) % 2 ^ 32

-- The `n` bytes from index `i` on.
unfoldable pub window : (buf : ℕ → ℕ) → (i n : ℕ) → List ℕ
window buf i zero = []
window buf i (suc n) = buf (i % input_size) ∷ window buf (next i) n

-- The `n` bytes before index `i`, from the last one down.
unfoldable pub back : (buf : ℕ → ℕ) → (i n : ℕ) → List ℕ
back buf i zero = []
back buf i (suc n) = buf (previous i % input_size) ∷ back buf (previous i) n

-- A difference of two indexes.
abbrev pub distance : (from to : ℕ) → ℕ
distance i j = (j + 2 ^ 32 - i) % 2 ^ 32

-- How many bytes are ready, and how many are being edited.
abbrev pub ready : Cons → ℕ
ready s = distance s.r s.w

abbrev pub editing : Cons → ℕ
editing s = distance s.w s.e

unfoldable pub committed : Cons → List ℕ
committed s = window s.buf s.r (ready s)

unfoldable pub edit_line : Cons → List ℕ
edit_line s = back s.buf s.e (editing s)

-- The indexes are `uint`s in order around the ring, and no newline is being edited.
pub record IsValid (s : Cons) : Type 0 where
  pub r_word : s.r < 2 ^ 32
  pub w_word : s.w < 2 ^ 32
  pub e_word : s.e < 2 ^ 32
  pub fits : ready s + editing s ≤ input_size
  pub one_line : All (λ x. x ≢ b'\n') (edit_line s)

-- `edit`, newest first, turned around in front of `acc`.
abbrev pub turn : (edit acc : List ℕ) → List ℕ
turn [] acc = acc
turn (x ∷ edit) acc = turn edit (x ∷ acc)

pub length-window : (buf : ℕ → ℕ) (i n : ℕ) → length (window buf i n) ≡ n
unfolding window
length-window buf i zero = refl
length-window buf i (suc n) = ap suc (length-window buf (next i) n)

pub length-back : (buf : ℕ → ℕ) (i n : ℕ) → length (back buf i n) ≡ n
unfolding back
length-back buf i zero = refl
length-back buf i (suc n) = ap suc (length-back buf (previous i) n)

pub window-append :
    (buf : ℕ → ℕ) (i n m j k : ℕ)
    → i < 2 ^ 32
    → j ≡ (i + n) % 2 ^ 32
    → k ≡ n + m
    → window buf i k ≡ window buf i n ++ window buf j m
unfolding window
window-append buf i zero m j k h at sum =
    let same : j ≡ i = omega (arith, h) in let all : k ≡ m = omega arith in rw (same, all) refl
window-append buf i (suc n) m j k h at sum =
    let all : k ≡ suc (n + m) = omega arith in
    rw all (
      ap (λ l. buf (i % input_size) ∷ l)
        (window-append buf (next i) n m j (n + m) (omega arith) (omega arith) refl))

-- The line before an index, turned around, is the window up to the index.
pub turn-back :
    (buf : ℕ → ℕ) (i n m j k : ℕ)
    → i < 2 ^ 32
    → j ≡ (i + n) % 2 ^ 32
    → k ≡ n + m
    → turn (back buf j n) (window buf j m) ≡ window buf i k
unfolding back window
turn-back buf i zero m j k h at sum =
    let same : j ≡ i = omega (arith, h) in let all : k ≡ m = omega arith in rw (same, all) refl
turn-back buf i (suc n) m j k h at sum =
    let up : next (previous j) ≡ j = omega arith in
    ap (λ q. turn (back buf (previous j) n) (buf (previous j % input_size) ∷ window buf q m))
      (sym up)
    ∙ turn-back buf i n (suc m) (previous j) k h (omega arith) (omega arith)

-- A byte stored at an index that is not in a window leaves it.
pub window-update :
    (buf : ℕ → ℕ) (i n at x : ℕ)
    → i < 2 ^ 32
    → at < 2 ^ 32
    → n ≤ distance i at
    → distance i at < input_size
    → window (update buf (at % input_size) x) i n ≡ window buf i n
unfolding window
window-update buf i zero at x hi ha le lt = refl
window-update buf i (suc n) at x hi ha le lt = λ k.
    (update_ne buf (at % input_size) (i % input_size) x (λ q. omega (arith, q)) k)
    ∷ (window-update buf (next i) n at x (omega arith) ha (omega arith) (omega arith) k)

pub back-update :
    (buf : ℕ → ℕ) (i n at x : ℕ)
    → i < 2 ^ 32
    → at < 2 ^ 32
    → n + distance i at < input_size
    → back (update buf (at % input_size) x) i n ≡ back buf i n
unfolding back
back-update buf i zero at x hi ha lt = refl
back-update buf i (suc n) at x hi ha lt = λ k.
    (update_ne buf (at % input_size) (previous i % input_size) x (λ q. omega (arith, q)) k)
    ∷ (back-update buf (previous i) n at x (omega arith) ha (omega arith) k)
