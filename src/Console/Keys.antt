-- ===== src/Console/Keys.antt =====
-- What the keys of the console of kernel/console.c do, for its users.
use os_labs.Prelude.{
  ℕ, zero, suc, ◌+◌, ◌≡◌, Bool, true, false, not, ◌&&◌, ◌||◌, Option, none, some, List, [], ◌∷◌,
  ◌++◌, length, ltb, ◌==◌, if◌then◌else◌,
}
use os_labs.Console.{Handled, input_size, backspace, control, consputc}
use os_labs.Console.Line.{committed, edit_line, IsValid, turn}

-- A console as its users see it, with what the last key has caused. `edit` is newest first.
pub record Typed : Type 0 where
  pub lines : List ℕ
  pub edit : List ℕ
  pub echo : List ℕ
  pub woken : Bool
  pub listed : Bool

-- A backspace is echoed for each of `n` bytes.
abbrev pub erased : ℕ → List ℕ
erased zero = []
erased (suc n) = consputc backspace ++ erased n

abbrev pub unchanged : (lines edit : List ℕ) → Typed
unchanged lines edit = record {
  lines = lines;
  edit = edit;
  echo = [];
  woken = false;
  listed = false;
}

abbrev pub rub_out : (lines edit : List ℕ) → Typed
rub_out lines [] = unchanged lines []
rub_out lines (x ∷ edit) = record (unchanged lines edit) { echo = consputc backspace }

-- A byte that is kept ends the line if it is a newline or ctrl-D, or if the console is now full.
abbrev pub ended : (c : ℕ) → (lines edit : List ℕ) → Bool
ended c lines edit =
    c == b'\n' || c == control b'D' || suc (length lines + length edit) == input_size

abbrev pub kept : (line : Bool) → (c : ℕ) → (lines edit : List ℕ) → Typed
kept line c lines edit = record {
  lines = if line then lines ++ turn (c ∷ edit) [] else lines;
  edit = if line then [] else c ∷ edit;
  echo = consputc c;
  woken = line;
  listed = false;
}

abbrev pub keep : (c : ℕ) → (lines edit : List ℕ) → Typed
keep c lines edit = kept (ended c lines edit) c lines edit

abbrev pub type_key : (c : ℕ) → (lines edit : List ℕ) → Typed
type_key c lines edit =
    if c == control b'P'
    then record (unchanged lines edit) { listed = true }
    else if c == control b'U'
    then record (unchanged lines []) { echo = erased (length edit) }
    else if c == control b'H' || c == 0x7f
    then rub_out lines edit
    else if not (c == 0) && ltb (length lines + length edit) input_size
    then keep (if c == b'\r' then b'\n' else c) lines edit
    else unchanged lines edit

abbrev pub view : Handled → Typed
view h = record {
  lines = committed h.cons;
  edit = edit_line h.cons;
  echo = h.echo;
  woken = h.woken;
  listed = h.listed;
}

-- What holds after a key: it leaves a console as it should be, and as `to` says.
abbrev pub Does : Option Handled → Typed → Type 0
Does none to = ⊥
Does (some h) to = IsValid h.cons × (view h ≡ to)
