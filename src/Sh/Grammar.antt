-- ===== src/Sh/Grammar.antt =====
-- Command lines as they are written, how they are printed, and the commands that they stand for.
use os_labs.Prelude.{
  ℕ, zero, suc, ◌+◌, ◌<◌, ◌≡◌, Bool, true, false, not, ◌&&◌, List, [], ◌∷◌, ◌++◌, length,
}
use os_labs.Sh.{
  Text, is_white, is_symbol, Redir, redir_of, Cmd, exec, pipe, list, back, wrap, max_args,
}

abbrev pub is_plain : ℕ → Bool
is_plain c = not (is_white c) && not (is_symbol c)

abbrev pub all_plain : Text → Bool
all_plain [] = true
all_plain (c ∷ s) = is_plain c && all_plain s

abbrev pub is_word : Text → Bool
is_word [] = false
is_word (c ∷ s) = all_plain (c ∷ s)

-- A word: one byte or more, none of them white space or a symbol.
pub record Word : Type 0 where
  pub text : Text
  pub good : is_word text ≡ true

-- `<`, `>` and `>>`.
pub data Arrow : Type 0 where
  from to append : Arrow

-- A redirection, and an argument with the redirections behind it.
pub record Redirect : Type 0 where
  pub arrow : Arrow
  pub file : Word

pub record Argument : Type 0 where
  pub name : Word
  pub redirs : List Redirect

mutual
  -- A pipeline with `&`s behind it, alone or before a `;` and another line.
  pub data Line : Type 0 where
    last_line : Pipeline → (amps : ℕ) → Line
    then_line : Pipeline → (amps : ℕ) → Line → Line

  pub data Pipeline : Type 0 where
    last_pipe : Simple → Pipeline
    then_pipe : Simple → Pipeline → Pipeline

  pub data Simple : Type 0 where
    words : List Redirect → (args : List Argument) → length args < max_args → Simple
    block : Line → List Redirect → Simple

-- The token of an arrow.
abbrev pub arrow_token : Arrow → ℕ
arrow_token from = b'<'
arrow_token to = b'>'
arrow_token append = b'+'

-- What is printed comes in front of `k`; each token has a space before it.
abbrev pub print_arrow : Arrow → Text → Text
print_arrow from k = b'<' ∷ k
print_arrow to k = b'>' ∷ k
print_arrow append k = b'>' ∷ b'>' ∷ k

abbrev pub print_redirs : List Redirect → Text → Text
print_redirs [] k = k
print_redirs (r ∷ rs) k = b' ' ∷ print_arrow r.arrow (b' ' ∷ (r.file.text ++ print_redirs rs k))

abbrev pub print_args : List Argument → Text → Text
print_args [] k = k
print_args (a ∷ args) k = b' ' ∷ (a.name.text ++ print_redirs a.redirs (print_args args k))

abbrev pub print_amps : ℕ → Text → Text
print_amps zero k = k
print_amps (suc n) k = b' ' ∷ b'&' ∷ print_amps n k

unfoldable mutual
  pub print_line : Line → Text → Text
  print_line (last_line p amps) k = print_pipe p (print_amps amps k)
  print_line (then_line p amps l) k = print_pipe p (print_amps amps (b' ' ∷ b';' ∷ print_line l k))

  pub print_pipe : Pipeline → Text → Text
  print_pipe (last_pipe s) k = print_simple s k
  print_pipe (then_pipe s p) k = print_simple s (b' ' ∷ b'|' ∷ print_pipe p k)

  pub print_simple : Simple → Text → Text
  print_simple (words rs args _) k = print_redirs rs (print_args args k)
  print_simple (block l rs) k = b' ' ∷ b'(' ∷ print_line l (b' ' ∷ b')' ∷ print_redirs rs k)

-- The commands.
abbrev pub redirs_of : List Redirect → List Redir
redirs_of [] = []
redirs_of (r ∷ rs) = redir_of (arrow_token r.arrow) r.file.text ∷ redirs_of rs

abbrev pub argv_of : List Argument → List Text
argv_of [] = []
argv_of (a ∷ args) = a.name.text ∷ argv_of args

abbrev pub arg_redirs_of : List Argument → List Redir
arg_redirs_of [] = []
arg_redirs_of (a ∷ args) = redirs_of a.redirs ++ arg_redirs_of args

abbrev pub backs : ℕ → Cmd → Cmd
backs zero cmd = cmd
backs (suc n) cmd = backs n (back cmd)

unfoldable mutual
  pub line_cmd : Line → Cmd
  line_cmd (last_line p amps) = backs amps (pipe_cmd p)
  line_cmd (then_line p amps l) = list (backs amps (pipe_cmd p)) (line_cmd l)

  pub pipe_cmd : Pipeline → Cmd
  pipe_cmd (last_pipe s) = simple_cmd s
  pipe_cmd (then_pipe s p) = pipe (simple_cmd s) (pipe_cmd p)

  pub simple_cmd : Simple → Cmd
  simple_cmd (words rs args _) = wrap (exec (argv_of args)) (redirs_of rs ++ arg_redirs_of args)
  simple_cmd (block l rs) = wrap (line_cmd l) (redirs_of rs)

-- Fuel that is enough to parse a line.
abbrev pub redirs_fuel : List Redirect → ℕ
redirs_fuel [] = 1
redirs_fuel (r ∷ rs) = suc (redirs_fuel rs)

abbrev pub args_fuel : List Argument → ℕ
args_fuel [] = 1
args_fuel (a ∷ args) = 1 + redirs_fuel a.redirs + args_fuel args

unfoldable mutual
  pub line_fuel : Line → ℕ
  line_fuel (last_line p amps) = 2 + pipe_fuel p + amps
  line_fuel (then_line p amps l) = 2 + pipe_fuel p + amps + line_fuel l

  pub pipe_fuel : Pipeline → ℕ
  pipe_fuel (last_pipe s) = 1 + simple_fuel s
  pipe_fuel (then_pipe s p) = 1 + simple_fuel s + pipe_fuel p

  pub simple_fuel : Simple → ℕ
  simple_fuel (words rs args _) = 1 + redirs_fuel rs + args_fuel args
  simple_fuel (block l rs) = 2 + line_fuel l + redirs_fuel rs
