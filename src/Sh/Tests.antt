-- ===== src/Sh/Tests.antt =====
-- The parser of user/sh.c on concrete lines.
use os_labs.Prelude.{◌≡◌, refl, List, [], ◌∷◌, ◌≤◌, arith}
use os_labs.Panic.{done, panics}
use os_labs.Sh.{
  exec, pipe, list, parsecmd, skip_white, word, gettoken, peek, parseredirs, parse_args,
  parse_simple, parse_backs, parseline,
}
use os_labs.Sh.Grammar.{
  Word, Argument, from, append, Line, last_line, then_line, last_pipe, then_pipe, words, block,
  print_line, line_cmd, line_fuel,
}
use os_labs.Sh.RoundTrip.{parsecmd-print_line}

abbrev cat_word : Word
cat_word = record { text = b'c' ∷ b'a' ∷ b't' ∷ []; good = refl }

abbrev file_word : Word
file_word = record { text = b'f' ∷ []; good = refl }

abbrev cat_args : List Argument
cat_args = record { name = cat_word; redirs = record { arrow = from; file = file_word } ∷ [] } ∷ []

-- ` cat < f | ( cat < f & ) >> f & ; cat < f`
abbrev sample : Line
sample =
    then_line
      (then_pipe (words [] cat_args (omega arith)) (
        last_pipe (
          block (last_line (last_pipe (words [] cat_args (omega arith))) 1)
            (record { arrow = append; file = file_word } ∷ []))))
      1 (last_line (last_pipe (words [] cat_args (omega arith))) 0)

-- `a|b;c`
parses_tight :
    parsecmd 9 (b'a' ∷ b'|' ∷ b'b' ∷ b';' ∷ b'c' ∷ [])
    ≡ done
        (list (pipe (exec ((b'a' ∷ []) ∷ [])) (exec ((b'b' ∷ []) ∷ []))) (exec ((b'c' ∷ []) ∷ [])))
unfolding parsecmd skip_white word gettoken peek parseredirs parse_args parse_simple parse_backs
    parseline
parses_tight = refl

-- A `>` with no file behind it, and a `)` too many.
rejects_arrow : parsecmd 9 (b'a' ∷ b'>' ∷ []) ≡ panics
unfolding parsecmd skip_white word gettoken peek parseredirs parse_args parse_simple parse_backs
    parseline
rejects_arrow = refl

rejects_paren : parsecmd 9 (b'a' ∷ b')' ∷ []) ≡ panics
unfolding parsecmd skip_white word gettoken peek parseredirs parse_args parse_simple parse_backs
    parseline
rejects_paren = refl

sample-fuel : line_fuel sample ≤ 40
unfolding line_fuel
sample-fuel = omega arith

parsecmd-print_line_example : parsecmd 40 (print_line sample []) ≡ done (line_cmd sample)
parsecmd-print_line_example = parsecmd-print_line sample 40 sample-fuel
