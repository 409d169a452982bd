-- ===== src/Sh/RoundTrip.antt =====
-- The parser of user/sh.c on a printed command line.
use os_labs.Prelude.{ℕ, zero, suc, ◌≤◌, ◌≡◌, refl, ap, ◌∙◌, [], ◌∷◌, arith}
use os_labs.Panic.{done}
use os_labs.Sh.{Text, skip_white, parseline, parsepipe, parseexec, parsecmd}
use os_labs.Sh.Grammar.{
  Line, last_line, then_line, Pipeline, last_pipe, then_pipe, Simple, words, block, print_redirs,
  print_amps, print_line, print_pipe, print_simple, redirs_of, backs, line_cmd, pipe_cmd,
  simple_cmd, line_fuel, pipe_fuel, simple_fuel,
}
use os_labs.Sh.Token.{skip_white_idem}
use os_labs.Sh.Words.{
  End, finished, stop, End-Spaced, peek-cong, peek-stop, exec_stops, parseredirs-print,
  parse_simple-print,
}
use os_labs.Sh.Steps.{
  pipe_stops, line_stops, End-weaken, peek-rest, gettoken-stop, parse_backs-print, parseline-last,
  parseline-then, parsepipe-last, parsepipe-then, parseexec-simple, parseexec-block, words-no_block,
  print_amps-End, semi-End, line_end, exec_end-NoArrow, line_fuel-zero, pipe_fuel-zero,
  simple_fuel-zero,
}

mutual
  unfolding print_line line_cmd line_fuel print_pipe pipe_cmd pipe_fuel print_simple simple_cmd
      simple_fuel

  pub parseline-print :
      (l : Line) (k s : Text) (fuel : ℕ)
      → line_fuel l ≤ fuel
      → End line_stops k
      → skip_white s ≡ skip_white (print_line l k)
      → parseline fuel s ≡ done (line_cmd l, skip_white k)
  parseline-print l k s zero h end at = absurd (line_fuel-zero l h)
  parseline-print (last_line p amps) k s (suc fuel) h end at =
      let after = print_amps amps k in
      let first =
        parsepipe-print p after s fuel (omega (arith, h))
          (print_amps-End amps k (λ c e. ground (arith, e)) end) at in
      let behind =
        parse_backs-print amps (pipe_cmd p) k (skip_white after) fuel (omega (arith, h))
          (line_end b'&' k (λ c e. ground (arith, e)) end) (skip_white_idem after) in
      parseline-last fuel s (skip_white after) (skip_white k) (pipe_cmd p) (backs amps (pipe_cmd p))
        first behind (peek-rest (b';' ∷ []) k ∙ line_end b';' k (λ c e. ground (arith, e)) end)
      ∙ ap (λ r. done (line_cmd (last_line p amps), r)) (skip_white_idem k)
  parseline-print (then_line p amps l) k s (suc fuel) h end at =
      let next = print_line l k in
      let semi = b' ' ∷ b';' ∷ next in
      let after = print_amps amps semi in
      let first =
        parsepipe-print p after s fuel (omega (arith, h))
          (print_amps-End amps semi (λ c e. ground (arith, e)) (semi-End next)) at in
      let behind =
        parse_backs-print amps (pipe_cmd p) semi (skip_white after) fuel (omega (arith, h))
          (line_end b'&' semi (λ c e. ground (arith, e)) (semi-End next)) (skip_white_idem after) in
      let ih =
        parseline-print l k (skip_white next) fuel (omega (arith, h)) end (skip_white_idem next) in
      parseline-then fuel s (skip_white after) (skip_white semi) (skip_white next) (skip_white k)
        (pipe_cmd p) (backs amps (pipe_cmd p)) (line_cmd l) first behind
        (peek-rest (b';' ∷ []) semi ∙ peek-stop (b';' ∷ []) b';' next refl refl)
        (gettoken-stop (skip_white semi) b';' next refl (skip_white_idem semi)) ih

  pub parsepipe-print :
      (p : Pipeline) (k s : Text) (fuel : ℕ)
      → pipe_fuel p ≤ fuel
      → End pipe_stops k
      → skip_white s ≡ skip_white (print_pipe p k)
      → parsepipe fuel s ≡ done (pipe_cmd p, skip_white k)
  parsepipe-print p k s zero h end at = absurd (pipe_fuel-zero p h)
  parsepipe-print (last_pipe c) k s (suc fuel) h end at =
      parsepipe-last fuel s (skip_white k) (simple_cmd c)
        (parseexec-print c k s fuel (omega (arith, h)) (End-weaken (λ c e. ground (arith, e)) end)
          at)
        (peek-rest (b'|' ∷ []) k ∙ line_end b'|' k (λ c e. ground (arith, e)) end)
      ∙ ap (λ r. done (simple_cmd c, r)) (skip_white_idem k)
  parsepipe-print (then_pipe c p) k s (suc fuel) h end at =
      let next = print_pipe p k in
      let bar = b' ' ∷ b'|' ∷ next in
      parsepipe-then fuel s (skip_white bar) (skip_white next) (skip_white k) (simple_cmd c)
        (pipe_cmd p) (parseexec-print c bar s fuel (omega (arith, h)) (stop b'|' next refl) at)
        (peek-rest (b'|' ∷ []) bar ∙ peek-stop (b'|' ∷ []) b'|' next refl refl)
        (gettoken-stop (skip_white bar) b'|' next refl (skip_white_idem bar))
        (parsepipe-print p k (skip_white next) fuel (omega (arith, h)) end (skip_white_idem next))

  pub parseexec-print :
      (c : Simple) (k s : Text) (fuel : ℕ)
      → simple_fuel c ≤ fuel
      → End exec_stops k
      → skip_white s ≡ skip_white (print_simple c k)
      → parseexec fuel s ≡ done (simple_cmd c, skip_white k)
  parseexec-print c k s zero h end at = absurd (simple_fuel-zero c h)
  parseexec-print (words rs args few) k s (suc fuel) h end at =
      parseexec-simple fuel s (words-no_block rs args k s end at)
      ∙ parse_simple-print rs args k (skip_white s) fuel (omega (arith, h)) few end
          (skip_white_idem s ∙ at)
  parseexec-print (block l rs) k s (suc zero) h end at = absurd (omega (arith, h))
  parseexec-print (block l rs) k s (suc (suc fuel)) h end at =
      let tail = print_redirs rs k in
      let close = b' ' ∷ b')' ∷ tail in
      let body = print_line l close in
      parseexec-block fuel s (skip_white body) (skip_white close) (skip_white tail) (skip_white k)
        (line_cmd l) (redirs_of rs)
        (peek-cong (b'(' ∷ []) s (b' ' ∷ b'(' ∷ body) at
          ∙ peek-stop (b'(' ∷ []) b'(' body refl refl)
        (gettoken-stop (skip_white s) b'(' body refl (skip_white_idem s ∙ at))
        (parseline-print l close (skip_white body) fuel (omega (arith, h)) (stop b')' tail refl)
          (skip_white_idem body))
        (peek-rest (b')' ∷ []) close ∙ peek-stop (b')' ∷ []) b')' tail refl refl)
        (gettoken-stop (skip_white close) b')' tail refl (skip_white_idem close))
        (parseredirs-print rs k (skip_white tail) fuel (omega (arith, h)) (End-Spaced end)
          (exec_end-NoArrow end) (skip_white_idem tail))

-- A line that is printed is parsed as the command that it stands for, if the fuel is enough for
-- the line.
pub parsecmd-print_line :
    (l : Line) (fuel : ℕ) → line_fuel l ≤ fuel → parsecmd fuel (print_line l []) ≡ done (line_cmd l)
unfolding parsecmd skip_white
parsecmd-print_line l fuel h = rw (parseline-print l [] (print_line l []) fuel h finished refl) refl
