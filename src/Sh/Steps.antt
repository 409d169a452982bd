-- ===== src/Sh/Steps.antt =====
-- Steps of the parser of user/sh.c, and what may follow the parts of a printed line.
use os_labs.Prelude.{
  ℕ, zero, suc, ◌<◌, ◌≤◌, ◌≡◌, refl, ◌∙◌, true, false, ◌||◌, List, [], ◌∷◌, ◌++◌, ◌==◌, arith,
}
use os_labs.Panic.{done}
use os_labs.Sh.{
  Text, is_white, mem_char, skip_white, gettoken, peek, Redir, Cmd, pipe, list, back, wrap,
  parseredirs, parse_simple, parse_backs, parseline, parsepipe, parseexec, parseblock,
}
use os_labs.Sh.Grammar.{
  Arrow, from, to, append, Redirect, Argument, Line, last_line, then_line, Pipeline, last_pipe,
  then_pipe, Simple, words, block, print_arrow, print_redirs, print_args, print_amps, backs,
  line_fuel, pipe_fuel, simple_fuel,
}
use os_labs.Sh.Token.{skip_white_idem, gettoken-symbol}
use os_labs.Sh.Words.{
  NoArrow, End, finished, stop, peek-cong, peek-End, peek-stop, peek-word, skip_white-name,
  skip_white-stop, exec_stops, exec_stops-no_arrow,
}

-- The bytes that may follow a pipeline and a line.
abbrev pub pipe_stops : Text
pipe_stops = b')' ∷ b'&' ∷ b';' ∷ []

abbrev pub line_stops : Text
line_stops = b')' ∷ []

pub End-weaken :
    {few many k : Text}
    → ((c : ℕ) → mem_char c few ≡ true → mem_char c many ≡ true)
    → End few k
    → End many k
End-weaken f finished = finished
End-weaken f (stop c k e) = stop c k (f c e)

-- What is left after a part of the line may have lost its white space.
pub peek-rest : (toks k : Text) → peek toks (skip_white k) ≡ peek toks k
peek-rest toks k = peek-cong toks (skip_white k) k (skip_white_idem k)

-- The token of a symbol that a space precedes.
pub gettoken-stop :
    (s : Text) (c : ℕ) (k : Text)
    → mem_char c (b'(' ∷ b'|' ∷ b')' ∷ b'&' ∷ b';' ∷ []) ≡ true
    → skip_white s ≡ skip_white (b' ' ∷ c ∷ k)
    → gettoken s ≡ (c, c ∷ [], skip_white k)
gettoken-stop s c k e at =
    gettoken-symbol s c k (ground (arith, e)) (ground (arith, e))
      (at ∙ skip_white-stop c k (ground (arith, e)))

pub parse_backs-print :
    (n : ℕ) (cmd : Cmd) (k s : Text) (fuel : ℕ)
    → n < fuel
    → peek (b'&' ∷ []) k ≡ false
    → skip_white s ≡ skip_white (print_amps n k)
    → parse_backs fuel cmd s ≡ done (backs n cmd, skip_white k)
unfolding parse_backs
parse_backs-print n cmd k s zero h quiet at = absurd (omega (arith, h))
parse_backs-print zero cmd k s (suc fuel) h quiet at =
    let out = peek-cong (b'&' ∷ []) s k at ∙ quiet in rw (out, at) refl
parse_backs-print (suc n) cmd k s (suc fuel) h quiet at =
    let more = print_amps n k in
    let looks =
      peek-cong (b'&' ∷ []) s (b' ' ∷ b'&' ∷ more) at ∙ peek-stop (b'&' ∷ []) b'&' more refl refl in
    let ih =
      parse_backs-print n (back cmd) k (skip_white more) fuel (omega (arith, h)) quiet
        (skip_white_idem more) in
    rw (gettoken-stop s b'&' more refl at, looks, ih) refl

pub parseline-last :
    (fuel : ℕ) (s s1 s2 : Text) (c c2 : Cmd)
    → parsepipe fuel s ≡ done (c, s1)
    → parse_backs fuel c s1 ≡ done (c2, s2)
    → peek (b';' ∷ []) s2 ≡ false
    → parseline (suc fuel) s ≡ done (c2, skip_white s2)
unfolding parseline
parseline-last fuel s s1 s2 c c2 e1 e2 e3 = rw (e1, e2, e3) refl

pub parseline-then :
    (fuel : ℕ) (s s1 s2 s3 s4 : Text) (c c2 c3 : Cmd)
    → parsepipe fuel s ≡ done (c, s1)
    → parse_backs fuel c s1 ≡ done (c2, s2)
    → peek (b';' ∷ []) s2 ≡ true
    → gettoken s2 ≡ (b';', b';' ∷ [], s3)
    → parseline fuel s3 ≡ done (c3, s4)
    → parseline (suc fuel) s ≡ done (list c2 c3, s4)
unfolding parseline
parseline-then fuel s s1 s2 s3 s4 c c2 c3 e1 e2 e3 e4 e5 = rw (e1, e2, e3, e4, e5) refl

pub parsepipe-last :
    (fuel : ℕ) (s s1 : Text) (c : Cmd)
    → parseexec fuel s ≡ done (c, s1)
    → peek (b'|' ∷ []) s1 ≡ false
    → parsepipe (suc fuel) s ≡ done (c, skip_white s1)
unfolding parsepipe
parsepipe-last fuel s s1 c e1 e2 = rw (e1, e2) refl

pub parsepipe-then :
    (fuel : ℕ) (s s1 s2 s3 : Text) (c c2 : Cmd)
    → parseexec fuel s ≡ done (c, s1)
    → peek (b'|' ∷ []) s1 ≡ true
    → gettoken s1 ≡ (b'|', b'|' ∷ [], s2)
    → parsepipe fuel s2 ≡ done (c2, s3)
    → parsepipe (suc fuel) s ≡ done (pipe c c2, s3)
unfolding parsepipe
parsepipe-then fuel s s1 s2 s3 c c2 e1 e2 e3 e4 = rw (e1, e2, e3, e4) refl

pub parseexec-simple :
    (fuel : ℕ) (s : Text)
    → peek (b'(' ∷ []) s ≡ false
    → parseexec (suc fuel) s ≡ parse_simple fuel (skip_white s)
unfolding parseexec
parseexec-simple fuel s e = rw e refl

pub parseexec-block :
    (fuel : ℕ) (s s1 s2 s3 s4 : Text) (c : Cmd) (rs : List Redir)
    → peek (b'(' ∷ []) s ≡ true
    → gettoken (skip_white s) ≡ (b'(', b'(' ∷ [], s1)
    → parseline fuel s1 ≡ done (c, s2)
    → peek (b')' ∷ []) s2 ≡ true
    → gettoken s2 ≡ (b')', b')' ∷ [], s3)
    → parseredirs fuel s3 ≡ done (rs, s4)
    → parseexec (suc (suc fuel)) s ≡ done (wrap c rs, s4)
unfolding parseexec parseblock
parseexec-block fuel s s1 s2 s3 s4 c rs e1 e2 e3 e4 e5 e6 =
    let open_again = peek-rest (b'(' ∷ []) s ∙ e1 in rw (e1, open_again, e2, e3, e4, e5, e6) refl

arrow-no_block : (a : Arrow) (k : Text) → peek (b'(' ∷ []) (b' ' ∷ print_arrow a k) ≡ false
unfolding peek skip_white
arrow-no_block from k = refl
arrow-no_block to k = refl
arrow-no_block append k = refl

-- A simple command with no block does not begin with `(`.
pub words-no_block :
    (rs : List Redirect) (args : List Argument) (k s : Text)
    → End exec_stops k
    → skip_white s ≡ skip_white (print_redirs rs (print_args args k))
    → peek (b'(' ∷ []) s ≡ false
words-no_block [] [] k s end at =
    peek-cong (b'(' ∷ []) s k at
    ∙ peek-End (b'(' ∷ []) (λ c e. (ground (arith, e), ground (arith, e))) end
words-no_block [] (a ∷ args) k s end at =
    let rest = print_redirs a.redirs (print_args args k) in
    peek-word (b'(' ∷ []) s rest a.name (λ c e. ground (arith, e))
      (at ∙ skip_white-name a.name rest)
words-no_block (r ∷ rs) args k s end at =
    peek-cong (b'(' ∷ []) s (print_redirs (r ∷ rs) (print_args args k)) at
    ∙ arrow-no_block r.arrow (b' ' ∷ (r.file.text ++ print_redirs rs (print_args args k)))

-- What follows the pipeline of a line.
pub print_amps-End :
    {stops : Text} (n : ℕ) (k : Text)
    → ((c : ℕ) → mem_char c stops ≡ true → mem_char c pipe_stops ≡ true)
    → End stops k
    → End pipe_stops (print_amps n k)
print_amps-End zero k f end = End-weaken f end
print_amps-End (suc n) k f end = stop b'&' (print_amps n k) refl

pub semi-End : (k : Text) → End (b';' ∷ []) (b' ' ∷ b';' ∷ k)
semi-End k = stop b';' k refl

-- `c` does not follow where only other bytes may.
pub line_end :
    {stops : Text} (c : ℕ) (k : Text)
    → ((d : ℕ) → mem_char d stops ≡ true → (is_white d || d == c) ≡ false)
    → End stops k
    → peek (c ∷ []) k ≡ false
line_end c k f end =
    peek-End (c ∷ []) (λ d e. let p = f d e in (ground (arith, p), ground (arith, p))) end

pub exec_end-NoArrow : {k : Text} → End exec_stops k → NoArrow k
exec_end-NoArrow end = peek-End (b'<' ∷ b'>' ∷ []) exec_stops-no_arrow end

-- No part of a line is parsed without fuel.
pub line_fuel-zero : (l : Line) → ¬ (line_fuel l ≤ 0)
unfolding line_fuel
line_fuel-zero (last_line p amps) h = omega (arith, h)
line_fuel-zero (then_line p amps l) h = omega (arith, h)

pub pipe_fuel-zero : (p : Pipeline) → ¬ (pipe_fuel p ≤ 0)
unfolding pipe_fuel
pipe_fuel-zero (last_pipe c) h = omega (arith, h)
pipe_fuel-zero (then_pipe c p) h = omega (arith, h)

pub simple_fuel-zero : (c : Simple) → ¬ (simple_fuel c ≤ 0)
unfolding simple_fuel
simple_fuel-zero (words rs args few) h = omega (arith, h)
simple_fuel-zero (block l rs) h = omega (arith, h)
