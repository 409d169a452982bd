-- ===== src/Sh/Words.antt =====
-- `parseredirs` and `parseexec` of user/sh.c on printed redirections and arguments.
use os_labs.Prelude.{
  ℕ, zero, suc, ◌+◌, ◌<◌, ◌≤◌, ◌≡◌, refl, ap, ◌∙◌, true, false, List, [], ◌∷◌, ◌++◌, leb, length,
  arith,
}
use os_labs.Panic.{done}
use os_labs.Sh.{
  Text, is_white, mem_char, looks_at, skip_white, token, gettoken, peek, exec, wrap, parseredirs,
  parse_args, parse_simple, max_args,
}
use os_labs.Sh.Grammar.{
  is_plain, is_word, Word, print_arrow, Redirect, Argument, print_redirs, print_args, redirs_of,
  argv_of, arg_redirs_of, redirs_fuel, args_fuel,
}
use os_labs.Sh.Token.{
  Spaced, nothing, space, skip_white_idem, skip_white-word, gettoken-word, gettoken-arrow,
  skip_white-arrow,
}

-- No redirection follows.
abbrev pub NoArrow : Text → Type 0
NoArrow k = peek (b'<' ∷ b'>' ∷ []) k ≡ false

-- A text that is empty, or a space and one of `stops`.
pub data End (stops : Text) : Text → Type 0 where
  finished : End stops []
  stop : (c : ℕ) (k : Text) → mem_char c stops ≡ true → End stops (b' ' ∷ c ∷ k)

pub End-Spaced : {stops k : Text} → End stops k → Spaced k
End-Spaced finished = nothing
End-Spaced (stop c k e) = space (c ∷ k)

pub peek-cong : (toks s k : Text) → skip_white s ≡ skip_white k → peek toks s ≡ peek toks k
unfolding peek
peek-cong toks s k at = ap (looks_at toks) at

pub peek-End :
    {stops k : Text} (toks : Text)
    → ((c : ℕ) → mem_char c stops ≡ true → (is_white c ≡ false) × (mem_char c toks ≡ false))
    → End stops k
    → peek toks k ≡ false
unfolding peek skip_white
peek-End toks f finished = refl
peek-End toks f (stop c k e) = let (black, out) = f c e in rw (black, out) refl

pub print_redirs-Spaced : (rs : List Redirect) (k : Text) → Spaced k → Spaced (print_redirs rs k)
print_redirs-Spaced [] k sp = sp
print_redirs-Spaced (r ∷ rs) k sp =
    space (print_arrow r.arrow (b' ' ∷ (r.file.text ++ print_redirs rs k)))

pub skip_white-name : (w : Word) (k : Text) → skip_white (b' ' ∷ (w.text ++ k)) ≡ w.text ++ k
skip_white-name w k = unfold skip_white in skip_white-word w.text k w.good

pub parseredirs-print :
    (rs : List Redirect) (k s : Text) (fuel : ℕ)
    → redirs_fuel rs ≤ fuel
    → Spaced k
    → NoArrow k
    → skip_white s ≡ skip_white (print_redirs rs k)
    → parseredirs fuel s ≡ done (redirs_of rs, skip_white k)
unfolding parseredirs
parseredirs-print [] k s zero h sp quiet at = absurd (omega (arith, h))
parseredirs-print [] k s (suc fuel) h sp quiet at =
    let quiet' : peek (b'<' ∷ b'>' ∷ []) s ≡ false = peek-cong (b'<' ∷ b'>' ∷ []) s k at ∙ quiet in
    rw (quiet', at) refl
parseredirs-print (r ∷ rs) k s zero h sp quiet at = absurd (omega (arith, h))
parseredirs-print (r ∷ rs) k s (suc fuel) h sp quiet at =
    let rest = print_redirs rs k in
    let file = r.file.text ++ rest in
    let arrow = gettoken-arrow s r.arrow file (at ∙ skip_white-arrow r.arrow (b' ' ∷ file)) in
    let at_file : skip_white (gettoken s).2 ≡ file =
      ap skip_white arrow.1 ∙ skip_white_idem file ∙ skip_white-word r.file.text rest r.file.good in
    let name =
      gettoken-word (gettoken s).2 r.file.text rest r.file.good (print_redirs-Spaced rs k sp)
        at_file in
    let ih =
      parseredirs-print rs k (skip_white rest) fuel (omega (arith, h)) sp quiet
        (skip_white_idem rest) in
    rw (arrow.2, name, ih, arrow.0) refl

pub gettoken-cong : (s k : Text) → skip_white s ≡ skip_white k → gettoken s ≡ gettoken k
unfolding gettoken
gettoken-cong s k at = ap token at

pub skip_white-stop : (c : ℕ) (k : Text) → is_white c ≡ false → skip_white (b' ' ∷ c ∷ k) ≡ c ∷ k
unfolding skip_white
skip_white-stop c k black = rw black refl

gettoken_nil : gettoken [] ≡ (0, [], [])
unfolding gettoken skip_white
gettoken_nil = refl

peek_nil : (toks : Text) → peek toks [] ≡ false
unfolding peek skip_white
peek_nil toks = refl

pub peek-stop :
    (toks : Text) (c : ℕ) (k : Text)
    → is_white c ≡ false
    → mem_char c toks ≡ true
    → peek toks (b' ' ∷ c ∷ k) ≡ true
unfolding peek skip_white
peek-stop toks c k black e = rw (black, e) refl

-- The bytes that end a simple command.
abbrev pub exec_stops : Text
exec_stops = b'|' ∷ b')' ∷ b'&' ∷ b';' ∷ []

pub exec_stops-no_arrow :
    (c : ℕ)
    → mem_char c exec_stops ≡ true
    → (is_white c ≡ false) × (mem_char c (b'<' ∷ b'>' ∷ []) ≡ false)
exec_stops-no_arrow c e = (ground (arith, e), ground (arith, e))

looks_at-word :
    (toks t k : Text)
    → is_word t ≡ true
    → ((c : ℕ) → is_plain c ≡ true → mem_char c toks ≡ false)
    → looks_at toks (t ++ k) ≡ false
looks_at-word toks [] k e f = ground (arith, e)
looks_at-word toks (c ∷ t) k e f = f c (ground (arith, e))

pub peek-word :
    (toks s k : Text) (w : Word)
    → ((c : ℕ) → is_plain c ≡ true → mem_char c toks ≡ false)
    → skip_white s ≡ w.text ++ k
    → peek toks s ≡ false
unfolding peek
peek-word toks s k w f at = rw at (looks_at-word toks w.text k w.good f)

print_args-Spaced : (args : List Argument) (k : Text) → Spaced k → Spaced (print_args args k)
print_args-Spaced [] k sp = sp
print_args-Spaced (a ∷ args) k sp = space (a.name.text ++ print_redirs a.redirs (print_args args k))

print_args-NoArrow :
    (args : List Argument) (k : Text) → End exec_stops k → NoArrow (print_args args k)
print_args-NoArrow [] k end = peek-End (b'<' ∷ b'>' ∷ []) exec_stops-no_arrow end
print_args-NoArrow (a ∷ args) k end =
    let rest = print_redirs a.redirs (print_args args k) in
    peek-word (b'<' ∷ b'>' ∷ []) (b' ' ∷ (a.name.text ++ rest)) rest a.name
      (λ c e. ground (arith, e)) (skip_white-name a.name rest)

pub parse_args-print :
    (args : List Argument) (k s : Text) (argc fuel : ℕ)
    → args_fuel args ≤ fuel
    → argc + length args < max_args
    → End exec_stops k
    → skip_white s ≡ skip_white (print_args args k)
    → parse_args fuel argc s ≡ done (argv_of args, arg_redirs_of args, skip_white k)
unfolding parse_args skip_white
parse_args-print [] k s argc zero h few end at = absurd (omega (arith, h))
parse_args-print [] k s argc (suc fuel) h few finished at =
    let still = peek-cong exec_stops s [] at ∙ peek_nil exec_stops in
    let t = gettoken-cong s [] at ∙ gettoken_nil in rw (still, t) refl
parse_args-print [] k s argc (suc fuel) h few (stop c rest e) at =
    let ends =
      peek-cong exec_stops s (b' ' ∷ c ∷ rest) at
      ∙ peek-stop exec_stops c rest (exec_stops-no_arrow c e).0 e in
    rw (ends, at) refl
parse_args-print (a ∷ args) k s argc zero h few end at = absurd (omega (arith, h))
parse_args-print (a ∷ args) k s argc (suc fuel) h few end at =
    let after = print_args args k in
    let rest = print_redirs a.redirs after in
    let at_name = at ∙ skip_white-name a.name rest in
    let name =
      gettoken-word s a.name.text rest a.name.good
        (print_redirs-Spaced a.redirs after (print_args-Spaced args k (End-Spaced end))) at_name in
    let going =
      peek-word (b'|' ∷ b')' ∷ b'&' ∷ b';' ∷ []) s rest a.name (λ c e. ground (arith, e)) at_name in
    let redirs =
      parseredirs-print a.redirs after (skip_white rest) fuel (omega (arith, h))
        (print_args-Spaced args k (End-Spaced end)) (print_args-NoArrow args k end)
        (skip_white_idem rest) in
    let ih =
      parse_args-print args k (skip_white after) (argc + 1) fuel (omega (arith, h))
        (omega (arith, few)) end (skip_white_idem after) in
    let room : leb max_args (argc + 1) ≡ false = ground (arith, few) in
    rw (going, name, redirs, ih, room) refl

pub parse_simple-print :
    (rs : List Redirect) (args : List Argument) (k s : Text) (fuel : ℕ)
    → redirs_fuel rs + args_fuel args ≤ fuel
    → length args < max_args
    → End exec_stops k
    → skip_white s ≡ skip_white (print_redirs rs (print_args args k))
    → parse_simple fuel s
      ≡ done (wrap (exec (argv_of args)) (redirs_of rs ++ arg_redirs_of args), skip_white k)
unfolding parse_simple
parse_simple-print rs args k s fuel h few end at =
    let after = print_args args k in
    let first =
      parseredirs-print rs after s fuel (omega (arith, h))
        (print_args-Spaced args k (End-Spaced end)) (print_args-NoArrow args k end) at in
    let then_args =
      parse_args-print args k (skip_white after) 0 fuel (omega (arith, h)) (omega (arith, few)) end
        (skip_white_idem after) in
    rw (first, then_args) refl
