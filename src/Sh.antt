-- ===== src/Sh.antt =====
-- The parser of user/sh.c. The line is the list of its bytes; a pointer into it is what is left of
-- the list, and a counted string is its bytes.
pub mod Grammar
pub mod Token
pub mod Words
pub mod Steps
pub mod RoundTrip
mod Tests
use os_labs.Prelude.{
  ℕ, zero, suc, ◌+◌, Bool, true, false, not, ◌&&◌, ◌||◌, List, [], ◌∷◌, ◌++◌, leb, ◌==◌,
  if◌then◌else◌,
}
use os_labs.Panic.{Run, done, panics, out_of_fuel, ◌>>=◌}

abbrev pub Text : Type 0
Text = List ℕ

-- `whitespace` and `symbols`, as `strchr` finds a byte that is not zero in them.
abbrev pub is_white : ℕ → Bool
is_white c = c == b' ' || c == b'\t' || c == b'\r' || c == b'\n' || c == b'\x0b'

abbrev pub is_symbol : ℕ → Bool
is_symbol c =
    c == b'<' || c == b'|' || c == b'>' || c == b'&' || c == b';' || c == b'(' || c == b')'

-- `while(s < es && strchr(whitespace, *s)) s++;`
unfoldable pub skip_white : Text → Text
skip_white [] = []
skip_white (c ∷ s) = let rest = skip_white s in if is_white c then rest else c ∷ s

-- `while(s < es && !strchr(whitespace, *s) && !strchr(symbols, *s)) s++;`: what is passed, and the
-- rest.
unfoldable pub word : Text → Text × Text
word [] = ([], [])
word (c ∷ s) =
    let (w, rest) = word s in
    if not (is_white c) && not (is_symbol c) then (c ∷ w, rest) else ([], c ∷ s)

-- The two tokens that begin with `>`.
abbrev after_gt : Text → ℕ × Text × Text
after_gt [] = (b'>', b'>' ∷ [], [])
after_gt (c ∷ s) =
    if c == b'>'
    then (b'+', b'>' ∷ b'>' ∷ [], skip_white s)
    else (b'>', b'>' ∷ [], skip_white (c ∷ s))

-- The `switch` of `gettoken`.
abbrev token : Text → ℕ × Text × Text
token [] = (0, [], [])
token (c ∷ s) =
    let (w, rest) = word (c ∷ s) in
    if c == b'>'
    then after_gt s
    else if is_symbol c
    then (c, c ∷ [], skip_white s)
    else (b'a', w, skip_white rest)

-- `gettoken`: the answer, the string from `q` to `eq`, and what is left.
unfoldable pub gettoken : Text → ℕ × Text × Text
gettoken s = token (skip_white s)

abbrev pub mem_char : ℕ → Text → Bool
mem_char c [] = false
mem_char c (d ∷ toks) = c == d || mem_char c toks

-- `*s && strchr(toks, *s)`
abbrev pub looks_at : (toks s : Text) → Bool
looks_at toks [] = false
looks_at toks (c ∷ s) = mem_char c toks

-- `peek`: what is left is `skip_white s`.
unfoldable pub peek : (toks s : Text) → Bool
peek toks s = looks_at toks (skip_white s)

-- `struct redircmd` without its command.
pub record Redir : Type 0 where
  pub file : Text
  pub mode : ℕ
  pub fd : ℕ

-- `struct cmd` and its five kinds.
pub data Cmd : Type 0 where
  exec : (argv : List Text) → Cmd
  redir : Cmd → Redir → Cmd
  pipe : (left right : Cmd) → Cmd
  list : (left right : Cmd) → Cmd
  back : Cmd → Cmd

-- O_RDONLY, O_WRONLY|O_CREATE|O_TRUNC and O_WRONLY|O_CREATE of kernel/fcntl.h.
abbrev pub redir_of : (tok : ℕ) → (file : Text) → Redir
redir_of tok file =
    if tok == b'<'
    then record { file = file; mode = 0; fd = 0 }
    else if tok == b'>'
    then record { file = file; mode = 0x601; fd = 1 }
    else record { file = file; mode = 0x201; fd = 1 }

-- The redirections put around a command, the first one innermost.
abbrev pub wrap : Cmd → List Redir → Cmd
wrap cmd [] = cmd
wrap cmd (r ∷ rs) = wrap (redir cmd r) rs

-- `parseredirs`: the redirections that it puts around its command.
unfoldable pub parseredirs : (fuel : ℕ) → Text → Run (List Redir × Text)
parseredirs zero s = out_of_fuel
parseredirs (suc fuel) s =
    let t = gettoken s in
    let f = gettoken t.2 in
    let more = parseredirs fuel f.2 >>= λ r. done (redir_of t.0 f.1 ∷ r.0, r.1) in
    if not (peek (b'<' ∷ b'>' ∷ []) s)
    then done ([], skip_white s)
    else if not (f.0 == b'a')
    then panics
    else more

-- MAXARGS
abbrev pub max_args : ℕ
max_args = 10

-- The loop of `parseexec`, with `argc` arguments so far: those that follow, and all redirections
-- around the command.
unfoldable pub parse_args : (fuel argc : ℕ) → Text → Run (List Text × List Redir × Text)
parse_args zero argc s = out_of_fuel
parse_args (suc fuel) argc s =
    let t = gettoken s in
    let more = parseredirs fuel t.2 >>= λ r.
    (parse_args fuel (argc + 1) r.1 >>= λ a. done (t.1 ∷ a.0, r.0 ++ a.1, a.2)) in
    if peek (b'|' ∷ b')' ∷ b'&' ∷ b';' ∷ []) s
    then done ([], [], skip_white s)
    else if t.0 == 0
    then done ([], [], t.2)
    else if not (t.0 == b'a')
    then panics
    else if leb max_args (argc + 1)
    then panics
    else more

-- `parseexec` where it meets no block.
unfoldable pub parse_simple : (fuel : ℕ) → Text → Run (Cmd × Text)
parse_simple fuel s = do
  r ← parseredirs fuel s
  a ← parse_args fuel 0 r.1
  done (wrap (exec a.0) (r.0 ++ a.1), a.2)

-- The loop of `parseline`.
unfoldable pub parse_backs : (fuel : ℕ) → Cmd → Text → Run (Cmd × Text)
parse_backs zero cmd s = out_of_fuel
parse_backs (suc fuel) cmd s =
    let rest = parse_backs fuel (back cmd) (gettoken s).2 in
    if peek (b'&' ∷ []) s then rest else done (cmd, skip_white s)

-- One of two ways to go on with what is left.
abbrev branch {ℓ} : {A : Type ℓ} → Bool → (taken other : Text → Run A) → Text → Run A
branch true taken other s = taken s
branch false taken other s = other s

unfoldable mutual
  pub parseline : (fuel : ℕ) → Text → Run (Cmd × Text)
  parseline zero s = out_of_fuel
  parseline (suc fuel) s = do
    p ← parsepipe fuel s
    b ← parse_backs fuel p.0 p.1
    branch (peek (b';' ∷ []) b.1)
        (λ s'. parseline fuel (gettoken s').2 >>= λ l. done (list b.0 l.0, l.1))
        (λ s'. done (b.0, skip_white s')) b.1

  pub parsepipe : (fuel : ℕ) → Text → Run (Cmd × Text)
  parsepipe zero s = out_of_fuel
  parsepipe (suc fuel) s = do
    e ← parseexec fuel s
    branch (peek (b'|' ∷ []) e.1)
        (λ s'. parsepipe fuel (gettoken s').2 >>= λ p. done (pipe e.0 p.0, p.1))
        (λ s'. done (e.0, skip_white s')) e.1

  pub parseexec : (fuel : ℕ) → Text → Run (Cmd × Text)
  parseexec zero s = out_of_fuel
  parseexec (suc fuel) s =
      branch (peek (b'(' ∷ []) s) (λ s'. parseblock fuel s') (λ s'. parse_simple fuel s')
        (skip_white s)

  pub parseblock : (fuel : ℕ) → Text → Run (Cmd × Text)
  parseblock zero s = out_of_fuel
  parseblock (suc fuel) s =
      branch (peek (b'(' ∷ []) s)
        (λ s'. do
          l ← parseline fuel (gettoken s').2
          branch (peek (b')' ∷ []) l.1)
              (λ s''. parseredirs fuel (gettoken s'').2 >>= λ r. done (wrap l.0 r.0, r.1))
              (λ s''. panics) l.1)
        (λ s'. panics) s

-- Nothing may be left.
abbrev whole : Cmd → Text → Run Cmd
whole cmd [] = done cmd
whole cmd (c ∷ rest) = panics

-- `parsecmd`; the strings need no `nulterminate` here.
unfoldable pub parsecmd : (fuel : ℕ) → Text → Run Cmd
parsecmd fuel s = do l ← parseline fuel s; whole l.0 (skip_white l.1)
