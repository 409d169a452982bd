-- ===== src/Sh/Token.antt =====
-- `skip_white`, `gettoken` and `peek` of user/sh.c on printed tokens.
use os_labs.Prelude.{ℕ, ◌≡◌, refl, true, false, inl, inr, [], ◌∷◌, ◌++◌, ◌==◌, Bool-cases, arith}
use os_labs.Sh.{Text, is_white, is_symbol, skip_white, word, gettoken, peek}
use os_labs.Sh.Grammar.{
  is_plain, all_plain, is_word, Arrow, from, to, append, arrow_token, print_arrow,
}

pub skip_white_idem : (s : Text) → skip_white (skip_white s) ≡ skip_white s
unfolding skip_white
skip_white_idem [] = refl
skip_white_idem (c ∷ s) = elim (Bool-cases (is_white c)) [
  | inl e ↦ rw e (skip_white_idem s)
  | inr e ↦ rw (e, skip_white) (rw e refl)
]

-- What follows a token: nothing, or a space.
pub data Spaced : Text → Type 0 where
  nothing : Spaced []
  space : (s : Text) → Spaced (b' ' ∷ s)

word-append : (w k : Text) → all_plain w ≡ true → Spaced k → word (w ++ k) ≡ (w, k)
unfolding word
word-append [] [] e nothing = refl
word-append [] k e (space s) = refl
word-append (c ∷ w) k e sp =
    let plain : is_plain c ≡ true = ground (arith, e) in
    let rest : all_plain w ≡ true = ground (arith, e) in
    let ih = word-append w k rest sp in rw (ih, plain) refl

-- A word does not begin with white space.
pub skip_white-word : (w k : Text) → is_word w ≡ true → skip_white (w ++ k) ≡ w ++ k
unfolding skip_white
skip_white-word [] k e = ground (arith, e)
skip_white-word (c ∷ w) k e = let plain : is_white c ≡ false = ground (arith, e) in rw plain refl

pub gettoken-word :
    (s w k : Text)
    → is_word w ≡ true
    → Spaced k
    → skip_white s ≡ w ++ k
    → gettoken s ≡ (b'a', w, skip_white k)
unfolding gettoken
gettoken-word s [] k e sp at = ground (arith, e)
gettoken-word s (c ∷ w) k e sp at =
    let no_gt : (c == b'>') ≡ false = ground (arith, e) in
    let no_symbol : is_symbol c ≡ false = ground (arith, e) in
    let parts = word-append (c ∷ w) k e sp in rw (at, no_symbol, parts, no_gt) refl

pub gettoken-symbol :
    (s : Text) (c : ℕ) (k : Text)
    → is_symbol c ≡ true
    → (c == b'>') ≡ false
    → skip_white s ≡ c ∷ k
    → gettoken s ≡ (c, c ∷ [], skip_white k)
unfolding gettoken
gettoken-symbol s c k e no_gt at = rw (at, e, no_gt) refl

-- The token of an arrow, before a space.
pub gettoken-arrow :
    (s : Text) (a : Arrow) (k : Text)
    → skip_white s ≡ print_arrow a (b' ' ∷ k)
    → ((gettoken s).0 ≡ arrow_token a)
      × ((gettoken s).2 ≡ skip_white k)
      × (peek (b'<' ∷ b'>' ∷ []) s ≡ true)
unfolding gettoken skip_white peek
gettoken-arrow s from k at = (rw at refl, rw at refl, rw at refl)
gettoken-arrow s to k at = (rw at refl, rw at refl, rw at refl)
gettoken-arrow s append k at = (rw at refl, rw at refl, rw at refl)

pub skip_white-arrow :
    (a : Arrow) (k : Text) → skip_white (b' ' ∷ print_arrow a k) ≡ print_arrow a k
unfolding skip_white
skip_white-arrow from k = refl
skip_white-arrow to k = refl
skip_white-arrow append k = refl
