-- ===== src/Regex/Meaning.antt =====
-- What a regular expression stands for, and that the matcher decides it.
use os_labs.Prelude.{
  ℕ, ◌≡◌, refl, ◌≢◌, ◌⊎◌, inl, inr, ◌↔◌, ap, Bool, true, false, List, [], ◌∷◌, ◌++◌, ◌==◌, arith,
  All, Bool-cases,
}
use os_labs.Regex.{fits, matchstar, matchone, is_empty, matchhere, match_loop, match}

pub data Item : Type 0 where
  one : (c : ℕ) → Item
  star : (c : ℕ) → Item
  end : Item

-- The items of an expression. `$` is the end of the text only where it stands last.
pub items : List ℕ → List Item
items [] = []
items (c ∷ []) = elim (c == b'$') [ true ↦ end ∷ [] | false ↦ one c ∷ [] ]
items (c ∷ d ∷ re) = elim (d == b'*') [ true ↦ star c ∷ items re | false ↦ one c ∷ items (d ∷ re) ]

abbrev pub Fits : (c x : ℕ) → Type 0
Fits c x = (c ≡ b'.') ⊎ (x ≡ c)

-- A beginning of the text is what the items stand for.
abbrev pub Begins : List Item → List ℕ → Type 0
Begins [] text = Unit
Begins (one c ∷ is) text = (x : ℕ) × (rest : List ℕ) × (text ≡ x ∷ rest) × Fits c x × Begins is rest
Begins (star c ∷ is) text =
    (run rest : List ℕ) × (text ≡ run ++ rest) × All (Fits c) run × Begins is rest
Begins (end ∷ is) text = (text ≡ []) × Begins is text

-- The meaning of a whole expression: at the beginning of the text behind `^`, anywhere otherwise.
abbrev pub Occurs : List ℕ → List ℕ → Type 0
Occurs re text = (before rest : List ℕ) × (text ≡ before ++ rest) × Begins (items re) rest

abbrev pub Means : List ℕ → List ℕ → Type 0
Means [] text = Occurs [] text
Means (c ∷ re) text = ((c ≡ b'^') × Begins (items re) text) ⊎ ((c ≢ b'^') × Occurs (c ∷ re) text)

abbrev Decides : (List ℕ → Bool) → (List ℕ → Type 0) → Type 0
Decides here P = (text : List ℕ) → (here text ≡ true) ↔ P text

fits→ : (c x : ℕ) → fits c x ≡ true → Fits c x
fits→ c x h = ground arith

fits← : (c x : ℕ) → Fits c x → fits c x ≡ true
fits← c x h = ground (arith, h)

module _ (here : List ℕ → Bool) (is : List Item) (dec : Decides here (Begins is)) (c : ℕ) where
  matchone→ : (text : List ℕ) → matchone here c text ≡ true → Begins (one c ∷ is) text
  matchone→ [] h = absurd (cc)
  matchone→ (x ∷ text) h = elim (Bool-cases (fits c x)) [
    | inl e ↦ (x, text, refl, fits→ c x e, (dec text).0 (rw (e, matchone) at h))
    | inr e ↦ absurd (let h' : false ≡ true = rw (e, matchone) at h in cc)
  ]

  matchone← : (text : List ℕ) → Begins (one c ∷ is) text → matchone here c text ≡ true
  matchone← text (x, rest, e, f, b) = rw (e, fits← c x f, matchone) ((dec rest).1 b)

  matchstar→ : (text : List ℕ) → matchstar here c text ≡ true → Begins (star c ∷ is) text
  unfolding matchstar
  matchstar→ [] h = ([], [], refl, tt, (dec []).0 h)
  matchstar→ (x ∷ text) h = elim (Bool-cases (here (x ∷ text))) [
    | inl e ↦ ([], x ∷ text, refl, tt, (dec (x ∷ text)).0 e)
    | inr e ↦
        let both : (Fits c x) × (matchstar here c text ≡ true) = ground arith in
        let (run, rest, at, all, b) = matchstar→ text both.1 in
        (x ∷ run, rest, ap (λ l. x ∷ l) at, (both.0, all), b)
  ]

  matchstar← :
      (run rest : List ℕ)
      → All (Fits c) run
      → Begins is rest
      → matchstar here c (run ++ rest) ≡ true
  unfolding matchstar
  matchstar← [] [] all b = (dec []).1 b
  matchstar← [] (x ∷ rest) all b = rw ((dec (x ∷ rest)).1 b) refl
  matchstar← (x ∷ run) rest all b = ground (arith, all.0, matchstar← run rest all.1 b)

nothing-Decides : Decides (matchhere []) (Begins (items []))
unfolding matchhere items
nothing-Decides text = (λ h. tt, λ b. refl)

is_empty→ : (text : List ℕ) → is_empty text ≡ true → (text ≡ []) × Unit {0}
is_empty→ [] h = (refl, tt)
is_empty→ (x ∷ text) h = absurd (cc)

is_empty← : (text : List ℕ) → (text ≡ []) × Unit {0} → is_empty text ≡ true
is_empty← text b = rw (b.0) refl

-- `matchhere` finds the items of the expression at the beginning of the text.
matchhere-Begins : (re : List ℕ) → Decides (matchhere re) (Begins (items re))
unfolding matchhere items
matchhere-Begins [] text = nothing-Decides text
matchhere-Begins (c ∷ []) text = elim (Bool-cases (c == b'$')) [
  | inl e ↦ rw (e, matchhere, items) (is_empty→ text, is_empty← text)
  | inr e ↦
      rw (e, matchhere, items)
        (
          matchone→ (matchhere []) [] nothing-Decides c text,
          matchone← (matchhere []) [] nothing-Decides c text,
        )
]
matchhere-Begins (c ∷ d ∷ re) text = elim (Bool-cases (d == b'*')) [
  | inl e ↦
      let ih = matchhere-Begins re in
      rw (e, matchhere, items)
        (
          matchstar→ (matchhere re) (items re) ih c text,
          λ b. rw (b.2) (matchstar← (matchhere re) (items re) ih c b.0 b.1 b.3 b.4),
        )
  | inr e ↦
      let ih = matchhere-Begins (d ∷ re) in
      rw (e, matchhere, items)
        (
          matchone→ (matchhere (d ∷ re)) (items (d ∷ re)) ih c text,
          matchone← (matchhere (d ∷ re)) (items (d ∷ re)) ih c text,
        )
]

match_loop→ : (re text : List ℕ) → match_loop re text ≡ true → Occurs re text
unfolding match_loop
match_loop→ re [] h = ([], [], refl, (matchhere-Begins re []).0 h)
match_loop→ re (x ∷ text) h = elim (Bool-cases (matchhere re (x ∷ text))) [
  | inl e ↦ ([], x ∷ text, refl, (matchhere-Begins re (x ∷ text)).0 e)
  | inr e ↦
      let (before, rest, at, b) = match_loop→ re text (rw e at h) in
      (x ∷ before, rest, ap (λ l. x ∷ l) at, b)
]

match_loop← :
    (re before rest : List ℕ) → Begins (items re) rest → match_loop re (before ++ rest) ≡ true
unfolding match_loop
match_loop← re [] [] b = (matchhere-Begins re []).1 b
match_loop← re [] (x ∷ rest) b = rw ((matchhere-Begins re (x ∷ rest)).1 b) refl
match_loop← re (x ∷ before) rest b = ground (arith, match_loop← re before rest b)

-- `match` finds exactly the texts that the expression means: with `^` in front those that begin
-- with its items, otherwise those in which the items stand somewhere. `$` is the end of the text
-- where it stands last, and a byte elsewhere.
pub match-Means : (re text : List ℕ) → (match re text ≡ true) ↔ Means re text
unfolding match
match-Means [] text = (match_loop→ [] text, λ o. rw (o.2) (match_loop← [] o.0 o.1 o.3))
match-Means (c ∷ re) text = elim (Bool-cases (c == b'^')) [
  | inl e ↦
      rw (e, match)
        (
          λ h. inl (ground arith, (matchhere-Begins re text).0 h),
          λ m. elim m [ inl a ↦ (matchhere-Begins re text).1 a.1 | inr a ↦ absurd (ground arith) ],
        )
  | inr e ↦
      rw (e, match)
        (
          λ h. inr (ground arith, match_loop→ (c ∷ re) text h),
          λ m. elim m [
            | inl a ↦ absurd (ground arith)
            | inr o ↦ rw (o.1.2) (match_loop← (c ∷ re) o.1.0 o.1.1 o.1.3)
          ],
        )
]
