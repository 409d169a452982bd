-- ===== src/Printf/Format.antt =====
-- Where the kernel's `printf` and that of the user library print the same.
use os_labs.Prelude.{
  ℕ, zero, suc, ◌-◌, ◌/◌, ◌%◌, ◌^◌, ◌≡◌, refl, ◌≢◌, inl, inr, ◌∙◌, sym, ap, Bool, true, false, ◌&&◌,
  Option, List, [], ◌∷◌, ◌==◌, if◌then◌else◌, arith, Bool-cases, Option-cases, ne→==, fun_ext,
}
use os_labs.Printf.{
  lower_digits, upper_digits, digit_loop, is_negative, put_sign, printint, Arg, next_int, put,
  put_int, kernel_conversion, kernel_printf, user_conversion, vprintf, user_printf,
}

-- A conversion other than `%x`, `%p`, `%l` and `%c`, which the two know differently.
abbrev pub IsCommon : ℕ → Type 0
IsCommon c = (c ≢ b'x') × (c ≢ b'p') × (c ≢ b'l') × (c ≢ b'c')

-- All conversions of a format are common.
abbrev pub HasCommon : List ℕ → Type 0
HasCommon [] = Unit
HasCommon (c ∷ []) = Unit
HasCommon (c ∷ d ∷ fmt) = elim (c == b'%') [
  | true ↦ IsCommon d × HasCommon fmt
  | false ↦ HasCommon (d ∷ fmt)
]

digit_loop-case :
    (room x : ℕ) (buf : List ℕ)
    → digit_loop lower_digits 10 room x buf ≡ digit_loop upper_digits 10 room x buf
unfolding digit_loop
digit_loop-case zero x buf = refl
digit_loop-case (suc room) x buf =
    let same : lower_digits (x % 10) ≡ upper_digits (x % 10) = ground arith in
    let rest = digit_loop-case room (x / 10) (upper_digits (x % 10) ∷ buf) in rw (same, rest) refl

printint-case :
    (xx : ℕ) (sign : Bool) → printint lower_digits xx 10 sign ≡ printint upper_digits xx 10 sign
unfolding printint
printint-case xx sign =
    ap (put_sign (sign && is_negative xx))
      (digit_loop-case 16 (if sign && is_negative xx then (2 ^ 32 - xx) % 2 ^ 32 else xx) [])

conversion-eq :
    (rest : List Arg → Option (List ℕ)) (c : ℕ) (args : List Arg)
    → IsCommon c
    → kernel_conversion rest c args ≡ user_conversion rest c args
unfolding kernel_conversion user_conversion
conversion-eq rest c args common =
    let x = ne→== c b'x' common.0 in
    let p = ne→== c b'p' common.1 in
    let l = ne→== c b'l' common.2 in
    let ch = ne→== c b'c' common.3 in
    elim (Bool-cases (c == b'd')) [
      | inl e ↦ elim (Option-cases (next_int args)) [
        | inl z ↦ rw (e, z) refl
        | inr (v, at) ↦ rw (e, at) (ap (λ out. put_int out (rest v.1)) (printint-case v.0 true))
      ]
      | inr d ↦ elim (Bool-cases (c == b's')) [
        | inl e ↦ rw (d, x, p, l, e) refl
        | inr s ↦ elim (Bool-cases (c == b'%')) [
          | inl e ↦
              let at : c ≡ b'%' = ground arith in
              rw (d, x, p, l, s, ch, e) (ap (λ t. put (t ∷ []) (rest args)) (sym at))
          | inr e ↦ rw (d, x, p, l, s, ch, e) refl
        ]
      ]
    ]

-- The two functions at a format of one byte, and of two or more.
one_byte : (c : ℕ) (args : List Arg) → kernel_printf (c ∷ []) args ≡ vprintf false (c ∷ []) args
unfolding kernel_printf vprintf
one_byte c args = elim (Bool-cases (c == b'%')) [
  | inl e ↦ rw (e, vprintf) refl
  | inr e ↦ rw (e, vprintf) refl
]

HasCommon-conversion :
    (c d : ℕ) (fmt : List ℕ)
    → (c == b'%') ≡ true
    → HasCommon (c ∷ d ∷ fmt)
    → IsCommon d × HasCommon fmt
HasCommon-conversion c d fmt e h = rw (e, HasCommon) at h

HasCommon-plain :
    (c d : ℕ) (fmt : List ℕ) → (c == b'%') ≡ false → HasCommon (c ∷ d ∷ fmt) → HasCommon (d ∷ fmt)
HasCommon-plain c d fmt e h = rw (e, HasCommon) at h

same_output :
    (fmt : List ℕ) (args : List Arg)
    → HasCommon fmt
    → kernel_printf fmt args ≡ vprintf false fmt args
unfolding kernel_printf vprintf
same_output [] args h = refl
same_output (c ∷ []) args h = one_byte c args
same_output (c ∷ d ∷ fmt) args h = elim (Bool-cases (c == b'%')) [
  | inl e ↦
      let (common, rest) = HasCommon-conversion c d fmt e h in
      let ih : kernel_printf fmt ≡ vprintf false fmt =
        fun_ext (λ args. same_output fmt args rest) in
      rw (e, kernel_printf, vprintf)
        (conversion-eq (kernel_printf fmt) d args common ∙ ap (λ r. user_conversion r d args) ih)
  | inr e ↦
      rw (e, kernel_printf, vprintf)
        (ap (put (c ∷ [])) (same_output (d ∷ fmt) args (HasCommon-plain c d fmt e h)))
]

-- On a format whose conversions are all known to both, or to neither, the two functions print the
-- same, or both miss an argument.
pub printf-user_printf :
    (fmt : List ℕ) (args : List Arg) → HasCommon fmt → kernel_printf fmt args ≡ user_printf fmt args
unfolding user_printf
printf-user_printf fmt args h = same_output fmt args h
