-- ===== src/Printf.antt =====
-- kernel/printf.c and user/printf.c: formatted output, as the list of the bytes that are put. The
-- formats and the strings are lists of bytes, without their zeros.
pub mod Numeral
pub mod Format
mod Tests
use os_labs.Prelude.{
  ℕ, zero, suc, ◌+◌, ◌-◌, ◌*◌, ◌/◌, ◌%◌, ◌^◌, Bool, true, false, ◌&&◌, Option, none, some, List, [],
  ◌∷◌, ◌++◌, leb, ltb, ◌==◌, if◌then◌else◌,
}

-- `digits[d]`, in the kernel's lower case and in the user library's upper case.
abbrev pub lower_digits : ℕ → ℕ
lower_digits d = if ltb d 10 then b'0' + d else b'a' + (d - 10)

abbrev pub upper_digits : ℕ → ℕ
upper_digits d = if ltb d 10 then b'0' + d else b'A' + (d - 10)

-- The `do` loop of `printint`. `buf` is filled from its end on, so this list, whose head was put
-- last, is what is printed. `room` is what is left of the 16 bytes; `none` is a write past them.
pub digit_loop : (digits : ℕ → ℕ) → (base room x : ℕ) → List ℕ → Option (ℕ × List ℕ)
digit_loop digits base zero x buf = none
digit_loop digits base (suc room) x buf =
    let rest = digit_loop digits base room (x / base) (digits (x % base) ∷ buf) in
    if x / base == 0 then some (room, digits (x % base) ∷ buf) else rest

-- `xx` is negative as an `int`.
abbrev pub is_negative : ℕ → Bool
is_negative xx = leb (2 ^ 31) xx

abbrev pub put_sign : Bool → Option (ℕ × List ℕ) → Option (List ℕ)
put_sign neg none = none
put_sign false (some (room, buf)) = some buf
put_sign true (some (zero, buf)) = none
put_sign true (some (suc room, buf)) = some (b'-' ∷ buf)

-- `printint` of the `int` with the bits `xx`, the same in both files.
unfoldable pub printint : (digits : ℕ → ℕ) → (xx base : ℕ) → (sign : Bool) → Option (List ℕ)
unfolding digit_loop
printint digits xx base sign =
    let neg : Bool = sign && is_negative xx in
    let x : ℕ = if neg then (2 ^ 32 - xx) % 2 ^ 32 else xx in
    put_sign neg (digit_loop digits base 16 x [])

-- The loop of `printptr`: `left` of the 16 digits, from the top of `x` down.
pub ptr_loop : (digits : ℕ → ℕ) → (left x : ℕ) → List ℕ
ptr_loop digits zero x = []
ptr_loop digits (suc left) x = digits (x / 2 ^ 60) ∷ ptr_loop digits left (x * 16 % 2 ^ 64)

unfoldable pub printptr : (digits : ℕ → ℕ) → (x : ℕ) → List ℕ
unfolding ptr_loop
printptr digits x = b'0' ∷ b'x' ∷ ptr_loop digits 16 x

-- What a caller passes behind the format. `str none` is the null pointer.
pub data Arg : Type 0 where
  int : (xx : ℕ) → Arg
  ulong : (x : ℕ) → Arg
  str : Option (List ℕ) → Arg

-- "(null)"
abbrev pub null_text : List ℕ
null_text = b'(' ∷ b'n' ∷ b'u' ∷ b'l' ∷ b'l' ∷ b')' ∷ []

abbrev pub str_bytes : Option (List ℕ) → List ℕ
str_bytes none = null_text
str_bytes (some s) = s

-- Output that comes first.
abbrev pub put : List ℕ → Option (List ℕ) → Option (List ℕ)
put out none = none
put out (some rest) = some (out ++ rest)

abbrev pub put_int : Option (List ℕ) → Option (List ℕ) → Option (List ℕ)
put_int none rest = none
put_int (some out) rest = put out rest

-- `va_arg` at each type: the argument and those that follow. `none`: there is no such argument.
abbrev pub next_int : List Arg → Option (ℕ × List Arg)
next_int (int xx ∷ args) = some (xx, args)
next_int _ = none

abbrev pub next_ulong : List Arg → Option (ℕ × List Arg)
next_ulong (ulong x ∷ args) = some (x, args)
next_ulong _ = none

abbrev pub next_str : List Arg → Option (Option (List ℕ) × List Arg)
next_str (str s ∷ args) = some (s, args)
next_str _ = none

-- The `switch` of the kernel's `printf` on the byte behind a `%`, with what prints the rest.
pub kernel_conversion : (rest : List Arg → Option (List ℕ)) → (c : ℕ) → List Arg → Option (List ℕ)
kernel_conversion rest c args =
    if c == b'd'
    then elim (next_int args) [
      | none ↦ none
      | some (xx, args) ↦ put_int (printint lower_digits xx 10 true) (rest args)
    ]
    else if c == b'x'
    then elim (next_int args) [
      | none ↦ none
      | some (xx, args) ↦ put_int (printint lower_digits xx 16 true) (rest args)
    ]
    else if c == b'p'
    then elim (next_ulong args) [
      | none ↦ none
      | some (x, args) ↦ put (printptr lower_digits x) (rest args)
    ]
    else if c == b's'
    then elim (next_str args) [ none ↦ none | some (s, args) ↦ put (str_bytes s) (rest args) ]
    else if c == b'%'
    then put (b'%' ∷ []) (rest args)
    else put (b'%' ∷ c ∷ []) (rest args)

-- The loop of the kernel's `printf`: `i` steps over a format byte, or over two at a `%`.
unfoldable pub kernel_printf : (fmt : List ℕ) → List Arg → Option (List ℕ)
unfolding kernel_conversion
kernel_printf [] args = some []
kernel_printf (c ∷ []) args = if c == b'%' then some [] else some (c ∷ [])
kernel_printf (c ∷ d ∷ fmt) args = elim (c == b'%') [
  | true ↦ kernel_conversion (kernel_printf fmt) d args
  | false ↦ put (c ∷ []) (kernel_printf (d ∷ fmt) args)
]

-- The branch of `vprintf` at `state == '%'`.
pub user_conversion : (rest : List Arg → Option (List ℕ)) → (c : ℕ) → List Arg → Option (List ℕ)
user_conversion rest c args =
    if c == b'd'
    then elim (next_int args) [
      | none ↦ none
      | some (xx, args) ↦ put_int (printint upper_digits xx 10 true) (rest args)
    ]
    else if c == b'l'
    then elim (next_ulong args) [
      | none ↦ none
      | some (x, args) ↦ put_int (printint upper_digits (x % 2 ^ 32) 10 false) (rest args)
    ]
    else if c == b'x'
    then elim (next_int args) [
      | none ↦ none
      | some (xx, args) ↦ put_int (printint upper_digits xx 16 false) (rest args)
    ]
    else if c == b'p'
    then elim (next_ulong args) [
      | none ↦ none
      | some (x, args) ↦ put (printptr upper_digits x) (rest args)
    ]
    else if c == b's'
    then elim (next_str args) [ none ↦ none | some (s, args) ↦ put (str_bytes s) (rest args) ]
    else if c == b'c'
    then elim (next_int args) [ none ↦ none | some (x, args) ↦ put (x % 256 ∷ []) (rest args) ]
    else if c == b'%'
    then put (c ∷ []) (rest args)
    else put (b'%' ∷ c ∷ []) (rest args)

-- The user library's `vprintf`; `state` is whether the byte before was a `%` that still counts.
unfoldable pub vprintf : (state : Bool) → (fmt : List ℕ) → List Arg → Option (List ℕ)
unfolding user_conversion
vprintf state [] args = some []
vprintf false (c ∷ fmt) args = elim (c == b'%') [
  | true ↦ vprintf true fmt args
  | false ↦ put (c ∷ []) (vprintf false fmt args)
]
vprintf true (c ∷ fmt) args = user_conversion (vprintf false fmt) c args

unfoldable pub user_printf : (fmt : List ℕ) → List Arg → Option (List ℕ)
unfolding vprintf
user_printf fmt args = vprintf false fmt args
