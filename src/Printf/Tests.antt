-- ===== src/Printf/Tests.antt =====
-- Runs of the printing functions, and their theorems at them.
use mathlib.Core.List.{map}
use os_labs.Prelude.{
  ℕ, ◌-◌, ◌^◌, ◌≡◌, refl, ◌&&◌, true, some, none, List, [], ◌∷◌, arith, ◌==◌, if◌then◌else◌,
}
use os_labs.CString.{atoi}
use os_labs.Memory.{Memory}
use os_labs.Printf.{lower_digits, is_negative, printint, Arg, int, str, kernel_printf, user_printf}
use os_labs.Printf.Format.{printf-user_printf}
use os_labs.Printf.Numeral.{sign_text, magnitude, Digits, printint-Digits, atoi-printint}

-- -10, "fffffff6" for the user library's `%x`, and "-a" for the kernel's.
runs :
    (printint lower_digits (2 ^ 32 - 10) 10 true ≡ some (b'-' ∷ b'1' ∷ b'0' ∷ []))
    × (kernel_printf (b'%' ∷ b'x' ∷ []) (int (2 ^ 32 - 10) ∷ []) ≡ some (b'-' ∷ b'a' ∷ []))
    × (user_printf (b'%' ∷ b'x' ∷ []) (int (2 ^ 32 - 10) ∷ [])
        ≡ some (b'F' ∷ b'F' ∷ b'F' ∷ b'F' ∷ b'F' ∷ b'F' ∷ b'F' ∷ b'6' ∷ []))
unfolding printint kernel_printf user_printf
runs = (refl, refl, refl)

printint-Digits_example :
    (ds : List ℕ) × (printint lower_digits (2 ^ 32 - 10) 10 true
      ≡ some (sign_text (true && is_negative (2 ^ 32 - 10)) (map lower_digits ds)))
    × Digits 10 (magnitude (true && is_negative (2 ^ 32 - 10)) (2 ^ 32 - 10)) 10 ds
printint-Digits_example =
    printint-Digits lower_digits (2 ^ 32 - 10) 10 true (omega arith) (omega arith) (omega arith)

-- "12" and a zero.
abbrev twelve : Memory
twelve p = if p == 0 then b'1' else if p == 1 then b'2' else 0

printed : printint lower_digits 12 10 true ≡ some (b'1' ∷ b'2' ∷ [])
unfolding printint
printed = refl

atoi-printint_example : atoi 3 twelve 0 ≡ some 12
atoi-printint_example =
    atoi-printint twelve 3 0 12 (b'1' ∷ b'2' ∷ []) (omega arith) printed (refl, (refl, tt)) refl
      (omega arith)

-- "a%d%%%s"
abbrev format : List ℕ
format = b'a' ∷ b'%' ∷ b'd' ∷ b'%' ∷ b'%' ∷ b'%' ∷ b's' ∷ []

abbrev arguments : List Arg
arguments = int 7 ∷ str none ∷ []

printf-user_printf_example : kernel_printf format arguments ≡ user_printf format arguments
printf-user_printf_example = printf-user_printf format arguments (
  (omega arith, omega arith, omega arith, omega arith),
  (
    (omega arith, omega arith, omega arith, omega arith),
    ((omega arith, omega arith, omega arith, omega arith), tt),
  ),
)
