-- ===== src/Panic.antt =====
-- Runs of code that may panic, in the kernel or in the shell.

-- `out_of_fuel` has no counterpart in the program.
pub data Run {ℓ} (A : Type ℓ) : Type ℓ where
  done : A → Run A
  panics out_of_fuel : Run A

infixl 5 ◌>>=◌
abbrev pub ◌>>=◌ {ℓ κ} : {A : Type ℓ} {B : Type κ} → Run A → (A → Run B) → Run B
done a >>= f = f a
panics >>= f = panics
out_of_fuel >>= f = out_of_fuel
