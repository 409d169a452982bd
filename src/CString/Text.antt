-- ===== src/CString/Text.antt =====
-- The text that a string stands for, and the comparisons as equality of texts.
use os_labs.Prelude.{
  ℕ, zero, suc, ◌+◌, ◌≤◌, ◌<◌, ◌≡◌, refl, ◌≢◌, ◌↔◌, some, List, [], ◌∷◌, arith, ◌==◌, if◌then◌else◌,
  length, update, pos,
}
use os_labs.CString.{strncmp, strcmp}
use os_labs.Memory.{Memory}

-- The bytes from `s` on, up to a zero and at most `n`.
unfoldable pub text : Memory → (s n : ℕ) → List ℕ
text mem s zero = []
text mem s (suc n) = if mem s == 0 then [] else mem s ∷ text mem (s + 1) n

-- A string of `k` bytes and its zero.
pub record IsString (mem : Memory) (s k : ℕ) : Type 0 where
  pub ends : mem (s + k) ≡ 0
  pub before : (j : ℕ) → j < k → mem (s + j) ≢ 0

pub IsString-tail :
    (mem : Memory) (s k : ℕ) → IsString mem s (suc k) → (mem s ≢ 0) × IsString mem (s + 1) k
IsString-tail mem s k h = (
  λ z. h.before 0 (omega arith) (ground arith),
  record {
    ends = ground (arith, h.ends);
    before = λ j l z. h.before (suc j) (omega arith) (ground arith);
  },
)

pub text-nil : (mem : Memory) (s n : ℕ) → mem s ≡ 0 → text mem s n ≡ []
unfolding text
text-nil mem s zero z = refl
text-nil mem s (suc n) z = ground arith

pub text-cons :
    (mem : Memory) (s n : ℕ) → mem s ≢ 0 → text mem s (suc n) ≡ mem s ∷ text mem (s + 1) n
unfolding text
text-cons mem s n nz = ground arith

-- A text does not depend on other addresses.
pub text-update :
    (mem : Memory) (a v s n : ℕ)
    → ((j : ℕ) → j < n → s + j ≢ a)
    → text (update mem a v) s n ≡ text mem s n
unfolding text
text-update mem a v s zero h = refl
text-update mem a v s (suc n) h =
    let rest = text-update mem a v (s + 1) n (λ j l e. h (suc j) (omega arith) (omega arith)) in
    let ne : s ≢ a = λ e. h 0 (omega arith) (omega arith) in ground (arith, rest)

pub length-text : (mem : Memory) (s n : ℕ) → length (text mem s n) ≤ n
unfolding text
length-text mem s zero = omega arith
length-text mem s (suc n) = ground (arith, length-text mem (s + 1) n)

module _ (mem : Memory) where
  eq→text : (p q n : ℕ) → strncmp mem p q n ≡ pos 0 → text mem p n ≡ text mem q n
  unfolding strncmp text
  eq→text p q zero h = refl
  eq→text p q (suc n) h = ground (arith, eq→text (p + 1) (q + 1) n)

  text→eq : (p q n : ℕ) → text mem p n ≡ text mem q n → strncmp mem p q n ≡ pos 0
  unfolding strncmp text
  text→eq p q zero h = refl
  text→eq p q (suc n) h = ground (arith, text→eq (p + 1) (q + 1) n)

  -- `strncmp` is 0 exactly when the strings agree up to their ends, or in their first `n` bytes.
  pub strncmp-text : (p q n : ℕ) → (strncmp mem p q n ≡ pos 0) ↔ (text mem p n ≡ text mem q n)
  strncmp-text p q n = (eq→text p q n, text→eq p q n)

  -- With enough fuel for one of the strings, `strcmp` returns what `strncmp` does for any bound
  -- past its end.
  pub strcmp-strncmp :
      (fuel p q k n : ℕ)
      → IsString mem p k
      → k < fuel
      → k < n
      → strcmp fuel mem p q ≡ some (strncmp mem p q n)
  unfolding strcmp strncmp
  strcmp-strncmp zero p q k n h l m = elim l [ ]
  strcmp-strncmp (suc fuel) p q k zero h l m = elim m [ ]
  strcmp-strncmp (suc fuel) p q zero (suc n) h l m =
      let z : mem p ≡ 0 = ground (arith, h.ends) in ground arith
  strcmp-strncmp (suc fuel) p q (suc k) (suc n) h l m =
      let (nz, t) = IsString-tail mem p k h in
      let rest = strcmp-strncmp fuel (p + 1) (q + 1) k n t (omega arith) (omega arith) in
      ground (arith, rest)
