-- ===== src/CString/Copy.antt =====
-- What the copies of strings leave in memory.
use os_labs.Prelude.{
  ℕ, zero, suc, ◌+◌, ◌-◌, ◌≤◌, ◌<◌, ◌≡◌, refl, ◌≢◌, ◌⊎◌, inl, ◌∙◌, sym, ap, some, List, ◌∷◌, arith,
  length, update, update_self, update_ne, eq→==, ne→==,
}
use native.Mathlib.Decide.{ℕ_discrete}
use os_labs.CString.{pad_loop, strncpy, safestrcpy_loop, safestrcpy, strcpy}
use os_labs.CString.Text.{text, text-nil, text-cons, text-update, IsString, IsString-tail}
use os_labs.Memory.{Memory}

-- The regions of `n` bytes do not overlap.
abbrev pub Apart : (s t n : ℕ) → Type 0
Apart s t n = (s + n ≤ t) ⊎ (t + n ≤ s)

-- Nothing below `s`, and nothing from `s + n` on, is changed.
abbrev pub Only : (s n : ℕ) → (before after : Memory) → Type 0
Only s n before after = (a : ℕ) → (a < s) ⊎ (s + n ≤ a) → after a ≡ before a

pad_loop-Only : (s n : ℕ) (mem : Memory) → Only s n mem (pad_loop s n mem)
unfolding pad_loop
pad_loop-Only s zero mem a h = refl
pad_loop-Only s (suc n) mem a h =
    pad_loop-Only (s + 1) n (update mem s 0) a (ground arith) ∙ ground (arith, h)

-- What is put at `s` is still there after writes above it.
kept : (s n : ℕ) {before after : Memory} → Only (s + 1) n before after → after s ≡ before s
kept s n only = only s (inl (omega arith))

module _ (s t n : ℕ) (mem : Memory) (rest : Memory) where
  -- After the first byte, which is not the zero, the rest is copied.
  cons_copied :
      (l : List ℕ) (k : ℕ)
      → mem t ≢ 0
      → Only (s + 1) k (update mem s (mem t)) rest
      → text rest (s + 1) n ≡ l
      → text rest s (suc n) ≡ mem t ∷ l
  cons_copied l k nz only e =
      let first : rest s ≡ mem t = kept s k only ∙ update_self mem s (mem t) in
      text-cons rest s n (λ z. nz (sym first ∙ z)) ∙ λ i. first i ∷ e i

  Only-cons : (k v : ℕ) → Only (s + 1) k (update mem s v) rest → Only s (suc k) mem rest
  Only-cons k v only a h = only a (ground arith) ∙ ground (arith, h)

strncpy-stop :
    (s t n : ℕ) (mem : Memory)
    → mem t ≡ 0
    → strncpy s t (suc n) mem ≡ pad_loop (s + 1) n (update mem s (mem t))
unfolding strncpy
strncpy-stop s t n mem z = rw (eq→== (mem t) 0 z) refl

strncpy-go :
    (s t n : ℕ) (mem : Memory)
    → mem t ≢ 0
    → strncpy s t (suc n) mem ≡ strncpy (s + 1) (t + 1) n (update mem s (mem t))
unfolding strncpy
strncpy-go s t n mem nz = rw (ne→== (mem t) 0 nz) refl

-- A store at `s` does not change the text at `t + 1`.
text-update_below :
    (s t n : ℕ) (mem : Memory)
    → Apart s t (suc n)
    → text (update mem s (mem t)) (t + 1) n ≡ text mem (t + 1) n
text-update_below s t n mem apart = text-update mem s (mem t) (t + 1) n (λ j l q. ground arith)

-- `strncpy` of `n` bytes between regions that do not overlap: the text at `s` is then what the one
-- at `t` was, and no byte outside of the `n` at `s` is changed.
pub strncpy-text :
    (s t n : ℕ) (mem : Memory)
    → Apart s t n
    → (text (strncpy s t n mem) s n ≡ text mem t n) × Only s n mem (strncpy s t n mem)
strncpy-text s t zero mem apart = unfold strncpy text in (refl, λ a h. refl)
strncpy-text s t (suc n) mem apart = elim (ℕ_discrete (mem t) 0) [
  | yes z ↦
      let only = pad_loop-Only (s + 1) n (update mem s (mem t)) in
      rw (strncpy-stop s t n mem z) (
        text-nil (pad_loop (s + 1) n (update mem s (mem t))) s (suc n)
              (kept s n only ∙ update_self mem s (mem t) ∙ z)
            ∙ sym (text-nil mem t (suc n) z),
        Only-cons s t n mem (pad_loop (s + 1) n (update mem s (mem t))) n (mem t) only,
      )
  | no nz ↦
      let rest = strncpy (s + 1) (t + 1) n (update mem s (mem t)) in
      let (same, only) = strncpy-text (s + 1) (t + 1) n (update mem s (mem t)) (ground arith) in
      rw (strncpy-go s t n mem nz) (
        cons_copied s t n mem rest (text mem (t + 1) n) n nz only
              (same ∙ text-update_below s t n mem apart)
            ∙ sym (text-cons mem t n nz),
        Only-cons s t n mem rest n (mem t) only,
      )
]

safestrcpy_loop-stop :
    (s t n : ℕ) (mem : Memory)
    → mem t ≡ 0
    → safestrcpy_loop s t (suc n) mem ≡ update (update mem s (mem t)) (s + 1) 0
unfolding safestrcpy_loop
safestrcpy_loop-stop s t n mem z = rw (eq→== (mem t) 0 z) refl

safestrcpy_loop-go :
    (s t n : ℕ) (mem : Memory)
    → mem t ≢ 0
    → safestrcpy_loop s t (suc n) mem ≡ safestrcpy_loop (s + 1) (t + 1) n (update mem s (mem t))
unfolding safestrcpy_loop
safestrcpy_loop-go s t n mem nz = rw (ne→== (mem t) 0 nz) refl

-- What `safestrcpy` leaves: the text, cut to `n` bytes, a zero behind it, and nothing else changed.
pub record Cut (s t n : ℕ) (mem after : Memory) : Type 0 where
  pub same : text after s (suc n) ≡ text mem t n
  pub ended : after (s + length (text mem t n)) ≡ 0
  pub only : Only s (suc n) mem after

safestrcpy_loop-Cut :
    (s t n : ℕ) (mem : Memory) → Apart s t (suc n) → Cut s t n mem (safestrcpy_loop s t n mem)
safestrcpy_loop-Cut s t zero mem apart =
    unfold safestrcpy_loop text in
    record { same = ground arith; ended = ground arith; only = λ a h. ground (arith, h) }
safestrcpy_loop-Cut s t (suc n) mem apart = elim (ℕ_discrete (mem t) 0) [
  | yes z ↦
      let after = update (update mem s (mem t)) (s + 1) 0 in
      let first : after s ≡ 0 = ground arith in
      rw (safestrcpy_loop-stop s t n mem z) (record {
        same = text-nil after s (suc (suc n)) first ∙ sym (text-nil mem t (suc n) z);
        ended = rw (text-nil mem t (suc n) z) (ground (arith, first));
        only = λ a h. ground (arith, h);
      })
  | no nz ↦
      let rest = safestrcpy_loop (s + 1) (t + 1) n (update mem s (mem t)) in
      let cut = safestrcpy_loop-Cut (s + 1) (t + 1) n (update mem s (mem t)) (ground arith) in
      let other = text-update_below s t n mem (ground arith) in
      rw (safestrcpy_loop-go s t n mem nz) (record {
        same =
            cons_copied s t (suc n) mem rest (text mem (t + 1) n) (suc n) nz cut.only
              (cut.same ∙ other)
            ∙ sym (text-cons mem t n nz);
        ended = rw (text-cons mem t n nz) (ground (arith, cut.ended, ap length other));
        only = Only-cons s t n mem rest (suc n) (mem t) cut.only;
      })
]

-- `safestrcpy` into `n` bytes, at least one, between regions that do not overlap: the text at `s` is
-- then the one at `t`, cut to `n - 1` bytes, with a zero behind it within the `n`; and no byte
-- outside of these is changed.
pub safestrcpy-Cut :
    (s t n : ℕ) (mem : Memory) → 0 < n → Apart s t n → Cut s t (n - 1) mem (safestrcpy s t n mem)
unfolding safestrcpy
safestrcpy-Cut s t zero mem pos apart = elim pos [ ]
safestrcpy-Cut s t (suc n) mem pos apart =
    let e : suc n - 1 ≡ n = omega arith in
    rw (ne→== (suc n) 0 (omega arith), e) (safestrcpy_loop-Cut s t n mem apart)

-- With fuel for the string at `t` and its zero, the user library's `strcpy` returns, and leaves what
-- `strncpy` does with just the room for both.
pub strcpy-strncpy :
    (fuel s t k : ℕ) (mem : Memory)
    → IsString mem t k
    → Apart s t (suc k)
    → k < fuel
    → strcpy fuel s t mem ≡ some (strncpy s t (suc k) mem)
unfolding strcpy
strcpy-strncpy zero s t k mem str apart h = elim h [ ]
strcpy-strncpy (suc fuel) s t zero mem str apart h =
    let z : mem t ≡ 0 = ground (arith, str.ends) in
    rw (strncpy-stop s t 0 mem z, eq→== (mem t) 0 z) (unfold pad_loop in refl)
strcpy-strncpy (suc fuel) s t (suc k) mem str apart h =
    let (nz, tail) = IsString-tail mem t k str in
    let moved : IsString (update mem s (mem t)) (t + 1) k = record {
      ends = update_ne mem s (t + 1 + k) (mem t) (λ e. ground arith) ∙ tail.ends;
      before = λ j l e.
          tail.before j l (sym (update_ne mem s (t + 1 + j) (mem t) (λ e. ground arith)) ∙ e);
    } in
    rw (strncpy-go s t (suc k) mem nz, ne→== (mem t) 0 nz)
      (strcpy-strncpy fuel (s + 1) (t + 1) k (update mem s (mem t)) moved (ground arith)
        (omega arith))
