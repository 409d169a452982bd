-- ===== src/Memory/Compare.antt =====
-- What `memcmp` tells.
use os_labs.Prelude.{
  ℕ, zero, suc, ◌+◌, ◌<◌, ◌≡◌, refl, ◌≢◌, inl, inr, ◌↔◌, ◌∙◌, arith, ◌==◌, pos, sub_ℕ, Bool-cases,
  eq→==,
}
use os_labs.Memory.{Memory, memcmp}

-- The `n` bytes from `s1` and from `s2` on agree.
abbrev pub Agree : Memory → (s1 s2 n : ℕ) → Type 0
Agree mem s1 s2 n = (j : ℕ) → j < n → mem (s1 + j) ≡ mem (s2 + j)

module _ (mem : Memory) where
  pub Agree-tail :
      (s1 s2 n : ℕ) → Agree mem s1 s2 (suc n) → (mem s1 ≡ mem s2) × Agree mem (s1 + 1) (s2 + 1) n
  Agree-tail s1 s2 n h = (ground (arith, h 0), λ j k. ground (arith, h (suc j)))

  Agree-cons :
      (s1 s2 n : ℕ) → mem s1 ≡ mem s2 → Agree mem (s1 + 1) (s2 + 1) n → Agree mem s1 s2 (suc n)
  Agree-cons s1 s2 n e h zero k = ground arith
  Agree-cons s1 s2 n e h (suc j) k = ground (arith, h j)

  Agree→ : (s1 s2 n : ℕ) → Agree mem s1 s2 n → memcmp mem s1 s2 n ≡ pos 0
  unfolding memcmp
  Agree→ s1 s2 zero h = refl
  Agree→ s1 s2 (suc n) h =
      let (e, t) = Agree-tail s1 s2 n h in
      rw (eq→== (mem s1) (mem s2) e) (Agree→ (s1 + 1) (s2 + 1) n t)

  Agree← : (s1 s2 n : ℕ) → memcmp mem s1 s2 n ≡ pos 0 → Agree mem s1 s2 n
  unfolding memcmp
  Agree← s1 s2 zero z = λ j h. elim h [ ]
  Agree← s1 s2 (suc n) z = elim (Bool-cases (mem s1 == mem s2)) [
    | inl e ↦ Agree-cons s1 s2 n (ground arith) (Agree← (s1 + 1) (s2 + 1) n (rw e at z))
    | inr e ↦ absurd (ground arith)
  ]

  -- `memcmp` is 0 exactly when the two regions agree.
  pub memcmp-Agree : (s1 s2 n : ℕ) → (memcmp mem s1 s2 n ≡ pos 0) ↔ Agree mem s1 s2 n
  memcmp-Agree s1 s2 n = (Agree← s1 s2 n, Agree→ s1 s2 n)

  -- Where the regions differ, `memcmp` is the difference of the first two bytes that differ.
  pub memcmp-sub :
      (s1 s2 n k : ℕ)
      → k < n
      → Agree mem s1 s2 k
      → mem (s1 + k) ≢ mem (s2 + k)
      → memcmp mem s1 s2 n ≡ sub_ℕ (mem (s1 + k)) (mem (s2 + k))
  unfolding memcmp
  memcmp-sub s1 s2 zero k h same ne = elim h [ ]
  memcmp-sub s1 s2 (suc n) zero h same ne = ground arith
  memcmp-sub s1 s2 (suc n) (suc k) h same ne =
      let (e, t) = Agree-tail s1 s2 k same in
      rw (eq→== (mem s1) (mem s2) e)
        (memcmp-sub (s1 + 1) (s2 + 1) n k (omega arith) t (λ q. ne (ground arith)) ∙ ground arith)
