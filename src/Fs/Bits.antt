-- ===== src/Fs/Bits.antt =====
-- The bits of the free map of kernel/fs.c.
use native.Mathlib.Nat.{add-div_right, div-div-eq-div-mul, pow-suc}
use os_labs.Prelude.{
  ℕ, zero, suc, ◌+◌, ◌/◌, ◌%◌, ◌^◌, ◌<◌, ◌≡◌, ◌≢◌, refl, sym, ap, ◌∙◌, Bool-cases, inl, inr, ◌==◌,
  update_self, update_ne, update_eq, ==→eq, ==→ne, arith,
}
use os_labs.BlockCache.{Block}
use os_labs.Fs.Blocks.{bit, set_bit}

pow2-pos : (n : ℕ) → 0 < 2 ^ n
pow2-pos zero = omega arith
pow2-pos (suc n) = let ih = pow2-pos n in omega (arith, ih, pow-suc 2 n)

pub bit-set_bit : (bi : ℕ) (d : Block) → bit d bi ≡ 0 → bit (set_bit bi d) bi ≡ 1
bit-set_bit bi d clear =
    let self = update_self d (bi / 32) (d (bi / 32) + 2 ^ (bi % 32)) in
    ap (λ w. w / 2 ^ (bi % 32) % 2) self
    ∙ ap (λ q. q % 2) (add-div_right (d (bi / 32)) (pow2-pos (bi % 32)))
    ∙ omega (arith, clear)

-- Half of a word.
halve : (w n : ℕ) → w / 2 ^ suc n ≡ w / 2 / 2 ^ n
halve w n = ap (λ p. w / p) (pow-suc 2 n ∙ omega arith) ∙ sym (div-div-eq-div-mul w 2 (2 ^ n))

-- A bit that was clear is added to a word: the others stay.
add-bit : (j k w : ℕ) → j ≢ k → w / 2 ^ k % 2 ≡ 0 → (w + 2 ^ k) / 2 ^ j % 2 ≡ w / 2 ^ j % 2
add-bit zero zero w ne clear = absurd (ne refl)
add-bit zero (suc k) w ne clear = omega (arith, pow-suc 2 k)
add-bit (suc j) zero w ne clear =
    ap (λ q. q % 2) (halve (w + 1) j)
    ∙ ap (λ h. h / 2 ^ j % 2) (omega (arith, clear))
    ∙ ap (λ q. q % 2) (sym (halve w j))
add-bit (suc j) (suc k) w ne clear =
    ap (λ q. q % 2) (halve (w + 2 ^ suc k) j)
    ∙ ap (λ h. h / 2 ^ j % 2) (omega (arith, pow-suc 2 k))
    ∙ add-bit j k (w / 2) (λ e. ne (ap suc e)) (ap (λ q. q % 2) (sym (halve w k)) ∙ clear)
    ∙ ap (λ q. q % 2) (sym (halve w j))

pub bit-set_bit_ne :
    (bi bj : ℕ) (d : Block) → bj ≢ bi → bit d bi ≡ 0 → bit (set_bit bi d) bj ≡ bit d bj
bit-set_bit_ne bi bj d ne clear = elim (Bool-cases (bi / 32 == bj / 32)) [
  | inl e ↦
      let same = ==→eq (bi / 32) (bj / 32) e in
      let other : bj % 32 ≢ bi % 32 = λ h. ne (omega (arith, same, h)) in
      ap (λ w. w / 2 ^ (bj % 32) % 2)
        (update_eq d (bi / 32) (bj / 32) (d (bi / 32) + 2 ^ (bi % 32)) same)
      ∙ add-bit (bj % 32) (bi % 32) (d (bi / 32)) other clear
      ∙ ap (λ q. d q / 2 ^ (bj % 32) % 2) same
  | inr e ↦
      ap (λ w. w / 2 ^ (bj % 32) % 2)
        (update_ne d (bi / 32) (bj / 32) (d (bi / 32) + 2 ^ (bi % 32))
          (==→ne (bi / 32) (bj / 32) e))
]
