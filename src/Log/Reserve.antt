-- ===== src/Log/Reserve.antt =====
-- The space that `begin_op` reserves, and what every reachable state of the log satisfies.
use os_labs.Prelude.{
  ℕ, zero, suc, ◌+◌, ◌-◌, ◌*◌, ◌≤◌, ◌<◌, ◌≡◌, refl, true, some, List, [], ◌∷◌, arith, length, set,
  get_elem?,
}
use os_labs.Log.{max_op_blocks, log_size}
use os_labs.Log.System.{System, remove}
use os_labs.Log.WriteLog.{IsOpen}

-- The blocks that the active calls may still write.
abbrev pub unused : List ℕ → ℕ
unused [] = 0
unused (u ∷ us) = max_op_blocks - u + unused us

-- The log invariant: the space left is enough for all that the active calls may still write, no
-- block is logged twice, and a commit has the log for itself. `larger` is what the reservation
-- takes for granted of the size that mkfs gives to the log.
pub record Inv (s : System) : Type 0 where
  pub larger : log_size < s.log.size
  pub counted : s.log.outstanding ≡ length s.used
  pub bounded : s.log.outstanding ≤ 3
  pub reserved : s.log.n + unused s.used ≤ log_size
  pub alone : s.log.committing ≡ true → s.used ≡ []
  pub opened : IsOpen s.log s.cache
  pub distinct : (t u : ℕ) → t < s.log.n → u < s.log.n → s.log.block t ≡ s.log.block u → t ≡ u
  pub settled : s.cache.past ≡ []

pub unused-set :
    (us : List ℕ) (i u : ℕ)
    → get_elem? us i ≡ some u
    → u < max_op_blocks
    → unused (set us i (u + 1)) + 1 ≡ unused us
unused-set [] i u e h = absurd (ground arith)
unused-set (x ∷ us) zero u e h = ground arith
unused-set (x ∷ us) (suc i) u e h = omega (arith, unused-set us i u e h)

pub length-set' : (us : List ℕ) (i u : ℕ) → length (set us i u) ≡ length us
length-set' [] i u = refl
length-set' (x ∷ us) zero u = refl
length-set' (x ∷ us) (suc i) u = omega (arith, length-set' us i u)

pub unused-remove : (us : List ℕ) (i : ℕ) → unused (remove us i) ≤ unused us
unused-remove [] i = omega arith
unused-remove (x ∷ us) zero = omega arith
unused-remove (x ∷ us) (suc i) = omega (arith, unused-remove us i)

pub length-remove :
    (us : List ℕ) (i u : ℕ) → get_elem? us i ≡ some u → length (remove us i) + 1 ≡ length us
length-remove [] i u e = absurd (ground arith)
length-remove (x ∷ us) zero u e = omega arith
length-remove (x ∷ us) (suc i) u e = omega (arith, length-remove us i u e)

pub length-pos : (us : List ℕ) (i u : ℕ) → get_elem? us i ≡ some u → 0 < length us
length-pos [] i u e = absurd (ground arith)
length-pos (x ∷ us) i u e = omega arith

pub unused-pos :
    (us : List ℕ) (i u : ℕ) → get_elem? us i ≡ some u → u < max_op_blocks → 0 < unused us
unused-pos us i u e h = omega (arith, unused-set us i u e h)

pub eq_nil : (us : List ℕ) → length us ≡ 0 → us ≡ []
eq_nil [] e = refl
eq_nil (x ∷ us) e = absurd (omega arith)

pub unused-le : (us : List ℕ) → unused us ≤ max_op_blocks * length us
unused-le [] = omega arith
unused-le (x ∷ us) = omega (arith, unused-le us)
