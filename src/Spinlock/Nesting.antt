-- ===== src/Spinlock/Nesting.antt =====
-- Critical sections of kernel/spinlock.c, one inside another.
use mathlib.Core.Path.{subst}
use os_labs.Prelude.{ℕ, ◌+◌, ◌^◌, ◌<◌, ◌≡◌, inl, inr, refl, sym, ◌∙◌, false, some, some_eq, arith}
use os_labs.Spinlock.{SpinLock, Machine, holding, took, acquire, release}
use os_labs.Spinlock.Pair.{Same, IsValid, Takes, acquire-Takes, section-Same}

-- What a processor does between its `acquire`s and `release`s, while others take and release locks.
pub data Balanced (me : ℕ) : Machine → Machine → Type 0 where
  idle : (s : Machine) → Balanced me s s
  others :
      {s t : Machine} (locks : ℕ → SpinLock)
      → ((lk : ℕ) → holding me lk (record s { locks = locks }) ≡ holding me lk s)
      → Balanced me (record s { locks = locks }) t
      → Balanced me s t
  critical :
      {s u v w t : Machine} (lk : ℕ)
      → s.noff + 1 < 2 ^ 31
      → acquire me lk s ≡ took u
      → Balanced me u v
      → release me lk v ≡ some w
      → Balanced me w t
      → Balanced me s t

Same-trans : (me : ℕ) (s t u : Machine) → Same me s t → Same me t u → Same me s u
Same-trans me s t u p q = record {
  depth = q.depth ∙ p.depth;
  interrupts = q.interrupts ∙ p.interrupts;
  saved = elim p.saved [
    | inl z ↦ inl z
    | inr e ↦ elim q.saved [ inl z ↦ inl (sym p.depth ∙ z) | inr d ↦ inr (d ∙ e) ]
  ];
  holds = λ lk. q.holds lk ∙ p.holds lk;
}

inside-IsValid :
    (me lk : ℕ) (s u : Machine) → s.noff + 1 < 2 ^ 31 → Takes me lk s (took u) → IsValid u
inside-IsValid me lk s u h (depth, off, _, _, _, _) = record {
  small = omega (arith, depth, h);
  off = inr off;
}

-- Between its critical sections, a processor is as before them.
Balanced-Same : (me : ℕ) {s t : Machine} → IsValid s → Balanced me s t → Same me s t
Balanced-Same me valid (idle s) = record {
  depth = refl;
  interrupts = refl;
  saved = inr refl;
  holds = λ lk. refl;
}
Balanced-Same me valid (others locks same b) =
    let rest = Balanced-Same me (record { small = valid.small; off = valid.off }) b in
    record {
      depth = rest.depth;
      interrupts = rest.interrupts;
      saved = rest.saved;
      holds = λ lk. rest.holds lk ∙ same lk;
    }
Balanced-Same me valid (critical {s} {u} {v} {w} {t} lk h took_it b gave_it c) =
    let takes = subst (Takes me lk s) took_it (acquire-Takes me lk s h) in
    let body = Balanced-Same me (inside-IsValid me lk s u h takes) b in
    let (_, (w', e, valid', same)) = section-Same me lk s u v valid h takes body in
    let q : w' ≡ w = some_eq (sym e ∙ gave_it) in
    Same-trans me s w t (subst (Same me s) q same) (Balanced-Same me (subst IsValid q valid') c)

-- A processor that has acquired a lock, with its nesting below 2 ^ 31, and has gone through balanced
-- critical sections since, while others went on with locks of theirs, has its interrupts off and
-- releases the lock without a panic; then its depth, its interrupts and the locks that it holds are
-- as before the `acquire`.
pub critical-Same :
    (me lk : ℕ) (s u v : Machine)
    → IsValid s
    → s.noff + 1 < 2 ^ 31
    → acquire me lk s ≡ took u
    → Balanced me u v
    → (v.enabled ≡ false) × ((w : Machine) × (release me lk v ≡ some w) × IsValid w × Same me s w)
critical-Same me lk s u v valid h took_it b =
    let takes = subst (Takes me lk s) took_it (acquire-Takes me lk s h) in
    section-Same me lk s u v valid h takes (Balanced-Same me (inside-IsValid me lk s u h takes) b)
