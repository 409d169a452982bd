-- ===== src/Spinlock/Pair.antt =====
-- `acquire` and `release` of kernel/spinlock.c, and what lies between them.
use mathlib.Core.Path.{subst}
use os_labs.Prelude.{
  ℕ, suc, ◌+◌, ◌-◌, ◌^◌, ◌<◌, ◌≡◌, ◌≢◌, ◌⊎◌, inl, inr, refl, sym, ap, ◌∙◌, true, false, ◌&&◌,
  Option, none, some, ◌==◌, if◌then◌else◌, update, update_self, update_ne, leb, ◌||◌, Option-cases,
  arith, eq→==, Bool-cases,
}
use os_labs.Spinlock.{
  SpinLock, Machine, holding, push_off, pop_off, Acquired, panics, spins, took, acquire, release,
  free_lock,
}

-- As far as the processor `me` can tell: the same depth, the same interrupts now and after the last
-- `pop_off`, and the same locks held.
pub record Same (me : ℕ) (s t : Machine) : Type 0 where
  pub depth : t.noff ≡ s.noff
  pub interrupts : t.enabled ≡ s.enabled
  pub saved : (s.noff ≡ 0) ⊎ (t.intena ≡ s.intena)
  pub holds : (lk : ℕ) → holding me lk t ≡ holding me lk s

-- Within a critical section the interrupts are off.
pub record IsValid (s : Machine) : Type 0 where
  pub small : s.noff < 2 ^ 31
  pub off : (s.noff ≡ 0) ⊎ (s.enabled ≡ false)

-- What `acquire` does if it takes the lock.
abbrev pub Takes : (me lk : ℕ) → Machine → Acquired → Type 0
Takes me lk s panics = Unit
Takes me lk s spins = Unit
Takes me lk s (took u) =
    (u.noff ≡ s.noff + 1)
    × (u.enabled ≡ false)
    × (u.intena ≡ (if s.noff == 0 then s.enabled else s.intena))
    × (holding me lk s ≡ false)
    × (holding me lk u ≡ true)
    × ((k : ℕ) → lk ≢ k → holding me k u ≡ holding me k s)

-- A lock is written, seen there and elsewhere.
holding-update_self :
    (me lk : ℕ) (l : SpinLock) (s : Machine)
    → holding me lk (record s { locks = update s.locks lk l }) ≡ (l.locked && l.cpu == suc me)
unfolding holding
holding-update_self me lk l s =
    ap (λ (m : SpinLock). m.locked && m.cpu == suc me) (update_self s.locks lk l)

holding-update_ne :
    (me lk k : ℕ) (l : SpinLock) (s : Machine)
    → lk ≢ k
    → holding me k (record s { locks = update s.locks lk l }) ≡ holding me k s
unfolding holding
holding-update_ne me lk k l s ne =
    ap (λ (m : SpinLock). m.locked && m.cpu == suc me) (update_ne s.locks lk k l ne)

pub acquire-Takes :
    (me lk : ℕ) (s : Machine) → s.noff + 1 < 2 ^ 31 → Takes me lk s (acquire me lk s)
unfolding acquire push_off holding
acquire-Takes me lk s h = elim (Bool-cases (holding me lk s)) [
  | inl e ↦ rw e tt
  | inr e ↦ elim (Bool-cases (s.locks lk).locked) [
    | inl l ↦ rw (e, l) tt
    | inr l ↦
        rw (e, l)
          (
            omega (arith, h),
            refl,
            refl,
            e,
            holding-update_self me lk (record { locked = true; cpu = suc me }) s
                ∙ eq→== (suc me) (suc me) refl,
            λ k ne. holding-update_ne me lk k (record { locked = true; cpu = suc me }) s ne,
          )
  ]
]

-- What `release` does with a lock that is held.
abbrev Gives : (me lk : ℕ) → Machine → Option Machine → Type 0
Gives me lk v none = ⊥
Gives me lk v (some w) =
    (w.noff ≡ v.noff - 1)
    × (w.enabled ≡ (v.noff - 1 == 0 && v.intena))
    × (w.intena ≡ v.intena)
    × (holding me lk w ≡ false)
    × ((k : ℕ) → lk ≢ k → holding me k w ≡ holding me k v)

release-Gives :
    (me lk : ℕ) (v : Machine)
    → holding me lk v ≡ true
    → v.enabled ≡ false
    → 0 < v.noff
    → v.noff < 2 ^ 31
    → Gives me lk v (release me lk v)
unfolding release pop_off holding
release-Gives me lk v held off pos small =
    let e : (v.noff == 0 || leb (2 ^ 31) v.noff) ≡ false = ground arith in
    rw (held, off, e)
      (
        refl,
        refl,
        refl,
        holding-update_self me lk free_lock v,
        λ k ne. holding-update_ne me lk k free_lock v ne,
      )

saved_inside :
    (u v : Machine) → 0 < u.noff → (u.noff ≡ 0) ⊎ (v.intena ≡ u.intena) → v.intena ≡ u.intena
saved_inside u v pos (inl none_held) = absurd (omega (arith, pos, none_held))
saved_inside u v pos (inr e) = e

-- The interrupts after the last of a pair.
restored :
    (s u v w : Machine)
    → u.noff ≡ s.noff + 1
    → w.noff ≡ v.noff - 1
    → v.noff ≡ u.noff
    → w.enabled ≡ (v.noff - 1 == 0 && v.intena)
    → w.intena ≡ v.intena
    → u.intena ≡ (if s.noff == 0 then s.enabled else s.intena)
    → v.intena ≡ u.intena
    → (s.noff ≡ 0) ⊎ (s.enabled ≡ false)
    → (w.enabled ≡ s.enabled) × ((s.noff ≡ 0) ⊎ (w.intena ≡ s.intena))
restored s u v w du dw dv on kept saved inside off = elim (Bool-cases (s.noff == 0)) [
  | inl e ↦
      let z : s.noff ≡ 0 = ground (arith, e) in
      let last : (v.noff - 1 == 0) ≡ true = ground (arith, du, dv, z) in
      let from : v.intena ≡ s.enabled = inside ∙ saved ∙ (rw e refl) in (on ∙ (rw last from), inl z)
  | inr e ↦
      let more : (v.noff - 1 == 0) ≡ false = ground (arith, du, dv, e) in
      let from : v.intena ≡ s.intena = inside ∙ saved ∙ (rw e refl) in
      let dark : s.enabled ≡ false = ground (arith, off, e) in
      (on ∙ (rw (more, dark) refl), inr (kept ∙ from))
]

-- A critical section that leaves things as they were can be left, and then all is as before it.
pub section-Same :
    (me lk : ℕ) (s u v : Machine)
    → IsValid s
    → s.noff + 1 < 2 ^ 31
    → Takes me lk s (took u)
    → Same me u v
    → (v.enabled ≡ false) × ((w : Machine) × (release me lk v ≡ some w) × IsValid w × Same me s w)
section-Same me lk s u v valid h (depth, off, saved, before, held, at_others) same =
    let off' : v.enabled ≡ false = same.interrupts ∙ off in
    let g =
      release-Gives me lk v (same.holds lk ∙ held) off' (omega (arith, depth, same.depth))
        (omega (arith, depth, same.depth, h)) in
    elim (Option-cases (release me lk v)) [
      | inl e ↦ absurd (subst (Gives me lk v) e g)
      | inr (w, e) ↦
          let (n, on, kept, gone, rest) = subst (Gives me lk v) e g in
          let n' : w.noff ≡ s.noff = omega (arith, n, same.depth, depth) in
          let holds : (k : ℕ) → holding me k w ≡ holding me k s = λ k. elim (Bool-cases (lk == k)) [
            | inl at ↦
                let q : lk ≡ k = ground (arith, at) in
                subst (λ k. holding me k w ≡ holding me k s) q (gone ∙ sym before)
            | inr at ↦
                let ne : lk ≢ k = λ q. let at' = eq→== lk k q in ground (arith, at, at') in
                rest k ne ∙ same.holds k ∙ at_others k ne
          ] in
          let (now, after) =
            restored s u v w depth n same.depth on kept saved
              (saved_inside u v (omega (arith, depth)) same.saved) valid.off in
          (
            off',
            (
              w,
              e,
              record {
                small = omega (arith, n', valid.small);
                off = elim valid.off [ inl z ↦ inl (n' ∙ z) | inr d ↦ inr (now ∙ d) ];
              },
              record { depth = n'; interrupts = now; saved = after; holds = holds },
            ),
          )
    ]
