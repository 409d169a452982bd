-- ===== src/Process/Reap.antt =====
-- What a round of `wait` does.
use os_labs.Prelude.{
  ℕ, zero, suc, ◌+◌, ◌≤◌, ◌<◌, ◌≡◌, refl, ◌≢◌, ◌⊎◌, inl, inr, ◌∙◌, sym, ap, Bool, true, false, ◌&&◌,
  ◌||◌, Option, none, some, ◌==◌, arith, Bool-cases,
}
use native.Mathlib.Decide.{ℕ_discrete}
use os_labs.Process.{Proc, Table, zombie, same_state, nproc, set_proc, freeproc}
use os_labs.Process.Wait.{Waited, reaped, failed, waits, wait_loop, wait_end, wait, sleep}

abbrev pub is_child : (p : ℕ) → Proc → Bool
is_child p q = q.parent == p

abbrev pub is_dead : (p : ℕ) → Proc → Bool
is_dead p q = is_child p q && same_state q.state zombie

-- Slot `k` has a child of `p` that has exited, and is the first such from `i` on.
pub record Dead (p left i : ℕ) (t : Table) : Type 0 where
  pub k : ℕ
  pub low : i ≤ k
  pub high : k < i + left
  pub dead : is_dead p (t.proc k) ≡ true
  pub first : (j : ℕ) → i ≤ j → j < k → is_dead p (t.proc j) ≡ false

abbrev pub NoneDead : (p left i : ℕ) → Table → Type 0
NoneDead p left i t = (j : ℕ) → i ≤ j → j < i + left → is_dead p (t.proc j) ≡ false

any_child : (p left i : ℕ) → Table → Bool
any_child p zero i t = false
any_child p (suc left) i t = is_child p (t.proc i) || any_child p left (i + 1) t

abbrev Scanned :
    (p : ℕ)
    → (copied havekids : Bool) → (left i : ℕ) → Table
    → Bool × Option (Waited × Table)
    → Type 0
Scanned p copied havekids left i t (kids, none) =
    NoneDead p left i t × (kids ≡ (havekids || any_child p left i t))
Scanned p copied havekids left i t (kids, some (reaped pid, u)) =
    (d : Dead p left i t) × (copied ≡ true)
    × (pid ≡ (t.proc d.k).pid)
    × (u ≡ set_proc d.k (freeproc (t.proc d.k)) t)
Scanned p copied havekids left i t (kids, some (failed, u)) =
    Dead p left i t × (copied ≡ false) × (u ≡ t)
Scanned p copied havekids left i t (kids, some (waits, u)) = ⊥

module _ (p : ℕ) (copied : Bool) (t : Table) where
  Dead-suc :
      (left i : ℕ) → is_dead p (t.proc i) ≡ false → Dead p left (i + 1) t → Dead p (suc left) i t
  Dead-suc left i alive d = record {
    k = d.k;
    low = omega (arith, d.low);
    high = omega (arith, d.high);
    dead = d.dead;
    first = λ j h l. elim (ℕ_discrete i j) [
      | yes e ↦ ap (λ s. is_dead p (t.proc s)) (sym e) ∙ alive
      | no ne ↦ d.first j (omega arith) l
    ];
  }

  Scanned-suc :
      (havekids : Bool) (left i : ℕ) (r : Bool × Option (Waited × Table))
      → is_dead p (t.proc i) ≡ false
      → Scanned p copied (havekids || is_child p (t.proc i)) left (i + 1) t r
      → Scanned p copied havekids (suc left) i t r
  unfolding any_child Dead-suc
  Scanned-suc havekids left i (kids, none) e s = (
    λ j h l. elim (ℕ_discrete i j) [
      | yes at ↦ ap (λ s. is_dead p (t.proc s)) (sym at) ∙ e
      | no ne ↦ s.0 j (omega arith) (omega arith)
    ],
    s.1 ∙ ground arith,
  )
  Scanned-suc havekids left i (kids, some (reaped pid, u)) e (d, c, at, to) =
      (Dead-suc left i e d, c, at, to)
  Scanned-suc havekids left i (kids, some (failed, u)) e (d, c, to) = (Dead-suc left i e d, c, to)
  Scanned-suc havekids left i (kids, some (waits, u)) e s = s

  dead_here : (left i : ℕ) → is_dead p (t.proc i) ≡ true → Dead p (suc left) i t
  dead_here left i e = record {
    k = i;
    low = omega arith;
    high = omega arith;
    dead = e;
    first = λ j h l. absurd (omega arith);
  }

  wait_loop-Scanned :
      (havekids : Bool) (left i : ℕ)
      → Scanned p copied havekids left i t (wait_loop p copied havekids left i t)
  unfolding wait_loop any_child dead_here
  wait_loop-Scanned havekids zero i = (λ j h l. absurd (omega arith), ground arith)
  wait_loop-Scanned havekids (suc left) i = elim (Bool-cases (is_dead p (t.proc i))) [
    | inl e ↦ elim (Bool-cases copied) [
      | inl c ↦ rw (e, c) (dead_here left i e, refl, refl, refl)
      | inr c ↦ rw (e, c) (dead_here left i e, refl, refl)
    ]
    | inr e ↦ rw e (
        Scanned-suc havekids left i
          (wait_loop p copied (havekids || is_child p (t.proc i)) left (i + 1) t) e
          (wait_loop-Scanned (havekids || is_child p (t.proc i)) left (i + 1)))
  ]

any_child→ :
    (p left i : ℕ) (t : Table)
    → any_child p left i t ≡ true
    → (k : ℕ) × (i ≤ k) × (k < i + left) × ((t.proc k).parent ≡ p)
unfolding any_child
any_child→ p zero i t h = absurd (cc)
any_child→ p (suc left) i t h = elim (Bool-cases (is_child p (t.proc i))) [
  | inl e ↦ (i, omega arith, omega arith, ground arith)
  | inr e ↦
      let (k, low, high, c) = any_child→ p left (i + 1) t (ground arith) in
      (k, omega arith, omega arith, c)
]

any_child-false :
    (p left i : ℕ) (t : Table)
    → any_child p left i t ≡ false
    → (k : ℕ) → i ≤ k
    → k < i + left
    → (t.proc k).parent ≢ p
unfolding any_child
any_child-false p zero i t h k low high = absurd (omega arith)
any_child-false p (suc left) i t h k low high = elim (ℕ_discrete i k) [
  | yes e ↦ rw (← e) (ground arith)
  | no ne ↦ any_child-false p left (i + 1) t (ground arith) k (omega arith) (omega arith)
]

-- How a round of `wait` by the process in slot `me` may end.
abbrev pub WaitEnds : (me : ℕ) → (copied : Bool) → Table → Waited × Table → Type 0
WaitEnds me copied t (reaped pid, u) =
    (d : Dead (suc me) nproc 0 t) × (copied ≡ true)
    × (pid ≡ (t.proc d.k).pid)
    × (u ≡ set_proc d.k (freeproc (t.proc d.k)) t)
WaitEnds me copied t (failed, u) =
    (u ≡ t)
    × ((Dead (suc me) nproc 0 t × (copied ≡ false))
        ⊎ (NoneDead (suc me) nproc 0 t
            × (((k : ℕ) → k < nproc → (t.proc k).parent ≢ suc me) ⊎ ((t.proc me).killed ≡ true))))
WaitEnds me copied t (waits, u) =
    NoneDead (suc me) nproc 0 t
    × ((k : ℕ) × (k < nproc) × ((t.proc k).parent ≡ suc me))
    × ((t.proc me).killed ≡ false)
    × (u ≡ sleep me (suc me) t)

wait_end-WaitEnds :
    (me : ℕ) (copied : Bool) (t : Table) (r : Bool × Option (Waited × Table))
    → Scanned (suc me) copied false nproc 0 t r
    → WaitEnds me copied t (wait_end me r t)
unfolding wait_end
wait_end-WaitEnds me copied t (kids, some (reaped pid, u)) s = s
wait_end-WaitEnds me copied t (kids, some (failed, u)) (d, c, e) = (e, inl (d, c))
wait_end-WaitEnds me copied t (kids, some (waits, u)) s = absurd s
wait_end-WaitEnds me copied t (false, none) (alive, e) =
    (refl, inr (alive, inl (λ k h. any_child-false (suc me) nproc 0 t (sym e) k (omega arith) h)))
wait_end-WaitEnds me copied t (true, none) (alive, e) = elim (Bool-cases (t.proc me).killed) [
  | inl dead ↦ rw dead (refl, inr (alive, inr dead))
  | inr live ↦
      let (k, low, high, c) = any_child→ (suc me) nproc 0 t (sym e) in
      rw live (alive, (k, high, c), live, refl)
]

-- A round of `wait` reaps the first child in the table that has exited, and frees its slot; if its
-- status cannot be copied out it fails and leaves the table. With no such child it fails if there is
-- no child at all or the caller is killed, leaving the table, and otherwise the caller goes to sleep
-- on itself.
pub wait-WaitEnds : (me : ℕ) (copied : Bool) (t : Table) → WaitEnds me copied t (wait me copied t)
unfolding wait
wait-WaitEnds me copied t =
    wait_end-WaitEnds me copied t (wait_loop (suc me) copied false nproc 0 t)
      (wait_loop-Scanned (suc me) copied t false nproc 0)
