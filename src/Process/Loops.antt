-- ===== src/Process/Loops.antt =====
-- What the two kinds of loop over the process table do.
use os_labs.Prelude.{
  ℕ, zero, suc, ◌+◌, ◌≤◌, ◌<◌, ◌≡◌, refl, inl, inr, ◌∙◌, sym, ap, Bool, true, false, Option, none,
  some, ltb, if◌then◌else◌, update, arith, Bool-cases,
}
use native.Mathlib.Decide.{ℕ_discrete}
use os_labs.Process.{Proc, each, find, nproc}

each_before :
    (body : ℕ → Proc → Proc) (left i : ℕ) (proc : ℕ → Proc) (j : ℕ)
    → j < i
    → each body left i proc j ≡ proc j
unfolding each
each_before body zero i proc j h = refl
each_before body (suc left) i proc j h =
    each_before body left (i + 1) (update proc i (body i (proc i))) j (omega arith) ∙ ground arith

each_at :
    (body : ℕ → Proc → Proc) (left i : ℕ) (proc : ℕ → Proc) (j : ℕ)
    → i ≤ j
    → j < i + left
    → each body left i proc j ≡ body j (proc j)
unfolding each
each_at body zero i proc j h k = absurd (omega arith)
each_at body (suc left) i proc j h k = elim (ℕ_discrete i j) [
  | yes e ↦
      each_before body left (i + 1) (update proc i (body i (proc i))) j (omega arith) ∙ ground arith
  | no ne ↦
      each_at body left (i + 1) (update proc i (body i (proc i))) j (omega arith) (omega arith)
      ∙ ground arith
]

each_after :
    (body : ℕ → Proc → Proc) (left i : ℕ) (proc : ℕ → Proc) (j : ℕ)
    → i + left ≤ j
    → each body left i proc j ≡ proc j
unfolding each
each_after body zero i proc j h = refl
each_after body (suc left) i proc j h =
    each_after body left (i + 1) (update proc i (body i (proc i))) j (omega arith) ∙ ground arith

-- A loop over the table changes each slot by its body, and what is no slot not at all.
pub each_lem :
    (body : ℕ → Proc → Proc) (proc : ℕ → Proc) (j : ℕ)
    → each body nproc 0 proc j ≡ (if ltb j nproc then body j (proc j) else proc j)
each_lem body proc j = elim (Bool-cases (ltb j nproc)) [
  | inl e ↦ rw e (each_at body nproc 0 proc j (omega arith) (ground arith))
  | inr e ↦ rw e (each_after body nproc 0 proc j (ground arith))
]

-- What `find` finds.
pub record First (test : Proc → Bool) (left i : ℕ) (proc : ℕ → Proc) (k : ℕ) : Type 0 where
  pub low : i ≤ k
  pub high : k < i + left
  pub here : test (proc k) ≡ true
  pub before : (j : ℕ) → i ≤ j → j < k → test (proc j) ≡ false

abbrev pub Found : (Proc → Bool) → (left i : ℕ) → (ℕ → Proc) → Option ℕ → Type 0
Found test left i proc none = (j : ℕ) → i ≤ j → j < i + left → test (proc j) ≡ false
Found test left i proc (some k) = First test left i proc k

module _ (test : Proc → Bool) (proc : ℕ → Proc) where
  Found-suc :
      (left i : ℕ) (r : Option ℕ)
      → test (proc i) ≡ false
      → Found test left (i + 1) proc r
      → Found test (suc left) i proc r
  Found-suc left i none e f = λ j h k. elim (ℕ_discrete i j) [
    | yes at ↦ ap (λ s. test (proc s)) (sym at) ∙ e
    | no ne ↦ f j (omega arith) (omega arith)
  ]
  Found-suc left i (some m) e f = record {
    low = omega (arith, f.low);
    high = omega (arith, f.high);
    here = f.here;
    before = λ j h k. elim (ℕ_discrete i j) [
      | yes at ↦ ap (λ s. test (proc s)) (sym at) ∙ e
      | no ne ↦ f.before j (omega arith) k
    ];
  }

  pub find-Found : (left i : ℕ) → Found test left i proc (find test left i proc)
  unfolding find
  find-Found zero i = λ j h k. absurd (omega arith)
  find-Found (suc left) i = elim (Bool-cases (test (proc i))) [
    | inl e ↦ rw e (record {
      low = omega arith;
      high = omega arith;
      here = e;
      before = λ j h k. absurd (omega arith);
    })
    | inr e ↦ rw e (Found-suc left i (find test left (i + 1) proc) e (find-Found left (i + 1)))
  ]
