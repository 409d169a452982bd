-- ===== src/Process/Family.antt =====
-- `exit` and the family of the process: its children go to init, and its parent is woken.
use os_labs.Prelude.{
  ℕ, zero, suc, ◌+◌, ◌≤◌, ◌<◌, ◌≡◌, refl, ◌≢◌, ◌⊎◌, inl, inr, ◌∙◌, sym, ap, Bool, true, false, ◌&&◌,
  ltb, ◌==◌, if◌then◌else◌, update_self, update_ne, arith, Bool-cases,
}
use mathlib.Core.Path.{subst, ap₂}
use native.Mathlib.Decide.{ℕ_discrete}
use os_labs.Process.{Proc, Table, sleeping, runnable, same_state, nproc, set_proc}
use os_labs.Process.Loops.{each_lem}
use os_labs.Process.Wait.{wakeup, reparent_step, reparent_loop}

-- The body of the loop of `wakeup`.
abbrev pub stir : (me chan : ℕ) → ℕ → Proc → Proc
stir me chan i p =
    if suc i == me
    then p
    else if same_state p.state sleeping && p.chan == chan
    then record p { state = runnable }
    else p

pub wakeup_at :
    (me chan : ℕ) (t : Table) (j : ℕ)
    → (wakeup me chan t).proc j ≡ (if ltb j nproc then stir me chan j (t.proc j) else t.proc j)
unfolding wakeup
wakeup_at me chan t j = each_lem (stir me chan) t.proc j

pub wakeup-parent :
    (me chan : ℕ) (t : Table) (j : ℕ) → ((wakeup me chan t).proc j).parent ≡ (t.proc j).parent
wakeup-parent me chan t j = rw (wakeup_at me chan t j) (ground arith)

-- A process that is as it was, or was asleep and has been made runnable.
abbrev pub Stirred : Proc → Proc → Type 0
Stirred p q =
    (q.chan ≡ p.chan) × ((q.state ≡ p.state) ⊎ ((p.state ≡ sleeping) × (q.state ≡ runnable)))

abbrev pub Stirs : (j : ℕ) → Table → Table → Type 0
Stirs j t u = Stirred (t.proc j) (u.proc j)

asleep :
    (p : Proc) (chan : ℕ)
    → (same_state p.state sleeping && p.chan == chan) ≡ true
    → p.state ≡ sleeping
asleep p chan h = ground (arith, h)

pub wakeup-Stirs : (me chan : ℕ) (t : Table) (j : ℕ) → Stirs j t (wakeup me chan t)
wakeup-Stirs me chan t j = rw (wakeup_at me chan t j) (stirred (ltb j nproc) (t.proc j))
  where
    stirred : (b : Bool) (p : Proc) → Stirred p (if b then stir me chan j p else p)
    stirred false p = (refl, inl refl)
    stirred true p = elim (Bool-cases (suc j == me)) [
      | inl e ↦ rw e (refl, inl refl)
      | inr e ↦ elim (Bool-cases (same_state p.state sleeping && p.chan == chan)) [
        | inl s ↦ rw (e, s) (refl, inr (asleep p chan s, refl))
        | inr s ↦ rw (e, s) (refl, inl refl)
      ]
    ]

pub Stirs-trans : (j : ℕ) (s t u : Table) → Stirs j s t → Stirs j t u → Stirs j s u
Stirs-trans j s t u (c, inl h) (c', inl k) = (c' ∙ c, inl (k ∙ h))
Stirs-trans j s t u (c, inl h) (c', inr (slept, k)) = (c' ∙ c, inr (sym h ∙ slept, k))
Stirs-trans j s t u (c, inr (slept, h)) (c', inl k) = (c' ∙ c, inr (slept, k ∙ h))
Stirs-trans j s t u (c, inr (slept, h)) (c', inr (_, k)) = (c' ∙ c, inr (slept, k))

-- The new parent of a slot.
abbrev pub parent_after : (p init parent : ℕ) → ℕ
parent_after p init parent = if parent == p then init else parent

-- What a step of `reparent` does to any slot.
record Moved (p i : ℕ) (t u : Table) : Type 0 where
  init : u.initproc ≡ t.initproc
  here : (u.proc i).parent ≡ parent_after p t.initproc (t.proc i).parent
  others : (j : ℕ) → i ≢ j → (u.proc j).parent ≡ (t.proc j).parent
  stirs : (j : ℕ) → Stirs j t u

reparent_step-Moved : (me p i : ℕ) (t : Table) → Moved p i t (reparent_step me p i t)
unfolding reparent_step wakeup
reparent_step-Moved me p i t = elim (Bool-cases ((t.proc i).parent == p)) [
  | inl e ↦
      let moved = set_proc i (record (t.proc i) { parent = t.initproc }) t in
      rw e (record {
        init = refl;
        here =
            wakeup-parent me t.initproc moved i
            ∙ ap (λ q. q.parent) (update_self t.proc i (record (t.proc i) { parent = t.initproc }))
            ∙ (rw e refl);
        others = λ j ne.
            wakeup-parent me t.initproc moved j
            ∙ ap (λ q. q.parent)
                (update_ne t.proc i j (record (t.proc i) { parent = t.initproc }) ne);
        stirs = λ j.
            Stirs-trans j t moved (wakeup me t.initproc moved)
              (elim (Bool-cases (i == j)) [
                | inl at ↦ (ground arith, inl (ground arith))
                | inr ne ↦ (ground arith, inl (ground arith))
              ])
              (wakeup-Stirs me t.initproc moved j);
      })
  | inr e ↦ rw e (record {
    init = refl;
    here = rw e refl;
    others = λ j ne. refl;
    stirs = λ j. (refl, inl refl);
  })
]

-- What the loop has done to a slot: nothing yet, or all.
pub record Reparented (p left i : ℕ) (t u : Table) : Type 0 where
  pub init : u.initproc ≡ t.initproc
  pub inside :
      (j : ℕ)
      → i ≤ j
      → j < i + left
      → (u.proc j).parent ≡ parent_after p t.initproc (t.proc j).parent
  pub outside : (j : ℕ) → (j < i) ⊎ (i + left ≤ j) → (u.proc j).parent ≡ (t.proc j).parent
  pub stirs : (j : ℕ) → Stirs j t u

pub reparent_loop-Reparented :
    (me p left i : ℕ) (t : Table) → Reparented p left i t (reparent_loop me p left i t)
unfolding reparent_loop
reparent_loop-Reparented me p zero i t = record {
  init = refl;
  inside = λ j h k. absurd (omega arith);
  outside = λ j h. refl;
  stirs = λ j. (refl, inl refl);
}
reparent_loop-Reparented me p (suc left) i t =
    let s = reparent_step me p i t in
    let m = reparent_step-Moved me p i t in
    let r = reparent_loop-Reparented me p left (i + 1) s in
    record {
      init = r.init ∙ m.init;
      inside = λ j h k. elim (ℕ_discrete i j) [
        | yes e ↦
            r.outside j (inl (omega arith))
            ∙ subst (λ j. (s.proc j).parent ≡ parent_after p t.initproc (t.proc j).parent) e m.here
        | no ne ↦
            r.inside j (omega arith) (omega arith)
            ∙ ap₂ (λ init parent. parent_after p init parent) m.init (m.others j ne)
      ];
      outside = λ j h. r.outside j (omega arith) ∙ m.others j (omega arith);
      stirs = λ j. Stirs-trans j t s (reparent_loop me p left (i + 1) s) (m.stirs j) (r.stirs j);
    }
