-- ===== src/Process/Kill.antt =====
-- `kill`.
use os_labs.Prelude.{
  ℕ, suc, ◌<◌, ◌≡◌, refl, ◌≢◌, ◌⊎◌, inl, inr, ◌∙◌, sym, ap, Bool, true, false, Option, none, some,
  some_eq, ◌==◌, if◌then◌else◌, update_self, update_ne, arith, Bool-cases, eq→==, Option-cases,
}
use os_labs.Process.{
  Proc, Table, Trapframe, sleeping, runnable, same_state, nproc, set_proc, find, allocproc,
}
use os_labs.Process.Alloc.{AllocEnds, allocproc-AllocEnds}
use os_labs.Process.Loops.{First, Found, find-Found}
use os_labs.Process.Pids.{IsValid, is_unused}
use os_labs.Process.Wait.{kill}

-- `kill` hits slot `i`.
pub record Hit (i : ℕ) (t u : Table) : Type 0 where
  pub flag : (u.proc i).killed ≡ true
  pub awake : (u.proc i).state ≢ sleeping
  pub state :
      ((u.proc i).state ≡ (t.proc i).state)
      ⊎ (((t.proc i).state ≡ sleeping) × ((u.proc i).state ≡ runnable))
  pub pid : (u.proc i).pid ≡ (t.proc i).pid
  pub others : (j : ℕ) → j ≢ i → u.proc j ≡ t.proc j

-- The change that `kill` makes to a process.
abbrev killed_proc : Proc → Proc
killed_proc p =
    if same_state p.state sleeping
    then record p { killed = true; state = runnable }
    else record p { killed = true }

set_proc-Hit : (i : ℕ) (t : Table) → Hit i t (set_proc i (killed_proc (t.proc i)) t)
set_proc-Hit i t =
    let at = update_self t.proc i (killed_proc (t.proc i)) in
    record {
      flag = ap (λ q. q.killed) at ∙ ground arith;
      awake = λ s. ground (arith, sym (ap (λ q. q.state) at) ∙ s);
      state = elim (Bool-cases (same_state (t.proc i).state sleeping)) [
        | inl s ↦ inr (ground arith, ap (λ q. q.state) at ∙ rw s refl)
        | inr s ↦ inl (ap (λ q. q.state) at ∙ rw s refl)
      ];
      pid = ap (λ q. q.pid) at ∙ ground arith;
      others = λ j ne. update_ne t.proc i j (killed_proc (t.proc i)) (λ e. ne (sym e));
    }

kill_found :
    (pid i : ℕ) (t : Table)
    → find (λ p. p.pid == pid) nproc 0 t.proc ≡ some i
    → kill pid t ≡ (true, set_proc i (killed_proc (t.proc i)) t)
unfolding kill
kill_found pid i t e = rw (e, kill) refl

-- `kill` of a pid that a process has, where the pids are distinct: it returns 0, and this process is
-- marked as killed and does not sleep, or sleeps no more. It keeps its pid, and no other process is
-- touched.
pub kill-Hit :
    (i : ℕ) (t : Table)
    → IsValid t
    → i < nproc
    → (t.proc i).pid ≢ 0
    → (u : Table) × (kill (t.proc i).pid t ≡ (true, u)) × Hit i t u
kill-Hit i t v h nz =
    let pid = (t.proc i).pid in
    let found = find-Found (λ p. p.pid == pid) t.proc nproc 0 in
    elim (Option-cases (find (λ p. p.pid == pid) nproc 0 t.proc)) [
      | inl e ↦ absurd (
          let f : Found (λ p. p.pid == pid) nproc 0 t.proc none = rw e at found in
          let no_one : true ≡ false = sym (eq→== pid pid refl) ∙ f i (omega arith) h in cc)
      | inr (k, e) ↦
          let f : First (λ p. p.pid == pid) nproc 0 t.proc k = rw e at found in
          let same : i ≡ k = v.distinct i k h (omega (arith, f.high)) nz (ground (arith, f.here)) in
          (
            set_proc i (killed_proc (t.proc i)) t,
            kill_found pid i t (e ∙ ap some (sym same)),
            set_proc-Hit i t,
          )
    ]

-- `kill` of a pid that no slot has returns -1, and leaves the table.
pub kill-no_one :
    (pid : ℕ) (t : Table) → ((i : ℕ) → i < nproc → (t.proc i).pid ≢ pid) → kill pid t ≡ (false, t)
unfolding kill
kill-no_one pid t missing =
    let found = find-Found (λ p. p.pid == pid) t.proc nproc 0 in
    elim (Option-cases (find (λ p. p.pid == pid) nproc 0 t.proc)) [
      | inl e ↦ rw (e, kill) refl
      | inr (k, e) ↦ absurd (
          let f : First (λ p. p.pid == pid) nproc 0 t.proc k = rw e at found in
          missing k (omega (arith, f.high)) (ground (arith, f.here)))
    ]

find_unique :
    (test : Proc → Bool) (proc : ℕ → Proc) (i : ℕ)
    → First test nproc 0 proc i
    → find test nproc 0 proc ≡ some i
find_unique test proc i f =
    let found = find-Found test proc nproc 0 in
    elim (Option-cases (find test nproc 0 proc)) [
      | inl e ↦ absurd (
          let g : Found test nproc 0 proc none = rw e at found in
          let no_one : true ≡ false = sym f.here ∙ g i f.low f.high in cc)
      | inr (k, e) ↦
          let g : First test nproc 0 proc k = rw e at found in
          elim (ltb_cases i k) [
            | inl before ↦
                absurd (let no_one : true ≡ false = sym f.here ∙ g.before i f.low before in cc)
            | inr (inl same) ↦ e ∙ ap some (sym same)
            | inr (inr after) ↦
                absurd (let no_one : true ≡ false = sym g.here ∙ f.before k g.low after in cc)
          ]
    ]
  where
    ltb_cases : (a b : ℕ) → (a < b) ⊎ ((a ≡ b) ⊎ (b < a))
    ltb_cases a b = grind arith

module _ (i : ℕ) (t : Table) (v : IsValid t) (first : First is_unused nproc 0 t.proc i) where
  -- An unused slot has pid 0, so `kill(0)` takes the first of them.
  zero-First : First (λ p. p.pid == 0) nproc 0 t.proc i
  zero-First = record {
    low = first.low;
    high = first.high;
    here = sym (v.idle i) ∙ first.here;
    before = λ j h k. sym (v.idle j) ∙ first.before j h k;
  }

  abbrev hit : Table
  hit = set_proc i (killed_proc (t.proc i)) t

  hit_at : hit.proc i ≡ killed_proc (t.proc i)
  hit_at = update_self t.proc i (killed_proc (t.proc i))

  still_unused : (p : Proc) → is_unused p ≡ true → is_unused (killed_proc p) ≡ true
  still_unused p e = ground arith

  hit-First : First is_unused nproc 0 hit.proc i
  hit-First = record {
    low = first.low;
    high = first.high;
    here = ap is_unused hit_at ∙ still_unused (t.proc i) first.here;
    before = λ j h k.
        ap is_unused (update_ne t.proc i j (killed_proc (t.proc i)) (λ e. omega (arith, e)))
        ∙ first.before j h k;
  }

  alloc_killed :
      (frame : Trapframe) (pagetable : ℕ) (r : Option ℕ × Table)
      → AllocEnds (some frame) (suc pagetable) hit r
      → (w : Table) × (r ≡ (some i, w)) × ((w.proc i).killed ≡ true)
  alloc_killed frame pagetable (none, w) (inl (_, all)) =
      absurd (let no_one : true ≡ false = sym hit-First.here ∙ all i first.low first.high in cc)
  alloc_killed frame pagetable (none, w) (inr (_, _, _, _, inl e, _, _)) = absurd (cc)
  alloc_killed frame pagetable (none, w) (inr (_, _, _, _, inr e, _, _)) = absurd (omega arith)
  alloc_killed frame pagetable (some k, w) (p, g, e) =
      let same : k ≡ i = some_eq (
        sym (find_unique is_unused hit.proc k g.first)
        ∙ find_unique is_unused hit.proc i hit-First) in
      let at : w.proc k ≡ p = ap (λ u. u.proc k) e ∙ update_self hit.proc k p in
      let flag : (w.proc k).killed ≡ true =
        ap (λ q. q.killed) at
        ∙ g.inherits.0
        ∙ ap (λ s. (hit.proc s).killed) same
        ∙ ap (λ q. q.killed) hit_at
        ∙ ground arith in
      (w, ap (λ s. (some s, w)) same, ap (λ s. (w.proc s).killed) (sym same) ∙ flag)

  -- As long as a slot is unused, `kill(0)` returns 0, though no process has pid 0; and the next
  -- process that is made is marked as killed from the start.
  pub kill-zero :
      (frame : Trapframe) (pagetable : ℕ)
      → (u w : Table) × (kill 0 t ≡ (true, u))
        × (allocproc (some frame) (suc pagetable) u ≡ (some i, w))
        × ((w.proc i).killed ≡ true)
  kill-zero frame pagetable =
      let (w, e, flag) =
        alloc_killed frame pagetable (allocproc (some frame) (suc pagetable) hit)
          (allocproc-AllocEnds (some frame) (suc pagetable) hit) in
      (hit, w, kill_found 0 i t (find_unique (λ p. p.pid == 0) t.proc i zero-First), e, flag)
