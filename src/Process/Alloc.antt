-- ===== src/Process/Alloc.antt =====
-- What `allocproc` does.
use os_labs.Prelude.{
  ℕ, ◌+◌, ◌%◌, ◌^◌, ◌≤◌, ◌<◌, ◌≡◌, refl, ◌⊎◌, inl, inr, true, false, Option, none, some, ◌==◌,
  arith, ◌≢◌, ==→ne, Bool-cases, Option-cases,
}
use os_labs.Process.{
  Proc, Table, Trapframe, unused, used, nproc, set_proc, alloc_slot, allocproc, freeproc, page_size,
  at_forkret, find,
}
use os_labs.Process.Loops.{First, find-Found}
use os_labs.Process.Pids.{is_unused}

-- A pid is taken.
abbrev pub bump : Table → Table
bump t = record t { nextpid = (t.nextpid + 1) % 2 ^ 32 }

-- The slot that `allocproc` gives out.
pub record Given (page : Option Trapframe) (pagetable : ℕ) (t : Table) (i : ℕ) (p : Proc)
    : Type 0 where
  pub first : First is_unused nproc 0 t.proc i
  pub pid : p.pid ≡ t.nextpid
  pub state : p.state ≡ used
  pub frame : (p.trapframe ≡ page) × (page ≢ none)
  pub pages : (p.pagetable ≡ pagetable) × (pagetable ≢ 0)
  pub inherits : (p.killed ≡ (t.proc i).killed) × (p.parent ≡ (t.proc i).parent)

-- A slot that is given back has no pid, no memory, no parent and no mark of a kill.
pub record Freed (p : Proc) : Type 0 where
  pub state : p.state ≡ unused
  pub pid : p.pid ≡ 0
  pub frame : p.trapframe ≡ none
  pub pages : p.pagetable ≡ 0
  pub parent : p.parent ≡ 0
  pub alive : p.killed ≡ false

freeproc-Freed : (p : Proc) → Freed (freeproc p)
unfolding freeproc
freeproc-Freed p = record {
  state = refl;
  pid = refl;
  frame = refl;
  pages = refl;
  parent = refl;
  alive = refl;
}

abbrev pub AllocEnds :
    (page : Option Trapframe) → (pagetable : ℕ) → Table → Option ℕ × Table → Type 0
AllocEnds page pagetable t (none, u) =
    ((u ≡ t) × ((i : ℕ) → 0 ≤ i → i < nproc → is_unused (t.proc i) ≡ false))
    ⊎ ((i : ℕ) × (p : Proc) × (i < nproc)
        × (is_unused (t.proc i) ≡ true)
        × ((page ≡ none) ⊎ (pagetable ≡ 0))
        × Freed p
        × (u ≡ set_proc i p (bump t)))
AllocEnds page pagetable t (some i, u) =
    (p : Proc) × Given page pagetable t i p × (u ≡ set_proc i p (bump t))

module _ (t : Table) (i : ℕ) (first : First is_unused nproc 0 t.proc i) where
  alloc_slot-AllocEnds :
      (page : Option Trapframe) (pagetable : ℕ)
      → AllocEnds page pagetable t (alloc_slot i page pagetable t)
  unfolding alloc_slot
  alloc_slot-AllocEnds none pagetable =
      let given : Proc = record (t.proc i) { pid = t.nextpid; state = used; trapframe = none } in
      inr (
        i,
        freeproc given,
        omega (arith, first.high),
        first.here,
        inl refl,
        freeproc-Freed given,
        refl,
      )
  alloc_slot-AllocEnds (some frame) pagetable = elim (Bool-cases (pagetable == 0)) [
    | inl e ↦
        let given : Proc = record (t.proc i) {
          pid = t.nextpid;
          state = used;
          trapframe = some frame;
          pagetable = pagetable;
        } in
        rw e (
          inr (
            i,
            freeproc given,
            omega (arith, first.high),
            first.here,
            inr (ground arith),
            freeproc-Freed given,
            refl,
          ))
    | inr e ↦
        let p : Proc = record (t.proc i) {
          pid = t.nextpid;
          state = used;
          trapframe = some frame;
          pagetable = pagetable;
          context = at_forkret ((t.proc i).kstack + page_size);
        } in
        rw e (
          p,
          record {
            first = first;
            pid = refl;
            state = refl;
            frame = (refl, λ h. ground (arith, h));
            pages = (refl, ==→ne pagetable 0 e);
            inherits = (refl, refl);
          },
          refl,
        )
  ]

-- `allocproc` gives the first unused slot, with the next pid, exactly if there is one and both the
-- trapframe and the page table are allocated; it does not touch `killed`. Otherwise it leaves the
-- table, or frees the slot again, which then has no pid, trapframe, page table, parent or mark of a
-- kill, and the pid is lost.
pub allocproc-AllocEnds :
    (page : Option Trapframe) (pagetable : ℕ) (t : Table)
    → AllocEnds page pagetable t (allocproc page pagetable t)
unfolding allocproc
allocproc-AllocEnds page pagetable t =
    let found = find-Found is_unused t.proc nproc 0 in
    elim (Option-cases (find is_unused nproc 0 t.proc)) [
      | inl e ↦ rw (e, allocproc) (inl (refl, rw e at found))
      | inr (i, e) ↦
          let first : First is_unused nproc 0 t.proc i = rw e at found in
          rw (e, allocproc) (alloc_slot-AllocEnds t i first page pagetable)
    ]
