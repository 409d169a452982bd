-- ===== src/Process/Steps.antt =====
-- Every operation on the process table, as a step of the process that runs it, keeps the pids
-- distinct.
use os_labs.Prelude.{
  ℕ, suc, ◌+◌, ◌%◌, ◌^◌, ◌<◌, ◌≡◌, refl, inl, inr, ◌∙◌, sym, ap, Bool, true, false, Option, none,
  some, update_self, arith,
}
use mathlib.Core.Path.{subst}
use os_labs.Process.{
  Proc, Table, unused, runnable, running, same_state, nproc, nofile, set_proc, allocproc, freeproc,
  Trapframe,
}
use os_labs.Process.Fork.{fork, fork_child, copy_frame, copy_files, cut}
use os_labs.Process.Pids.{
  is_unused, IsValid, Keeps-IsValid, set_proc-Keeps, freed-IsValid, given-IsValid,
}
use os_labs.Process.Alloc.{bump, AllocEnds, allocproc-AllocEnds}
use os_labs.Process.Reap.{WaitEnds, wait-WaitEnds}
use os_labs.Process.Wait.{
  wakeup, exit, Waited, reaped, failed, waits, wait, sleep, awake, schedule, yield, kill, setkilled,
}
use os_labs.Process.Keeps.{
  runs_busy, exit-Keeps, sleep-Keeps, kill-Keeps, schedule-Keeps, wakeup-Keeps,
}

-- The process in slot `me` runs.
abbrev pub Runs : (me : ℕ) → Table → Type 0
Runs me t = (me < nproc) × ((t.proc me).state ≡ running)

-- A fork is taken with a pid to spare: `nextpid` is an `int`.
pub data Step (t : Table) : Table → Type 0 where
  forks :
      (me : ℕ) (page : Option Trapframe) (pagetable : ℕ) (copied : Bool)
      → Runs me t
      → t.nextpid + 1 < 2 ^ 31
      → Step t (fork me page pagetable copied t).1
  exits : (me status : ℕ) {u : Table} → Runs me t → exit me status t ≡ some u → Step t u
  waits_for : (me : ℕ) (copied : Bool) → Runs me t → Step t (wait me copied t).1
  sleeps : (me chan : ℕ) → Runs me t → Step t (sleep me chan t)
  awakes : (me : ℕ) → Step t (awake me t)
  wakes : (me chan : ℕ) → Step t (wakeup me chan t)
  yields : (me : ℕ) → Runs me t → Step t (yield me t)
  schedules : (i : ℕ) → Step t (schedule i t).1
  kills : (pid : ℕ) → Step t (kill pid t).1
  sets_killed : (i : ℕ) → Step t (setkilled i t)

pub data Reach (s : Table) : Table → Type 0 where
  here : Reach s s
  next : {t u : Table} → Reach s t → Step t u → Reach s u

-- `wait` leaves the table, puts the caller to sleep or frees one slot.
wait-IsValid :
    (me : ℕ) (copied : Bool) (t : Table) (r : Waited × Table)
    → WaitEnds me copied t r
    → is_unused (t.proc me) ≡ false
    → IsValid t
    → IsValid r.1
unfolding freeproc
wait-IsValid me copied t (reaped pid, u) (d, _, _, e) busy v =
    rw e (freed-IsValid d.k (freeproc (t.proc d.k)) t refl refl v)
wait-IsValid me copied t (failed, u) (e, _) busy v = rw e v
wait-IsValid me copied t (waits, u) (_, _, _, e) busy v =
    rw e (Keeps-IsValid (sleep-Keeps me (suc me) t busy) v)

bump-IsValid : (t : Table) → t.nextpid + 1 < 2 ^ 31 → IsValid t → IsValid (bump t)
bump-IsValid t h v = record {
  next = omega arith;
  below = λ i. omega (arith, v.below i);
  idle = v.idle;
  distinct = v.distinct;
}

bump_eq : (t : Table) → t.nextpid + 1 < 2 ^ 31 → bump t ≡ record t { nextpid = t.nextpid + 1 }
bump_eq t h = λ i. record t {
  nextpid = (let e : (t.nextpid + 1) % 2 ^ 32 ≡ t.nextpid + 1 = omega arith in e) i;
}

given_slot-IsValid :
    (t : Table) (i : ℕ) (p : Proc)
    → p.pid ≡ t.nextpid
    → is_unused p ≡ false
    → t.nextpid + 1 < 2 ^ 31
    → IsValid t
    → IsValid (set_proc i p (bump t))
given_slot-IsValid t i p pid busy h v =
    subst (λ b. IsValid (set_proc i p b)) (sym (bump_eq t h)) (given-IsValid i p t pid busy v)

child-IsValid :
    (me i : ℕ) (copied : Bool) (u : Table)
    → is_unused (u.proc i) ≡ false
    → IsValid u
    → IsValid (fork_child me copied (some i, u)).1
unfolding fork_child freeproc
child-IsValid me i true u busy v =
    Keeps-IsValid
      (set_proc-Keeps i
        (record (u.proc i) {
          sz = (u.proc me).sz;
          trapframe = copy_frame (u.proc me).trapframe (u.proc i).trapframe;
          ofile = copy_files nofile 0 (u.proc me).ofile (u.proc i).ofile;
          cwd = (u.proc me).cwd;
          name = cut 15 (u.proc me).name;
          parent = suc me;
          state = runnable;
        })
        u refl (sym busy))
      v
child-IsValid me i false u busy v = freed-IsValid i (freeproc (u.proc i)) u refl refl v

fork-IsValid :
    (me : ℕ) (page : Option Trapframe) (pagetable : ℕ) (copied : Bool) (t : Table)
    (r : Option ℕ × Table)
    → AllocEnds page pagetable t r
    → t.nextpid + 1 < 2 ^ 31
    → IsValid t
    → IsValid (fork_child me copied r).1
unfolding fork_child freeproc
fork-IsValid me page pagetable copied t (none, u) (inl (e, _)) h v = rw e v
fork-IsValid me page pagetable copied t (none, u) (inr (i, p, _, _, _, gone, e)) h v = rw e (
    freed-IsValid i p (bump t) gone.pid (ap (λ s. same_state s unused) gone.state)
      (bump-IsValid t h v))
fork-IsValid me page pagetable copied t (some i, u) (p, g, e) h v =
    let busy : is_unused p ≡ false = ap (λ s. same_state s unused) g.state in
    let at : u.proc i ≡ p = ap (λ u. u.proc i) e ∙ update_self t.proc i p in
    child-IsValid me i copied u (ap is_unused at ∙ busy)
      (rw e (given_slot-IsValid t i p g.pid busy h v))

-- Every step keeps the pids distinct.
pub Step-IsValid : {t u : Table} → Step t u → IsValid t → IsValid u
unfolding fork yield awake setkilled
Step-IsValid {t} (forks me page pagetable copied runs h) v =
    fork-IsValid me page pagetable copied t (allocproc page pagetable t)
      (allocproc-AllocEnds page pagetable t) h v
Step-IsValid {t} (exits me status runs e) v = Keeps-IsValid (exit-Keeps me status t runs.1 e) v
Step-IsValid {t} (waits_for me copied runs) v =
    wait-IsValid me copied t (wait me copied t) (wait-WaitEnds me copied t)
      (runs_busy (t.proc me) runs.1) v
Step-IsValid {t} (sleeps me chan runs) v =
    Keeps-IsValid (sleep-Keeps me chan t (runs_busy (t.proc me) runs.1)) v
Step-IsValid {t} (awakes me) v =
    Keeps-IsValid (set_proc-Keeps me (record (t.proc me) { chan = 0 }) t refl refl) v
Step-IsValid {t} (wakes me chan) v = Keeps-IsValid (wakeup-Keeps me chan t) v
Step-IsValid {t} (yields me runs) v =
    Keeps-IsValid
      (set_proc-Keeps me (record (t.proc me) { state = runnable }) t refl
        (sym (runs_busy (t.proc me) runs.1)))
      v
Step-IsValid {t} (schedules i) v = Keeps-IsValid (schedule-Keeps i t) v
Step-IsValid {t} (kills pid) v = Keeps-IsValid (kill-Keeps pid t) v
Step-IsValid {t} (sets_killed i) v =
    Keeps-IsValid (set_proc-Keeps i (record (t.proc i) { killed = true }) t refl refl) v

-- Whatever the processes do, as long as pids are left: no two of them have one pid, all pids are
-- below `nextpid`, and a slot has no pid exactly when it is unused.
pub Reach-IsValid : {s t : Table} → IsValid s → Reach s t → IsValid t
Reach-IsValid v here = v
Reach-IsValid v (next r st) = Step-IsValid st (Reach-IsValid v r)
