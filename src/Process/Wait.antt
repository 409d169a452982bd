-- ===== src/Process/Wait.antt =====
-- The scheduling of kernel/proc.c: sleep and wakeup, `exit` and `wait`, `kill`.
use os_labs.Prelude.{
  ℕ, zero, suc, ◌+◌, Bool, true, false, not, ◌&&◌, ◌||◌, Option, none, some, ltb, ◌==◌,
  if◌then◌else◌,
}
use os_labs.Process.{
  nproc, nofile, same_state, sleeping, runnable, running, zombie, Proc, Table, set_proc, each, find,
  freeproc,
}

-- `wakeup(chan)`, called by the process `me` (0: by no process).
unfoldable pub wakeup : (me chan : ℕ) → Table → Table
wakeup me chan t = record t {
  proc =
      each
        (λ i p.
          if suc i == me
          then p
          else if same_state p.state sleeping && p.chan == chan
          then record p { state = runnable }
          else p)
        nproc 0 t.proc;
}

-- The body of the loop of `reparent(p)`, called by the process `me`.
unfoldable pub reparent_step : (me p i : ℕ) → Table → Table
reparent_step me p i t =
    if (t.proc i).parent == p
    then wakeup me t.initproc (set_proc i (record (t.proc i) { parent = t.initproc }) t)
    else t

unfoldable pub reparent_loop : (me p : ℕ) → (left i : ℕ) → Table → Table
reparent_loop me p zero i t = t
reparent_loop me p (suc left) i t = reparent_loop me p left (i + 1) (reparent_step me p i t)

unfoldable pub reparent : (me p : ℕ) → Table → Table
reparent me p t = reparent_loop me p nproc 0 t

-- `exit` closes `open_files`, and puts its directory.
unfoldable pub close_all : (me : ℕ) → Table → Table
close_all me t =
    let p = t.proc me in
    set_proc me (record p { ofile = λ fd. if ltb fd nofile then 0 else p.ofile fd; cwd = 0 }) t

-- The process gives its children away and wakes its parent.
unfoldable pub leave_family : (me : ℕ) → Table → Table
leave_family me t = let t = reparent (suc me) (suc me) t in wakeup (suc me) (t.proc me).parent t

unfoldable pub become_zombie : (me status : ℕ) → Table → Table
become_zombie me status t = set_proc me (record (t.proc me) { xstate = status; state = zombie }) t

-- `exit(status)` by the process in slot `me`, up to its call of `sched`. `none` is the panic
-- "init exiting".
unfoldable pub exit : (me status : ℕ) → Table → Option Table
exit me status t =
    if suc me == t.initproc
    then none
    else some (become_zombie me status (leave_family me (close_all me t)))

-- How a round of `wait` ends.
pub data Waited : Type 0 where
  reaped : (pid : ℕ) → Waited
  failed : Waited
  waits : Waited

-- The scan of `wait` through the table: `havekids`, and how the call ends if it does. `copied` is
-- whether `copyout` succeeds, or is not called.
unfoldable pub wait_loop :
    (p : ℕ) → (copied havekids : Bool) → (left i : ℕ) → Table → Bool × Option (Waited × Table)
wait_loop p copied havekids zero i t = (havekids, none)
wait_loop p copied havekids (suc left) i t =
    let child : Bool = (t.proc i).parent == p in
    let rest = wait_loop p copied (havekids || child) left (i + 1) t in
    if child && same_state (t.proc i).state zombie
    then (if copied
        then (true, some (reaped (t.proc i).pid, set_proc i (freeproc (t.proc i)) t))
        else (true, some (failed, t)))
    else rest

-- `sleep(chan, lk)` of the process in slot `me`, up to its call of `sched`.
unfoldable pub sleep : (me chan : ℕ) → Table → Table
sleep me chan t = set_proc me (record (t.proc me) { chan = chan; state = sleeping }) t

-- The rest of `sleep`, when the process runs again.
unfoldable pub awake : (me : ℕ) → Table → Table
awake me t = set_proc me (record (t.proc me) { chan = 0 }) t

-- The end of a round of `wait`.
unfoldable pub wait_end : (me : ℕ) → Bool × Option (Waited × Table) → Table → Waited × Table
wait_end me (havekids, some r) t = r
wait_end me (havekids, none) t =
    if not havekids || (t.proc me).killed then (failed, t) else (waits, sleep me (suc me) t)

-- One round of `wait` by the process in slot `me`: it returns, or goes to sleep on itself and scans
-- again when it is woken.
unfoldable pub wait : (me : ℕ) → (copied : Bool) → Table → Waited × Table
wait me copied t = wait_end me (wait_loop (suc me) copied false nproc 0 t) t

-- The loop of `scheduler` at slot `i`: whether it switches to the process there.
unfoldable pub schedule : (i : ℕ) → Table → Bool × Table
schedule i t =
    if same_state (t.proc i).state runnable
    then (true, set_proc i (record (t.proc i) { state = running }) t)
    else (false, t)

-- The checks of `sched`: false is one of its panics.
unfoldable pub sched_ok : (holds_lock : Bool) → (noff : ℕ) → (interruptible : Bool) → Proc → Bool
sched_ok holds_lock noff interruptible p =
    holds_lock && noff == 1 && not (same_state p.state running) && not interruptible

-- `yield` of the process in slot `me`, up to its call of `sched`.
unfoldable pub yield : (me : ℕ) → Table → Table
yield me t = set_proc me (record (t.proc me) { state = runnable }) t

-- `kill(pid)`: 0 is `true`, -1 is `false`.
unfoldable pub kill : (pid : ℕ) → Table → Bool × Table
kill pid t = elim (find (λ p. p.pid == pid) nproc 0 t.proc) [
  | none ↦ (false, t)
  | some i ↦
      let p : Proc = record (t.proc i) { killed = true } in
      (
        true,
        set_proc i (if same_state p.state sleeping then record p { state = runnable } else p) t,
      )
]

unfoldable pub setkilled : (i : ℕ) → Table → Table
setkilled i t = set_proc i (record (t.proc i) { killed = true }) t
