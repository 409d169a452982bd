-- ===== src/Process/Keeps.antt =====
-- The operations that make and free no process: they leave every pid.
use os_labs.Prelude.{
  ℕ, zero, suc, ◌+◌, ◌≡◌, refl, ◌≢◌, inl, inr, ◌∙◌, sym, true, false, ◌&&◌, some, ltb, ◌==◌,
  if◌then◌else◌, arith, Bool-cases, Option-cases,
}
use mathlib.Core.Path.{subst}
use os_labs.Process.{
  Proc, Table, unused, sleeping, runnable, running, zombie, same_state, nproc, nofile, set_proc,
  find,
}
use os_labs.Process.Pids.{is_unused, Keeps, Keeps-trans, set_proc-Keeps, each-Keeps}
use os_labs.Process.Wait.{
  close_all, leave_family, become_zombie, wakeup, reparent_step, reparent_loop, reparent, exit,
  sleep, schedule, kill,
}

pub runs_busy : (p : Proc) → p.state ≡ running → is_unused p ≡ false
runs_busy p e = rw e refl

pub wakeup-Keeps : (me chan : ℕ) (t : Table) → Keeps t (wakeup me chan t)
unfolding wakeup
wakeup-Keeps me chan t =
    each-Keeps
      (λ i p.
        if suc i == me
        then p
        else if same_state p.state sleeping && p.chan == chan
        then record p { state = runnable }
        else p)
      t (λ i p. ground arith) (λ i p. ground arith)

reparent_step-Keeps : (me p i : ℕ) (t : Table) → Keeps t (reparent_step me p i t)
unfolding reparent_step
reparent_step-Keeps me p i t = elim (Bool-cases ((t.proc i).parent == p)) [
  | inl e ↦
      let moved = set_proc i (record (t.proc i) { parent = t.initproc }) t in
      rw e (
        Keeps-trans (set_proc-Keeps i (record (t.proc i) { parent = t.initproc }) t refl refl)
          (wakeup-Keeps me t.initproc moved))
  | inr e ↦ rw e (record { next = refl; pid = λ j. refl; idle = λ j. refl })
]

reparent_loop-Keeps : (me p left i : ℕ) (t : Table) → Keeps t (reparent_loop me p left i t)
unfolding reparent_loop
reparent_loop-Keeps me p zero i t = record { next = refl; pid = λ j. refl; idle = λ j. refl }
reparent_loop-Keeps me p (suc left) i t =
    Keeps-trans (reparent_step-Keeps me p i t)
      (reparent_loop-Keeps me p left (i + 1) (reparent_step me p i t))

reparent-Keeps : (me p : ℕ) (t : Table) → Keeps t (reparent me p t)
unfolding reparent
reparent-Keeps me p t = reparent_loop-Keeps me p nproc 0 t

pub close_all-Keeps : (me : ℕ) (t : Table) → Keeps t (close_all me t)
unfolding close_all
close_all-Keeps me t =
    set_proc-Keeps me
      (record (t.proc me) {
        ofile = λ fd. if ltb fd nofile then 0 else (t.proc me).ofile fd;
        cwd = 0;
      })
      t refl refl

leave_family-Keeps : (me : ℕ) (t : Table) → Keeps t (leave_family me t)
unfolding leave_family
leave_family-Keeps me t =
    let u = reparent (suc me) (suc me) t in
    Keeps-trans (reparent-Keeps (suc me) (suc me) t) (wakeup-Keeps (suc me) (u.proc me).parent u)

become_zombie-Keeps :
    (me status : ℕ) (t : Table)
    → is_unused (t.proc me) ≡ false
    → Keeps t (become_zombie me status t)
unfolding become_zombie
become_zombie-Keeps me status t busy =
    set_proc-Keeps me (record (t.proc me) { xstate = status; state = zombie }) t refl (sym busy)

pub exit-eq :
    (me status : ℕ) (t : Table) {u : Table}
    → exit me status t ≡ some u
    → (suc me ≢ t.initproc) × (become_zombie me status (leave_family me (close_all me t)) ≡ u)
unfolding exit
exit-eq me status t e = ground arith

pub exit-Keeps :
    (me status : ℕ) (t : Table) {u : Table}
    → (t.proc me).state ≡ running
    → exit me status t ≡ some u
    → Keeps t u
exit-Keeps me status t runs e =
    let closed = close_all me t in
    let k = Keeps-trans (close_all-Keeps me t) (leave_family-Keeps me closed) in
    subst (Keeps t) (exit-eq me status t e).1 (
      Keeps-trans k (
        become_zombie-Keeps me status (leave_family me closed)
          (k.idle me ∙ runs_busy (t.proc me) runs)))

pub sleep-Keeps :
    (me chan : ℕ) (t : Table) → is_unused (t.proc me) ≡ false → Keeps t (sleep me chan t)
unfolding sleep
sleep-Keeps me chan t busy =
    set_proc-Keeps me (record (t.proc me) { chan = chan; state = sleeping }) t refl (sym busy)

pub kill-Keeps : (pid : ℕ) (t : Table) → Keeps t (kill pid t).1
unfolding kill
kill-Keeps pid t = elim (Option-cases (find (λ p. p.pid == pid) nproc 0 t.proc)) [
  | inl e ↦ rw (e, kill) (record { next = refl; pid = λ j. refl; idle = λ j. refl })
  | inr (i, e) ↦ elim (Bool-cases (same_state (t.proc i).state sleeping)) [
    | inl s ↦
        rw (e, kill, s)
          (set_proc-Keeps i (record (t.proc i) { killed = true; state = runnable }) t refl
            (sleeping_busy (t.proc i) s))
    | inr s ↦ rw (e, kill, s) (set_proc-Keeps i (record (t.proc i) { killed = true }) t refl refl)
  ]
]
  where
    sleeping_busy :
        (p : Proc) → same_state p.state sleeping ≡ true → false ≡ same_state p.state unused
    sleeping_busy p s = ground arith

pub schedule-Keeps : (i : ℕ) (t : Table) → Keeps t (schedule i t).1
unfolding schedule
schedule-Keeps i t = elim (Bool-cases (same_state (t.proc i).state runnable)) [
  | inl s ↦
      let busy : same_state running unused ≡ is_unused (t.proc i) = ground arith in
      rw s (set_proc-Keeps i (record (t.proc i) { state = running }) t refl busy)
  | inr s ↦ rw s (record { next = refl; pid = λ j. refl; idle = λ j. refl })
]
