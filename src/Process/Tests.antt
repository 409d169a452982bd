-- ===== src/Process/Tests.antt =====
-- A small process table, and the theorems at it.
use os_labs.Prelude.{ℕ, ◌≡◌, refl, true, false, Option, none, some, [], ◌==◌, if◌then◌else◌, arith}
use os_labs.Process.{
  Proc, Table, Trapframe, unused, sleeping, runnable, running, nproc, saved, allocproc, each,
}
use os_labs.Process.Alloc.{AllocEnds, allocproc-AllocEnds}
use os_labs.Process.Exit.{Exited, exit-Exited, Reaps, wait-exit}
use os_labs.Process.Fork.{fork}
use os_labs.Process.Kill.{kill-no_one, kill-zero}
use os_labs.Process.Loops.{First}
use os_labs.Process.Pids.{IsValid, is_unused}
use os_labs.Process.Reap.{WaitEnds, wait-WaitEnds}
use os_labs.Process.Steps.{forks, kills, here, next, Reach-IsValid}
use os_labs.Process.Wait.{
  wakeup, reparent_step, reparent_loop, reparent, close_all, leave_family, become_zombie, exit,
  wait, kill,
}

abbrev idle_proc : Proc
idle_proc = record {
  state = unused;
  chan = 0;
  killed = false;
  xstate = 0;
  pid = 0;
  parent = 0;
  kstack = 0;
  sz = 0;
  pagetable = 0;
  trapframe = none;
  context = saved (λ i. 0);
  ofile = λ fd. 0;
  cwd = 0;
  name = [];
}

-- init in slot 0, a shell in slot 1 that waits for its child, and the child in slot 2, with a child
-- of its own in slot 3.
abbrev family : Table
family = record {
  proc = λ i.
      if i == 0
      then record idle_proc { state = runnable; pid = 1 }
      else if i == 1
      then record idle_proc { state = sleeping; chan = 2; pid = 2; parent = 1 }
      else if i == 2
      then record idle_proc { state = running; pid = 3; parent = 2 }
      else if i == 3
      then record idle_proc { state = runnable; pid = 4; parent = 3 }
      else idle_proc;
  nextpid = 5;
  initproc = 1;
}

abbrev frame : Trapframe
frame = record { epc = 0; sp = 0; a0 = 0; others = λ i. 5 }

family-IsValid : IsValid family
family-IsValid = record {
  next = omega arith;
  below = λ i. ground arith;
  idle = λ i. ground arith;
  distinct = λ i j h k nz e. ground arith;
}

abbrev exit_frees : Option Table → Option ℕ
exit_frees none = none
exit_frees (some t) = some (t.proc 3).parent

runs : exit_frees (exit 2 7 family) ≡ some 1
unfolding exit close_all leave_family become_zombie reparent reparent_loop reparent_step wakeup each
runs = refl

Reach-IsValid_example : IsValid (kill 3 (fork 2 (some frame) 9 true family).1).1
Reach-IsValid_example =
    Reach-IsValid family-IsValid
      (next (next here (forks 2 (some frame) 9 true (omega arith, refl) (omega arith))) (kills 3))

allocproc-AllocEnds_example : AllocEnds (some frame) 9 family (allocproc (some frame) 9 family)
allocproc-AllocEnds_example = allocproc-AllocEnds (some frame) 9 family

wait-WaitEnds_example : WaitEnds 1 true family (wait 1 true family)
wait-WaitEnds_example = wait-WaitEnds 1 true family

after_exit : Table
after_exit = become_zombie 2 7 (leave_family 2 (close_all 2 family))

exited : exit 2 7 family ≡ some after_exit
unfolding exit after_exit
exited = refl

exit-Exited_example : Exited 2 7 family after_exit
exit-Exited_example = exit-Exited 2 7 family (omega arith) exited

wait-exit_example : Reaps 1 after_exit (wait 1 true after_exit)
wait-exit_example = wait-exit 1 2 7 family (omega arith) (omega arith) refl exited

kill-no_one_example : kill 9 family ≡ (false, family)
kill-no_one_example = kill-no_one 9 family (λ i h e. ground arith)

family-First : First is_unused nproc 0 family.proc 4
family-First = record {
  low = omega arith;
  high = omega arith;
  here = refl;
  before = λ j h k. ground arith;
}

kill-zero_example :
    (u w : Table) × (kill 0 family ≡ (true, u))
    × (allocproc (some frame) 10 u ≡ (some 4, w))
    × ((w.proc 4).killed ≡ true)
kill-zero_example = kill-zero 4 family family-IsValid family-First frame 9
