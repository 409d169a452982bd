-- ===== src/Process.antt =====
-- kernel/proc.c: the process table. A function here is what one process does to the table between
-- taking and releasing the locks that guard it; what the allocators and the page tables answer is
-- an argument. A pointer into `proc[]` is its index plus one, and 0 is null; so is the channel
-- that is a process.
pub mod Fork
pub mod Wait
pub mod Loops
pub mod Pids
pub mod Alloc
pub mod Reap
pub mod Keeps
pub mod Steps
pub mod Family
pub mod Exit
pub mod Kill
mod Tests
use os_labs.Prelude.{
  ℕ, zero, suc, ◌+◌, ◌-◌, ◌*◌, ◌%◌, ◌^◌, Bool, true, false, not, ◌&&◌, ◌||◌, Option, none, some,
  List, [], ◌∷◌, ltb, leb, ◌==◌, if◌then◌else◌, update,
}

-- NPROC and NOFILE of kernel/param.h.
abbrev pub nproc : ℕ
nproc = 64

abbrev pub nofile : ℕ
nofile = 16

-- `enum procstate`
pub data ProcState : Type 0 where
  unused used sleeping runnable running zombie : ProcState

-- `state == UNUSED` and so on.
abbrev pub same_state : ProcState → ProcState → Bool
same_state unused unused = true
same_state used used = true
same_state sleeping sleeping = true
same_state runnable runnable = true
same_state running running = true
same_state zombie zombie = true
same_state _ _ = false

-- The words of `struct trapframe` that are set one by one, and all others.
pub record Trapframe : Type 0 where
  pub epc : ℕ
  pub sp : ℕ
  pub a0 : ℕ
  pub others : ℕ → ℕ

-- `struct context`: all zero but for a return to `forkret` and a stack pointer, or as `swtch` saved
-- it.
pub data Context : Type 0 where
  at_forkret : (sp : ℕ) → Context
  saved : (registers : ℕ → ℕ) → Context

-- `struct proc`
pub record Proc : Type 0 where
  pub state : ProcState
  pub chan : ℕ
  pub killed : Bool
  pub xstate : ℕ
  pub pid : ℕ
  pub parent : ℕ
  pub kstack : ℕ
  pub sz : ℕ
  pub pagetable : ℕ
  pub trapframe : Option Trapframe
  pub context : Context
  pub ofile : ℕ → ℕ
  pub cwd : ℕ
  pub name : List ℕ

-- `proc[]` with `nextpid` and `initproc`.
pub record Table : Type 0 where
  pub proc : ℕ → Proc
  pub nextpid : ℕ
  pub initproc : ℕ

abbrev pub set_proc : ℕ → Proc → Table → Table
set_proc i p t = record t { proc = update t.proc i p }

-- `for(p = proc; p < &proc[NPROC]; p++)`, with a body that changes `p` alone.
unfoldable pub each : (body : ℕ → Proc → Proc) → (left i : ℕ) → (ℕ → Proc) → ℕ → Proc
each body zero i proc = proc
each body (suc left) i proc = each body left (i + 1) (update proc i (body i (proc i)))

-- The first slot that passes a test, as a loop that ends at it.
unfoldable pub find : (test : Proc → Bool) → (left i : ℕ) → (ℕ → Proc) → Option ℕ
find test zero i proc = none
find test (suc left) i proc =
    let rest = find test left (i + 1) proc in if test (proc i) then some i else rest

-- KSTACK and PGSIZE: each kernel stack is followed by a guard page, below the trampoline.
abbrev pub page_size : ℕ
page_size = 4096

abbrev pub kstack_of : ℕ → ℕ
kstack_of i = 2 ^ 38 - page_size - (i + 1) * 2 * page_size

unfoldable pub procinit : Table → Table
procinit t = record t {
  proc = each (λ i p. record p { state = unused; kstack = kstack_of i }) nproc 0 t.proc;
}

-- The `int` `nextpid` wraps.
unfoldable pub allocpid : Table → ℕ × Table
allocpid t = (t.nextpid, record t { nextpid = (t.nextpid + 1) % 2 ^ 32 })

unfoldable pub freeproc : Proc → Proc
freeproc p = record p {
  trapframe = none;
  pagetable = 0;
  sz = 0;
  pid = 0;
  parent = 0;
  name = [];
  chan = 0;
  killed = false;
  xstate = 0;
  state = unused;
}

-- What `allocproc` does at `found`, in slot `i`.
unfoldable pub alloc_slot :
    (i : ℕ) → (page : Option Trapframe) → (pagetable : ℕ) → Table → Option ℕ × Table
unfolding allocpid
alloc_slot i page pagetable t =
    let (pid, t) = allocpid t in
    let p : Proc = record (t.proc i) { pid = pid; state = used; trapframe = page } in
    elim page [
      | none ↦ (none, set_proc i (freeproc p) t)
      | some frame ↦
          let p : Proc = record p { pagetable = pagetable } in
          if pagetable == 0
          then (none, set_proc i (freeproc p) t)
          else (some i, set_proc i (record p { context = at_forkret (p.kstack + page_size) }) t)
    ]

-- `allocproc`, given the trapframe page of `kalloc` and the page table of `proc_pagetable` (0 for
-- none): the slot, or `none` for a null pointer.
unfoldable pub allocproc : (page : Option Trapframe) → (pagetable : ℕ) → Table → Option ℕ × Table
allocproc page pagetable t = elim (find (λ p. same_state p.state unused) nproc 0 t.proc) [
  | none ↦ (none, t)
  | some i ↦ alloc_slot i page pagetable t
]
