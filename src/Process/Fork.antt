-- ===== src/Process/Fork.antt =====
-- `fork`, `userinit` and `growproc` of kernel/proc.c.
use os_labs.Prelude.{
  ℕ, zero, suc, ◌+◌, ◌-◌, ◌%◌, ◌^◌, Bool, true, false, Option, none, some, List, [], ◌∷◌, leb, ◌==◌,
  if◌then◌else◌, update,
}
use os_labs.Process.{
  nofile, Proc, Table, Trapframe, set_proc, freeproc, allocproc, runnable, page_size,
}

-- `safestrcpy` between the two names of 16 bytes.
abbrev pub cut : ℕ → List ℕ → List ℕ
cut zero l = []
cut (suc n) [] = []
cut (suc n) (c ∷ l) = c ∷ cut n l

abbrev pub copy_frame : Option Trapframe → Option Trapframe → Option Trapframe
copy_frame (some tf) (some np) = some (record tf { a0 = 0 })
copy_frame _ np = np

-- The files that `fork` passes to `filedup`, or `exit` to `fileclose`, in their order.
pub open_files : (left i : ℕ) → (ofile : ℕ → ℕ) → List ℕ
open_files zero i ofile = []
open_files (suc left) i ofile =
    let rest = open_files left (i + 1) ofile in if ofile i == 0 then rest else ofile i ∷ rest

-- `for(i = 0; i < NOFILE; i++) if(p->ofile[i]) np->ofile[i] = filedup(p->ofile[i]);`
unfoldable pub copy_files : (left i : ℕ) → (parent child : ℕ → ℕ) → ℕ → ℕ
copy_files zero i parent child = child
copy_files (suc left) i parent child =
    copy_files left (i + 1) parent (if parent i == 0 then child else update child i (parent i))

-- What `fork` does with the answer of `allocproc`.
unfoldable pub fork_child : (me : ℕ) → (copied : Bool) → Option ℕ × Table → Option ℕ × Table
fork_child me copied (none, t) = (none, t)
fork_child me copied (some i, t) =
    let p : Proc = t.proc me in
    let np : Proc = t.proc i in
    if copied
    then (
      some np.pid,
      set_proc i
          (record np {
            sz = p.sz;
            trapframe = copy_frame p.trapframe np.trapframe;
            ofile = copy_files nofile 0 p.ofile np.ofile;
            cwd = p.cwd;
            name = cut 15 p.name;
            parent = suc me;
            state = runnable;
          })
          t,
    )
    else (none, set_proc i (freeproc np) t)

-- `fork` by the process in slot `me`, given whether `uvmcopy` succeeds. The result is the pid of
-- the child, or `none` for -1; the files to duplicate are `open_files` of the parent.
unfoldable pub fork :
    (me : ℕ)
    → (page : Option Trapframe) → (pagetable : ℕ) → (copied : Bool) → Table
    → Option ℕ × Table
fork me page pagetable copied t = fork_child me copied (allocproc page pagetable t)

-- "initcode"
abbrev initcode_name : List ℕ
initcode_name = b'i' ∷ b'n' ∷ b'i' ∷ b't' ∷ b'c' ∷ b'o' ∷ b'd' ∷ b'e' ∷ []

abbrev start_frame : Option Trapframe → Option Trapframe
start_frame none = none
start_frame (some tf) = some (record tf { epc = 0; sp = page_size })

-- `userinit`, given the root directory that `namei` finds. `none`: a null pointer is used.
unfoldable pub userinit : (page : Option Trapframe) → (pagetable root : ℕ) → Table → Option Table
userinit page pagetable root t =
    let (slot, t) = allocproc page pagetable t in
    elim slot [
      | none ↦ none
      | some i ↦ some (
          set_proc i
            (record (t.proc i) {
              sz = page_size;
              trapframe = start_frame (t.proc i).trapframe;
              name = initcode_name;
              cwd = root;
              state = runnable;
            })
            (record t { initproc = suc i }))
    ]

-- `growproc(n)` of the process in slot `me`, for the `int` with the bits `n`. `alloc` and `dealloc`
-- are `uvmalloc` and `uvmdealloc` at its page table; the sum `sz + n` is a `uint64`.
unfoldable pub growproc :
    (alloc dealloc : (oldsz newsz : ℕ) → ℕ) → (me n : ℕ) → Table → Bool × Table
growproc alloc dealloc me n t =
    let p = t.proc me in
    let up = (p.sz + n) % 2 ^ 64 in
    let down = (p.sz + (2 ^ 64 - 2 ^ 32) + n) % 2 ^ 64 in
    if leb (2 ^ 31) n
    then (true, set_proc me (record p { sz = dealloc p.sz down }) t)
    else if n == 0
    then (true, set_proc me p t)
    else if alloc p.sz up == 0
    then (false, t)
    else (true, set_proc me (record p { sz = alloc p.sz up }) t)
