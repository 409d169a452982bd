-- ===== src/Pipe.antt =====
-- kernel/pipe.c: the ring buffer between two files. A call runs under the pipe's lock up to its
-- return or its next sleep, and is one function here; after a sleep it starts anew with the bytes
-- that it still has to move.
pub mod Queue
pub mod Write
pub mod Read
pub mod Fifo
mod Tests
use os_labs.Prelude.{
  ℕ, zero, suc, ◌+◌, ◌%◌, ◌^◌, Bool, true, false, not, ◌&&◌, ◌||◌, Option, none, some, List, [],
  ◌∷◌, ◌==◌, if◌then◌else◌, update,
}

-- PIPESIZE
abbrev pub pipe_size : ℕ
pipe_size = 512

-- `struct pipe`. `nread` and `nwrite` count bytes, as `uint`s.
pub record Pipe : Type 0 where
  pub bytes : ℕ → ℕ
  pub nread : ℕ
  pub nwrite : ℕ
  pub readopen : Bool
  pub writeopen : Bool

-- What `pipealloc` makes of the page that it is given.
abbrev pub new_pipe : (ℕ → ℕ) → Pipe
new_pipe page = record { bytes = page; nread = 0; nwrite = 0; readopen = true; writeopen = true }

-- User memory, as `copyin` and `copyout` see it a byte at a time: `none` is not mapped.
abbrev pub UserMemory : Type 0
UserMemory = ℕ → Option ℕ

-- `addr + i`, a `uint64`.
abbrev pub user_addr : ℕ → ℕ → ℕ
user_addr addr i = (addr + i) % 2 ^ 64

-- What a process sleeps on, and is woken by.
pub data Channel : Type 0 where
  on_nread on_nwrite : Channel

-- How the run of a call under the lock ends: it returns `i`, returns -1, or sleeps with `i` bytes
-- moved.
pub data Outcome : Type 0 where
  returned : (i : ℕ) → Outcome
  failed : Outcome
  slept : (i : ℕ) → Outcome

-- `pi->data[pi->nwrite++ % PIPESIZE] = ch`
pub put_byte : ℕ → Pipe → Pipe
put_byte ch pi = record pi {
  bytes = update pi.bytes (pi.nwrite % pipe_size) ch;
  nwrite = (pi.nwrite + 1) % 2 ^ 32;
}

-- The loop of `pipewrite`, with `left = n - i`.
pub write_loop :
    UserMemory → (addr : ℕ) → (killed : Bool) → (left i : ℕ) → Pipe → Outcome × List Channel × Pipe
write_loop mem addr killed zero i pi = (returned i, on_nread ∷ [], pi)
write_loop mem addr killed (suc left) i pi =
    if not pi.readopen || killed
    then (failed, [], pi)
    else if pi.nwrite == (pi.nread + pipe_size) % 2 ^ 32
    then (slept i, on_nread ∷ [], pi)
    else elim (mem (user_addr addr i)) [
      | none ↦ (returned i, on_nread ∷ [], pi)
      | some ch ↦ write_loop mem addr killed left (i + 1) (put_byte ch pi)
    ]

-- `pipewrite` of `n` bytes, from its start.
pub pipewrite :
    UserMemory → (addr : ℕ) → (killed : Bool) → (n : ℕ) → Pipe → Outcome × List Channel × Pipe
pipewrite mem addr killed n pi = write_loop mem addr killed n 0 pi

-- `ch = pi->data[pi->nread++ % PIPESIZE]`
pub get_byte : Pipe → ℕ × Pipe
get_byte pi = (pi.bytes (pi.nread % pipe_size), record pi { nread = (pi.nread + 1) % 2 ^ 32 })

-- The loop that copies, with `left = n - i`. A byte that `copyout` refuses has left the pipe.
pub read_loop : (addr : ℕ) → (left i : ℕ) → UserMemory → Pipe → ℕ × UserMemory × Pipe
read_loop addr zero i mem pi = (i, mem, pi)
read_loop addr (suc left) i mem pi =
    if pi.nread == pi.nwrite
    then (i, mem, pi)
    else let (ch, pi) = get_byte pi in
      elim (mem (user_addr addr i)) [
        | none ↦ (i, mem, pi)
        | some _ ↦ read_loop addr left (i + 1) (update mem (user_addr addr i) (some ch)) pi
      ]

-- `piperead` of `n` bytes, from its start or after a sleep.
pub piperead :
    (addr : ℕ)
    → (killed : Bool) → (n : ℕ) → UserMemory
    → Pipe
    → Outcome × List Channel × UserMemory × Pipe
piperead addr killed n mem pi =
    if (pi.nread == pi.nwrite) && pi.writeopen
    then (if killed then (failed, [], mem, pi) else (slept 0, [], mem, pi))
    else let (i, mem, pi) = read_loop addr n 0 mem pi in (returned i, on_nwrite ∷ [], mem, pi)

-- The pipe, the channel that is woken, and whether the page is freed.
pub pipeclose : (writable : Bool) → Pipe → Pipe × Channel × Bool
pipeclose writable pi =
    let pi' : Pipe =
      if writable then record pi { writeopen = false } else record pi { readopen = false } in
    (pi', if writable then on_nread else on_nwrite, not pi'.readopen && not pi'.writeopen)
