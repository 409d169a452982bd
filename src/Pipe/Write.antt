-- ===== src/Pipe/Write.antt =====
-- `pipewrite`: which bytes it puts into the pipe, and how it ends.
use mathlib.Core.List.{append-nil, append_assoc}
use os_labs.Prelude.{
  ℕ, zero, suc, ◌+◌, ◌%◌, ◌^◌, ◌<◌, ◌≡◌, refl, ◌⊎◌, inl, inr, ◌∙◌, sym, ap, Bool, true, false, not,
  ◌||◌, none, some, Option-cases, Bool-cases, List, [], ◌∷◌, ◌++◌, arith, length, ◌==◌,
}
use os_labs.Pipe.{
  Pipe, pipe_size, UserMemory, user_addr, Channel, on_nread, Outcome, returned, failed, slept,
  put_byte, write_loop, pipewrite,
}
use os_labs.Pipe.Queue.{count, contents, IsValid, length-contents, put_byte_lem}

-- User memory holds the bytes `bs` from `addr + i` on.
abbrev pub HoldsAt : UserMemory → (addr i : ℕ) → List ℕ → Type 0
HoldsAt mem addr i [] = Unit
HoldsAt mem addr i (b ∷ bs) = (mem (user_addr addr i) ≡ some b) × HoldsAt mem addr (i + 1) bs

-- How a write that has put `bs` into the pipe may end.
abbrev pub Ended :
    UserMemory
    → (addr : ℕ) → (killed : Bool) → (left i : ℕ) → (before after : Pipe) → List ℕ
    → Outcome
    → Type 0
Ended mem addr killed left i before after bs (returned j) =
    (j ≡ i + length bs) × ((length bs ≡ left) ⊎ (mem (user_addr addr j) ≡ none))
Ended mem addr killed left i before after bs (slept j) =
    (j ≡ i + length bs) × (length bs < left) × (length (contents after) ≡ pipe_size)
Ended mem addr killed left i before after bs failed =
    (bs ≡ []) × ((before.readopen ≡ false) ⊎ (killed ≡ true))

pub record Wrote (mem : UserMemory) (addr : ℕ) (killed : Bool) (left i : ℕ) (pi : Pipe)
    (r : Outcome × List Channel × Pipe) : Type 0 where
  pub bytes : List ℕ
  pub taken : HoldsAt mem addr i bytes
  pub appended : contents r.2 ≡ contents pi ++ bytes
  pub valid : IsValid r.2
  pub ended : Ended mem addr killed left i pi r.2 bytes r.0
  pub woken : (r.0 ≡ failed) ⊎ (r.1 ≡ on_nread ∷ [])
  pub open_ends : (r.2.readopen ≡ pi.readopen) × (r.2.writeopen ≡ pi.writeopen)

module _ (mem : UserMemory) (addr : ℕ) (killed : Bool) where
  nothing :
      (left i : ℕ) (pi : Pipe) (out : Outcome) (chans : List Channel)
      → IsValid pi
      → Ended mem addr killed left i pi pi [] out
      → (out ≡ failed) ⊎ (chans ≡ on_nread ∷ [])
      → Wrote mem addr killed left i pi (out, chans, pi)
  nothing left i pi out chans v ended woken = record {
    bytes = [];
    taken = tt;
    appended = sym (append-nil (contents pi));
    valid = v;
    ended = ended;
    woken = woken;
    open_ends = (refl, refl);
  }

  Ended-cons :
      (left i b : ℕ) (bs : List ℕ) (pi after : Pipe) (out : Outcome)
      → (not pi.readopen || killed) ≡ false
      → Ended mem addr killed left (i + 1) (put_byte b pi) after bs out
      → Ended mem addr killed (suc left) i pi after (b ∷ bs) out
  unfolding put_byte
  Ended-cons left i b bs pi after (returned j) go (at, why) =
      (omega arith, elim why [ inl all ↦ inl (ap suc all) | inr fault ↦ inr fault ])
  Ended-cons left i b bs pi after (slept j) go (at, more, full) = (omega arith, omega arith, full)
  Ended-cons left i b bs pi after failed go (none_put, why) = absurd (ground arith)

  put_first :
      (left i b : ℕ) (pi : Pipe) (r : Outcome × List Channel × Pipe)
      → IsValid pi
      → count pi < pipe_size
      → (not pi.readopen || killed) ≡ false
      → mem (user_addr addr i) ≡ some b
      → Wrote mem addr killed left (i + 1) (put_byte b pi) r
      → Wrote mem addr killed (suc left) i pi r
  unfolding put_byte
  put_first left i b pi r v room go at w = record {
    bytes = b ∷ w.bytes;
    taken = (at, w.taken);
    appended =
        w.appended
        ∙ ap (λ l. l ++ w.bytes) (put_byte_lem pi v b room).1
        ∙ append_assoc (contents pi) (b ∷ []) w.bytes;
    valid = w.valid;
    ended = Ended-cons left i b w.bytes pi r.2 r.0 go w.ended;
    woken = w.woken;
    open_ends = w.open_ends;
  }

  pub write_loop-Wrote :
      (left i : ℕ) (pi : Pipe)
      → IsValid pi
      → Wrote mem addr killed left i pi (write_loop mem addr killed left i pi)
  unfolding write_loop
  write_loop-Wrote zero i pi v =
      nothing zero i pi (returned i) (on_nread ∷ []) v (omega arith, inl refl) (inr refl)
  write_loop-Wrote (suc left) i pi v = elim (Bool-cases (not pi.readopen || killed)) [
    | inl stop ↦ rw stop (nothing (suc left) i pi failed [] v (refl, ground arith) (inl refl))
    | inr go ↦ elim (Bool-cases (pi.nwrite == (pi.nread + pipe_size) % 2 ^ 32)) [
      | inl full ↦
          rw (go, full)
            (nothing (suc left) i pi (slept i) (on_nread ∷ []) v
              (omega arith, omega arith, ground (arith, length-contents pi, v)) (inr refl))
      | inr room ↦ elim (Option-cases (mem (user_addr addr i))) [
        | inl fault ↦
            rw (go, room, fault)
              (nothing (suc left) i pi (returned i) (on_nread ∷ []) v (omega arith, inr fault)
                (inr refl))
        | inr (b, at) ↦
            let small : count pi < pipe_size = ground (arith, v) in
            rw (go, room, at)
              (put_first left i b pi (write_loop mem addr killed left (i + 1) (put_byte b pi)) v
                small go at
                (write_loop-Wrote left (i + 1) (put_byte b pi) (put_byte_lem pi v b small).0))
      ]
    ]
  ]

-- `pipewrite` appends to the pipe the bytes that user memory holds at `addr`, in order. It returns
-- after all `n` of them, or at the first that is not mapped; it sleeps only when bytes are left and
-- the pipe is full; it fails, having written nothing, only if the read end is closed or the process
-- is killed. It keeps the ring valid and the ends as they are, and wakes the readers unless it
-- fails.
pub pipewrite-Wrote :
    (mem : UserMemory) (addr : ℕ) (killed : Bool) (n : ℕ) (pi : Pipe)
    → IsValid pi
    → Wrote mem addr killed n 0 pi (pipewrite mem addr killed n pi)
unfolding pipewrite
pipewrite-Wrote mem addr killed n pi v = write_loop-Wrote mem addr killed n 0 pi v
