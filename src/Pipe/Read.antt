-- ===== src/Pipe/Read.antt =====
-- `piperead`: which bytes it takes out of the pipe, and how it ends.
use native.Mathlib.Decide.{ℕ_discrete}
use os_labs.Prelude.{
  ℕ, zero, suc, ◌+◌, ◌≤◌, ◌<◌, ◌≡◌, refl, ◌≢◌, ◌⊎◌, inl, inr, ◌∙◌, ap, Bool, true, false, ◌&&◌,
  none, some, Option-cases, Bool-cases, List, [], ◌∷◌, ◌++◌, arith, length, ◌==◌, eq→==, ne→==,
  update,
}
use os_labs.Pipe.{
  Pipe, UserMemory, user_addr, Channel, on_nwrite, Outcome, returned, failed, slept, get_byte,
  read_loop, piperead,
}
use os_labs.Pipe.Queue.{count, contents, IsValid, get_byte_lem, window}

-- User memory after the bytes `bs` are stored from `addr + i` on.
abbrev pub stored : UserMemory → (addr i : ℕ) → List ℕ → UserMemory
stored mem addr i [] = mem
stored mem addr i (b ∷ bs) = stored (update mem (user_addr addr i) (some b)) addr (i + 1) bs

contents-nil : (pi : Pipe) → IsValid pi → pi.nread ≡ pi.nwrite → contents pi ≡ []
unfolding contents window
contents-nil pi v e = let e' : count pi ≡ 0 = omega (arith, v) in ap (window pi.bytes pi.nread) e'

-- `bytes` were stored for the caller; `lost` left the pipe and was refused by `copyout`.
pub record Took (addr left i : ℕ) (mem : UserMemory) (pi : Pipe) (r : ℕ × UserMemory × Pipe)
    : Type 0 where
  pub bytes : List ℕ
  pub lost : List ℕ
  pub count_lem : r.0 ≡ i + length bytes
  pub most : length bytes ≤ left
  pub memory : r.1 ≡ stored mem addr i bytes
  pub queue : contents pi ≡ bytes ++ (lost ++ contents r.2)
  pub valid : IsValid r.2
  pub ended :
      ((lost ≡ []) × ((length bytes ≡ left) ⊎ (contents r.2 ≡ [])))
      ⊎ ((length lost ≡ 1) × (length bytes < left) × (r.1 (user_addr addr r.0) ≡ none))
  pub open_ends : (r.2.readopen ≡ pi.readopen) × (r.2.writeopen ≡ pi.writeopen)

module _ (addr : ℕ) where
  take_first :
      (left i old : ℕ) (mem : UserMemory) (pi : Pipe) (r : ℕ × UserMemory × Pipe)
      → IsValid pi
      → pi.nread ≢ pi.nwrite
      → Took addr left
          (i + 1)
          (update mem (user_addr addr i) (some (get_byte pi).0))
          (get_byte pi).1
          r
      → Took addr (suc left) i mem pi r
  unfolding get_byte
  take_first left i old mem pi r v ne t = record {
    bytes = (get_byte pi).0 ∷ t.bytes;
    lost = t.lost;
    count_lem = omega (arith, t.count_lem);
    most = omega (arith, t.most);
    memory = t.memory;
    queue = (get_byte_lem pi v ne).1 ∙ ap (λ l. (get_byte pi).0 ∷ l) t.queue;
    valid = t.valid;
    ended = elim t.ended [
      | inl (kept, inl all) ↦ inl (kept, inl (ap suc all))
      | inl (kept, inr drained) ↦ inl (kept, inr drained)
      | inr (one, more, fault) ↦ inr (one, omega arith, fault)
    ];
    open_ends = t.open_ends;
  }

  pub read_loop-Took :
      (left i : ℕ) (mem : UserMemory) (pi : Pipe)
      → IsValid pi
      → Took addr left i mem pi (read_loop addr left i mem pi)
  unfolding read_loop
  read_loop-Took zero i mem pi v = record {
    bytes = [];
    lost = [];
    count_lem = omega arith;
    most = omega arith;
    memory = refl;
    queue = refl;
    valid = v;
    ended = inl (refl, inl refl);
    open_ends = (refl, refl);
  }
  read_loop-Took (suc left) i mem pi v = elim (ℕ_discrete pi.nread pi.nwrite) [
    | yes drained ↦ rw (eq→== pi.nread pi.nwrite drained) (record {
      bytes = [];
      lost = [];
      count_lem = omega arith;
      most = omega arith;
      memory = refl;
      queue = refl;
      valid = v;
      ended = inl (refl, inr (contents-nil pi v drained));
      open_ends = (refl, refl);
    })
    | no ne ↦ elim (Option-cases (mem (user_addr addr i))) [
      | inl fault ↦
          rw (ne→== pi.nread pi.nwrite ne, fault)
            (record {
              bytes = [];
              lost = (get_byte pi).0 ∷ [];
              count_lem = omega arith;
              most = omega arith;
              memory = refl;
              queue = (get_byte_lem pi v ne).1;
              valid = (get_byte_lem pi v ne).0;
              ended = inr (refl, omega arith, fault);
              open_ends = unfold get_byte in (refl, refl);
            })
      | inr (old, at) ↦
          rw (ne→== pi.nread pi.nwrite ne, at)
            (take_first left i old mem pi
              (read_loop addr left (i + 1) (update mem (user_addr addr i) (some (get_byte pi).0))
                (get_byte pi).1)
              v ne
              (read_loop-Took left (i + 1) (update mem (user_addr addr i) (some (get_byte pi).0))
                (get_byte pi).1 (get_byte_lem pi v ne).0))
    ]
  ]

-- What `piperead` does, by how it ends. A pipe that is drained makes it wait, or fail if the
-- process is killed, as long as the write end is open.
abbrev pub ReadEnds :
    (addr : ℕ)
    → (killed : Bool) → (n : ℕ) → UserMemory
    → Pipe
    → Outcome × List Channel × UserMemory × Pipe
    → Type 0
ReadEnds addr killed n mem pi (returned i, chans, mem', pi') =
    Took addr n 0 mem pi (i, mem', pi')
    × (chans ≡ on_nwrite ∷ [])
    × ((contents pi ≢ []) ⊎ (pi.writeopen ≡ false))
ReadEnds addr killed n mem pi (slept i, chans, mem', pi') =
    (i ≡ 0)
    × (killed ≡ false)
    × (contents pi ≡ [])
    × (pi.writeopen ≡ true)
    × (mem' ≡ mem)
    × (pi' ≡ pi)
ReadEnds addr killed n mem pi (failed, chans, mem', pi') =
    (killed ≡ true) × (contents pi ≡ []) × (pi.writeopen ≡ true) × (mem' ≡ mem) × (pi' ≡ pi)

contents-ne_nil : (pi : Pipe) → IsValid pi → pi.nread ≢ pi.nwrite → contents pi ≢ []
contents-ne_nil pi v ne e =
    absurd (omega (arith, ap length ((get_byte_lem pi v ne).1), ap length e))

-- `piperead` takes the oldest bytes out of the pipe, in order, and stores them from `addr` on. It
-- returns how many were stored: `n`, or fewer if the pipe is drained, or if `copyout` refuses a
-- byte, which is then lost; and it wakes the writers. On an empty pipe it returns only if the write
-- end is closed; otherwise it fails if the process is killed and sleeps if not, changing nothing.
pub piperead-ReadEnds :
    (addr : ℕ) (killed : Bool) (n : ℕ) (mem : UserMemory) (pi : Pipe)
    → IsValid pi
    → ReadEnds addr killed n mem pi (piperead addr killed n mem pi)
unfolding piperead
piperead-ReadEnds addr killed n mem pi v =
    let took = read_loop-Took addr n 0 mem pi v in
    elim (ℕ_discrete pi.nread pi.nwrite) [
      | yes drained ↦
          let empty = contents-nil pi v drained in
          elim (Bool-cases pi.writeopen) [
            | inl waiting ↦
                let e : (pi.nread == pi.nwrite && pi.writeopen) ≡ true = ground arith in
                elim (Bool-cases killed) [
                  | inl dead ↦ rw (e, dead) (refl, empty, waiting, refl, refl)
                  | inr alive ↦ rw (e, alive) (refl, refl, empty, waiting, refl, refl)
                ]
            | inr closed ↦
                let e : (pi.nread == pi.nwrite && pi.writeopen) ≡ false = ground arith in
                rw e (took, refl, inr closed)
          ]
      | no ne ↦
          let e : (pi.nread == pi.nwrite && pi.writeopen) ≡ false = ground arith in
          rw e (took, refl, inl (contents-ne_nil pi v ne))
    ]
