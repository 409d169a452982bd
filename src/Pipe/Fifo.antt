-- ===== src/Pipe/Fifo.antt =====
-- A pipe between writers and readers that take turns under its lock, in any order.
use mathlib.Core.List.{append_assoc}
use os_labs.Prelude.{
  ℕ, ◌+◌, ◌^◌, ◌≤◌, ◌<◌, ◌≡◌, refl, ◌≢◌, inl, inr, ◌∙◌, sym, ap, Bool, true, false, none, some,
  some_eq, List, [], ◌∷◌, ◌++◌, arith, length, update, update_self, update_ne,
}
use os_labs.Pipe.{
  Channel, Pipe, UserMemory, user_addr, Outcome, returned, failed, slept, write_loop, piperead,
  pipeclose,
}
use os_labs.Pipe.Queue.{contents, IsValid}
use os_labs.Pipe.Write.{Ended, HoldsAt, write_loop-Wrote}
use os_labs.Pipe.Read.{stored, Took, ReadEnds, piperead-ReadEnds}

-- How far a write has come that began its turn at byte `i`.
abbrev pub progress : (i : ℕ) → Outcome → ℕ
progress i (returned j) = j
progress i (slept j) = j
progress i failed = i

-- `sent` and `received` are what the callers see in their own memories.
pub record Flow : Type 0 where
  pub pipe : Pipe
  pub sent : List ℕ
  pub received : List ℕ

-- The buffer of a read is mapped.
abbrev pub IsMapped : UserMemory → (addr n : ℕ) → Type 0
IsMapped mem addr n = (j : ℕ) → j < n → mem (user_addr addr j) ≢ none

pub data Turn (s : Flow) : Flow → Type 0 where
  writes :
      (mem : UserMemory) (addr : ℕ) (killed : Bool) (left i : ℕ) (bs : List ℕ)
      → HoldsAt mem addr i bs
      → progress i (write_loop mem addr killed left i s.pipe).0 ≡ i + length bs
      → Turn s (record {
        pipe = (write_loop mem addr killed left i s.pipe).2;
        sent = s.sent ++ bs;
        received = s.received;
      })
  reads :
      (mem : UserMemory) (addr : ℕ) (killed : Bool) (n : ℕ) (bs : List ℕ)
      → n ≤ 2 ^ 64
      → IsMapped mem addr n
      → progress 0 (piperead addr killed n mem s.pipe).0 ≡ length bs
      → HoldsAt (piperead addr killed n mem s.pipe).2 addr 0 bs
      → Turn s (record {
        pipe = (piperead addr killed n mem s.pipe).3;
        sent = s.sent;
        received = s.received ++ bs;
      })
  closes :
      (writable : Bool)
      → Turn s
          (record { pipe = (pipeclose writable s.pipe).0; sent = s.sent; received = s.received })

pub data Turns (s : Flow) : Flow → Type 0 where
  here : Turns s s
  next : {t u : Flow} → Turns s t → Turn t u → Turns s u

-- Nothing is lost, doubled or reordered on the way.
pub record InOrder (s : Flow) : Type 0 where
  pub valid : IsValid s.pipe
  pub order : s.sent ≡ s.received ++ contents s.pipe

HoldsAt-unique :
    (mem : UserMemory) (addr i : ℕ) (bs cs : List ℕ)
    → HoldsAt mem addr i bs
    → HoldsAt mem addr i cs
    → length bs ≡ length cs
    → bs ≡ cs
HoldsAt-unique mem addr i [] [] h k e = refl
HoldsAt-unique mem addr i [] (c ∷ cs) h k e = absurd (omega arith)
HoldsAt-unique mem addr i (b ∷ bs) [] h k e = absurd (omega arith)
HoldsAt-unique mem addr i (b ∷ bs) (c ∷ cs) h k e =
    λ d. some_eq (sym h.0 ∙ k.0) d ∷ HoldsAt-unique mem addr (i + 1) bs cs h.1 k.1 (omega arith) d

stored_other :
    (mem : UserMemory) (addr i a : ℕ) (bs : List ℕ)
    → ((j : ℕ) → i ≤ j → j < i + length bs → user_addr addr j ≢ a)
    → stored mem addr i bs a ≡ mem a
stored_other mem addr i a [] h = refl
stored_other mem addr i a (b ∷ bs) h =
    stored_other (update mem (user_addr addr i) (some b)) addr (i + 1) a bs
      (λ j p q. h j (omega arith) (omega arith))
    ∙ update_ne mem (user_addr addr i) a (some b) (h i (omega arith) (omega arith))

-- Addresses at distinct offsets are distinct.
user_addr-ne : (addr i j : ℕ) → i < j → j < 2 ^ 64 → user_addr addr j ≢ user_addr addr i
user_addr-ne addr i j h k = omega arith

HoldsAt-stored :
    (mem : UserMemory) (addr i : ℕ) (bs : List ℕ)
    → i + length bs ≤ 2 ^ 64
    → HoldsAt (stored mem addr i bs) addr i bs
HoldsAt-stored mem addr i [] h = tt
HoldsAt-stored mem addr i (b ∷ bs) h = (
  stored_other (update mem (user_addr addr i) (some b)) addr (i + 1) (user_addr addr i) bs
        (λ j p q. user_addr-ne addr i j (omega arith) (omega arith))
      ∙ update_self mem (user_addr addr i) (some b),
  HoldsAt-stored (update mem (user_addr addr i) (some b)) addr (i + 1) bs (omega arith),
)

length-nil : (bs : List ℕ) → 0 ≡ length bs → bs ≡ []
length-nil [] e = refl
length-nil (b ∷ bs) e = absurd (omega arith)

Ended-progress :
    (mem : UserMemory) (addr : ℕ) (killed : Bool) (left i : ℕ) (pi after : Pipe) (bs : List ℕ)
    (out : Outcome)
    → Ended mem addr killed left i pi after bs out
    → progress i out ≡ i + length bs
Ended-progress mem addr killed left i pi after bs (returned j) e = e.0
Ended-progress mem addr killed left i pi after bs (slept j) e = e.0
Ended-progress mem addr killed left i pi after bs failed e = omega (arith, ap length e.0)

writes-appended :
    (mem : UserMemory) (addr : ℕ) (killed : Bool) (left i : ℕ) (pi : Pipe) (bs : List ℕ)
    → IsValid pi
    → HoldsAt mem addr i bs
    → progress i (write_loop mem addr killed left i pi).0 ≡ i + length bs
    → contents (write_loop mem addr killed left i pi).2 ≡ contents pi ++ bs
writes-appended mem addr killed left i pi bs v holds e =
    let w = write_loop-Wrote mem addr killed left i pi v in
    let moved =
      Ended-progress mem addr killed left i pi (write_loop mem addr killed left i pi).2 w.bytes
        (write_loop mem addr killed left i pi).0 w.ended in
    w.appended
    ∙ ap (λ l. contents pi ++ l) (HoldsAt-unique mem addr i w.bytes bs w.taken holds (omega arith))

module _ (addr : ℕ) (killed : Bool) (n : ℕ) (mem : UserMemory) (pi : Pipe) (v : IsValid pi)
    (small : n ≤ 2 ^ 64) (mapped : IsMapped mem addr n) where
  Took-all :
      (i : ℕ) (mem' : UserMemory) (pi' : Pipe) (t : Took addr n 0 mem pi (i, mem', pi'))
      → (i ≤ n)
      → t.lost ≡ []
  Took-all i mem' pi' t le = elim t.ended [
    | inl (kept, _) ↦ kept
    | inr (one, more, fault) ↦ absurd (
        mapped i (omega (arith, t.count_lem)) (
          sym (
            stored_other mem addr 0 (user_addr addr i) t.bytes (λ j p q e.
              user_addr-ne addr j i (omega (arith, t.count_lem)) (omega (arith, t.count_lem))
                (sym e)))
          ∙ sym (ap (λ m. m (user_addr addr i)) t.memory)
          ∙ fault))
  ]

  taken-queue :
      (i : ℕ) (mem' : UserMemory) (pi' : Pipe) (bs : List ℕ)
      → Took addr n 0 mem pi (i, mem', pi')
      → i ≡ length bs
      → HoldsAt mem' addr 0 bs
      → contents pi ≡ bs ++ contents pi'
  taken-queue i mem' pi' bs t e holds =
      let le : i ≤ n = omega (arith, t.count_lem, t.most) in
      let held : HoldsAt mem' addr 0 t.bytes =
        rw t.memory (HoldsAt-stored mem addr 0 t.bytes (omega (arith, t.count_lem))) in
      let same = HoldsAt-unique mem' addr 0 t.bytes bs held holds (omega (arith, t.count_lem)) in
      t.queue
      ∙ ap (λ l. t.bytes ++ (l ++ contents pi')) (Took-all i mem' pi' t le)
      ∙ ap (λ l. l ++ contents pi') same

  reads-queue :
      (out : Outcome) (chans : List Channel) (mem' : UserMemory) (pi' : Pipe) (bs : List ℕ)
      → ReadEnds addr killed n mem pi (out, chans, mem', pi')
      → progress 0 out ≡ length bs
      → HoldsAt mem' addr 0 bs
      → IsValid pi' × (contents pi ≡ bs ++ contents pi')
  reads-queue (returned i) chans mem' pi' bs (t, _, _) e holds =
      (t.valid, taken-queue i mem' pi' bs t e holds)
  reads-queue (slept i) chans mem' pi' bs (zero_moved, _, _, _, _, same) e holds = (
    rw same v,
    sym (ap contents same) ∙ ap (λ l. l ++ contents pi') (sym (length-nil bs (sym zero_moved ∙ e))),
  )
  reads-queue failed chans mem' pi' bs (_, _, _, _, same) e holds =
      (rw same v, sym (ap contents same) ∙ ap (λ l. l ++ contents pi') (sym (length-nil bs e)))

pipeclose-contents :
    (writable : Bool) (pi : Pipe)
    → IsValid pi
    → IsValid (pipeclose writable pi).0 × (contents (pipeclose writable pi).0 ≡ contents pi)
unfolding pipeclose contents
pipeclose-contents true pi v =
    (record { read_word = v.read_word; write_word = v.write_word; fits = v.fits }, refl)
pipeclose-contents false pi v =
    (record { read_word = v.read_word; write_word = v.write_word; fits = v.fits }, refl)

Turn-InOrder : {s t : Flow} → Turn s t → InOrder s → InOrder t
Turn-InOrder {s} (writes mem addr killed left i bs holds e) o = record {
  valid = (write_loop-Wrote mem addr killed left i s.pipe o.valid).valid;
  order =
      ap (λ l. l ++ bs) o.order
      ∙ append_assoc s.received (contents s.pipe) bs
      ∙ ap (λ l. s.received ++ l)
          (sym (writes-appended mem addr killed left i s.pipe bs o.valid holds e));
}
Turn-InOrder {s} (reads mem addr killed n bs small mapped e holds) o =
    let r = piperead addr killed n mem s.pipe in
    let (valid, queue) =
      reads-queue addr killed n mem s.pipe o.valid small mapped r.0 r.1 r.2 r.3 bs
        (piperead-ReadEnds addr killed n mem s.pipe o.valid) e holds in
    record {
      valid = valid;
      order =
          o.order
          ∙ ap (λ l. s.received ++ l) queue
          ∙ sym (append_assoc s.received bs (contents r.3));
    }
Turn-InOrder {s} (closes writable) o =
    let (valid, same) = pipeclose-contents writable s.pipe o.valid in
    record { valid = valid; order = o.order ∙ ap (λ l. s.received ++ l) (sym same) }

-- Whatever turns writers and readers take, also across sleeps and closes: what the writers have
-- put in from their memories, in the order of their turns, is what the readers have found in
-- theirs, followed by what is still in the pipe. The buffers of the readers are mapped.
pub Turns-InOrder : {s t : Flow} → InOrder s → Turns s t → InOrder t
Turns-InOrder o here = o
Turns-InOrder o (next ts t) = Turn-InOrder t (Turns-InOrder o ts)
