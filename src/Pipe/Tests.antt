-- ===== src/Pipe/Tests.antt =====
-- Runs of a pipe, and its theorems at them.
use os_labs.Prelude.{
  ℕ, ◌-◌, zero, suc, ◌%◌, ◌^◌, ◌<◌, ◌≡◌, refl, ◌≢◌, true, false, none, some, [], ◌∷◌, arith, ltb,
  if◌then◌else◌,
}
use os_labs.Pipe.{
  Pipe, new_pipe, UserMemory, user_addr, returned, slept, put_byte, get_byte, write_loop, pipewrite,
  read_loop, piperead, pipeclose,
}
use os_labs.Pipe.Queue.{window, contents, IsValid}
use os_labs.Pipe.Write.{Wrote, pipewrite-Wrote}
use os_labs.Pipe.Read.{ReadEnds, piperead-ReadEnds}
use os_labs.Pipe.Fifo.{Flow, writes, reads, Turns, here, next, InOrder, Turns-InOrder}

-- Just before both counters wrap, with one byte in the ring.
abbrev late : Pipe
late = record (new_pipe (λ i. 7)) { nread = 2 ^ 32 - 2; nwrite = 2 ^ 32 - 1 }

late-IsValid : IsValid late
late-IsValid = record { read_word = omega arith; write_word = omega arith; fits = omega arith }

-- Five bytes are mapped, from address 100 on.
abbrev mem : UserMemory
mem a = if ltb a 100 then none else if ltb a 105 then some (a % 10) else none

write_wraps : contents (pipewrite mem 101 false 3 late).2 ≡ 7 ∷ 1 ∷ 2 ∷ 3 ∷ []
unfolding pipewrite write_loop put_byte contents
write_wraps = refl

write_stops_at_fault : (pipewrite mem 103 false 9 late).0 ≡ returned 2
unfolding pipewrite write_loop put_byte
write_stops_at_fault = refl

write_sleeps : (pipewrite (λ a. some 1) 0 false 600 late).0 ≡ slept 511
unfolding pipewrite write_loop put_byte
write_sleeps = refl

-- A byte that cannot be copied out is lost.
read_loses_a_byte : contents (piperead 200 false 3 mem late).3 ≡ []
unfolding piperead read_loop get_byte contents
read_loses_a_byte = refl

close_frees :
    ((pipeclose true late).2 ≡ false) × ((pipeclose false (pipeclose true late).0).2 ≡ true)
unfolding pipeclose
close_frees = (refl, refl)

pipewrite-Wrote_example : Wrote mem 101 false 3 0 late (pipewrite mem 101 false 3 late)
pipewrite-Wrote_example = pipewrite-Wrote mem 101 false 3 late late-IsValid

piperead-ReadEnds_example : ReadEnds 100 false 3 mem late (piperead 100 false 3 mem late)
piperead-ReadEnds_example = piperead-ReadEnds 100 false 3 mem late late-IsValid

abbrev empty_flow : Flow
empty_flow = record { pipe = new_pipe (λ i. 0); sent = []; received = [] }

-- Two bytes are written.
abbrev after_write : Flow
after_write = record {
  pipe = (write_loop mem 101 false 2 0 empty_flow.pipe).2;
  sent = 1 ∷ 2 ∷ [];
  received = [];
}

-- Then one is read.
abbrev after_read : Flow
after_read = record {
  pipe = (piperead 103 false 1 mem after_write.pipe).3;
  sent = 1 ∷ 2 ∷ [];
  received = 1 ∷ [];
}

one_byte-mapped : (j : ℕ) → j < 1 → mem (user_addr 103 j) ≢ none
one_byte-mapped zero h e = ground arith
one_byte-mapped (suc j) h e = absurd (omega arith)

empty_flow-Turns : Turns empty_flow after_read
unfolding write_loop put_byte piperead read_loop get_byte
empty_flow-Turns =
    next (next here (writes mem 101 false 2 0 (1 ∷ 2 ∷ []) (refl, (refl, tt)) refl))
      (reads mem 103 false 1 (1 ∷ []) (omega arith) one_byte-mapped refl (refl, tt))

empty_flow-InOrder : InOrder empty_flow
unfolding contents window
empty_flow-InOrder = record {
  valid = record { read_word = omega arith; write_word = omega arith; fits = omega arith };
  order = refl;
}

Turns-InOrder_example : InOrder after_read
Turns-InOrder_example = Turns-InOrder empty_flow-InOrder empty_flow-Turns
