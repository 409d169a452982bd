-- ===== src/Memory/Tests.antt =====
-- Runs of the memory routines, and their theorems at them.
use os_labs.Prelude.{zero, suc, ◌+◌, ◌≡◌, refl, arith, pos, ltb, if◌then◌else◌, ◌==◌, ◌-◌, ◌↔◌}
use os_labs.Memory.{Memory, memset, memmove, user_memmove, memcmp}
use os_labs.Memory.Compare.{Agree, memcmp-Agree}
use os_labs.Memory.Move.{memset_lem, memmove_lem}

abbrev count_up : Memory
count_up p = p

-- Overlapping regions, both ways.
moves_overlap : (memmove 12 10 5 count_up 16 ≡ 14) × (user_memmove 10 12 5 count_up 10 ≡ 12)
unfolding memmove user_memmove
moves_overlap = (refl, refl)

-- "abc" at 0 and "abd" at 100.
abbrev words : Memory
words p = if p == 102 then 100 else if ltb p 100 then 97 + p else p - 3

words-Agree : Agree words 0 100 2
words-Agree zero h = refl
words-Agree (suc zero) h = refl
words-Agree (suc (suc j)) h = absurd (omega arith)

memcmp-Agree_example : (memcmp words 0 100 3 ≡ pos 0) ↔ Agree words 0 100 3
memcmp-Agree_example = memcmp-Agree words 0 100 3

memset_lem_example : memset 10 300 4 count_up 12 ≡ 44
memset_lem_example = memset_lem 10 300 4 count_up 12

memmove_lem_example : memmove 12 10 5 count_up 16 ≡ 14
memmove_lem_example = memmove_lem 12 10 5 count_up 16
