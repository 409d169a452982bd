-- ===== src/Log/Tests.antt =====
-- Runs of the log on small disks, and its theorems at them.
use os_labs.Prelude.{
  ℕ, zero, suc, ◌+◌, ◌≡◌, refl, ◌⊎◌, inr, false, Option, none, some, [], ◌∷◌, arith, ◌==◌,
  if◌then◌else◌,
}
use os_labs.BlockCache.{Block, Disk, Cache, boot, Throughout}
use os_labs.Log.{
  read_head, write_head, install_trans, install_block, Log, commit, recover_from_log, initlog,
  begin_op, log_write,
}
use os_labs.Log.Crash.{Restores, commit-Restores}
use os_labs.Log.Kept.{IsLogged}
use os_labs.Log.Recover.{Recovered, recover_from_log-Recovered}
use os_labs.Log.Reserve.{Inv}
use os_labs.Log.Safety.{fresh_log, booted, initlog-Inv, write_block-returns}
use os_labs.Log.Steps.{Reach-Inv}
use os_labs.Log.System.{System, enter, Reach, here, next, write_block}
use os_labs.Log.WriteLog.{IsOpen}

abbrev constant : ℕ → Block
constant v w = v

-- The log has 31 blocks from block 2 on; its header names block 40, and block 3 holds sevens.
abbrev crashed : Disk
crashed b w = if b == 2 then (if w == 0 then 1 else 40) else if b == 3 then 7 else 0

abbrev fresh : Log
fresh = fresh_log 1 2 31

crashed-IsLogged : IsLogged fresh crashed
crashed-IsLogged = record { fits = omega arith; home = λ t h. inr (ground arith) }

recover_from_log-Recovered_example :
    (l : Log) × (c : Cache) × (recover_from_log fresh (boot crashed) ≡ some (l, c))
    × Recovered fresh crashed l c
recover_from_log-Recovered_example =
    recover_from_log-Recovered fresh crashed crashed-IsLogged (omega arith)

-- Block 40 is installed.
abbrev block_40 : Option (Log × Cache) → Option ℕ
block_40 none = none
block_40 (some (l, c)) = some (c.disk 40 0)

recover_runs : block_40 (initlog 1 2 31 (boot crashed)) ≡ some 7
unfolding initlog recover_from_log read_head write_head install_trans install_block
recover_runs = refl

initlog-Inv_example :
    (l : Log) × (c : Cache) × (initlog 1 2 31 (boot crashed) ≡ some (l, c)) × Inv (booted l c)
initlog-Inv_example = initlog-Inv 1 2 31 crashed crashed-IsLogged (omega arith) (omega arith)

-- A transaction that has written nines to block 50.
abbrev empty_disk : Disk
empty_disk b w = 0

abbrev dirty : Cache
dirty = record (boot empty_disk) { contents = λ b w. if b == 50 then 9 else 0 }

abbrev in_use : Log
in_use = record (fresh_log 1 2 31) { n = 1; block = λ i. 50; outstanding = 1 }

in_use-IsOpen : IsOpen in_use dirty
in_use-IsOpen = record {
  few = omega arith;
  fits = omega arith;
  home = λ t h. inr (omega arith);
  empty = refl;
  rest = λ b h missed.
      let other : (b == 50) ≡ false = ground (arith, missed 0 (omega arith)) in
      λ i w. if other i then 9 else 0;
}

commit-Restores_example :
    Throughout
      (λ d. Restores in_use 1 empty_disk d ⊎ Restores in_use 1 dirty.contents d)
      (commit in_use dirty).1
commit-Restores_example = commit-Restores in_use 1 dirty in_use-IsOpen refl

-- `n` calls that write to the blocks `b`, `b + 1`, ..., ten blocks each.
begin_all : ℕ → Log → Option Log
begin_all zero l = some l
begin_all (suc n) l = elim (begin_op l) [ none ↦ none | some l ↦ begin_all n l ]

write_all : ℕ → ℕ → Log → Cache → Option (Log × Cache)
write_all zero b l c = some (l, c)
write_all (suc n) b l c = elim (write_block b (constant b) l c) [
  | none ↦ none
  | some (l, c) ↦ write_all n (b + 1) l c
]

abbrev written : Option (Log × Cache) → Option ℕ
written none = none
written (some (l, c)) = some l.n

three_calls : (n size : ℕ) → Option ℕ
unfolding begin_all write_all write_block begin_op log_write
three_calls n size = elim (begin_all 3 (fresh_log 1 2 size)) [
  | none ↦ none
  | some l ↦ written (write_all n 100 l (boot empty_disk))
]

-- With the 30 log blocks that mkfs gives, three calls of ten blocks each are admitted, and the
-- thirtieth block is one too many; with 31 it is not.
log_of_mkfs_is_too_small :
    (three_calls 29 30 ≡ some 29) × (three_calls 30 30 ≡ none) × (three_calls 30 31 ≡ some 30)
unfolding three_calls
log_of_mkfs_is_too_small = (refl, refl, refl)

-- One call has begun on an empty disk.
start-Inv : Inv (booted fresh (boot empty_disk))
start-Inv = record {
  larger = omega arith;
  counted = refl;
  bounded = omega arith;
  reserved = omega arith;
  alone = λ busy. refl;
  opened = record {
    few = omega arith;
    fits = omega arith;
    home = λ t h. elim h [ ];
    empty = refl;
    rest = λ b h missed. refl;
  };
  distinct = λ t u h. elim h [ ];
  settled = refl;
}

abbrev one_call : System
one_call = record {
  log = record fresh { outstanding = 1 };
  cache = record (boot empty_disk) { past = [] };
  used = 0 ∷ [];
}

one_call-Reach : Reach (booted fresh (boot empty_disk)) one_call
unfolding begin_op
one_call-Reach = next here (enter refl)

Reach-Inv_example : Inv one_call
Reach-Inv_example = Reach-Inv start-Inv one_call-Reach

write_block-returns_example :
    (l : Log) × (c : Cache) × (write_block 50 (constant 9) one_call.log one_call.cache
      ≡ some (l, c))
write_block-returns_example =
    write_block-returns 0 0 50 (constant 9) start-Inv one_call-Reach refl (omega arith)
      (inr (omega arith))
