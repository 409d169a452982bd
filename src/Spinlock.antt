-- ===== src/Spinlock.antt =====
-- kernel/spinlock.c: locks, and the interrupts of the processor that holds them.
pub mod Pair
pub mod Nesting
mod Tests
use os_labs.Prelude.{
  ℕ, zero, suc, ◌+◌, ◌-◌, ◌%◌, ◌^◌, Bool, true, false, ◌&&◌, Option, none, some, ltb, leb, ◌||◌,
  ◌==◌, if◌then◌else◌, update,
}

-- `struct spinlock`: `cpu` is an index plus one, or 0.
pub record SpinLock : Type 0 where
  pub locked : Bool
  pub cpu : ℕ

-- The locks, and `struct cpu` of one processor with its interrupt flag.
pub record Machine : Type 0 where
  pub locks : ℕ → SpinLock
  pub noff : ℕ
  pub intena : Bool
  pub enabled : Bool

abbrev pub free_lock : SpinLock
free_lock = record { locked = false; cpu = 0 }

unfoldable pub initlock : (lk : ℕ) → Machine → Machine
initlock lk s = record s { locks = update s.locks lk free_lock }

-- `holding(lk)` on the processor `me`.
unfoldable pub holding : (me lk : ℕ) → Machine → Bool
holding me lk s = (s.locks lk).locked && (s.locks lk).cpu == suc me

unfoldable pub push_off : Machine → Machine
push_off s = record s {
  noff = (s.noff + 1) % 2 ^ 32;
  intena = if s.noff == 0 then s.enabled else s.intena;
  enabled = false;
}

-- `none` is a panic, here and in `release`.
unfoldable pub pop_off : Machine → Option Machine
pop_off s =
    if s.enabled
    then none
    else if s.noff == 0 || leb (2 ^ 31) s.noff
    then none
    else some (record s { noff = s.noff - 1; enabled = (s.noff - 1) == 0 && s.intena })

-- How `acquire` ends: it panics, spins until the lock is free, or has it.
pub data Acquired : Type 0 where
  panics spins : Acquired
  took : Machine → Acquired

unfoldable pub acquire : (me lk : ℕ) → Machine → Acquired
acquire me lk s =
    let s = push_off s in
    if holding me lk s
    then panics
    else if (s.locks lk).locked
    then spins
    else took (record s { locks = update s.locks lk (record { locked = true; cpu = suc me }) })

unfoldable pub release : (me lk : ℕ) → Machine → Option Machine
release me lk s =
    if holding me lk s then pop_off (record s { locks = update s.locks lk free_lock }) else none
