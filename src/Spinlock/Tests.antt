-- ===== src/Spinlock/Tests.antt =====
-- An example for the theorem on critical sections.
use os_labs.Prelude.{◌≡◌, refl, inl, true, false, some, update, arith}
use os_labs.Spinlock.{Machine, free_lock, acquire, push_off, holding, took, release}
use os_labs.Spinlock.Pair.{Same, IsValid}
use os_labs.Spinlock.Nesting.{idle, critical-Same}

-- No lock is held and interrupts are on; and then lock 3 is held by processor 0.
abbrev outside : Machine
outside = record { locks = λ lk. free_lock; noff = 0; intena = false; enabled = true }

abbrev inside : Machine
inside = record {
  locks = update (λ lk. free_lock) 3 (record { locked = true; cpu = 1 });
  noff = 1;
  intena = true;
  enabled = false;
}

takes_lock : acquire 0 3 outside ≡ took inside
unfolding acquire push_off holding
takes_lock = refl

outside-IsValid : IsValid outside
outside-IsValid = record { small = omega arith; off = inl refl }

critical-Same_example :
    (inside.enabled ≡ false)
    × ((w : Machine) × (release 0 3 inside ≡ some w) × IsValid w × Same 0 outside w)
critical-Same_example =
    critical-Same 0 3 outside inside inside outside-IsValid (omega arith) takes_lock (idle inside)
