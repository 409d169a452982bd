-- ===== src/Log/Kept.antt =====
-- While a committed transaction is installed, what the disk stands for does not change.
use native.Mathlib.Decide.{ℕ_discrete}
use os_labs.Prelude.{ℕ, ◌+◌, ◌≤◌, ◌<◌, ◌≡◌, refl, ◌⊎◌, inl, inr, ◌∙◌, ap, arith, update, update_ne}
use os_labs.BlockCache.{Block, Disk}
use os_labs.Log.{Log, log_size, rounds}
use os_labs.Log.Replay.{replay-ext, replay-base, committed, committed_clear, IsHome, StandsFor}

-- The number of blocks that a disk's log has committed, and their homes.
abbrev pub logged_n : Log → Disk → ℕ
logged_n l d = rounds (d l.start 0)

abbrev pub target : Log → Disk → ℕ → ℕ
target l d t = d l.start (t + 1)

-- `b` is the home of a block that the log of `d` has committed.
abbrev pub IsTarget : Log → Disk → ℕ → Type 0
IsTarget l d b = (t : ℕ) × (t < logged_n l d) × (target l d t ≡ b)

-- The header of `d` is one that the code wrote.
pub record IsLogged (l : Log) (d : Disk) : Type 0 where
  pub fits : logged_n l d < l.size
  pub home : (t : ℕ) → t < logged_n l d → IsHome l (target l d t)

-- A recovery from `d` finds a log that it can read, and brings back `s`.
pub record Holds (l : Log) (s d : Disk) : Type 0 where
  pub logged : IsLogged l d
  pub few : logged_n l d ≤ log_size
  pub stands : StandsFor l s d

-- With no block logged, `d` need only be `s` itself.
pub Holds-clear :
    {l : Log} {s d : Disk}
    → 0 < l.size
    → d l.start 0 ≡ 0
    → ((b : ℕ) → IsHome l b → d b ≡ s b)
    → Holds l s d
Holds-clear {l} {s} {d} room empty same = record {
  logged = record { fits = rw none_logged room; home = λ t h. absurd (omega (arith, none_logged)) };
  few = omega (arith, none_logged);
  stands = λ b h. committed_clear l.start d b none_logged ∙ same b h;
}
  where
    none_logged : logged_n l d ≡ 0
    none_logged = ap rounds empty

-- `e` has the log of `d`, and differs from it at most at the homes of logged blocks.
pub record Kept (l : Log) (d e : Disk) : Type 0 where
  pub head : e l.start ≡ d l.start
  pub logs : (t : ℕ) → t < logged_n l d → e (l.start + t + 1) ≡ d (l.start + t + 1)
  pub homes : (b : ℕ) → (e b ≡ d b) ⊎ IsTarget l d b

module _ {l : Log} {d : Disk} (ok : IsLogged l d) where
  pub Kept-refl : Kept l d d
  Kept-refl = record { head = refl; logs = λ t h. refl; homes = λ b. inl refl }

  -- Installing a logged block keeps this.
  pub Kept-update :
      {e : Disk} (t : ℕ)
      → t < logged_n l d
      → Kept l d e
      → Kept l d (update e (target l d t) (d (l.start + t + 1)))
  Kept-update {e} t lt k = record {
    head = update_ne e b l.start v (λ q. omega (arith, ok.home t lt, ok.fits)) ∙ k.head;
    logs = λ u h.
        update_ne e b (l.start + u + 1) v (λ q. omega (arith, ok.home t lt, ok.fits)) ∙ k.logs u h;
    homes = λ a. elim (ℕ_discrete b a) [
      | yes here ↦ inr (t, lt, here)
      | no other ↦ elim (k.homes a) [
        | inl same ↦ inl (update_ne e b a v other ∙ same)
        | inr at ↦ inr at
      ]
    ];
  }
    where
      b : ℕ
      b = target l d t

      v : Block
      v = d (l.start + t + 1)

-- A disk with the same log and the same blocks but for its targets stands for the same.
pub Kept-committed :
    {l : Log} {d e : Disk} → Kept l d e → (b : ℕ) → committed l.start e b ≡ committed l.start d b
unfolding committed
Kept-committed {l} {d} {e} k b = rw k.head (elim (k.homes b) [
  | inl same ↦ replay-ext e d (logged_n l d) b (λ i h. refl) k.logs same
  | inr (t, lt, at) ↦
      replay-base (target l d) (λ i. e (l.start + i + 1)) e d (logged_n l d) b t lt at
      ∙ replay-ext d d (logged_n l d) b (λ i h. refl) k.logs refl
])

pub Kept-Holds : {l : Log} {s d e : Disk} → Kept l d e → Holds l s d → Holds l s e
Kept-Holds k h = record {
  logged = record { fits = rw k.head h.logged.fits; home = rw k.head h.logged.home };
  few = rw k.head h.few;
  stands = λ b out. Kept-committed k b ∙ h.stands b out;
}

-- Only the place of the log matters.
pub Holds-moved :
    (l l' : Log) {s d : Disk} → l.start ≡ l'.start → l.size ≡ l'.size → Holds l s d → Holds l' s d
Holds-moved l l' p q h = record {
  logged = record { fits = rw (← p, ← q) h.logged.fits; home = rw (← p, ← q) h.logged.home };
  few = rw (← p) h.few;
  stands = rw (← p, ← q) h.stands;
}
