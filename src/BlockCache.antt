-- ===== src/BlockCache.antt =====
-- What kernel/bio.c promises to its clients on the one disk that xv6 runs with, as the state that
-- the log is written against. A block that is cached or not reads the same, so the cache is seen
-- as the contents that `bread` returns, beside the contents of the disk.
use os_labs.Prelude.{ℕ, ◌+◌, ◌-◌, ◌%◌, ◌^◌, List, [], ◌∷◌, All, update}

-- The 256 32-bit words of a block of BSIZE bytes.
abbrev pub Block : Type 0
Block = ℕ → ℕ

abbrev pub Disk : Type 0
Disk = ℕ → Block

-- `past` holds every disk that a crash could have left since it was last emptied, newest first.
pub record Cache : Type 0 where
  pub contents : ℕ → Block
  pub disk : Disk
  pub past : List Disk
  pub refcnt : ℕ → ℕ

-- Nothing is cached after a boot: all is read from the disk.
abbrev pub boot : Disk → Cache
boot d = record { contents = d; disk = d; past = []; refcnt = λ b. 0 }

-- `refcnt` is a `uint`.
abbrev pub add_ref : ℕ → Cache → Cache
add_ref b c = record c { refcnt = update c.refcnt b ((c.refcnt b + 1) % 2 ^ 32) }

abbrev pub drop_ref : ℕ → Cache → Cache
drop_ref b c = record c { refcnt = update c.refcnt b ((c.refcnt b + 2 ^ 32 - 1) % 2 ^ 32) }

abbrev pub bread : ℕ → Cache → Cache
bread = add_ref

abbrev pub brelse : ℕ → Cache → Cache
brelse = drop_ref

abbrev pub bpin : ℕ → Cache → Cache
bpin = add_ref

abbrev pub bunpin : ℕ → Cache → Cache
bunpin = drop_ref

-- The holder of a buffer changes its data.
abbrev pub fill : ℕ → Block → Cache → Cache
fill b d c = record c { contents = update c.contents b d }

-- One block goes to the disk at once: a crash leaves the old disk or the new one.
abbrev pub bwrite : ℕ → Cache → Cache
bwrite b c = record c { disk = update c.disk b (c.contents b); past = c.disk ∷ c.past }

-- `Q` holds of the disk, and `P` of every disk that a crash could have left before.
abbrev pub Passed {κ μ} : (P : Disk → Type κ) → (Q : Disk → Type μ) → Cache → Type (κ ⊔ μ)
Passed P Q c = All P c.past × Q c.disk

-- `P` holds of the disk, and of every disk that a crash could have left before.
abbrev pub Throughout {κ} : (Disk → Type κ) → Cache → Type κ
Throughout P = Passed P P
