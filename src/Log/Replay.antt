-- ===== src/Log/Replay.antt =====
-- What a disk with a log stands for: the blocks named by the header, read from the log.
use os_labs.Prelude.{
  ℕ, zero, suc, ◌+◌, ◌≤◌, ◌<◌, ◌≡◌, refl, ◌≢◌, ◌⊎◌, arith, ◌==◌, eq→==, ne→==, if◌then◌else◌,
}
use native.Mathlib.Decide.{ℕ_discrete}
use os_labs.BlockCache.{Block, Disk}
use os_labs.Log.{Log, rounds}

-- The blocks of `base`, but the first `k` targets `blk i` hold `src i`; the last of them counts.
unfoldable pub replay : (blk : ℕ → ℕ) → (src : ℕ → Block) → Disk → ℕ → Disk
replay blk src base zero b = base b
replay blk src base (suc k) b = if blk k == b then src k else replay blk src base k b

-- The disk that stands after recovery: an independent description of `recover_from_log`.
unfoldable pub committed : (start : ℕ) → Disk → Disk
committed start d = replay (λ i. d start (i + 1)) (λ i. d (start + i + 1)) d (rounds (d start 0))

-- Outside the log area.
abbrev pub IsHome : Log → ℕ → Type 0
IsHome l b = (b < l.start) ⊎ (l.start + l.size ≤ b)

-- Two disks agree outside the log area.
abbrev pub SameHome : Log → Disk → Disk → Type 0
SameHome l d e = (b : ℕ) → IsHome l b → d b ≡ e b

pub replay-ext :
    {blk blk' : ℕ → ℕ} {src src' : ℕ → Block} (base base' : Disk) (k b : ℕ)
    → ((i : ℕ) → i < k → blk i ≡ blk' i)
    → ((i : ℕ) → i < k → src i ≡ src' i)
    → base b ≡ base' b
    → replay blk src base k b ≡ replay blk' src' base' k b
unfolding replay
replay-ext base base' zero b hb hs e = e
replay-ext {src} {src'} base base' (suc k) b hb hs e =
    let rest =
      replay-ext {src = src} {src' = src'} base base' k b (λ i h. hb i (omega arith))
        (λ i h. hs i (omega arith)) e in
    ground (arith, hb k (omega arith), hs k (omega arith), rest)

-- A target does not keep what the disk held.
pub replay-base :
    (blk : ℕ → ℕ) (src : ℕ → Block) (base base' : Disk) (k b t : ℕ)
    → t < k
    → blk t ≡ b
    → replay blk src base k b ≡ replay blk src base' k b
unfolding replay
replay-base blk src base base' zero b t h e = absurd (omega arith)
replay-base blk src base base' (suc k) b t h e =
    ground (arith, replay-base blk src base base' k b t)

-- A block that is no target does.
pub replay_miss :
    (blk : ℕ → ℕ) (src : ℕ → Block) (base : Disk) (k b : ℕ)
    → ((i : ℕ) → i < k → blk i ≢ b)
    → replay blk src base k b ≡ base b
unfolding replay
replay_miss blk src base zero b h = refl
replay_miss blk src base (suc k) b h =
    ground (arith, h k (omega arith), replay_miss blk src base k b (λ i lt. h i (omega arith)))

-- All writes to `b` write `v`, and if there is none, `b` holds `v`.
pub replay_value :
    (blk : ℕ → ℕ) (src : ℕ → Block) (base : Disk) (k b : ℕ) (v : Block)
    → ((i : ℕ) → i < k → blk i ≡ b → src i ≡ v)
    → (((i : ℕ) → i < k → blk i ≢ b) → base b ≡ v)
    → replay blk src base k b ≡ v
unfolding replay
replay_value blk src base zero b v hit miss = miss (λ i lt. absurd (omega arith))
replay_value blk src base (suc k) b v hit miss = elim (ℕ_discrete (blk k) b) [
  | yes at ↦ rw (eq→== (blk k) b at) (hit k (omega arith) at)
  | no other ↦ rw (ne→== (blk k) b other) (
      replay_value blk src base k b v (λ i lt. hit i (omega arith))
        λ none_below. miss λ i lt e. elim (ℕ_discrete i k) [
          | yes last ↦ other (rw last at e)
          | no before ↦ none_below i (omega arith) e
        ])
]

-- A disk whose header counts no block stands for itself.
pub committed_clear :
    (start : ℕ) (d : Disk) (b : ℕ) → rounds (d start 0) ≡ 0 → committed start d b ≡ d b
unfolding committed replay
committed_clear start d b e = rw (e, replay)

-- `d` stands for `s`.
abbrev pub StandsFor : Log → Disk → Disk → Type 0
StandsFor l s d = SameHome l (committed l.start d) s
