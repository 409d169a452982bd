-- ===== src/Log/WriteLog.antt =====
-- `write_log`: while it runs the disk outside the log does not change.
use mathlib.Core.Path.{subst}
use os_labs.Prelude.{
  ℕ, zero, suc, ◌+◌, ◌≤◌, ◌<◌, ◌≡◌, refl, ◌≢◌, ◌∙◌, ◌∷◌, All, arith, update, update_self, update_ne,
}
use native.Mathlib.Decide.{ℕ_discrete}
use os_labs.BlockCache.{Block, Disk, Cache}
use os_labs.Log.{Log, log_size, rounds, slot, write_log_block, write_log_loop, write_log}
use os_labs.Log.Kept.{Holds, Holds-clear}
use os_labs.Log.Replay.{IsHome}

-- A transaction is under way: the log on the disk is empty, the blocks that the log names lie
-- outside of it, and those that it does not name are on the disk as in the cache.
pub record IsOpen (l : Log) (c : Cache) : Type 0 where
  pub few : l.n ≤ log_size
  pub fits : l.n < l.size
  pub home : (t : ℕ) → t < l.n → IsHome l (l.block t)
  pub empty : c.disk l.start 0 ≡ 0
  pub rest : (b : ℕ) → IsHome l b → ((t : ℕ) → t < l.n → l.block t ≢ b) → c.contents b ≡ c.disk b

module _ (l : Log) (t : ℕ) (c : Cache) where
  block-contents :
      (write_log_block l t c).contents ≡ update c.contents (slot l t) (c.contents (l.block t))
  unfolding write_log_block
  block-contents = refl

  block-disk : (write_log_block l t c).disk ≡ update c.disk (slot l t) (c.contents (l.block t))
  unfolding write_log_block
  block-disk = rw (update_self c.contents (slot l t) (c.contents (l.block t)))

  block-past : (write_log_block l t c).past ≡ c.disk ∷ c.past
  unfolding write_log_block
  block-past = refl

module _ {l : Log} {c₀ : Cache} (open' : IsOpen l c₀) where
  -- After `t` rounds of `write_log`.
  pub record Writing (t : ℕ) (c : Cache) : Type 0 where
    pub on_header : c.disk l.start ≡ c₀.disk l.start
    pub on_disk : (b : ℕ) → IsHome l b → c.disk b ≡ c₀.disk b
    pub cached : (b : ℕ) → IsHome l b → c.contents b ≡ c₀.contents b
    pub written : (u : ℕ) → u < t → c.disk (slot l u) ≡ c₀.contents (l.block u)
    pub copied : (u : ℕ) → u < t → c.contents (slot l u) ≡ c₀.contents (l.block u)

  Writing-start : Writing 0 c₀
  Writing-start = record {
    on_header = refl;
    on_disk = λ b h. refl;
    cached = λ b h. refl;
    written = λ u h. elim h [ ];
    copied = λ u h. elim h [ ];
  }

  module _ {t : ℕ} {c : Cache} (lt : t < l.n) (w : Writing t c) where
    abbrev v : Block
    v = c.contents (l.block t)

    v_lem : v ≡ c₀.contents (l.block t)
    v_lem = w.cached (l.block t) (open'.home t lt)

    slot_hit :
        (f : ℕ → Block)
        → ((u : ℕ) → u < t → f (slot l u) ≡ c₀.contents (l.block u))
        → (u : ℕ) → u < t + 1
        → update f (slot l t) v (slot l u) ≡ c₀.contents (l.block u)
    slot_hit f before u lt' = elim (ℕ_discrete t u) [
      | yes here ↦ rw (← here) (update_self f (slot l t) v ∙ v_lem)
      | no other ↦
          update_ne f (slot l t) (slot l u) v (λ e. other (omega arith)) ∙ before u (omega arith)
    ]

    home_kept : (f g : ℕ → Block) (b : ℕ) → IsHome l b → f b ≡ g b → update f (slot l t) v b ≡ g b
    home_kept f g b h e = update_ne f (slot l t) b v (λ q. omega (arith, open'.fits)) ∙ e

    Writing-step : Writing (t + 1) (write_log_block l t c)
    Writing-step = record {
      on_header =
          rw (block-disk l t c)
            (update_ne c.disk (slot l t) l.start v (λ e. omega arith) ∙ w.on_header);
      on_disk = λ b h. rw (block-disk l t c) (home_kept c.disk c₀.disk b h (w.on_disk b h));
      cached =
          λ b h. rw (block-contents l t c) (home_kept c.contents c₀.contents b h (w.cached b h));
      written = rw (block-disk l t c) (slot_hit c.disk w.written);
      copied = rw (block-contents l t c) (slot_hit c.contents w.copied);
    }

  -- So far a recovery would bring back the disk as it was.
  pub Writing-Holds : {t : ℕ} {c : Cache} → Writing t c → Holds l c₀.disk c.disk
  Writing-Holds w = Holds-clear (omega (arith, open'.fits)) (rw w.on_header open'.empty) w.on_disk

  module _ {κ} (P : Disk → Type κ) (weaken : (d : Disk) → Holds l c₀.disk d → P d) where
    write_log_loop-Writing :
        (left t : ℕ) {c : Cache}
        → t + left ≡ l.n
        → Writing t c
        → All P c.past
        → Writing l.n (write_log_loop l left t c) × All P (write_log_loop l left t c).past
    unfolding write_log_loop
    write_log_loop-Writing zero t {c} e w past =
        let e' : t ≡ l.n = omega arith in (subst (λ k. Writing k c) e' w, past)
    write_log_loop-Writing (suc left) t {c} e w past =
        write_log_loop-Writing left (t + 1) (omega arith) (Writing-step (omega arith) w)
          (rw (block-past l t c) (weaken c.disk (Writing-Holds w), past))

    -- `write_log` copies the named blocks into the log, on the disk too.
    pub write_log-Writing :
        All P c₀.past → Writing l.n (write_log l c₀) × All P (write_log l c₀).past
    unfolding write_log
    write_log-Writing past =
        write_log_loop-Writing (rounds l.n) 0 (ground (arith, open'.few)) Writing-start past
