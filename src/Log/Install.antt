-- ===== src/Log/Install.antt =====
-- The loop of `install_trans`: what it leaves, and what holds at every disk write on the way.
use os_labs.Prelude.{
  ℕ, zero, suc, ◌+◌, ◌<◌, ◌≡◌, refl, Bool, true, false, ◌∷◌, arith, update, update_self, update_ne,
  ◌∙◌,
}
use native.Mathlib.Numerals.{add-one}
use os_labs.BlockCache.{Block, Disk, Cache, Passed}
use os_labs.Log.{Log, slot, install_block, install_loop}
use os_labs.Log.Replay.{replay, IsHome}

-- The log blocks in the cache hold `src`, and the targets lie outside the log.
pub record Ready (l : Log) (src : ℕ → Block) (n : ℕ) (c : Cache) : Type 0 where
  pub fits : n < l.size
  pub home : (t : ℕ) → t < n → IsHome l (l.block t)
  pub logged : (t : ℕ) → t < n → c.contents (slot l t) ≡ src t

module _ (l : Log) (src : ℕ → Block) where
  block-contents :
      (r : Bool) (t : ℕ) (c : Cache)
      → (install_block l r t c).contents ≡ update c.contents (l.block t) (c.contents (slot l t))
  unfolding install_block
  block-contents true t c = refl
  block-contents false t c = refl

  block-disk :
      (r : Bool) (t : ℕ) (c : Cache)
      → (install_block l r t c).disk ≡ update c.disk (l.block t) (c.contents (slot l t))
  unfolding install_block
  block-disk true t c = rw (update_self c.contents (l.block t) (c.contents (slot l t)))
  block-disk false t c = rw (update_self c.contents (l.block t) (c.contents (slot l t)))

  block-past : (r : Bool) (t : ℕ) (c : Cache) → (install_block l r t c).past ≡ c.disk ∷ c.past
  unfolding install_block
  block-past true t c = refl
  block-past false t c = refl

  block-Ready :
      (r : Bool) {n t : ℕ} {c : Cache}
      → t < n
      → Ready l src n c
      → Ready l src n (install_block l r t c)
  block-Ready r {n} {t} {c} lt h = record {
    fits = h.fits;
    home = h.home;
    logged = λ u q. rw (block-contents r t c) (
        update_ne c.contents (l.block t) (slot l u) (c.contents (slot l t))
          (λ e. absurd (omega (arith, h.home t lt, h.fits)))
        ∙ h.logged u q);
  }

  module _ {κ μ} (P : Disk → Type κ) (Q : Disk → Type μ) (weaken : (d : Disk) → Q d → P d)
      (r : Bool) where
    block-Passed :
        {n t : ℕ} {c : Cache}
        → t < n
        → Ready l src n c
        → ((d : Disk) → Q d → Q (update d (l.block t) (src t)))
        → Passed P Q c
        → Passed P Q (install_block l r t c)
    block-Passed {n} {t} {c} lt h keep p =
        rw (block-past r t c, block-disk r t c, h.logged t lt)
          ((weaken c.disk p.1, p.0), keep c.disk p.1)

    -- `Q` survives the loop if it survives each write of a logged block to its home.
    pub install_loop-Passed :
        (left tail : ℕ) {n : ℕ} {c : Cache}
        → tail + left ≡ n
        → Ready l src n c
        → ((t : ℕ) → t < n → (d : Disk) → Q d → Q (update d (l.block t) (src t)))
        → Passed P Q c
        → Passed P Q (install_loop l r left tail c)
    unfolding install_loop
    install_loop-Passed zero tail e h keep p = p
    install_loop-Passed (suc left) tail e h keep p =
        install_loop-Passed left (tail + 1) (omega arith) (block-Ready r (omega arith) h) keep
          (block-Passed (omega arith) h (keep tail (omega arith)) p)

  module _ (r : Bool) (base : Disk) where
    replay_step :
        (f : Disk) (t b : ℕ)
        → f b ≡ replay l.block src base t b
        → update f (l.block t) (src t) b ≡ replay l.block src base (t + 1) b
    unfolding replay
    replay_step f t b e = rw add-one (ground arith)

    -- The disk after the loop holds the replay of the logged blocks.
    pub install_loop-disk :
        (left tail : ℕ) {n : ℕ} {c : Cache}
        → tail + left ≡ n
        → Ready l src n c
        → ((b : ℕ) → c.disk b ≡ replay l.block src base tail b)
        → (b : ℕ) → (install_loop l r left tail c).disk b ≡ replay l.block src base n b
    unfolding install_loop
    install_loop-disk zero tail {n} e h at b = let e' : n ≡ tail = omega arith in rw e' (at b)
    install_loop-disk (suc left) tail {c} e h at b =
        install_loop-disk left (tail + 1) (omega arith) (block-Ready r (omega arith) h)
          (λ b.
            rw (block-disk r tail c, h.logged tail (omega arith))
              (replay_step c.disk tail b (at b)))
          b

    -- So does the cache.
    pub install_loop-contents :
        (left tail : ℕ) {n : ℕ} {c : Cache}
        → tail + left ≡ n
        → Ready l src n c
        → ((b : ℕ) → c.contents b ≡ replay l.block src base tail b)
        → (b : ℕ) → (install_loop l r left tail c).contents b ≡ replay l.block src base n b
    unfolding install_loop
    install_loop-contents zero tail {n} e h at b = let e' : n ≡ tail = omega arith in rw e' (at b)
    install_loop-contents (suc left) tail {c} e h at b =
        install_loop-contents left (tail + 1) (omega arith) (block-Ready r (omega arith) h)
          (λ b.
            rw (block-contents r tail c, h.logged tail (omega arith))
              (replay_step c.contents tail b (at b)))
          b
