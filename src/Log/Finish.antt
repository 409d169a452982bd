-- ===== src/Log/Finish.antt =====
-- The end of both recovery and commit: a committed log is installed, and then cleared.
use os_labs.Prelude.{
  ℕ, ◌≤◌, ◌<◌, ◌≡◌, refl, ◌≢◌, ◌∙◌, ap, Bool, ◌∷◌, All, arith, update, update_self, update_ne,
}
use os_labs.BlockCache.{Block, Disk, Cache, Passed, Throughout}
use os_labs.Log.{Log, log_size, rounds, slot, install_trans, header, write_head}
use os_labs.Log.Head.{header-n}
use os_labs.Log.Install.{Ready, install_loop-Passed, install_loop-disk, install_loop-contents}
use os_labs.Log.Kept.{
  logged_n, target, IsLogged, Kept, Kept-refl, Kept-update, Kept-Holds, Holds, Holds-clear,
}
use os_labs.Log.Replay.{replay, replay-ext, committed, IsHome, StandsFor}

pub write_head-disk :
    (l : Log) (c : Cache)
    → (write_head l c).disk ≡ update c.disk l.start (header l (c.contents l.start))
unfolding write_head
write_head-disk l c =
    ap (update c.disk l.start) (update_self c.contents l.start (header l (c.contents l.start)))

pub write_head-contents :
    (l : Log) (c : Cache)
    → (write_head l c).contents ≡ update c.contents l.start (header l (c.contents l.start))
unfolding write_head
write_head-contents l c = refl

pub write_head-past : (l : Log) (c : Cache) → (write_head l c).past ≡ c.disk ∷ c.past
unfolding write_head
write_head-past l c = refl

-- The header in memory is the one on the disk, whose log blocks are cached unchanged.
pub record IsLoaded (l : Log) (c : Cache) : Type 0 where
  pub logged : IsLogged l c.disk
  pub few : logged_n l c.disk ≤ log_size
  pub count : l.n ≡ c.disk l.start 0
  pub blocks : (t : ℕ) → t < rounds l.n → l.block t ≡ target l c.disk t
  pub clean : (t : ℕ) → t < rounds l.n → c.contents (slot l t) ≡ c.disk (slot l t)

abbrev pub cleared : Log → Log
cleared l = record l { n = 0 }

module _ (l : Log) (r : Bool) (c : Cache) (loaded : IsLoaded l c) where
  abbrev src : ℕ → Block
  src t = c.disk (slot l t)

  loaded-Ready : Ready l src (rounds l.n) c
  loaded-Ready = record {
    fits = rw loaded.count loaded.logged.fits;
    home = λ t h. rw (loaded.blocks t h) (loaded.logged.home t (rw (← loaded.count) h));
    logged = loaded.clean;
  }

  installed-disk : (b : ℕ) → (install_trans l r c).disk b ≡ committed l.start c.disk b
  unfolding install_trans committed replay
  installed-disk b =
      install_loop-disk l src r c.disk (rounds l.n) 0 (omega arith) loaded-Ready (λ b. refl) b
      ∙ rw (← loaded.count)
          (replay-ext c.disk c.disk (rounds l.n) b loaded.blocks (λ i h. refl) refl)

  pub installed-contents :
      (b : ℕ) → (install_trans l r c).contents b ≡ replay l.block src c.contents (rounds l.n) b
  unfolding install_trans replay
  installed-contents b =
      install_loop-contents l src r c.contents (rounds l.n) 0 (omega arith) loaded-Ready (λ b. refl)
        b

  unfoldable pub finished : Cache
  finished = write_head (cleared l) (install_trans l r c)

  finished-disk :
      finished.disk
      ≡ update
          (install_trans l r c).disk
          l.start
          (header (cleared l) ((install_trans l r c).contents l.start))
  unfolding finished
  finished-disk = write_head-disk (cleared l) (install_trans l r c)

  home-ne-start : (b : ℕ) → IsHome l b → l.start ≢ b
  home-ne-start b h = λ e. omega (arith, loaded.logged.fits)

  -- The header on the disk counts no block any more.
  pub finished-n : finished.disk l.start 0 ≡ 0
  finished-n =
      let hb = header (cleared l) ((install_trans l r c).contents l.start) in
      rw (finished-disk, update_self (install_trans l r c).disk l.start hb)
        (header-n (cleared l) ((install_trans l r c).contents l.start))

  -- Every block outside the log is what the disk stood for.
  pub finished-home : (b : ℕ) → IsHome l b → finished.disk b ≡ committed l.start c.disk b
  finished-home b h =
      let hb = header (cleared l) ((install_trans l r c).contents l.start) in
      rw (finished-disk, update_ne (install_trans l r c).disk l.start b hb (home-ne-start b h))
        (installed-disk b)

  pub finished-contents :
      (b : ℕ) → IsHome l b → finished.contents b ≡ replay l.block src c.contents (rounds l.n) b
  unfolding finished
  finished-contents b h =
      let hb = header (cleared l) ((install_trans l r c).contents l.start) in
      rw
        (
          write_head-contents (cleared l) (install_trans l r c),
          update_ne (install_trans l r c).contents l.start b hb (home-ne-start b h),
        )
        (installed-contents b)

  module _ {κ} (P : Disk → Type κ) (s : Disk) (weaken : (d : Disk) → Holds l s d → P d)
      (now : StandsFor l s c.disk) where
    Kept→P : (e : Disk) → Kept l c.disk e → P e
    Kept→P e k =
        weaken e (Kept-Holds k (record { logged = loaded.logged; few = loaded.few; stands = now }))

    installed-Passed : All P c.past → Passed P (Kept l c.disk) (install_trans l r c)
    unfolding install_trans
    installed-Passed past =
        install_loop-Passed l src P (Kept l c.disk) Kept→P r (rounds l.n) 0 (omega arith)
          loaded-Ready
          (λ t h e k. rw (loaded.blocks t h) (Kept-update loaded.logged t (rw loaded.count at h) k))
          (past, Kept-refl loaded.logged)

    pub finished-Holds : Holds l s finished.disk
    finished-Holds =
        Holds-clear (omega (arith, loaded.logged.fits)) finished-n
          (λ b h. finished-home b h ∙ now b h)

    -- At every disk write on the way the disk holds `s`.
    pub finished-Throughout : All P c.past → Throughout P finished
    unfolding finished
    finished-Throughout past =
        let (before, kept) = installed-Passed past in
        (
          rw (write_head-past (cleared l) (install_trans l r c)) (Kept→P _ kept, before),
          weaken _ finished-Holds,
        )
