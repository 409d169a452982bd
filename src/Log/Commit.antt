-- ===== src/Log/Commit.antt =====
-- `commit`: the log is written, its header is written, and then it is installed and cleared.
use os_labs.Prelude.{
  ℕ, ◌<◌, ◌≡◌, refl, ◌⊎◌, inl, inr, ◌∙◌, sym, ap, true, false, All, arith, update_self, update_ne,
  ltb,
}
use native.Mathlib.Decide.{ℕ_discrete}
use os_labs.BlockCache.{Block, Disk, Cache, Throughout}
use os_labs.Log.{Log, rounds, slot, write_log, header, write_head, install_trans, commit}
use os_labs.Log.Head.{header-n, header-block}
use os_labs.Log.Finish.{
  write_head-disk, write_head-contents, write_head-past, IsLoaded, cleared, finished, finished-n,
  finished-home, finished-contents, finished-Throughout,
}
use os_labs.Log.Kept.{logged_n, target, Holds, Holds-clear}
use os_labs.Log.Replay.{replay_value, committed, IsHome, StandsFor}
use os_labs.Log.WriteLog.{IsOpen, Writing, Writing-Holds, write_log-Writing}

module _ {l : Log} {c₀ : Cache} (open' : IsOpen l c₀) where
  module _ {c : Cache} (w : Writing open' l.n c) where
    abbrev hb : Block
    hb = header l (c.contents l.start)

    abbrev headed : Cache
    headed = write_head l c

    rounds-n : rounds l.n ≡ l.n
    rounds-n = ground (arith, open'.few)

    on_header : headed.disk l.start ≡ hb
    on_header = rw (write_head-disk l c) (update_self c.disk l.start hb)

    logged-n : logged_n l headed.disk ≡ l.n
    logged-n = rw (on_header, header-n l (c.contents l.start)) rounds-n

    target-block : (t : ℕ) → t < l.n → target l headed.disk t ≡ l.block t
    target-block t h =
        rw (on_header, target) (header-block l (c.contents l.start) t (rw rounds-n h))

    slot-disk : (t : ℕ) → t < l.n → headed.disk (slot l t) ≡ c₀.contents (l.block t)
    slot-disk t h =
        rw (write_head-disk l c)
          (update_ne c.disk l.start (slot l t) hb (λ e. omega arith) ∙ w.written t h)

    slot-contents : (t : ℕ) → t < l.n → headed.contents (slot l t) ≡ c₀.contents (l.block t)
    slot-contents t h =
        rw (write_head-contents l c)
          (update_ne c.contents l.start (slot l t) hb (λ e. omega arith) ∙ w.copied t h)

    home-disk : (b : ℕ) → IsHome l b → headed.disk b ≡ c₀.disk b
    home-disk b h =
        rw (write_head-disk l c)
          (update_ne c.disk l.start b hb (λ e. omega (arith, open'.fits)) ∙ w.on_disk b h)

    home-contents : (b : ℕ) → IsHome l b → headed.contents b ≡ c₀.contents b
    home-contents b h =
        rw (write_head-contents l c)
          (update_ne c.contents l.start b hb (λ e. omega (arith, open'.fits)) ∙ w.cached b h)

    headed-IsLoaded : IsLoaded l headed
    headed-IsLoaded = record {
      logged = record {
        fits = rw logged-n open'.fits;
        home = λ t h.
            let h' : t < l.n = omega (arith, logged-n) in rw (target-block t h') (open'.home t h');
      };
      few = rw logged-n open'.few;
      count = rw (on_header, header-n l (c.contents l.start));
      blocks = λ t h. sym (target-block t (rw rounds-n at h));
      clean =
          λ t h. let h' : t < l.n = rw rounds-n at h in slot-contents t h' ∙ sym (slot-disk t h');
    }

    -- The write of the header is the commit: from here on the disk stands for the new blocks.
    headed-StandsFor : StandsFor l c₀.contents headed.disk
    unfolding committed
    headed-StandsFor b out =
        replay_value (target l headed.disk) (λ t. headed.disk (slot l t)) headed.disk
          (logged_n l headed.disk) b (c₀.contents b)
          (λ t h at.
            let h' : t < l.n = omega (arith, logged-n) in
            slot-disk t h' ∙ ap c₀.contents (sym (target-block t h') ∙ at))
          λ missed.
            home-disk b out
            ∙ sym (
                open'.rest b out
                  λ t h at. missed t (omega (arith, logged-n)) (target-block t h ∙ at))

    abbrev done : Cache
    done = finished l false headed headed-IsLoaded

    done-contents : (b : ℕ) → IsHome l b → done.contents b ≡ c₀.contents b
    done-contents b out =
        finished-contents l false headed headed-IsLoaded b out
        ∙ replay_value l.block (λ t. headed.disk (slot l t)) headed.contents (rounds l.n) b
            (c₀.contents b) (λ t h at. slot-disk t (rw rounds-n at h) ∙ ap c₀.contents at)
            (λ _. home-contents b out)

-- What a crash during the commit of the blocks `new` over `old` may leave.
abbrev pub Atomic : Log → (old new : Disk) → Disk → Type 0
Atomic l old new d = Holds l old d ⊎ Holds l new d

-- What `commit` must achieve, in terms of the blocks `c.contents` of the transaction.
pub record Committed (l : Log) (c : Cache) (l' : Log) (c' : Cache) : Type 0 where
  pub empty : l'.n ≡ 0
  pub header : c'.disk l.start 0 ≡ 0
  pub on_disk : (b : ℕ) → IsHome l b → c'.disk b ≡ c.contents b
  pub cached : (b : ℕ) → IsHome l b → c'.contents b ≡ c.contents b
  pub atomic : Throughout (Atomic l c.disk c.contents) c'

commit-empty :
    {l : Log} {c : Cache}
    → IsOpen l c
    → All (Atomic l c.disk c.contents) c.past
    → l.n ≡ 0
    → Committed l c l c
commit-empty {l} {c} open' past none_logged = record {
  empty = none_logged;
  header = open'.empty;
  on_disk = λ b out. sym (same b out);
  cached = λ b out. refl;
  atomic = (past, inl (Holds-clear (omega (arith, open'.fits)) open'.empty (λ b out. refl)));
}
  where
    same : (b : ℕ) → IsHome l b → c.contents b ≡ c.disk b
    same b out = open'.rest b out (λ t h. absurd (omega arith))

commit-logged :
    {l : Log} {c : Cache} (open' : IsOpen l c)
    → All (Atomic l c.disk c.contents) c.past
    → (done : Cache) × (done
        ≡ write_head (cleared l) (install_trans l false (write_head l (write_log l c))))
      × Committed l c (cleared l) done
unfolding finished
commit-logged {l} {c} open' past =
    let P = Atomic l c.disk c.contents in
    let (w, past₁) = write_log-Writing open' P (λ d h. inl h) past in
    let loaded = headed-IsLoaded open' w in
    let stands = headed-StandsFor open' w in
    let past₂ : All P (headed open' w).past =
      rw (write_head-past l (write_log l c)) (inl (Writing-Holds open' w), past₁) in
    (
      done open' w,
      refl,
      record {
        empty = refl;
        header = finished-n l false (headed open' w) loaded;
        on_disk = λ b out. finished-home l false (headed open' w) loaded b out ∙ stands b out;
        cached = done-contents open' w;
        atomic =
            finished-Throughout l false (headed open' w) loaded P c.contents (λ d h. inr h) stands
              past₂;
      },
    )

-- `commit` of a transaction under way, from any cache that a crash can have left only disks of the
-- old or of the new blocks behind: the log is empty afterwards, in memory and on the disk; outside
-- the log, disk and cache hold the blocks of the transaction; and at every disk write on the way a
-- recovery would bring back either all the old blocks or all the new ones.
pub commit-Committed :
    (l : Log) (c : Cache)
    → IsOpen l c
    → All (Atomic l c.disk c.contents) c.past
    → Committed l c (commit l c).0 (commit l c).1
unfolding commit
commit-Committed l c open' past = elim (ℕ_discrete l.n 0) [
  | yes none_logged ↦
      let e : ltb 0 (rounds l.n) ≡ false = ground arith in
      rw e (commit-empty open' past none_logged)
  | no some_logged ↦
      let e : ltb 0 (rounds l.n) ≡ true = ground (arith, open'.few) in
      let (c', at, ok) = commit-logged open' past in rw (e, ← at) ok
]
