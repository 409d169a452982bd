-- ===== src/Log/Recover.antt =====
-- `recover_from_log` and `initlog`, run on a disk as a crash may have left it.
use os_labs.Prelude.{ℕ, ◌≤◌, ◌≡◌, refl, ◌∙◌, true, some, arith, leb}
use os_labs.BlockCache.{Disk, Cache, boot, bread, brelse, Throughout}
use os_labs.Log.{Log, log_size, read_head_loop, read_head, recover_from_log}
use os_labs.Log.Head.{read_head_loop-at}
use os_labs.Log.Finish.{
  IsLoaded, cleared, finished, finished-n, finished-home, finished-contents, finished-Throughout,
}
use os_labs.Log.Kept.{logged_n, IsLogged, Holds, Holds-moved}
use os_labs.Log.Replay.{replay-ext, committed, IsHome}

le→leb : (a b : ℕ) → a ≤ b → leb a b ≡ true
le→leb a b h = ground arith

-- What `read_head` leaves: the header of the disk, and the header block in the cache.
abbrev loaded_log : Log → Disk → Log
loaded_log l d = record l {
  n = d l.start 0;
  block = read_head_loop (d l.start) (logged_n l d) 0 l.block;
}

abbrev loaded_cache : Log → Disk → Cache
loaded_cache l d = brelse l.start (bread l.start (boot d))

module _ {l : Log} {d : Disk} (ok : IsLogged l d) (few : logged_n l d ≤ log_size) where
  read_head_lem : read_head l (boot d) ≡ some (loaded_log l d, loaded_cache l d)
  unfolding read_head
  read_head_lem = rw (le→leb (logged_n l d) log_size few)

  loaded : IsLoaded (loaded_log l d) (loaded_cache l d)
  loaded = record {
    logged = record { fits = ok.fits; home = ok.home };
    few = few;
    count = refl;
    blocks =
        λ t h. read_head_loop-at (d l.start) (logged_n l d) 0 t l.block (omega arith) (omega arith);
    clean = λ t h. refl;
  }

  abbrev recovered : Cache
  recovered = finished (loaded_log l d) true (loaded_cache l d) loaded

  recover_from_log-eq : recover_from_log l (boot d) ≡ some (cleared (loaded_log l d), recovered)
  unfolding recover_from_log finished
  recover_from_log-eq = rw (read_head_lem, recover_from_log)

  recovered-contents : (b : ℕ) → IsHome l b → recovered.contents b ≡ committed l.start d b
  unfolding committed
  recovered-contents b h =
      finished-contents (loaded_log l d) true (loaded_cache l d) loaded b h
      ∙ replay-ext d d (logged_n l d) b loaded.blocks (λ i q. refl) refl

-- What a recovery from the disk `d` must achieve, in terms of what `d` stands for.
pub record Recovered (l : Log) (d : Disk) (l' : Log) (c : Cache) : Type 0 where
  pub empty : l'.n ≡ 0
  pub start : l'.start ≡ l.start
  pub size : l'.size ≡ l.size
  pub outstanding : l'.outstanding ≡ l.outstanding
  pub committing : l'.committing ≡ l.committing
  pub header : c.disk l.start 0 ≡ 0
  pub home : (b : ℕ) → IsHome l b → c.disk b ≡ committed l.start d b
  pub cached : (b : ℕ) → IsHome l b → c.contents b ≡ committed l.start d b
  pub restartable : Throughout (Holds l (committed l.start d)) c

-- `recover_from_log` on a disk with a well-formed log of at most LOGSIZE blocks returns. The log is
-- then empty in memory and on the disk, every block outside the log is what the disk stood for, on
-- the disk and in the cache, and the same holds after a crash at any disk write on the way.
pub recover_from_log-Recovered :
    (l : Log) (d : Disk)
    → IsLogged l d
    → logged_n l d ≤ log_size
    → (l' : Log) × (c : Cache) × (recover_from_log l (boot d) ≡ some (l', c)) × Recovered l d l' c
recover_from_log-Recovered l d ok few =
    let loaded_d = loaded ok few in
    let on_disk =
      finished-Throughout (loaded_log l d) true (loaded_cache l d) loaded_d
        (Holds l (committed l.start d)) (committed l.start d)
        (λ e. Holds-moved (loaded_log l d) l refl refl) (λ b h. refl) tt in
    (
      cleared (loaded_log l d),
      recovered ok few,
      recover_from_log-eq ok few,
      record {
        empty = refl;
        start = refl;
        size = refl;
        outstanding = refl;
        committing = refl;
        header = finished-n (loaded_log l d) true (loaded_cache l d) loaded_d;
        home = finished-home (loaded_log l d) true (loaded_cache l d) loaded_d;
        cached = recovered-contents ok few;
        restartable = on_disk;
      },
    )
