-- ===== src/Log/Safety.antt =====
-- What holds of the file system calls over the log in every state that they can reach.
use os_labs.Prelude.{ℕ, ◌≤◌, ◌<◌, ◌≡◌, refl, ◌⊎◌, ◌∙◌, sym, false, some, [], arith, get_elem?}
use os_labs.BlockCache.{Block, Disk, Cache, boot, Throughout}
use os_labs.Log.{Log, max_op_blocks, log_size, commit, initlog}
use os_labs.Log.Crash.{Restores, commit-Restores}
use os_labs.Log.Kept.{logged_n, IsLogged}
use os_labs.Log.Recover.{Recovered, recover_from_log-Recovered}
use os_labs.Log.Replay.{IsHome}
use os_labs.Log.Reserve.{Inv}
use os_labs.Log.Steps.{Reach-Inv, write_block_lem}
use os_labs.Log.System.{System, Reach, write_block}

-- The log as `initlog` sets it up before it recovers.
abbrev pub fresh_log : (dev start size : ℕ) → Log
fresh_log dev start size = record {
  start = start;
  size = size;
  outstanding = 0;
  committing = false;
  dev = dev;
  n = 0;
  block = λ i. 0;
}

-- After a recovery, with no crash pending and no call active.
abbrev pub booted : Log → Cache → System
booted l c = record { log = l; cache = record c { past = [] }; used = [] }

Recovered-Inv :
    {l l' : Log} {d : Disk} {c : Cache}
    → log_size < l.size
    → l.outstanding ≡ 0
    → l.committing ≡ false
    → Recovered l d l' c
    → Inv (booted l' c)
Recovered-Inv {l} {l'} {c} larger none_active free r = record {
  larger = rw r.size larger;
  counted = r.outstanding ∙ none_active;
  bounded = omega (arith, r.outstanding);
  reserved = omega (arith, r.empty);
  alone = λ busy. refl;
  opened = record {
    few = omega (arith, r.empty);
    fits = rw r.size (omega (arith, r.empty));
    home = λ t h. absurd (omega (arith, r.empty));
    empty = rw r.start r.header;
    rest = λ b h _.
        let h' : IsHome l b = rw (r.start, r.size) at h in r.cached b h' ∙ sym (r.home b h');
  };
  distinct = λ t u h _ _. absurd (omega (arith, r.empty));
  settled = refl;
}

-- `initlog`, on a disk whose log is well formed, with at most LOGSIZE blocks in it, and larger than
-- LOGSIZE, returns a log and a cache from which the calls may start: the log invariant holds.
pub initlog-Inv :
    (dev start size : ℕ) (d : Disk)
    → IsLogged (fresh_log dev start size) d
    → logged_n (fresh_log dev start size) d ≤ log_size
    → log_size < size
    → (l : Log) × (c : Cache) × (initlog dev start size (boot d) ≡ some (l, c)) × Inv (booted l c)
unfolding initlog
initlog-Inv dev start size d ok few larger =
    let (l, c, e, r) = recover_from_log-Recovered (fresh_log dev start size) d ok few in
    (l, c, e, Recovered-Inv larger refl refl r)

-- No interleaving of file system calls that keep to MAXOPBLOCKS blocks each leads to a panic of
-- `log_write`: in every state that is reachable from one where the invariant holds, an active call
-- with budget left can write any block outside the log.
pub write_block-returns :
    {s t : System} (i u b : ℕ) (d : Block)
    → Inv s
    → Reach s t
    → get_elem? t.used i ≡ some u
    → u < max_op_blocks
    → IsHome t.log b
    → (l : Log) × (c : Cache) × (write_block b d t.log t.cache ≡ some (l, c))
write_block-returns i u b d inv r active budget out =
    let (l, c, wrote) = write_block_lem (Reach-Inv inv r) i u b d active budget out in
    (l, c, wrote.0)

-- In every reachable state, a crash at any disk write of a commit made there leaves a disk from
-- which the next boot recovers all blocks as before the transaction, or all as after it.
pub crash_is_atomic :
    {s t : System} (dev : ℕ)
    → Inv s
    → Reach s t
    → Throughout
        (λ d. Restores t.log dev t.cache.disk d ⊎ Restores t.log dev t.cache.contents d)
        (commit t.log t.cache).1
crash_is_atomic {t} dev inv r =
    let inv' = Reach-Inv inv r in commit-Restores t.log dev t.cache inv'.opened inv'.settled
