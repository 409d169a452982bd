-- ===== src/Log/Crash.antt =====
-- A crash in the middle of `commit`, and the recovery of the next boot.
use os_labs.Prelude.{ℕ, ◌≡◌, ◌⊎◌, inl, inr, ◌∙◌, refl, false, some, [], All-map}
use os_labs.BlockCache.{Disk, Cache, boot, Throughout}
use os_labs.Log.{Log, commit, initlog}
use os_labs.Log.Commit.{Atomic, commit-Committed}
use os_labs.Log.Kept.{Holds, Holds-moved}
use os_labs.Log.Recover.{recover_from_log-Recovered}
use os_labs.Log.Replay.{SameHome}
use os_labs.Log.WriteLog.{IsOpen}

-- The next boot from the disk `d` recovers the blocks `s`, and so does a boot after a crash of
-- that recovery.
pub record Restores (l : Log) (dev : ℕ) (s d : Disk) : Type 0 where
  pub log : Log
  pub cache : Cache
  pub returns : initlog dev l.start l.size (boot d) ≡ some (log, cache)
  pub empty : log.n ≡ 0
  pub header : cache.disk l.start 0 ≡ 0
  pub on_disk : SameHome l cache.disk s
  pub cached : SameHome l cache.contents s
  pub restartable : Throughout (Holds l s) cache

Holds-Restores : (l : Log) (dev : ℕ) {s d : Disk} → Holds l s d → Restores l dev s d
unfolding initlog
Holds-Restores l dev {s} {d} h =
    let l₀ : Log = record {
      start = l.start;
      size = l.size;
      outstanding = 0;
      committing = false;
      dev = dev;
      n = 0;
      block = λ i. 0;
    } in
    let h₀ = Holds-moved l l₀ refl refl h in
    let (l', c', e, r) = recover_from_log-Recovered l₀ d h₀.logged h₀.few in
    record {
      log = l';
      cache = c';
      returns = e;
      empty = r.empty;
      header = r.header;
      on_disk = λ b out. r.home b out ∙ h.stands b out;
      cached = λ b out. r.cached b out ∙ h.stands b out;
      restartable =
          let again : (e : Disk) → Holds l₀ _ e → Holds l s e = λ e k.
            let k' = Holds-moved l₀ l refl refl k in
            record {
              logged = k'.logged;
              few = k'.few;
              stands = λ b out. k'.stands b out ∙ h.stands b out;
            } in
          (All-map again c'.past r.restartable.0, again c'.disk r.restartable.1);
    }

-- Whatever disk a crash during `commit` leaves, the next boot returns from its recovery with all
-- the blocks outside the log as they were before the transaction, or with all of them as the
-- transaction left them. The transaction is under way, and no disk is pending before the commit.
pub commit-Restores :
    (l : Log) (dev : ℕ) (c : Cache)
    → IsOpen l c
    → c.past ≡ []
    → Throughout (λ d. Restores l dev c.disk d ⊎ Restores l dev c.contents d) (commit l c).1
commit-Restores l dev c open' fresh =
    let done = commit-Committed l c open' (rw fresh tt) in
    let weaken : (d : Disk)
        → Atomic l c.disk c.contents d
        → Restores l dev c.disk d ⊎ Restores l dev c.contents d =
      λ d h. elim h [
        | inl old ↦ inl (Holds-Restores l dev old)
        | inr new ↦ inr (Holds-Restores l dev new)
      ] in
    (All-map weaken (commit l c).1.past done.atomic.0, weaken (commit l c).1.disk done.atomic.1)
