-- ===== src/Process/Exit.antt =====
-- `exit`: what becomes of the process, its children and its parent.
use os_labs.Prelude.{
  ℕ, suc, ◌<◌, ◌≡◌, refl, ◌≢◌, ◌⊎◌, inl, inr, ◌∙◌, sym, ap, true, false, some, ltb, update_ne,
  arith, eq→==, ne→==,
}
use mathlib.Core.Path.{subst}
use os_labs.Process.{Proc, Table, unused, sleeping, runnable, zombie, nproc, set_proc, freeproc}
use os_labs.Process.Family.{
  stir, wakeup_at, wakeup-parent, Stirred, Stirs, wakeup-Stirs, Stirs-trans, parent_after,
  Reparented, reparent_loop-Reparented,
}
use os_labs.Process.Keeps.{exit-eq}
use os_labs.Process.Reap.{WaitEnds, wait-WaitEnds, is_dead}
use os_labs.Process.Wait.{
  wakeup, reparent, close_all, leave_family, become_zombie, exit, Waited, reaped, failed, waits,
  wait,
}

-- What `exit` by the process in slot `me` leaves.
pub record Exited (me status : ℕ) (t u : Table) : Type 0 where
  pub dead : ((u.proc me).state ≡ zombie) × ((u.proc me).xstate ≡ status)
  pub orphans :
      (j : ℕ) → j < nproc → (u.proc j).parent ≡ parent_after (suc me) t.initproc (t.proc j).parent
  pub childless : (j : ℕ) → j < nproc → (u.proc j).parent ≢ suc me
  pub woken :
      (p : ℕ)
      → p < nproc
      → p ≢ me
      → (t.proc me).parent ≡ suc p
      → (t.proc p).state ≡ sleeping
      → (t.proc p).chan ≡ suc p
      → (u.proc p).state ≡ runnable
  pub others : (j : ℕ) → j ≢ me → Stirs j t u

module _ (me : ℕ) (t : Table) where
  abbrev left : Table
  left = leave_family me (close_all me t)

  closed-parent : (j : ℕ) → ((close_all me t).proc j).parent ≡ (t.proc j).parent
  unfolding close_all
  closed-parent j = ground arith

  closed-Stirs : (j : ℕ) → Stirs j t (close_all me t)
  unfolding close_all
  closed-Stirs j = (ground arith, inl (ground arith))

  reparented :
      Reparented (suc me) nproc 0 (close_all me t) (reparent (suc me) (suc me) (close_all me t))
  unfolding reparent
  reparented = reparent_loop-Reparented (suc me) (suc me) nproc 0 (close_all me t)

  left-parent :
      (j : ℕ)
      → j < nproc
      → (left.proc j).parent ≡ parent_after (suc me) t.initproc (t.proc j).parent
  unfolding leave_family close_all
  left-parent j h =
      let u = reparent (suc me) (suc me) (close_all me t) in
      wakeup-parent (suc me) (u.proc me).parent u j
      ∙ reparented.inside j (omega arith) (omega arith)
      ∙ ap (parent_after (suc me) t.initproc) (closed-parent j)

  left-Stirs : (j : ℕ) → Stirs j t left
  unfolding leave_family
  left-Stirs j =
      let u = reparent (suc me) (suc me) (close_all me t) in
      let woken = wakeup (suc me) (u.proc me).parent u in
      Stirs-trans j t u woken
        (Stirs-trans j t (close_all me t) u (closed-Stirs j) (reparented.stirs j))
        (wakeup-Stirs (suc me) (u.proc me).parent u j)

  -- The parent's channel, when it is woken.
  chan_is_parent :
      (p : ℕ)
      → me < nproc
      → p ≢ me
      → (t.proc me).parent ≡ suc p
      → ((reparent (suc me) (suc me) (close_all me t)).proc me).parent ≡ suc p
  unfolding close_all
  chan_is_parent p h ne e =
      reparented.inside me (omega arith) (omega arith)
      ∙ ap (parent_after (suc me) t.initproc) (closed-parent me ∙ e)
      ∙ rw (ne→== (suc p) (suc me) (omega arith)) refl

  stir_woken :
      (p : ℕ) (q : Proc)
      → p ≢ me
      → ((q.state ≡ sleeping) × (q.chan ≡ suc p)) ⊎ (q.state ≡ runnable)
      → (stir (suc me) (suc p) p q).state ≡ runnable
  stir_woken p q ne (inl (s, c)) =
      rw (ne→== (suc p) (suc me) (omega arith), s, eq→== q.chan (suc p) c) refl
  stir_woken p q ne (inr s) = rw (ne→== (suc p) (suc me) (omega arith), s) refl

  left-woken :
      (p : ℕ)
      → me < nproc
      → p < nproc
      → p ≢ me
      → (t.proc me).parent ≡ suc p
      → (t.proc p).state ≡ sleeping
      → (t.proc p).chan ≡ suc p
      → (left.proc p).state ≡ runnable
  unfolding leave_family
  left-woken p hm hp ne e s c =
      let u = reparent (suc me) (suc me) (close_all me t) in
      let stirred = Stirs-trans p t (close_all me t) u (closed-Stirs p) (reparented.stirs p) in
      let ready : (((u.proc p).state ≡ sleeping) × ((u.proc p).chan ≡ suc p))
          ⊎ ((u.proc p).state ≡ runnable) =
        elim stirred.1 [ inl s' ↦ inl (s' ∙ s, stirred.0 ∙ c) | inr r ↦ inr r.1 ] in
      let slot : ltb p nproc ≡ true = ground arith in
      rw (chan_is_parent p hm ne e, wakeup_at (suc me) (suc p) u p, slot)
        (stir_woken p (u.proc p) ne ready)

zombie_self :
    (me status : ℕ) (t : Table)
    → (((become_zombie me status t).proc me).state ≡ zombie)
      × (((become_zombie me status t).proc me).xstate ≡ status)
unfolding become_zombie
zombie_self me status t = (ground arith, ground arith)

zombie_parent :
    (me status : ℕ) (t : Table) (j : ℕ)
    → ((become_zombie me status t).proc j).parent ≡ (t.proc j).parent
unfolding become_zombie
zombie_parent me status t j = ground arith

zombie_other :
    (me status : ℕ) (t : Table) (j : ℕ) → j ≢ me → (become_zombie me status t).proc j ≡ t.proc j
unfolding become_zombie
zombie_other me status t j ne =
    update_ne t.proc me j (record (t.proc me) { xstate = status; state = zombie }) (λ e. ne (sym e))

parent_after-ne : (p init parent : ℕ) → p ≢ init → parent_after p init parent ≢ p
parent_after-ne p init parent ne e = ground arith

-- A process that is not init and exits is left a zombie with its status. Its children now have init
-- for a parent, so that it has none; a parent that sleeps in `wait` is made runnable; and no other
-- process changes its channel, or its state but from sleeping to runnable.
pub exit-Exited :
    (me status : ℕ) (t : Table) {u : Table}
    → me < nproc
    → exit me status t ≡ some u
    → Exited me status t u
exit-Exited me status t h e =
    let (not_init, same) = exit-eq me status t e in
    let v = left me t in
    let parents : (j : ℕ)
        → j < nproc
        → ((become_zombie me status v).proc j).parent
          ≡ parent_after (suc me) t.initproc (t.proc j).parent =
      λ j k. zombie_parent me status v j ∙ left-parent me t j k in
    subst (Exited me status t) same (record {
      dead = zombie_self me status v;
      orphans = parents;
      childless = λ j k z.
          parent_after-ne (suc me) t.initproc (t.proc j).parent not_init (sym (parents j k) ∙ z);
      woken = λ p hp ne ep s c.
          ap (λ q. q.state) (zombie_other me status v p ne) ∙ left-woken me t p h hp ne ep s c;
      others = λ j ne.
          subst (Stirred (t.proc j)) (sym (zombie_other me status v j ne)) (left-Stirs me t j);
    })

dead_child :
    (p me : ℕ) (u : Table)
    → (u.proc me).parent ≡ suc p
    → (u.proc me).state ≡ zombie
    → is_dead (suc p) (u.proc me) ≡ true
dead_child p me u e z = rw (eq→== (u.proc me).parent (suc p) e, z) refl

-- The call has returned with the pid of a child that has exited, whose slot is unused then.
abbrev pub Reaps : (p : ℕ) → Table → Waited × Table → Type 0
Reaps p u (reaped pid, v) =
    (k : ℕ) × (k < nproc)
    × ((u.proc k).parent ≡ suc p)
    × ((u.proc k).state ≡ zombie)
    × (pid ≡ (u.proc k).pid)
    × ((v.proc k).state ≡ unused)
Reaps p u (failed, v) = ⊥
Reaps p u (waits, v) = ⊥

dead-parent :
    (p : ℕ) (q : Proc) → is_dead (suc p) q ≡ true → (q.parent ≡ suc p) × (q.state ≡ zombie)
dead-parent p q e = (ground (arith, e), ground (arith, e))

freed-unused : (k : ℕ) (u : Table) → ((set_proc k (freeproc (u.proc k)) u).proc k).state ≡ unused
unfolding freeproc
freed-unused k u = ground arith

WaitEnds-Reaps :
    (p me : ℕ) (u : Table) (r : Waited × Table)
    → me < nproc
    → is_dead (suc p) (u.proc me) ≡ true
    → WaitEnds p true u r
    → Reaps p u r
WaitEnds-Reaps p me u (reaped pid, v) h d (c, _, at, to) =
    let (child, gone) = dead-parent p (u.proc c.k) c.dead in
    (
      c.k,
      omega (arith, c.high),
      child,
      gone,
      at,
      subst (λ v. (v.proc c.k).state ≡ unused) (sym to) (freed-unused c.k u),
    )
WaitEnds-Reaps p me u (failed, v) h d (_, inl (_, c)) = absurd (cc)
WaitEnds-Reaps p me u (failed, v) h d (_, inr (alive, _)) =
    absurd (let z = alive me (omega arith) h in let no_one : true ≡ false = sym d ∙ z in cc)
WaitEnds-Reaps p me u (waits, v) h d (alive, _, _, _) =
    absurd (let z = alive me (omega arith) h in let no_one : true ≡ false = sym d ∙ z in cc)

-- After a child has exited, a round of `wait` by its parent that can copy the status out returns
-- with the pid of a child that has exited, and frees the slot of this child: it neither fails nor
-- sleeps.
pub wait-exit :
    (p me status : ℕ) (t : Table) {u : Table}
    → me < nproc
    → p ≢ me
    → (t.proc me).parent ≡ suc p
    → exit me status t ≡ some u
    → Reaps p u (wait p true u)
wait-exit p me status t {u} h ne e done =
    let x = exit-Exited me status t h done in
    let parent : (u.proc me).parent ≡ suc p =
      x.orphans me h
      ∙ ap (parent_after (suc me) t.initproc) e
      ∙ rw (ne→== (suc p) (suc me) (omega arith)) refl in
    WaitEnds-Reaps p me u (wait p true u) h (dead_child p me u parent x.dead.0)
      (wait-WaitEnds p true u)
