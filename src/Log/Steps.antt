-- ===== src/Log/Steps.antt =====
-- Every step of the file system calls keeps the invariant of the log.
use native.Mathlib.Decide.{dec_lt}
use mathlib.Core.Path.{subst}
use os_labs.Prelude.{
  some_eq, ltb, ◌==◌, ◌↔◌, Bool-cases, ℕ, ◌+◌, ◌-◌, ◌*◌, ◌≤◌, ◌<◌, ◌≡◌, refl, ◌≢◌, ◌⊎◌, inl, inr,
  ◌∙◌, sym, ap, Bool, true, false, some, [], ◌∷◌, arith, length, set, get_elem?, update, update_ne,
}
use os_labs.BlockCache.{Block, Cache, bread, brelse, fill}
use os_labs.Log.{
  rounds, Log, max_op_blocks, log_size, begin_op, end_op_enter, end_op_commit, commit,
}
use os_labs.Log.Absorb.{Named, log_write-Named}
use os_labs.Log.Commit.{commit-Committed}
use os_labs.Log.Replay.{IsHome}
use os_labs.Log.System.{
  System, write_block, remove, Step, enter, write, leave, flush, Reach, here, next,
}
use os_labs.Log.Reserve.{
  unused, Inv, unused-set, length-set', unused-remove, length-remove, length-pos, unused-pos,
  eq_nil, unused-le,
}

begin_op-eq :
    (l : Log) {l' : Log}
    → begin_op l ≡ some l'
    → (l.committing ≡ false)
      × (l.n + (l.outstanding + 1) * max_op_blocks ≤ log_size)
      × (record l { outstanding = l.outstanding + 1 } ≡ l')
unfolding begin_op
begin_op-eq l e = ground arith

enter-Inv :
    {s : System} {l : Log}
    → begin_op s.log ≡ some l
    → Inv s
    → Inv (record { log = l; cache = s.cache; used = 0 ∷ s.used })
enter-Inv {s} e inv =
    let (free, room, same) = begin_op-eq s.log e in
    subst (λ l. Inv (record { log = l; cache = s.cache; used = 0 ∷ s.used })) same
      (record {
        larger = inv.larger;
        counted = omega (arith, inv.counted);
        bounded = omega arith;
        reserved = omega (arith, inv.counted, unused-le s.used);
        alone = λ busy. cc;
        opened = record {
          few = inv.opened.few;
          fits = inv.opened.fits;
          home = inv.opened.home;
          empty = inv.opened.empty;
          rest = inv.opened.rest;
        };
        distinct = inv.distinct;
        settled = inv.settled;
      })

-- What a write leaves named.
module _ {b : ℕ} {l₀ l : Log} (named : Named b l₀ l) where
  n-le : (l₀.n ≤ l.n) × (l.n ≤ l₀.n + 1)
  n-le = elim named.grown [ inl (e, t, h, at) ↦ omega arith | inr (e, at, new) ↦ omega arith ]

  -- A block that is named now is `b`, or was named before.
  name_cases : (t : ℕ) → t < l.n → (t < l₀.n) ⊎ ((t ≡ l₀.n) × (l.block t ≡ b))
  name_cases t h = elim named.grown [
    | inl (e, u, h', at) ↦ inl (omega arith)
    | inr (e, at, new) ↦ elim (dec_lt t l₀.n) [
      | yes before ↦ inl before
      | no after ↦ let last : t ≡ l₀.n = omega arith in inr (last, ap l.block last ∙ at)
    ]
  ]

  b_named : (t : ℕ) × (t < l.n) × (l.block t ≡ b)
  b_named = elim named.grown [
    | inl (e, t, h, at) ↦ (t, omega arith, named.old t h ∙ at)
    | inr (e, at, new) ↦ (l₀.n, omega arith, at)
  ]

  IsHome→ : (a : ℕ) → IsHome l₀ a → IsHome l a
  IsHome→ a h = rw (named.start, named.size) h

  IsHome← : (a : ℕ) → IsHome l a → IsHome l₀ a
  IsHome← a h = rw (named.start, named.size) at h

  abbrev Distinct : Log → Type 0
  Distinct k = (t u : ℕ) → t < k.n → u < k.n → k.block t ≡ k.block u → t ≡ u

  -- A new block is none that was named before.
  new_name : (t v : ℕ) → t < l₀.n → v ≡ l₀.n → v < l.n → l.block v ≡ b → l.block t ≢ l.block v
  new_name t v h last h' at e = elim named.grown [
    | inl (e', u, _, _) ↦ absurd (omega arith)
    | inr (e', _, new) ↦ new t h (sym (named.old t h) ∙ e ∙ at)
  ]

  Named-Distinct : Distinct l₀ → Distinct l
  Named-Distinct distinct t v ht hv e = elim (name_cases t ht) [
    | inl t_old ↦ elim (name_cases v hv) [
      | inl v_old ↦ distinct t v t_old v_old (sym (named.old t t_old) ∙ e ∙ named.old v v_old)
      | inr (last, at) ↦ absurd (new_name t v t_old last hv at e)
    ]
    | inr (last, at) ↦ elim (name_cases v hv) [
      | inl v_old ↦ absurd (new_name v t v_old last ht at (sym e))
      | inr (last', _) ↦ omega arith
    ]
  ]

==_iff : (a b : ℕ) → ((a == b) ≡ true) ↔ (a ≡ b)
==_iff a b = ground arith

module _ {s : System} (inv : Inv s) (i u b : ℕ) (d : Block) (active : get_elem? s.used i ≡ some u)
    (budget : u < max_op_blocks) (out : IsHome s.log b) where
  abbrev Wrote : Log → Cache → Type 0
  Wrote l c =
      (write_block b d s.log s.cache ≡ some (l, c))
      × Named b s.log l
      × (c.contents ≡ update s.cache.contents b d)
      × (c.disk ≡ s.cache.disk)
      × (c.past ≡ s.cache.past)

  -- A call that keeps to its budget never meets the panics of `log_write`.
  pub write_block_lem : (l : Log) × (c : Cache) × Wrote l c
  unfolding write_block
  write_block_lem =
      let (l, c, e, named, same, disk, past) =
        log_write-Named b s.log (fill b d (bread b s.cache))
          (omega (arith, unused-pos s.used i u active budget, inv.reserved))
          (omega (arith, unused-pos s.used i u active budget, inv.reserved, inv.larger))
          (omega (arith, length-pos s.used i u active, inv.counted)) in
      (l, brelse b c, (rw (e, write_block), named, same, disk, past))

  written-Inv :
      (l : Log) (c : Cache)
      → Wrote l c
      → Inv (record { log = l; cache = c; used = set s.used i (u + 1) })
  written-Inv l c (_, named, same, disk, past) = record {
    larger = rw named.size inv.larger;
    counted = omega (arith, named.outstanding, inv.counted, length-set' s.used i (u + 1));
    bounded = omega (arith, named.outstanding, inv.bounded);
    reserved = reserved;
    alone = λ busy. absurd (
        omega (
          arith,
          length-pos s.used i u active,
          ap length (inv.alone (sym named.committing ∙ busy)),
        ));
    opened = record {
      few = omega (arith, reserved);
      fits = rw named.size (omega (arith, reserved, inv.larger));
      home = λ t h. elim (name_cases named t h) [
        | inl before ↦
            IsHome→ named (l.block t) (rw (named.old t before) (inv.opened.home t before))
        | inr (_, at) ↦ IsHome→ named (l.block t) (rw at out)
      ];
      empty = rw (disk, named.start) inv.opened.empty;
      rest = λ a home missed.
          let (t, h, at) = b_named named in
          let other : b ≢ a = λ e. missed t h (at ∙ e) in
          rw (same, disk, update_ne s.cache.contents b a d other)
            (inv.opened.rest a (IsHome← named a home)
              λ t h e. missed t (omega (arith, n-le named)) (named.old t h ∙ e));
    };
    distinct = Named-Distinct named inv.distinct;
    settled = past ∙ inv.settled;
  }
    where
      reserved : l.n + unused (set s.used i (u + 1)) ≤ log_size
      reserved = omega (arith, n-le named, inv.reserved, unused-set s.used i u active budget)

  write-Inv :
      {l : Log} {c : Cache}
      → write_block b d s.log s.cache ≡ some (l, c)
      → Inv (record { log = l; cache = c; used = set s.used i (u + 1) })
  write-Inv e =
      let (l', c', wrote) = write_block_lem in
      subst (λ p. Inv (record { log = p.0; cache = p.1; used = set s.used i (u + 1) }))
        (some_eq (sym wrote.0 ∙ e)) (written-Inv l' c' wrote)

end_op_enter-eq :
    (l : Log) {l' : Log} {last : Bool}
    → 0 < l.outstanding
    → l.outstanding ≤ 3
    → end_op_enter l ≡ some (l', last)
    → (l.committing ≡ false)
      × (last ≡ (l.outstanding == 1))
      × (record l { outstanding = l.outstanding - 1; committing = last } ≡ l')
unfolding end_op_enter
end_op_enter-eq l pos few e = ground arith

leave-Inv :
    {s : System} (inv : Inv s) (i u : ℕ) {l : Log} {last : Bool}
    → get_elem? s.used i ≡ some u
    → end_op_enter s.log ≡ some (l, last)
    → Inv (record { log = l; cache = s.cache; used = remove s.used i })
leave-Inv {s} inv i u {last} active e =
    let some_used = length-pos s.used i u active in
    let one_less = length-remove s.used i u active in
    let (free, is_last, same) = end_op_enter-eq s.log (omega (arith, inv.counted)) inv.bounded e in
    subst (λ l. Inv (record { log = l; cache = s.cache; used = remove s.used i })) same
      (record {
        larger = inv.larger;
        counted = omega (arith, inv.counted);
        bounded = omega (arith, inv.bounded);
        reserved = omega (arith, inv.reserved, unused-remove s.used i);
        alone = λ busy.
            eq_nil (remove s.used i)
              (omega (arith, (==_iff s.log.outstanding 1).0 (sym is_last ∙ busy), inv.counted));
        opened = record {
          few = inv.opened.few;
          fits = inv.opened.fits;
          home = inv.opened.home;
          empty = inv.opened.empty;
          rest = inv.opened.rest;
        };
        distinct = inv.distinct;
        settled = inv.settled;
      })

commit-frame :
    (l : Log) (c : Cache)
    → ((commit l c).0.start ≡ l.start)
      × ((commit l c).0.size ≡ l.size)
      × ((commit l c).0.outstanding ≡ l.outstanding)
unfolding commit
commit-frame l c = elim (Bool-cases (ltb 0 (rounds l.n))) [
  | inl e ↦ rw e (refl, refl, refl)
  | inr e ↦ rw e (refl, refl, refl)
]

flush-Inv :
    {s : System} (inv : Inv s)
    → s.log.committing ≡ true
    → Inv (record {
      log = (end_op_commit s.log s.cache).0;
      cache = record (end_op_commit s.log s.cache).1 { past = [] };
      used = s.used;
    })
unfolding end_op_commit
flush-Inv {s} inv busy =
    let done = commit-Committed s.log s.cache inv.opened (rw inv.settled tt) in
    let (start, size, outstanding) = commit-frame s.log s.cache in
    let back : (a : ℕ) → IsHome (commit s.log s.cache).0 a → IsHome s.log a =
      λ a h. rw (start, size) at h in
    record {
      larger = rw size inv.larger;
      counted = outstanding ∙ inv.counted;
      bounded = rw outstanding inv.bounded;
      reserved = omega (arith, done.empty, inv.reserved);
      alone = λ h. cc;
      opened = record {
        few = omega (arith, done.empty);
        fits = rw size (omega (arith, done.empty, inv.larger));
        home = λ t h. absurd (omega (arith, done.empty));
        empty = rw start done.header;
        rest = λ a h _. done.cached a (back a h) ∙ sym (done.on_disk a (back a h));
      };
      distinct = λ t u h _ _. absurd (omega (arith, done.empty));
      settled = refl;
    }

-- Every step keeps the invariant.
pub Step-Inv : {s t : System} → Step s t → Inv s → Inv t
Step-Inv (enter e) inv = enter-Inv e inv
Step-Inv (write i u b d active budget out e) inv = write-Inv inv i u b d active budget out e
Step-Inv (leave i u active e) inv = leave-Inv inv i u active e
Step-Inv (flush busy) inv = flush-Inv inv busy

pub Reach-Inv : {s t : System} → Inv s → Reach s t → Inv t
Reach-Inv inv here = inv
Reach-Inv inv (next r st) = Step-Inv st (Reach-Inv inv r)
