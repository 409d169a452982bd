-- ===== src/Log/Absorb.antt =====
-- `log_write`: absorption of a block that is in the log already.
use native.Mathlib.Decide.{ℕ_discrete}
use os_labs.Prelude.{
  ℕ, zero, suc, ◌+◌, ◌-◌, ◌≤◌, ◌<◌, ◌≡◌, refl, ◌≢◌, ◌⊎◌, inl, inr, ◌∙◌, sym, ap, false, some, arith,
  ◌==◌, eq→==, ne→==, leb, ltb, update, update_eq, update_ne, if◌then◌else◌,
}
use os_labs.BlockCache.{Cache, bpin}
use os_labs.Log.{Log, log_size, rounds, find_loop, log_write}

-- What the search of `log_write` finds among `block[i..i + left)`.
record Found (l : Log) (b i left r : ℕ) : Type 0 where
  low : i ≤ r
  high : r ≤ i + left
  hit : r < i + left → l.block r ≡ b
  miss : (t : ℕ) → i ≤ t → t < r → l.block t ≢ b

find_loop-Found : (l : Log) (b left i : ℕ) → Found l b i left (find_loop l b left i)
unfolding find_loop
find_loop-Found l b zero i = record {
  low = omega arith;
  high = omega arith;
  hit = λ h. absurd (omega arith);
  miss = λ t h h'. absurd (omega arith);
}
find_loop-Found l b (suc left) i = elim (ℕ_discrete (l.block i) b) [
  | yes here ↦ rw (eq→== (l.block i) b here) (record {
    low = omega arith;
    high = omega arith;
    hit = λ h. here;
    miss = λ t h h'. absurd (omega arith);
  })
  | no other ↦
      let f = find_loop-Found l b left (i + 1) in
      rw (ne→== (l.block i) b other) (record {
        low = omega (arith, f.low);
        high = omega (arith, f.high);
        hit = λ h. f.hit (omega arith);
        miss = λ t h h'. elim (ℕ_discrete i t) [
          | yes at ↦ rw (← at) other
          | no after ↦ f.miss t (omega arith) h'
        ];
      })
]

-- What `log_write` leaves of the header: `b` is named, and what was named is still named.
pub record Named (b : ℕ) (l l' : Log) : Type 0 where
  pub start : l'.start ≡ l.start
  pub size : l'.size ≡ l.size
  pub outstanding : l'.outstanding ≡ l.outstanding
  pub committing : l'.committing ≡ l.committing
  pub old : (t : ℕ) → t < l.n → l'.block t ≡ l.block t
  pub grown :
      ((l'.n ≡ l.n) × (t : ℕ) × (t < l.n) × (l.block t ≡ b))
      ⊎ ((l'.n ≡ l.n + 1) × (l'.block l.n ≡ b) × ((t : ℕ) → t < l.n → l.block t ≢ b))

module _ (b : ℕ) (l : Log) (c : Cache) (few : l.n < log_size) (room : l.n < l.size - 1)
    (inside : 0 < l.outstanding) where
  abbrev at : ℕ
  at = find_loop l b (rounds l.n) 0

  found : Found l b 0 l.n at
  found = let e : rounds l.n ≡ l.n = ground arith in rw e (find_loop-Found l b l.n 0)

  abbrev marked : Log
  marked = record l { block = update l.block at b }

  log_write-eq :
      log_write b l c
      ≡ (if at == l.n then some (record marked { n = l.n + 1 }, bpin b c) else some (marked, c))
  unfolding log_write
  log_write-eq =
      let e₁ : leb log_size (rounds l.n) ≡ false = ground arith in
      let e₂ : leb (l.size - 1) (rounds l.n) ≡ false = ground arith in
      let e₃ : ltb l.outstanding 1 ≡ false = ground arith in rw (e₁, e₂, e₃)

  -- Inside a transaction with room in the log, `log_write` does not panic.
  pub log_write-Named :
      (l' : Log) × (c' : Cache) × (log_write b l c ≡ some (l', c'))
      × Named b l l'
      × (c'.contents ≡ c.contents)
      × (c'.disk ≡ c.disk)
      × (c'.past ≡ c.past)
  log_write-Named = elim (ℕ_discrete at l.n) [
    | yes new ↦ (
      record marked { n = l.n + 1 },
      bpin b c,
      log_write-eq ∙ rw (eq→== at l.n new),
      record {
        start = refl;
        size = refl;
        outstanding = refl;
        committing = refl;
        old = λ t h. update_ne l.block at t b (λ e. omega arith);
        grown =
            inr (
              refl,
              update_eq l.block at l.n b new,
              λ t h. found.miss t (omega arith) (omega arith),
            );
      },
      refl,
      refl,
      refl,
    )
    | no known ↦ (
      marked,
      c,
      log_write-eq ∙ rw (ne→== at l.n known),
      record {
        start = refl;
        size = refl;
        outstanding = refl;
        committing = refl;
        old = λ t h. elim (ℕ_discrete at t) [
          | yes here ↦
              update_eq l.block at t b here
              ∙ sym (found.hit (omega (arith, found.high)))
              ∙ ap l.block here
          | no other ↦ update_ne l.block at t b other
        ];
        grown =
            let lt : at < l.n = omega (arith, found.high) in
            inl (refl, at, lt, found.hit (omega arith));
      },
      refl,
      refl,
      refl,
    )
  ]
