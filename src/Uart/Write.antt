-- ===== src/Uart/Write.antt =====
-- `consolewrite` of kernel/console.c: the bytes of user memory go out in order.
use mathlib.Core.List.{append-nil, append_assoc}
use os_labs.Prelude.{
  ℕ, zero, suc, ◌+◌, ◌%◌, ◌^◌, ◌<◌, ◌≡◌, ◌⊎◌, inl, inr, refl, sym, ap, ◌∙◌, Bool, true, Option,
  none, some, List, [], ◌∷◌, ◌++◌, length, arith, Option-cases,
}
use os_labs.Uart.{
  Uart, tx_size, PutEnds, slept, spins, done, uartputc, WriteEnds, wrote, slept_after, stuck,
  sent_first, consolewrite,
}
use os_labs.Uart.Send.{IsValid, pending, queued, Puts, uartputc-Puts}

-- `bytes` stand in user memory at `src + i` and behind.
abbrev pub Stand : (mem : ℕ → Option ℕ) → (src i : ℕ) → List ℕ → Type 0
Stand mem src i [] = Unit
Stand mem src i (c ∷ bytes) = (mem ((src + i) % 2 ^ 64) ≡ some c) × Stand mem src (i + 1) bytes

-- Why a run of `left` bytes from `i` on ends after `m` of them.
abbrev pub EndsAfter :
    (panicked : Bool) → (mem : ℕ → Option ℕ) → (src left i m : ℕ) → Uart → WriteEnds → Type 0
EndsAfter panicked mem src left i m u (wrote j) =
    (j ≡ i + m) × ((m ≡ left) ⊎ (mem ((src + j) % 2 ^ 64) ≡ none))
EndsAfter panicked mem src left i m u (slept_after j) = (j ≡ i + m) × (pending u ≡ tx_size)
EndsAfter panicked mem src left i m u stuck = panicked ≡ true

abbrev pub Writes :
    (panicked : Bool)
    → (mem : ℕ → Option ℕ) → (src left i : ℕ) → Uart
    → WriteEnds × List ℕ × Uart
    → Type 0
Writes panicked mem src left i u (ends, sent, u') =
    (bytes : List ℕ) × Stand mem src i bytes
    × (queued u ++ bytes ≡ sent ++ queued u')
    × IsValid u'
    × EndsAfter panicked mem src left i (length bytes) u' ends

EndsAfter-suc :
    (panicked : Bool) (mem : ℕ → Option ℕ) (src left i m : ℕ) (u : Uart) (ends : WriteEnds)
    → EndsAfter panicked mem src left (i + 1) m u ends
    → EndsAfter panicked mem src (suc left) i (suc m) u ends
EndsAfter-suc panicked mem src left i m u (wrote j) (at, inl all) =
    (omega (arith, at), inl (ap suc all))
EndsAfter-suc panicked mem src left i m u (wrote j) (at, inr unmapped) =
    (omega (arith, at), inr unmapped)
EndsAfter-suc panicked mem src left i m u (slept_after j) (at, full) = (omega (arith, at), full)
EndsAfter-suc panicked mem src left i m u stuck p = p

-- A round of the loop, with what follows it.
put-Writes :
    (panicked : Bool) (mem : ℕ → Option ℕ) (src left i c : ℕ) (u : Uart)
    → IsValid u
    → mem ((src + i) % 2 ^ 64) ≡ some c
    → (ends : PutEnds) (rest : Uart → WriteEnds × List ℕ × Uart) → Puts panicked c u ends
    → ((u' : Uart) → IsValid u' → Writes panicked mem src left (i + 1) u' (rest u'))
    → Writes panicked mem src (suc left) i u (elim ends [
      | slept ↦ (slept_after i, [], u)
      | spins ↦ (stuck, [], u)
      | done sent u ↦ sent_first sent (rest u)
    ])
put-Writes panicked mem src left i c u v e slept rest full w =
    ([], tt, append-nil (queued u), v, (omega arith, full))
put-Writes panicked mem src left i c u v e spins rest p w = ([], tt, append-nil (queued u), v, p)
put-Writes panicked mem src left i c u v e (done sent u') rest (v', put) w =
    let (bytes, stand, order, v'', ends) = w u' v' in
    let (_, more, u'') = rest u' in
    (
      c ∷ bytes,
      (e, stand),
      sym (append_assoc (queued u) (c ∷ []) bytes)
          ∙ ap (λ l. l ++ bytes) put
          ∙ append_assoc sent (queued u') bytes
          ∙ ap (λ l. sent ++ l) order
          ∙ sym (append_assoc sent more (queued u'')),
      v'',
      EndsAfter-suc panicked mem src left i (length bytes) (rest u').2 (rest u').0 ends,
    )

-- `consolewrite`, on a ring in order and with bytes in memory: what is sent, followed by what is
-- still in the ring, is what was in the ring with bytes of user memory behind it, in order. It ends
-- with all of them or at the first that is not mapped, sleeps only on a full ring, and spins only
-- if the kernel has panicked.
pub consolewrite-Writes :
    (panicked : Bool) (idle : ℕ → ℕ → Bool) (mem : ℕ → Option ℕ) (src left i : ℕ) (u : Uart)
    → ((a c : ℕ) → mem a ≡ some c → c < 256)
    → IsValid u
    → Writes panicked mem src left i u (consolewrite panicked idle mem src left i u)
unfolding consolewrite
consolewrite-Writes panicked idle mem src zero i u small v =
    ([], tt, append-nil (queued u), v, (omega arith, inl refl))
consolewrite-Writes panicked idle mem src (suc left) i u small v =
    elim (Option-cases (mem ((src + i) % 2 ^ 64))) [
      | inl e ↦ rw (e, consolewrite) ([], tt, append-nil (queued u), v, (omega arith, inr e))
      | inr (c, e) ↦
          rw (e, consolewrite)
            (put-Writes panicked mem src left i c u v e (uartputc panicked (idle i) c u)
              (λ u'. consolewrite panicked idle mem src left (i + 1) u')
              (uartputc-Puts panicked (idle i) c u v (small ((src + i) % 2 ^ 64) c e))
              (λ u' v'. consolewrite-Writes panicked idle mem src left (i + 1) u' small v'))
    ]
