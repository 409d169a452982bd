-- ===== src/Uart/Send.antt =====
-- What kernel/uart.c sends is what was put, in order.
use os_labs.Prelude.{
  ℕ, zero, suc, ◌+◌, ◌-◌, ◌%◌, ◌^◌, ◌<◌, ◌≤◌, ◌≡◌, ◌⊎◌, inl, inr, refl, sym, ap, ◌∙◌, Bool, true,
  false, Option, none, some, List, [], ◌∷◌, ◌++◌, length, ◌==◌, update, update_self, update_ne,
  arith, Bool-cases,
}
use os_labs.Uart.{
  Uart, tx_size, sending, start_loop, uartstart, add_byte, PutEnds, slept, spins, done, put_ends,
  uartputc,
}

-- The `n` bytes from index `i` on.
unfoldable pub window : (buf : ℕ → ℕ) → (i n : ℕ) → List ℕ
window buf i zero = []
window buf i (suc n) = buf (i % tx_size) ∷ window buf ((i + 1) % 2 ^ 64) n

abbrev pub pending : Uart → ℕ
pending u = (u.tx_w + 2 ^ 64 - u.tx_r) % 2 ^ 64

-- The bytes in the ring, oldest first.
unfoldable pub queued : Uart → List ℕ
queued u = window u.tx_buf u.tx_r (pending u)

pub record IsValid (u : Uart) : Type 0 where
  pub w_word : u.tx_w < 2 ^ 64
  pub r_word : u.tx_r < 2 ^ 64
  pub fits : pending u ≤ tx_size

window-put :
    (buf : ℕ → ℕ) (i n at c : ℕ)
    → i < 2 ^ 64
    → n < tx_size
    → at ≡ (i + n) % 2 ^ 64
    → window (update buf (at % tx_size) c) i (suc n) ≡ window buf i n ++ (c ∷ [])
unfolding window
window-put buf i zero at c hi hn e =
    let same : i % tx_size ≡ at % tx_size = omega (arith, hi) in
    ap (λ x. x ∷ []) (rw same (update_self buf (at % tx_size) c))
window-put buf i (suc n) at c hi hn e = λ k.
    (update_ne buf (at % tx_size) (i % tx_size) c (λ q. omega (arith, q)) k)
    ∷ (window-put buf ((i + 1) % 2 ^ 64) n at c (omega arith) (omega arith) (omega arith) k)

add_byte_lem :
    (c : ℕ) (u : Uart)
    → IsValid u
    → c < 256
    → pending u < tx_size
    → IsValid (add_byte c u) × (queued (add_byte c u) ≡ queued u ++ (c ∷ []))
unfolding queued
add_byte_lem c u v h room =
    let byte : c % 256 ≡ c = omega (arith, h) in
    let n : pending (add_byte c u) ≡ suc (pending u) = omega (arith, v, room) in
    (
      record { w_word = omega arith; r_word = v.r_word; fits = omega (arith, n, room) },
      ap (window (update u.tx_buf (u.tx_w % tx_size) (c % 256)) u.tx_r) n
          ∙ rw byte
              (window-put u.tx_buf u.tx_r (pending u) u.tx_w c v.r_word room (omega (arith, v))),
    )

-- What is sent and what is still in the ring is what was in it, and the ring is empty or the device
-- has refused a byte.
abbrev pub Sends : (idle : ℕ → Bool) → (k : ℕ) → List ℕ → Option (List ℕ × Uart) → Type 0
Sends idle k before none = ⊥
Sends idle k before (some (sent, u)) =
    IsValid u × (before ≡ sent ++ queued u) × ((queued u ≡ []) ⊎ (idle (k + length sent) ≡ false))

sending-Sends :
    (idle : ℕ → Bool) (k x : ℕ) (before : List ℕ) (o : Option (List ℕ × Uart))
    → Sends idle (k + 1) before o
    → Sends idle k (x ∷ before) (sending (x ∷ []) o)
sending-Sends idle k x before none s = s
sending-Sends idle k x before (some (sent, u)) (v, order, inl empty) =
    (v, ap (λ l. x ∷ l) order, inl empty)
sending-Sends idle k x before (some (sent, u)) (v, order, inr busy) =
    let at : k + suc (length sent) ≡ k + 1 + length sent = omega arith in
    (v, ap (λ l. x ∷ l) order, inr (ap idle at ∙ busy))

start_loop-Sends :
    (idle : ℕ → Bool) (fuel k : ℕ) (u : Uart)
    → IsValid u
    → pending u < fuel
    → Sends idle k (queued u) (start_loop idle fuel k u)
unfolding start_loop queued window
start_loop-Sends idle zero k u v h = elim h [ ]
start_loop-Sends idle (suc fuel) k u v h = elim (Bool-cases (u.tx_w == u.tx_r)) [
  | inl e ↦
      let n : pending u ≡ 0 = ground (arith, v.r_word, e) in
      rw e (v, refl, inl (ap (window u.tx_buf u.tx_r) n))
  | inr e ↦ elim (Bool-cases (idle k)) [
    | inr busy ↦ rw (e, busy) (v, refl, inr (let at : k + 0 ≡ k = omega arith in ap idle at ∙ busy))
    | inl takes ↦
        let left : Uart = record u { tx_r = (u.tx_r + 1) % 2 ^ 64 } in
        let n : pending u ≡ suc (pending left) = ground (arith, v.r_word, v.w_word, e) in
        let v' : IsValid left = record {
          w_word = v.w_word;
          r_word = omega arith;
          fits = omega (arith, v, n);
        } in
        let ih = start_loop-Sends idle fuel (k + 1) left v' (omega (arith, n, h)) in
        rw (e, takes, n)
          (sending-Sends idle k (u.tx_buf (u.tx_r % tx_size)) (queued left)
            (start_loop idle fuel (k + 1) left) ih)
  ]
]

-- `uartstart` on a ring that is in order returns: what it sends, followed by what is still in the
-- ring, is what was in the ring; and the ring is empty or the device has refused the next byte.
pub uartstart-Sends :
    (idle : ℕ → Bool) (u : Uart) → IsValid u → Sends idle 0 (queued u) (uartstart idle u)
unfolding uartstart
uartstart-Sends idle u v = start_loop-Sends idle (suc tx_size) 0 u v (omega (arith, v))

-- How `uartputc` ends on a ring in order.
abbrev pub Puts : (panicked : Bool) → (c : ℕ) → Uart → PutEnds → Type 0
Puts panicked c u slept = pending u ≡ tx_size
Puts panicked c u spins = panicked ≡ true
Puts panicked c u (done sent u') = IsValid u' × (queued u ++ (c ∷ []) ≡ sent ++ queued u')

put_ends-Puts :
    (panicked : Bool) (idle : ℕ → Bool) (c : ℕ) (u : Uart) (before : List ℕ)
    (o : Option (List ℕ × Uart))
    → Sends idle 0 before o
    → before ≡ queued u ++ (c ∷ [])
    → Puts panicked c u (put_ends o)
put_ends-Puts panicked idle c u before none s e = absurd s
put_ends-Puts panicked idle c u before (some (sent, u')) (v, order, _) e = (v, sym e ∙ order)

-- `uartputc` of a byte, on a ring in order, sleeps only if the ring is full, and spins only if the
-- kernel has panicked; otherwise what it sends, followed by what is still in the ring, is what was
-- in the ring with the byte behind it.
pub uartputc-Puts :
    (panicked : Bool) (idle : ℕ → Bool) (c : ℕ) (u : Uart)
    → IsValid u
    → c < 256
    → Puts panicked c u (uartputc panicked idle c u)
unfolding uartputc
uartputc-Puts true idle c u v h = refl
uartputc-Puts false idle c u v h = elim (Bool-cases (u.tx_w == (u.tx_r + tx_size) % 2 ^ 64)) [
  | inl full ↦ rw full (ground (arith, v.r_word, v.w_word, v.fits, full))
  | inr room ↦
      let space : pending u < tx_size = ground (arith, v.r_word, v.w_word, v.fits, room) in
      let (v', put) = add_byte_lem c u v h space in
      rw room (
        put_ends-Puts false idle c u (queued (add_byte c u)) (uartstart idle (add_byte c u))
          (uartstart-Sends idle (add_byte c u) v') put)
]
