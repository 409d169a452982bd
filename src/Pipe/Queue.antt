-- ===== src/Pipe/Queue.antt =====
-- The bytes in a pipe, oldest first, and the two accesses to its ring.
use os_labs.Prelude.{
  ℕ, zero, suc, ◌+◌, ◌-◌, ◌%◌, ◌^◌, ◌≤◌, ◌<◌, ◌≡◌, refl, ◌≢◌, ◌∙◌, ap, List, [], ◌∷◌, ◌++◌, arith,
  length, update, update_self, update_ne,
}
use os_labs.Pipe.{Pipe, pipe_size, put_byte, get_byte}

-- The `k` bytes from byte number `r` on.
unfoldable pub window : (bytes : ℕ → ℕ) → (r k : ℕ) → List ℕ
window bytes r zero = []
window bytes r (suc k) = bytes (r % pipe_size) ∷ window bytes ((r + 1) % 2 ^ 32) k

-- `nwrite - nread`, a `uint`.
abbrev pub count : Pipe → ℕ
count pi = (pi.nwrite + 2 ^ 32 - pi.nread) % 2 ^ 32

unfoldable pub contents : Pipe → List ℕ
unfolding window
contents pi = window pi.bytes pi.nread (count pi)

-- The counters are `uint`s, and the ring holds what lies between them.
pub record IsValid (pi : Pipe) : Type 0 where
  pub read_word : pi.nread < 2 ^ 32
  pub write_word : pi.nwrite < 2 ^ 32
  pub fits : count pi ≤ pipe_size

length-window : (bytes : ℕ → ℕ) (r k : ℕ) → length (window bytes r k) ≡ k
unfolding window
length-window bytes r zero = refl
length-window bytes r (suc k) = ap suc (length-window bytes ((r + 1) % 2 ^ 32) k)

pub length-contents : (pi : Pipe) → length (contents pi) ≡ count pi
unfolding contents
length-contents pi = length-window pi.bytes pi.nread (count pi)

-- A byte that is written just past a window lands outside of it: PIPESIZE divides `2 ^ 32`.
window-put :
    (bytes : ℕ → ℕ) (r k w ch : ℕ)
    → r < 2 ^ 32
    → k < pipe_size
    → w ≡ (r + k) % 2 ^ 32
    → window (update bytes (w % pipe_size) ch) r (suc k) ≡ window bytes r k ++ (ch ∷ [])
unfolding window
window-put bytes r zero w ch hr hk e =
    ap (λ x. x ∷ [])
      (let e' : r % pipe_size ≡ w % pipe_size = omega arith in
        rw e' (update_self bytes (w % pipe_size) ch))
window-put bytes r (suc k) w ch hr hk e = λ i.
    (update_ne bytes (w % pipe_size) (r % pipe_size) ch (λ q. omega arith) i)
    ∷ (window-put bytes ((r + 1) % 2 ^ 32) k w ch (omega arith) (omega arith) (omega arith) i)

module _ (pi : Pipe) (v : IsValid pi) where
  -- Where there is room, a byte goes behind the others.
  pub put_byte_lem :
      (ch : ℕ)
      → count pi < pipe_size
      → IsValid (put_byte ch pi) × (contents (put_byte ch pi) ≡ contents pi ++ (ch ∷ []))
  unfolding contents put_byte
  put_byte_lem ch room = (
    record { read_word = v.read_word; write_word = omega arith; fits = omega (arith, v) },
    ap (window (update pi.bytes (pi.nwrite % pipe_size) ch) pi.nread)
          (let e : count (put_byte ch pi) ≡ suc (count pi) = omega (arith, v) in e)
        ∙ window-put pi.bytes pi.nread (count pi) pi.nwrite ch v.read_word room (omega (arith, v)),
  )

  -- From a pipe that is not empty, the oldest byte is taken.
  pub get_byte_lem :
      pi.nread ≢ pi.nwrite
      → IsValid (get_byte pi).1 × (contents pi ≡ (get_byte pi).0 ∷ contents (get_byte pi).1)
  unfolding contents get_byte
  get_byte_lem ne = (
    record { read_word = omega arith; write_word = v.write_word; fits = omega (arith, v) },
    (let e : count pi ≡ suc (count (get_byte pi).1) = omega (arith, v) in
        ap (window pi.bytes pi.nread) e),
  )
