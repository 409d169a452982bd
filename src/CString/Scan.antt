-- ===== src/CString/Scan.antt =====
-- `strlen`, `strchr` and `gets`, on the string that memory holds.
use os_labs.Prelude.{
  ℕ, zero, suc, ◌+◌, ◌-◌, ◌≤◌, ◌<◌, ◌≡◌, refl, ◌⊎◌, inl, inr, ◌∙◌, ap, true, false, ◌||◌, Option,
  none, some, List, [], ◌∷◌, arith, ◌==◌, if◌then◌else◌, length, update, update_self, update_ne,
  ne→==, Bool-cases,
}
use os_labs.CString.{strlen_loop, strlen, strchr, gets_loop, gets}
use os_labs.CString.Text.{text, IsString, IsString-tail}
use os_labs.Memory.{Memory}

strlen_loop_lem :
    (mem : Memory) (s k fuel n : ℕ)
    → IsString mem (s + n) k
    → k < fuel
    → strlen_loop mem s fuel n ≡ some (n + k)
unfolding strlen_loop
strlen_loop_lem mem s k zero n str h = elim h [ ]
strlen_loop_lem mem s zero (suc fuel) n str h = ground (arith, str.ends)
strlen_loop_lem mem s (suc k) (suc fuel) n str h =
    let (nz, tail) = IsString-tail mem (s + n) k str in
    let e : s + (n + 1) ≡ s + n + 1 = omega arith in
    let tail' : IsString mem (s + (n + 1)) k = rw e tail in
    let rest = strlen_loop_lem mem s k fuel (n + 1) tail' (omega arith) in
    rw (ne→== (mem (s + n)) 0 nz) (rest ∙ ground arith)

-- With fuel for the string and its zero, `strlen` returns the number of bytes before the zero.
pub strlen_lem :
    (fuel : ℕ) (mem : Memory) (s k : ℕ) → IsString mem s k → k < fuel → strlen fuel mem s ≡ some k
unfolding strlen
strlen_lem fuel mem s k str h =
    let e : s + 0 ≡ s = omega arith in strlen_loop_lem mem s k fuel 0 (rw e str) h ∙ ground arith

-- The first offset of `c` in a list.
abbrev pub index : ℕ → List ℕ → Option ℕ
index c [] = none
index c (x ∷ l) =
    if x == c then some 0 else elim (index c l) [ none ↦ none | some i ↦ some (suc i) ]

abbrev pub address : ℕ → Option ℕ → Option ℕ
address s none = none
address s (some i) = some (s + i)

address-suc :
    (s : ℕ) (o : Option ℕ)
    → address (s + 1) o ≡ address s (elim o [ none ↦ none | some i ↦ some (suc i) ])
address-suc s none = refl
address-suc s (some i) = ground arith

-- With fuel for the string and its zero, `strchr` returns the address of the first `c` in the text
-- before the zero, or the null pointer if there is none; the zero itself it never finds.
pub strchr-index :
    (fuel : ℕ) (mem : Memory) (s k c : ℕ)
    → IsString mem s k
    → k < fuel
    → strchr fuel mem s c ≡ some (address s (index c (text mem s k)))
unfolding strchr text
strchr-index zero mem s k c str h = elim h [ ]
strchr-index (suc fuel) mem s zero c str h = ground (arith, str.ends)
strchr-index (suc fuel) mem s (suc k) c str h =
    let (nz, tail) = IsString-tail mem s k str in
    let rest = strchr-index fuel mem (s + 1) k c tail (omega arith) in
    rw (ne→== (mem s) 0 nz) (elim (Bool-cases (mem s == c)) [
      | inl e ↦ rw e (ground arith)
      | inr e ↦ rw (e, rest) (ap some (address-suc s (index c (text mem (s + 1) k))))
    ])

-- A line of the input, of at most `n` bytes with its end, and what follows it.
unfoldable pub line : (n : ℕ) → List ℕ → List ℕ × List ℕ
line zero l = ([], l)
line (suc n) [] = ([], [])
line (suc n) (c ∷ l) =
    if c == b'\n' || c == b'\r' then (c ∷ [], l) else (c ∷ (line n l).0, (line n l).1)

line-end :
    (c n : ℕ) (l : List ℕ) → (c == b'\n' || c == b'\r') ≡ true → line (suc n) (c ∷ l) ≡ (c ∷ [], l)
unfolding line
line-end c n l e = rw e refl

line-more :
    (c n : ℕ) (l : List ℕ)
    → (c == b'\n' || c == b'\r') ≡ false
    → line (suc n) (c ∷ l) ≡ (c ∷ (line n l).0, (line n l).1)
unfolding line
line-more c n l e = rw e refl

-- Memory holds the bytes `l` from `s` on.
abbrev pub Holds : Memory → (s : ℕ) → List ℕ → Type 0
Holds mem s [] = Unit
Holds mem s (c ∷ l) = (mem s ≡ c) × Holds mem (s + 1) l

-- What the loop of `gets` has read, and where it stands.
record Read (l : List ℕ × List ℕ) (buf left : ℕ) (mem : Memory) (r : List ℕ × ℕ × Memory)
    : Type 0 where
  rest : r.0 ≡ l.1
  at : r.1 ≡ buf + length l.0
  few : length l.0 ≤ left
  bytes : Holds r.2 buf l.0
  only : (a : ℕ) → (a < buf) ⊎ (buf + length l.0 ≤ a) → r.2 a ≡ mem a

gets_loop-Read :
    (input : List ℕ) (buf left : ℕ) (mem : Memory)
    → Read (line left input) buf left mem (gets_loop input buf left mem)
unfolding gets_loop
gets_loop-Read input buf zero mem =
    unfold line in
    record { rest = refl; at = omega arith; few = omega arith; bytes = tt; only = λ a h. refl }
gets_loop-Read [] buf (suc left) mem =
    unfold line in
    record { rest = refl; at = omega arith; few = omega arith; bytes = tt; only = λ a h. refl }
gets_loop-Read (c ∷ input) buf (suc left) mem = elim (Bool-cases (c == b'\n' || c == b'\r')) [
  | inl e ↦
      rw (e, line-end c left input e)
        (record {
          rest = refl;
          at = omega arith;
          few = omega arith;
          bytes = (update_self mem buf c, tt);
          only = λ a h. ground (arith, h);
        })
  | inr e ↦
      let ih = gets_loop-Read input (buf + 1) left (update mem buf c) in
      rw (e, line-more c left input e)
        (record {
          rest = ih.rest;
          at = omega (arith, ih.at);
          few = omega (arith, ih.few);
          bytes = (ih.only buf (inl (omega arith)) ∙ update_self mem buf c, ih.bytes);
          only = λ a h. ih.only a (ground arith) ∙ ground (arith, h);
        })
]

Holds-update :
    (mem : Memory) (a v s : ℕ) (l : List ℕ)
    → s + length l ≤ a
    → Holds mem s l
    → Holds (update mem a v) s l
Holds-update mem a v s [] h k = tt
Holds-update mem a v s (c ∷ l) h k =
    (ground arith, Holds-update mem a v (s + 1) l (omega arith) k.1)

-- `gets` into `max` bytes, at least one, takes one line off the input, or `max - 1` bytes of it if
-- it is longer, puts it into memory at `buf` with a zero behind it, and changes no byte outside of
-- the `max`.
pub gets-line :
    (input : List ℕ) (buf max : ℕ) (mem : Memory)
    → 0 < max
    → ((gets input buf max mem).0 ≡ (line (max - 1) input).1)
      × Holds (gets input buf max mem).1 buf (line (max - 1) input).0
      × ((gets input buf max mem).1 (buf + length (line (max - 1) input).0) ≡ 0)
      × ((a : ℕ) → (a < buf) ⊎ (buf + max ≤ a) → (gets input buf max mem).1 a ≡ mem a)
unfolding gets
gets-line input buf max mem pos =
    let r = gets_loop-Read input buf (max - 1) mem in
    let left : ℕ = max - 1 in
    let l = gets_loop input buf (max - 1) mem in
    (
      r.rest,
      Holds-update l.2 l.1 0 buf (line (max - 1) input).0 (omega (arith, r.at)) r.bytes,
      ground (arith, r.at),
      λ a h.
          update_ne l.2 l.1 a 0 (omega (arith, r.at, r.few, h))
          ∙ r.only a (omega (arith, r.few, h)),
    )
