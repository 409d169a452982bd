-- ===== src/Printf/Numeral.antt =====
-- The numbers that `printint` and `printptr` print, and `atoi` reads back.
use mathlib.Core.List.{map, append-nil, append_assoc, map-append}
use native.Mathlib.Nat.{div-add-mod', div-eq_of_lt, div-lt_iff_lt-mul, pow-suc, pow-zero}
use os_labs.Prelude.{
  ℕ, zero, suc, ◌+◌, ◌-◌, ◌*◌, ◌/◌, ◌%◌, ◌^◌, ◌≤◌, ◌<◌, ◌≡◌, refl, inl, inr, eq→==, ◌∙◌, sym, ap,
  Bool, true, false, ◌&&◌, some, some_eq, List, [], ◌∷◌, ◌++◌, leb, ◌==◌, if◌then◌else◌, arith, All,
  All-append, length, length-append, Bool-cases,
}
use os_labs.CString.{atoi_loop, atoi}
use os_labs.CString.Scan.{Holds}
use os_labs.Memory.{Memory}
use os_labs.Printf.{lower_digits, digit_loop, is_negative, put_sign, printint, ptr_loop, printptr}

-- The number with the digits `ds`, the first one the highest, behind those of `acc`.
pub value : (base acc : ℕ) → List ℕ → ℕ
value base acc [] = acc
value base acc (d ∷ ds) = value base (acc * base + d) ds

value-append :
    (base acc : ℕ) (ds : List ℕ) (d : ℕ)
    → value base acc (ds ++ d ∷ []) ≡ value base acc ds * base + d
unfolding value
value-append base acc [] d = refl
value-append base acc (e ∷ ds) d = value-append base (acc * base + e) ds d

value-ge : (base acc : ℕ) (ds : List ℕ) → 0 < base → acc ≤ value base acc ds
unfolding value
value-ge base acc [] h = omega arith
value-ge base acc (d ∷ ds) h = grind (arith, value-ge base (acc * base + d) ds h)

-- The digits `ds` are those of `x`, and fewer than the bound.
pub record Digits (base x bound : ℕ) (ds : List ℕ) : Type 0 where
  pub val : value base 0 ds ≡ x
  pub small : All (λ d. d < base) ds
  pub few : length ds ≤ bound
  pub some_digit : 0 < length ds

module _ (digits : ℕ → ℕ) (base : ℕ) (two : 1 < base) where
  low_digit : (x : ℕ) → x % base < base
  low_digit x = omega arith

  last_digit :
      (bound room x : ℕ) (buf : List ℕ)
      → (x / base == 0) ≡ true
      → (ds : List ℕ) × (digit_loop digits base (suc room) x buf
          ≡ some (suc room - length ds, map digits ds ++ buf))
        × Digits base x (suc bound) ds
  unfolding digit_loop value
  last_digit bound room x buf e =
      let z : x / base ≡ 0 = ground arith in
      let whole : x % base ≡ x = omega (arith, div-add-mod' x base, ap (λ q. q * base) z) in
      let left : room ≡ suc room - 1 = omega arith in
      (
        (x % base) ∷ [],
        rw e (λ i. some (left i, digits (x % base) ∷ buf)),
        record {
          val = omega (arith, whole);
          small = (low_digit x, tt);
          few = omega arith;
          some_digit = omega arith;
        },
      )

  more_digits :
      (k room x : ℕ) (buf : List ℕ) (ds : List ℕ)
      → (x / base == 0) ≡ false
      → digit_loop digits base room (x / base) (digits (x % base) ∷ buf)
        ≡ some (room - length ds, map digits ds ++ digits (x % base) ∷ buf)
      → Digits base (x / base) k ds
      → (ds : List ℕ) × (digit_loop digits base (suc room) x buf
          ≡ some (suc room - length ds, map digits ds ++ buf))
        × Digits base x (suc k) ds
  unfolding digit_loop
  more_digits k room x buf ds e run d =
      let longer = length-append ds ((x % base) ∷ []) in
      let left : room - length ds ≡ suc room - length (ds ++ (x % base) ∷ []) =
        omega (arith, longer) in
      let put : map digits ds ++ digits (x % base) ∷ buf
          ≡ map digits (ds ++ (x % base) ∷ []) ++ buf =
        sym (append_assoc (map digits ds) (digits (x % base) ∷ []) buf)
        ∙ ap (λ l. l ++ buf) (sym (map-append digits ds ((x % base) ∷ []))) in
      (
        ds ++ (x % base) ∷ [],
        rw e (run ∙ λ i. some (left i, put i)),
        record {
          val =
              value-append base 0 ds (x % base)
              ∙ ap (λ q. q * base + x % base) d.val
              ∙ div-add-mod' x base;
          small = All-append (λ d. d < base) ds ((x % base) ∷ []) d.small (low_digit x, tt);
          few = omega (arith, longer, d.few);
          some_digit = omega (arith, longer);
        },
      )

  -- With room for the digits of `x` the loop stays inside the buffer, and puts just these.
  pub digit_loop-Digits :
      (k room x : ℕ) (buf : List ℕ)
      → x < base ^ suc k
      → k < room
      → (ds : List ℕ) × (digit_loop digits base room x buf
          ≡ some (room - length ds, map digits ds ++ buf))
        × Digits base x (suc k) ds
  digit_loop-Digits k zero x buf h r = elim r [ ]
  digit_loop-Digits zero (suc room) x buf h r =
      let less : x < base = omega (arith, pow-suc base 0, ap (λ p. p * base) (pow-zero base)) in
      let z : x / base ≡ 0 = div-eq_of_lt (less) in last_digit 0 room x buf (eq→== (x / base) 0 z)
  digit_loop-Digits (suc k) (suc room) x buf h r = elim (Bool-cases (x / base == 0)) [
    | inl e ↦ last_digit (suc k) room x buf e
    | inr e ↦
        let less : x / base < base ^ suc k =
          (div-lt_iff_lt-mul (omega arith)).1 (rw pow-suc at h) in
        let (ds, run, d) =
          digit_loop-Digits k room (x / base) (digits (x % base) ∷ buf) less (omega arith) in
        more_digits (suc k) room x buf ds e run d
  ]

-- What `printint` puts before the digits.
abbrev pub sign_text : Bool → List ℕ → List ℕ
sign_text neg l = if neg then b'-' ∷ l else l

-- The absolute value of the `int` with the bits `xx`.
abbrev pub magnitude : (neg : Bool) → (xx : ℕ) → ℕ
magnitude neg xx = if neg then (2 ^ 32 - xx) % 2 ^ 32 else xx

put_sign-some :
    (neg : Bool) (room : ℕ) (buf : List ℕ)
    → 0 < room
    → put_sign neg (some (room, buf)) ≡ some (sign_text neg buf)
put_sign-some false room buf h = refl
put_sign-some true zero buf h = elim h [ ]
put_sign-some true (suc room) buf h = refl

-- `printint` of a 32-bit pattern, in base ten or more, stays inside its buffer of 16 bytes. It puts
-- the digits of the absolute value, at most ten, behind a sign where the number is read as signed
-- and is negative.
pub printint-Digits :
    (digits : ℕ → ℕ) (xx base : ℕ) (sign : Bool)
    → xx < 2 ^ 32
    → 10 ≤ base
    → 2 ^ 32 ≤ base ^ 10
    → (ds : List ℕ) × (printint digits xx base sign
        ≡ some (sign_text (sign && is_negative xx) (map digits ds)))
      × Digits base (magnitude (sign && is_negative xx) xx) 10 ds
unfolding printint
printint-Digits digits xx base sign h ten wide =
    let neg : Bool = sign && is_negative xx in
    let x : ℕ = magnitude neg xx in
    let less : x < 2 ^ 32 = ground arith in
    let (ds, run, d) =
      digit_loop-Digits digits base (omega arith) 9 16 x [] (omega (arith, less, wide))
        (omega arith) in
    (
      ds,
      ap (put_sign neg) run
          ∙ put_sign-some neg (16 - length ds) (map digits ds ++ []) (omega (arith, d.few))
          ∙ ap (λ l. some (sign_text neg l)) (append-nil (map digits ds)),
      d,
    )

length-map : (f : ℕ → ℕ) (l : List ℕ) → length (map f l) ≡ length l
length-map f [] = refl
length-map f (x ∷ l) = ap suc (length-map f l)

-- `atoi` on the digits `ds`, from the sum `n` on.
atoi_loop-value :
    (mem : Memory) (fuel s n : ℕ) (ds : List ℕ)
    → All (λ d. d < 10) ds
    → Holds mem s (map lower_digits ds)
    → (leb b'0' (mem (s + length ds)) && leb (mem (s + length ds)) b'9') ≡ false
    → value 10 n ds < 2 ^ 32
    → length ds < fuel
    → atoi_loop fuel mem s n ≡ some (value 10 n ds)
unfolding atoi_loop value
atoi_loop-value mem zero s n ds small holds stop fits h = elim h [ ]
atoi_loop-value mem (suc fuel) s n [] small holds stop fits h =
    let at : s + 0 ≡ s = omega arith in
    let stop' : (leb b'0' (mem s) && leb (mem s) b'9') ≡ false = rw at at stop in rw stop' refl
atoi_loop-value mem (suc fuel) s n (d ∷ ds) small holds stop fits h =
    let digit : mem s ≡ b'0' + d = holds.0 ∙ ground (arith, small.0) in
    let is_digit : (leb b'0' (mem s) && leb (mem s) b'9') ≡ true = ground (arith, small.0) in
    let grown = value-ge 10 (n * 10 + d) ds (omega arith) in
    let sum : (n * 10 + mem s - b'0') % 2 ^ 32 ≡ n * 10 + d = omega (arith, digit, grown, fits) in
    let at : s + 1 + length ds ≡ s + suc (length ds) = omega arith in
    rw (is_digit, sum)
      (atoi_loop-value mem fuel (s + 1) (n * 10 + d) ds small.1 holds.1 (rw at stop) fits
        (omega arith))

-- Where memory holds what `printint` puts for an `int` that is not negative, followed by a byte
-- that is no digit, `atoi` reads the number back, given fuel for these bytes.
pub atoi-printint :
    (mem : Memory) (fuel s xx : ℕ) (out : List ℕ)
    → xx < 2 ^ 31
    → printint lower_digits xx 10 true ≡ some out
    → Holds mem s out
    → (leb b'0' (mem (s + length out)) && leb (mem (s + length out)) b'9') ≡ false
    → length out < fuel
    → atoi fuel mem s ≡ some xx
unfolding atoi
atoi-printint mem fuel s xx out h printed holds stop enough =
    let (ds, run, d) =
      printint-Digits lower_digits xx 10 true (omega arith) (omega arith) (omega arith) in
    let plain : (true && is_negative xx) ≡ false = ground arith in
    let same : map lower_digits ds ≡ out =
      some_eq (sym (run ∙ ap (λ b. some (sign_text b (map lower_digits ds))) plain) ∙ printed) in
    let val : value 10 0 ds ≡ xx = d.val ∙ ap (λ b. magnitude b xx) plain in
    let long : length ds ≡ length out = sym (length-map lower_digits ds) ∙ ap length same in
    atoi_loop-value mem fuel s 0 ds d.small (rw same holds) (rw long stop) (omega (arith, val))
      (omega (arith, long))
    ∙ ap some val

-- The hexadecimal digits of `x`, which has `left` of them, aligned to the top of 64 bits.
pub hex_digits : (left x : ℕ) → List ℕ
hex_digits zero x = []
hex_digits (suc left) x = (x / 2 ^ 60) ∷ hex_digits left (x * 16 % 2 ^ 64)

ptr_loop-hex :
    (digits : ℕ → ℕ) (left x : ℕ) → ptr_loop digits left x ≡ map digits (hex_digits left x)
unfolding ptr_loop hex_digits
ptr_loop-hex digits zero x = refl
ptr_loop-hex digits (suc left) x =
    ap (λ l. digits (x / 2 ^ 60) ∷ l) (ptr_loop-hex digits left (x * 16 % 2 ^ 64))

hex_digits-value :
    (left x y acc : ℕ)
    → x < 2 ^ 64
    → x * 16 ^ left ≡ 2 ^ 64 * y
    → value 16 acc (hex_digits left x) ≡ acc * 16 ^ left + y
unfolding hex_digits value
hex_digits-value zero x y acc h e = omega (arith, pow-zero 16, e)
hex_digits-value (suc left) x y acc h e =
    let p = 16 ^ left in
    let d = x / 2 ^ 60 in
    let r = x % 2 ^ 60 in
    let next : x * 16 % 2 ^ 64 ≡ r * 16 = omega arith in
    let split : x * p ≡ (d * 2 ^ 60 + r) * p = ap (λ t. t * p) (sym (div-add-mod' x (2 ^ 60))) in
    let e' : x * (p * 16) ≡ 2 ^ 64 * y = ap (λ t. x * t) (sym (pow-suc 16 left)) ∙ e in
    let below : d * p ≤ y = omega (arith, split, e') in
    let ih =
      hex_digits-value left (x * 16 % 2 ^ 64) (y - d * p) (acc * 16 + d) (omega arith)
        (ap (λ t. t * p) next ∙ omega (arith, split, e', below)) in
    ih ∙ (omega (arith, below) ∙ ap (λ t. acc * t + y) (sym (pow-suc 16 left)))

hex_digits-small :
    (left x : ℕ)
    → x < 2 ^ 64
    → All (λ d. d < 16) (hex_digits left x) × (length (hex_digits left x) ≡ left)
unfolding hex_digits
hex_digits-small zero x h = (tt, refl)
hex_digits-small (suc left) x h =
    let (small, long) = hex_digits-small left (x * 16 % 2 ^ 64) (omega arith) in
    ((omega arith, small), ap suc long)

-- `printptr` of a 64-bit value puts `0x` and its sixteen hexadecimal digits, zeros in front included.
pub printptr-Digits :
    (digits : ℕ → ℕ) (x : ℕ)
    → x < 2 ^ 64
    → (ds : List ℕ) × (printptr digits x ≡ b'0' ∷ b'x' ∷ map digits ds)
      × Digits 16 x 16 ds
      × (length ds ≡ 16)
unfolding printptr
printptr-Digits digits x h =
    let (small, long) = hex_digits-small 16 x h in
    (
      hex_digits 16 x,
      ap (λ l. b'0' ∷ b'x' ∷ l) (ptr_loop-hex digits 16 x),
      record {
        val = hex_digits-value 16 x x 0 h (omega arith) ∙ omega arith;
        small = small;
        few = omega (arith, long);
        some_digit = omega (arith, long);
      },
      long,
    )
