-- ===== src/Vm/Strings.antt =====
-- `copyinstr` of kernel/vm.c, which goes page by page, reads a string byte by byte.
use os_labs.Prelude.{
  ℕ, zero, suc, ◌+◌, ◌-◌, ◌*◌, ◌/◌, ◌%◌, ◌^◌, ◌<◌, ◌≤◌, ◌≡◌, inl, inr, refl, sym, ap, ◌∙◌, Bool,
  true, false, Option, none, some, List, [], ◌∷◌, ◌++◌, ◌==◌, if◌then◌else◌, arith, Bool-cases,
}
use os_labs.Kalloc.{page_size, Kmem}
use os_labs.Vm.{walkaddr}
use os_labs.Panic.{done, ◌>>=◌}
use os_labs.Vm.Entry.{page_round_down}
use os_labs.Vm.Bytes.{load_byte, chunk, scan, copyinstr}
use os_labs.Vm.Copy.{
  user_byte, mapped_below, user_byte-page, chunk-ends, chunk-le, chunk-fits, chunk_pos,
}

abbrev pub after_char : Option ℕ → Bool × List ℕ → Bool × List ℕ
after_char none r = (false, [])
after_char (some c) r = if c == 0 then (true, 0 ∷ []) else (r.0, c ∷ r.1)

-- A string with its zero, of at most `n` bytes; false if it has no zero there.
unfoldable pub read_string : Kmem → (root va n : ℕ) → Bool × List ℕ
read_string k root va zero = (false, [])
read_string k root va (suc n) = after_char (user_byte k root va) (read_string k root (va + 1) n)

-- The bytes of a scan, and what follows if it has not met a zero.
abbrev join : Bool × List ℕ → Bool × List ℕ → Bool × List ℕ
join (true, bytes) r = (true, bytes)
join (false, bytes) r = (r.0, bytes ++ r.1)

-- A byte in front of a scan.
join-cons :
    (c : ℕ) (s r : Bool × List ℕ)
    → ◌≡◌ {A = Bool × List ℕ} ((join s r).0, c ∷ (join s r).1) (join (s.0, c ∷ s.1) r)
join-cons c (true, bytes) r = refl
join-cons c (false, bytes) r = refl

read_string-page :
    (k : Kmem) (root v i n m : ℕ)
    → (walkaddr root (v * page_size) k == 0) ≡ false
    → i + n ≤ page_size
    → read_string k root (v * page_size + i) (n + m)
      ≡ join
          (scan k.words (walkaddr root (v * page_size) k + i) n)
          (read_string k root (v * page_size + i + n) m)
unfolding read_string scan
read_string-page k root v i zero m mapped le =
    let none_read : 0 + m ≡ m = omega arith in
    let here : v * page_size + i + 0 ≡ v * page_size + i = omega arith in rw (none_read, here) refl
read_string-page k root v i (suc n) m mapped le =
    let one_read : suc n + m ≡ suc (n + m) = omega arith in
    let next : v * page_size + (i + 1) ≡ v * page_size + i + 1 = omega arith in
    let next_pa : walkaddr root (v * page_size) k + (i + 1)
        ≡ walkaddr root (v * page_size) k + i + 1 =
      omega arith in
    let last : v * page_size + (i + 1) + n ≡ v * page_size + i + suc n = omega arith in
    let ih : read_string k root (v * page_size + i + 1) (n + m)
        ≡ join (scan k.words (walkaddr root (v * page_size) k + i + 1) n)
            (read_string k root (v * page_size + i + suc n) m) =
      rw (sym next, sym next_pa, sym last)
        (read_string-page k root v (i + 1) n m mapped (omega (arith, le))) in
    let c : ℕ = load_byte k.words (walkaddr root (v * page_size) k + i) in
    rw (one_read, user_byte-page k root v i mapped (omega (arith, le)))
      (elim (Bool-cases (c == 0)) [
        | inl z ↦ rw z refl
        | inr nz ↦ rw nz (
            ap {B = Bool × List ℕ} (λ r. (r.0, c ∷ r.1)) ih
            ∙ join-cons c (scan k.words (walkaddr root (v * page_size) k + i + 1) n)
                (read_string k root (v * page_size + i + suc n) m))
      ])

read_string-unmapped :
    (k : Kmem) (root va n : ℕ)
    → (walkaddr root (page_round_down va) k == 0) ≡ true
    → read_string k root va (suc n) ≡ (false, [])
unfolding read_string user_byte
read_string-unmapped k root va n e = rw e refl

read_string-next :
    (k : Kmem) (root va len : ℕ)
    → read_string k root (va + chunk va len) (len - chunk va len)
      ≡ read_string k root (page_round_down va + page_size) (len - chunk va len)
unfolding read_string
read_string-next k root va len = elim (chunk-ends va len) [
  | inl e ↦ rw (e, read_string) refl
  | inr e ↦ ap (λ a. read_string k root a (len - chunk va len)) e
]

-- A chunk, and then the pages that follow.
read_string-chunk :
    (k : Kmem) (root va len : ℕ)
    → (walkaddr root (page_round_down va) k == 0) ≡ false
    → read_string k root va len
      ≡ join
          (scan k.words
            (walkaddr root (page_round_down va) k + (va - page_round_down va))
            (chunk va len))
          (read_string k root (page_round_down va + page_size) (len - chunk va len))
read_string-chunk k root va len mapped =
    let i : ℕ = va - page_round_down va in
    let n : ℕ = chunk va len in
    let whole : page_round_down va + i ≡ va = omega arith in
    let all : n + (len - n) ≡ len = omega (arith, chunk-le va len) in
    let bytes = scan k.words (walkaddr root (page_round_down va) k + i) n in
    ap (λ a. read_string k root a len) (sym whole)
    ∙ ap (λ l. read_string k root (page_round_down va + i) l) (sym all)
    ∙ read_string-page k root (va / page_size) i n (len - n) mapped (chunk-fits va len)
    ∙ ap (λ a. join bytes (read_string k root (a + n) (len - n))) whole
    ∙ ap (join bytes) (read_string-next k root va len)

-- What `copyinstr` does after a scan.
after_scan :
    (s : Bool × List ℕ) (r : Bool × List ℕ)
    → (if s.0 then done (true, s.1) else done r >>= λ r. done (r.0, s.1 ++ r.1)) ≡ done (join s r)
after_scan (true, bytes) r = refl
after_scan (false, bytes) r = refl

-- `copyinstr` with room for `max` bytes, and fuel for them, returns: it stores the string of the
-- process at `srcva` with its zero and succeeds; or fails at the first byte that is not mapped, or
-- after `max` bytes without a zero.
pub copyinstr-read_string :
    (fuel root va max : ℕ) (k : Kmem)
    → max < fuel
    → copyinstr fuel root va max k ≡ done (read_string k root va max)
unfolding copyinstr
copyinstr-read_string zero root va max k h = absurd (omega (arith, h))
copyinstr-read_string (suc fuel) root va zero k h = unfold read_string in refl
copyinstr-read_string (suc fuel) root va (suc max) k h =
    elim (Bool-cases (walkaddr root (page_round_down va) k == 0)) [
      | inl e ↦ rw e (ap done (sym (read_string-unmapped k root va max e)))
      | inr e ↦
          let below_max = mapped_below root (page_round_down va) k e in
          let next : (page_round_down va + page_size) % 2 ^ 64 ≡ page_round_down va + page_size =
            omega (arith, below_max) in
          let ih =
            copyinstr-read_string fuel root (page_round_down va + page_size)
              (suc max - chunk va (suc max)) k
              (omega (arith, h, chunk_pos va (suc max) (omega arith))) in
          rw (e, next, ih)
            (after_scan
                (scan k.words (walkaddr root (page_round_down va) k + (va - page_round_down va))
                  (chunk va (suc max)))
                (read_string k root (page_round_down va + page_size) (suc max - chunk va (suc max)))
              ∙ ap done (sym (read_string-chunk k root va (suc max) e)))
    ]
