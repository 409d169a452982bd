-- ===== src/Vm/Copy.antt =====
-- `copyin` of kernel/vm.c, which goes page by page, reads user memory byte by byte.
use os_labs.Prelude.{
  ℕ, zero, suc, ◌+◌, ◌-◌, ◌*◌, ◌/◌, ◌%◌, ◌^◌, ◌<◌, ◌≤◌, ◌≡◌, ◌⊎◌, inl, inr, refl, sym, ap, ◌∙◌,
  Bool, true, false, Option, none, some, List, [], ◌∷◌, ◌++◌, ltb, leb, ◌==◌, if◌then◌else◌, arith,
  Bool-cases,
}
use os_labs.Kalloc.{page_size, Kmem}
use os_labs.Vm.{walkaddr}
use os_labs.Panic.{done}
use os_labs.Vm.Entry.{page_round_down, max_va}
use os_labs.Vm.Bytes.{load_byte, load_bytes, chunk, copyin}

-- The byte of a process at `va`; `none` is not mapped to it.
unfoldable pub user_byte : Kmem → (root va : ℕ) → Option ℕ
user_byte k root va =
    let pa0 = walkaddr root (page_round_down va) k in
    if pa0 == 0 then none else some (load_byte k.words (pa0 + (va - page_round_down va)))

-- What is read from a byte on, if `r` is read behind it.
abbrev pub after_byte : Option ℕ → Bool × List ℕ → Bool × List ℕ
after_byte none r = (false, [])
after_byte (some c) r = (r.0, c ∷ r.1)

-- `n` bytes from `va` on, up to the first that is not mapped, and whether all are.
unfoldable pub read_user : Kmem → (root va n : ℕ) → Bool × List ℕ
read_user k root va zero = (true, [])
read_user k root va (suc n) = after_byte (user_byte k root va) (read_user k root (va + 1) n)

-- Nothing is mapped from MAXVA on.
pub mapped_below : (root va : ℕ) (k : Kmem) → (walkaddr root va k == 0) ≡ false → va < max_va
unfolding walkaddr
mapped_below root va k h = elim (Bool-cases (leb max_va va)) [
  | inl e ↦ ground (arith, h, e)
  | inr e ↦ ground (arith, e)
]

-- A byte on the page of a mapped address.
pub user_byte-page :
    (k : Kmem) (root va0 i : ℕ)
    → (walkaddr root (va0 * page_size) k == 0) ≡ false
    → i < page_size
    → user_byte k root (va0 * page_size + i)
      ≡ some (load_byte k.words (walkaddr root (va0 * page_size) k + i))
unfolding user_byte
user_byte-page k root va0 i mapped lt =
    let page : page_round_down (va0 * page_size + i) ≡ va0 * page_size = omega (arith, lt) in
    let off : va0 * page_size + i - va0 * page_size ≡ i = omega arith in rw (page, mapped, off) refl

-- Bytes in front of the bytes that follow.
abbrev prepend : List ℕ → Bool × List ℕ → Bool × List ℕ
prepend bytes r = (r.0, bytes ++ r.1)

read_user-page :
    (k : Kmem) (root v i n m : ℕ)
    → (walkaddr root (v * page_size) k == 0) ≡ false
    → i + n ≤ page_size
    → read_user k root (v * page_size + i) (n + m)
      ≡ prepend
          (load_bytes k.words (walkaddr root (v * page_size) k + i) n)
          (read_user k root (v * page_size + i + n) m)
unfolding read_user load_bytes
read_user-page k root v i zero m mapped le =
    let none_read : 0 + m ≡ m = omega arith in
    let here : v * page_size + i + 0 ≡ v * page_size + i = omega arith in rw (none_read, here) refl
read_user-page k root v i (suc n) m mapped le =
    let one_read : suc n + m ≡ suc (n + m) = omega arith in
    let next : v * page_size + (i + 1) ≡ v * page_size + i + 1 = omega arith in
    let next_pa : walkaddr root (v * page_size) k + (i + 1)
        ≡ walkaddr root (v * page_size) k + i + 1 =
      omega arith in
    let last : v * page_size + (i + 1) + n ≡ v * page_size + i + suc n = omega arith in
    let ih : read_user k root (v * page_size + i + 1) (n + m)
        ≡ prepend (load_bytes k.words (walkaddr root (v * page_size) k + i + 1) n)
            (read_user k root (v * page_size + i + suc n) m) =
      rw (sym next, sym next_pa, sym last)
        (read_user-page k root v (i + 1) n m mapped (omega (arith, le))) in
    rw (one_read, user_byte-page k root v i mapped (omega (arith, le)))
      (ap {B = Bool × List ℕ}
        (λ r. (r.0, load_byte k.words (walkaddr root (v * page_size) k + i) ∷ r.1)) ih)

read_user-unmapped :
    (k : Kmem) (root va n : ℕ)
    → (walkaddr root (page_round_down va) k == 0) ≡ true
    → read_user k root va (suc n) ≡ (false, [])
unfolding read_user user_byte
read_user-unmapped k root va n e = rw e refl

-- Where a chunk ends: with the page, or with all that is asked for.
pub chunk-ends :
    (va len : ℕ) → (len - chunk va len ≡ 0) ⊎ (va + chunk va len ≡ page_round_down va + page_size)
chunk-ends va len = elim (Bool-cases (ltb len (page_size - (va - page_round_down va)))) [
  | inl e ↦ rw e (inl (omega arith))
  | inr e ↦ rw e (inr (omega arith))
]

pub chunk-le : (va len : ℕ) → chunk va len ≤ len
chunk-le va len = ground arith

pub chunk-fits : (va len : ℕ) → va - page_round_down va + chunk va len ≤ page_size
chunk-fits va len = ground arith

pub chunk_pos : (va len : ℕ) → 0 < len → 0 < chunk va len
chunk_pos va len pos = ground (arith, pos)

read_user-next :
    (k : Kmem) (root va len : ℕ)
    → read_user k root (va + chunk va len) (len - chunk va len)
      ≡ read_user k root (page_round_down va + page_size) (len - chunk va len)
unfolding read_user
read_user-next k root va len = elim (chunk-ends va len) [
  | inl e ↦ rw (e, read_user) refl
  | inr e ↦ ap (λ a. read_user k root a (len - chunk va len)) e
]

-- A chunk, and then the pages that follow.
read_user-chunk :
    (k : Kmem) (root va len : ℕ)
    → (walkaddr root (page_round_down va) k == 0) ≡ false
    → read_user k root va len
      ≡ prepend
          (load_bytes k.words
            (walkaddr root (page_round_down va) k + (va - page_round_down va))
            (chunk va len))
          (read_user k root (page_round_down va + page_size) (len - chunk va len))
read_user-chunk k root va len mapped =
    let i : ℕ = va - page_round_down va in
    let n : ℕ = chunk va len in
    let whole : page_round_down va + i ≡ va = omega arith in
    let all : n + (len - n) ≡ len = omega (arith, chunk-le va len) in
    let bytes : List ℕ = load_bytes k.words (walkaddr root (page_round_down va) k + i) n in
    ap (λ a. read_user k root a len) (sym whole)
    ∙ ap (λ l. read_user k root (page_round_down va + i) l) (sym all)
    ∙ read_user-page k root (va / page_size) i n (len - n) mapped (chunk-fits va len)
    ∙ ap (λ a. prepend bytes (read_user k root (a + n) (len - n))) whole
    ∙ ap (prepend bytes) (read_user-next k root va len)

-- `copyin` of `len` bytes, with fuel for them, returns: it stores the bytes of the process from
-- `srcva` on, up to the first that is not mapped to it, and succeeds if all of them are.
pub copyin-read_user :
    (fuel root va len : ℕ) (k : Kmem)
    → len < fuel
    → copyin fuel root va len k ≡ done (read_user k root va len)
unfolding copyin
copyin-read_user zero root va len k h = absurd (omega (arith, h))
copyin-read_user (suc fuel) root va zero k h = unfold read_user in refl
copyin-read_user (suc fuel) root va (suc len) k h =
    elim (Bool-cases (walkaddr root (page_round_down va) k == 0)) [
      | inl e ↦ rw e (ap done (sym (read_user-unmapped k root va len e)))
      | inr e ↦
          let below_max = mapped_below root (page_round_down va) k e in
          let next : (page_round_down va + page_size) % 2 ^ 64 ≡ page_round_down va + page_size =
            omega (arith, below_max) in
          let ih =
            copyin-read_user fuel root (page_round_down va + page_size)
              (suc len - chunk va (suc len)) k
              (omega (arith, h, chunk_pos va (suc len) (omega arith))) in
          rw (e, next, ih) (ap done (sym (read_user-chunk k root va (suc len) e)))
    ]
