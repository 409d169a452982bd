-- ===== src/Console/Edit.antt =====
-- What the keys do to the line that is typed: `consoleintr` of kernel/console.c.
use mathlib.Core.Path.{subst}
use os_labs.Prelude.{
  ℕ, zero, suc, ◌+◌, ◌-◌, ◌%◌, ◌^◌, ◌<◌, ◌≤◌, ◌≡◌, ◌≢◌, inl, inr, refl, sym, ap, true, false, not,
  ◌&&◌, ◌||◌, some, [], ◌∷◌, All, length, ltb, ◌==◌, if◌then◌else◌, arith, eq→==, ne→==, Bool-cases,
}
use os_labs.Console.{
  Cons, input_size, control, previous, kill_loop, store, quiet, kills, killed_line, rub,
  consoleintr,
}
use os_labs.Console.Line.{
  back, distance, ready, editing, committed, edit_line, IsValid, length-window, length-back,
}
use os_labs.Console.Keys.{unchanged, rub_out, keep, erased, type_key, Does}
use os_labs.Console.Store.{store-Does}

kill_loop-erased :
    (fuel n : ℕ) (s : Cons)
    → s.w < 2 ^ 32
    → s.e ≡ (s.w + n) % 2 ^ 32
    → n < fuel
    → n ≤ input_size
    → All (λ x. x ≢ b'\n') (back s.buf s.e n)
    → kill_loop fuel s ≡ some (record s { e = s.w }, erased n)
unfolding kill_loop back
kill_loop-erased zero n s hw at h small line = elim h [ ]
kill_loop-erased (suc fuel) zero s hw at h small line =
    let e : s.e ≡ s.w = omega (arith, hw) in
    let e' = eq→== s.e s.w e in
    let done : kills s ≡ false = ground (arith, e') in
    rw (done, kill_loop) (ap (λ e. some (record s { e = e }, [])) e)
kill_loop-erased (suc fuel) (suc n) s hw at h small line =
    let e : (s.e == s.w) ≡ false = ne→== s.e s.w (λ q. omega (arith, q)) in
    let e' = ne→== (s.buf (previous s.e % input_size)) b'\n' line.0 in
    let more : kills s ≡ true = ground (arith, e, e') in
    let ih =
      kill_loop-erased fuel n (record s { e = previous s.e }) hw (omega arith) (omega arith)
        (omega arith) line.1 in
    rw (more, kill_loop) (rw ih refl)

rub-Does : (s : Cons) → IsValid s → Does (some (rub s)) (rub_out (committed s) (edit_line s))
unfolding committed edit_line back
rub-Does s v = elim (Bool-cases (s.e == s.w)) [
  | inl same ↦
      let empty : edit_line s ≡ [] =
        ap (back s.buf s.e)
          (let none_left : editing s ≡ 0 = ground (arith, v.w_word, same) in none_left) in
      rw (same, empty) (v, refl)
  | inr more ↦
      let left : Cons = record s { e = previous s.e } in
      let n : editing s ≡ suc (editing left) = ground (arith, v.w_word, v.e_word, more) in
      let longer : edit_line s ≡ s.buf (previous s.e % input_size) ∷ edit_line left =
        ap (back s.buf s.e) n in
      let others : All (λ x. x ≢ b'\n') (s.buf (previous s.e % input_size) ∷ edit_line left) =
        subst (All (λ x. x ≢ b'\n')) longer v.one_line in
      rw (more, longer)
        (
          record {
            r_word = v.r_word;
            w_word = v.w_word;
            e_word = omega arith;
            fits = omega (arith, v, n);
            one_line = others.1;
          },
          refl,
        )
]

kill-Does :
    (s : Cons)
    → IsValid s
    → Does
        (some (killed_line (record s { e = s.w }, erased (editing s))))
        (record (unchanged (committed s) []) { echo = erased (length (edit_line s)) })
unfolding committed edit_line back
kill-Does s v =
    let gap : editing (record s { e = s.w }) ≡ 0 = omega arith in
    let empty : edit_line (record s { e = s.w }) ≡ [] = ap (back s.buf s.w) gap in
    let n : length (edit_line s) ≡ editing s = length-back s.buf s.e (editing s) in
    (
      record {
        r_word = v.r_word;
        w_word = v.w_word;
        e_word = v.w_word;
        fits = omega (arith, v, gap);
        one_line = rw empty tt;
      },
      λ i. record {
        lines = committed s;
        edit = empty i;
        echo = erased (sym n i);
        woken = false;
        listed = false;
      },
    )

edit_line-one : (s : Cons) → IsValid s → All (λ x. x ≢ b'\n') (back s.buf s.e (editing s))
unfolding edit_line
edit_line-one s v = v.one_line

total : (s : Cons) → IsValid s → length (committed s) + length (edit_line s) ≡ distance s.r s.e
unfolding committed edit_line
total s v =
    rw (length-window s.buf s.r (ready s), length-back s.buf s.e (editing s)) (omega (arith, v))

-- The other bytes.
key-Does :
    (c : ℕ) (s : Cons)
    → IsValid s
    → c < 256
    → Does
        (if not (c == 0) && ltb ((s.e + 2 ^ 32 - s.r) % 2 ^ 32) input_size
          then some (store (if c == b'\r' then b'\n' else c) s)
          else some (quiet s))
        (if not (c == 0) && ltb (length (committed s) + length (edit_line s)) input_size
          then keep (if c == b'\r' then b'\n' else c) (committed s) (edit_line s)
          else unchanged (committed s) (edit_line s))
key-Does c s v h = elim (Bool-cases (not (c == 0) && ltb (distance s.r s.e) input_size)) [
  | inr drops ↦
      let drops' : (not (c == 0) && ltb (length (committed s) + length (edit_line s)) input_size)
          ≡ false =
        rw (total s v) drops in
      rw (drops, drops') (v, refl)
  | inl keeps ↦
      let keeps' : (not (c == 0) && ltb (length (committed s) + length (edit_line s)) input_size)
          ≡ true =
        rw (total s v) keeps in
      let byte : (if c == b'\r' then b'\n' else c) < 256 = ground (arith, h) in
      let room : ready s + editing s < input_size = ground (arith, v, keeps) in
      rw (keeps, keeps') (store-Does (if c == b'\r' then b'\n' else c) s v byte room)
]

-- `consoleintr` of any byte, on a console whose indexes are in order and whose edited line has no
-- newline, returns with such a console, on which the byte has done what `type_key` says to the lines
-- that readers may take and to the line that is edited; also the echo and what is woken are as there.
pub consoleintr-Does :
    (c : ℕ) (s : Cons)
    → IsValid s
    → c < 256
    → Does (consoleintr c s) (type_key c (committed s) (edit_line s))
unfolding consoleintr
consoleintr-Does c s v h = elim (Bool-cases (c == control b'P')) [
  | inl p ↦ rw p (v, refl)
  | inr p ↦ elim (Bool-cases (c == control b'U')) [
    | inl u ↦
        let e : kill_loop (suc input_size) s ≡ some (record s { e = s.w }, erased (editing s)) =
          kill_loop-erased (suc input_size) (editing s) s v.w_word (omega (arith, v))
            (omega (arith, v)) (omega (arith, v)) (edit_line-one s v) in
        rw (p, u, e) (kill-Does s v)
    | inr u ↦ elim (Bool-cases (c == control b'H' || c == 0x7f)) [
      | inl b ↦ rw (p, u, b) (rub-Does s v)
      | inr b ↦ rw (p, u, b) (key-Does c s v h)
    ]
  ]
]
