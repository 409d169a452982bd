-- ===== src/Console/Store.antt =====
-- The bytes that `consoleintr` of kernel/console.c stores.
use os_labs.Prelude.{
  ℕ, suc, ◌+◌, ◌%◌, ◌<◌, ◌≡◌, ◌≢◌, refl, sym, ap, ◌∙◌, Bool, true, false, some, [], ◌∷◌, ◌++◌,
  update, update_self, arith, eq→==,
}
use os_labs.Console.{Cons, input_size, consputc, previous, store, stored, ends_line}
use os_labs.Console.Line.{
  next, window, back, distance, ready, editing, committed, edit_line, IsValid, turn, length-window,
  length-back, window-append, turn-back, window-update, back-update,
}
use os_labs.Console.Keys.{ended, kept, keep, Does}

store-lines :
    (c : ℕ) (s : Cons)
    → IsValid s
    → c < 256
    → ready s + editing s < input_size
    → window (update s.buf (s.e % input_size) (c % 256)) s.r (ready s) ≡ committed s
unfolding committed
store-lines c s v h room =
    window-update s.buf s.r (ready s) s.e (c % 256) v.r_word v.e_word (omega (arith, v, room))
      (omega (arith, v, room))

store-edit :
    (c : ℕ) (s : Cons)
    → IsValid s
    → c < 256
    → ready s + editing s < input_size
    → back (update s.buf (s.e % input_size) (c % 256)) (next s.e) (suc (editing s))
      ≡ c ∷ edit_line s
unfolding back edit_line
store-edit c s v h room =
    let e : previous (next s.e) ≡ s.e = omega (arith, v.e_word) in
    let same : c % 256 ≡ c = omega (arith, h) in
    let top : update s.buf (s.e % input_size) (c % 256) (previous (next s.e) % input_size) ≡ c =
      rw (e, same) (update_self s.buf (s.e % input_size) c) in
    let rest : back (update s.buf (s.e % input_size) (c % 256)) (previous (next s.e)) (editing s)
        ≡ back s.buf s.e (editing s) =
      rw e (
        back-update s.buf s.e (editing s) s.e (c % 256) v.e_word v.e_word
          (omega (arith, v, room))) in
    λ i. top i ∷ rest i

module _ (c : ℕ) (s : Cons) (v : IsValid s) (h : c < 256)
    (room : ready s + editing s < input_size) where
  -- A line that ends goes behind the others.
  ended-lines : committed (stored true c s).cons ≡ committed s ++ turn (c ∷ edit_line s) []
  unfolding committed edit_line window
  ended-lines =
      let buf : ℕ → ℕ = update s.buf (s.e % input_size) (c % 256) in
      let n : distance s.r (next s.e) ≡ ready s + suc (editing s) = omega (arith, v, room) in
      let more =
        window-append buf s.r (ready s) (suc (editing s)) s.w (ready s + suc (editing s)) v.r_word
          (omega (arith, v)) refl in
      let turned =
        turn-back buf s.w (suc (editing s)) 0 (next s.e) (suc (editing s)) v.w_word
          (omega (arith, v)) (omega arith) in
      ap (window buf s.r) n
      ∙ more
      ∙ ap (λ l. l ++ window buf s.w (suc (editing s))) (store-lines c s v h room)
      ∙ ap (λ l. committed s ++ l) (sym turned ∙ ap (λ l. turn l []) (store-edit c s v h room))

  ended-edit : edit_line (stored true c s).cons ≡ []
  unfolding edit_line back
  ended-edit =
      ap (back (update s.buf (s.e % input_size) (c % 256)) (next s.e))
        (let gap : distance (next s.e) (next s.e) ≡ 0 = omega arith in gap)

  longer-edit : edit_line (stored false c s).cons ≡ c ∷ edit_line s
  unfolding edit_line
  longer-edit =
      ap (back (update s.buf (s.e % input_size) (c % 256)) (next s.e))
        (let n : distance s.w (next s.e) ≡ suc (editing s) = omega (arith, v, room) in n)
      ∙ store-edit c s v h room

  longer-lines : committed (stored false c s).cons ≡ committed s
  unfolding committed
  longer-lines = store-lines c s v h room

  -- The two outcomes for a byte that is kept.
  stored-Does :
      (line : Bool)
      → (line ≡ false → c ≢ b'\n')
      → Does (some (stored line c s)) (kept line c (committed s) (edit_line s))
  stored-Does true nl = (
    record {
      r_word = v.r_word;
      w_word = omega arith;
      e_word = omega arith;
      fits = omega (arith, v, room);
      one_line = rw ended-edit tt;
    },
    λ i. record {
      lines = ended-lines i;
      edit = ended-edit i;
      echo = consputc c;
      woken = true;
      listed = false;
    },
  )
  stored-Does false nl = (
    record {
      r_word = v.r_word;
      w_word = v.w_word;
      e_word = omega arith;
      fits = omega (arith, v, room);
      one_line = rw longer-edit (nl refl, v.one_line);
    },
    λ i. record {
      lines = longer-lines i;
      edit = longer-edit i;
      echo = consputc c;
      woken = false;
      listed = false;
    },
  )

  -- The console is full to its users exactly when it is full.
  ends_line-ended : ends_line c s ≡ ended c (committed s) (edit_line s)
  unfolding committed edit_line
  ends_line-ended =
      rw (length-window s.buf s.r (ready s), length-back s.buf s.e (editing s))
        (let n : distance s.r (next s.e) ≡ suc (ready s + editing s) = omega (arith, v, room) in
          rw n refl)

  pub store-Does : Does (some (store c s)) (keep c (committed s) (edit_line s))
  unfolding store
  store-Does =
      rw (sym ends_line-ended)
        (stored-Does (ends_line c s) (λ e q. let nl = eq→== c b'\n' q in ground (arith, e, nl)))
