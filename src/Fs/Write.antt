-- ===== src/Fs/Write.antt =====
-- `writei` of kernel/fs.c as `filewrite` of kernel/file.c calls it.
use os_labs.Prelude.{
  ℕ, zero, suc, ◌+◌, ◌-◌, ◌/◌, ◌%◌, ◌^◌, ◌<◌, ◌≤◌, ◌≡◌, ◌⊎◌, inl, inr, refl, Bool, false,
  Bool-cases, none, List, ltb, ◌==◌, ◌||◌, not, if◌then◌else◌, arith,
}
use os_labs.File.{bsize, Below}
use os_labs.File.Chunks.{Bounded}
use os_labs.Panic.{Run, done, panics, out_of_fuel, ◌>>=◌}
use os_labs.Fs.{Fs, fill, log_block}
use os_labs.Fs.Again.{Kept, bmap-Kept}
use os_labs.Fs.Inodes.{is_held, ilock}
use os_labs.Fs.Extents.{bmap, iunlock}
use os_labs.Fs.Data.{part, minus_one, max_size, set_bytes, write_loop, write_size, writei}

-- The loop ends, unless it panics, with at least `tot` bytes and at most `left` more.
abbrev LoopEnds : (tot left : ℕ) → Run (ℕ × ℕ × Fs) → Type 0
LoopEnds tot left (done (tot', off, fs)) = tot' ≤ tot + left
LoopEnds tot left panics = Unit
LoopEnds tot left out_of_fuel = ⊥

-- How `writei` ends, unless it panics.
abbrev pub WriteEnds : (n : ℕ) → Run (ℕ × Fs) → Type 0
WriteEnds n (done (tot, fs)) = (tot ≡ minus_one) ⊎ (tot ≤ n)
WriteEnds n panics = Unit
WriteEnds n out_of_fuel = ⊥

module _ (copy_in : (src n : ℕ) → Bool × List ℕ) where
  -- A round of the loop, once `bmap` has given its answer.
  abbrev round : (fuel i src off tot left : ℕ) → ℕ × Fs → Run (ℕ × ℕ × Fs)
  round fuel i src off tot left (addr, fs) =
      let m : ℕ = part off left in
      let c = copy_in src m in
      let d = set_bytes (off % bsize) c.1 (fs.blocks addr) in
      let rest =
        write_loop copy_in fuel i ((src + m) % 2 ^ 64) ((off + m) % 2 ^ 32) (tot + m) (left - m)
          (log_block addr d fs) in
      if addr == 0
      then done (tot, off, fs)
      else if not c.0
      then done (tot, off, fill addr d fs)
      else rest

  LoopEnds-more :
      (tot left m : ℕ) (r : Run (ℕ × ℕ × Fs))
      → m ≤ left
      → LoopEnds (tot + m) (left - m) r
      → LoopEnds tot left r
  LoopEnds-more tot left m (done (tot', off, fs)) le h = omega (arith, le, h)
  LoopEnds-more tot left m panics le h = tt
  LoopEnds-more tot left m out_of_fuel le h = elim h [ ]

  round-LoopEnds :
      (fuel i src off tot left : ℕ) (r : ℕ × Fs)
      → ((src' off' : ℕ) (fs : Fs)
          → LoopEnds
              (tot + part off left)
              (left - part off left)
              (write_loop copy_in fuel i src' off' (tot + part off left) (left - part off left) fs))
      → LoopEnds tot left (round fuel i src off tot left r)
  round-LoopEnds fuel i src off tot left (addr, fs) ih =
      let m : ℕ = part off left in
      let le : m ≤ left = ground arith in
      elim (Bool-cases (addr == 0)) [
        | inl full ↦ rw full (omega arith)
        | inr got ↦ elim (Bool-cases (copy_in src m).0) [
          | inl copied ↦
              rw (got, copied)
                (LoopEnds-more tot left m
                  (write_loop copy_in fuel i ((src + m) % 2 ^ 64) ((off + m) % 2 ^ 32) (tot + m)
                    (left - m)
                    (log_block addr (set_bytes (off % bsize) (copy_in src m).1 (fs.blocks addr))
                      fs))
                  le
                  (ih ((src + m) % 2 ^ 64) ((off + m) % 2 ^ 32) (
                    log_block addr (set_bytes (off % bsize) (copy_in src m).1 (fs.blocks addr))
                      fs)))
          | inr failed ↦ rw (got, failed) (omega arith)
        ]
      ]

  -- `bmap` always gives an answer.
  bind-LoopEnds :
      (fuel i src off tot left bn : ℕ) (r : Run (ℕ × Fs))
      → Kept i bn r
      → ((src' off' : ℕ) (fs : Fs)
          → LoopEnds
              (tot + part off left)
              (left - part off left)
              (write_loop copy_in fuel i src' off' (tot + part off left) (left - part off left) fs))
      → LoopEnds tot left (r >>= round fuel i src off tot left)
  bind-LoopEnds fuel i src off tot left bn (done r) kept ih =
      round-LoopEnds fuel i src off tot left r ih
  bind-LoopEnds fuel i src off tot left bn panics kept ih = tt
  bind-LoopEnds fuel i src off tot left bn out_of_fuel kept ih = elim kept [ ]

  write_loop-LoopEnds :
      (fuel i src off tot left : ℕ) (fs : Fs)
      → left < fuel
      → LoopEnds tot left (write_loop copy_in fuel i src off tot left fs)
  unfolding write_loop
  write_loop-LoopEnds zero i src off tot left fs h = absurd (omega (arith, h))
  write_loop-LoopEnds (suc fuel) i src off tot zero fs h = omega arith
  write_loop-LoopEnds (suc fuel) i src off tot (suc more) fs h =
      let left : ℕ = suc more in
      let some_bytes : 0 < part off left = ground arith in
      bind-LoopEnds fuel i src off tot left (off / bsize) (bmap i (off / bsize) fs)
        (bmap-Kept i (off / bsize) fs)
        (λ src' off' fs.
          write_loop-LoopEnds fuel i src' off' (tot + part off left) (left - part off left) fs
            (omega (arith, h, some_bytes)))

  size-WriteEnds :
      (i n : ℕ) (r : Run (ℕ × ℕ × Fs))
      → LoopEnds 0 n r
      → WriteEnds n (r >>= λ r. done (r.0, write_size copy_in i r.1 r.2))
  size-WriteEnds i n (done (tot, off, fs)) h = inr (omega (arith, h))
  size-WriteEnds i n panics h = tt
  size-WriteEnds i n out_of_fuel h = elim h [ ]

  -- `writei` of `n` bytes, with more fuel than that, fails, or has put at most `n` bytes, or panics.
  pub writei-WriteEnds :
      (fuel i src off n : ℕ) (fs : Fs) → n < fuel → WriteEnds n (writei copy_in fuel i src off n fs)
  unfolding writei
  writei-WriteEnds fuel i src off n fs h =
      let size = (fs.inode i).size in
      elim (Bool-cases (ltb size off || ltb ((off + n) % 2 ^ 32) off)) [
        | inl out ↦ rw out (inl refl)
        | inr inside ↦ elim (Bool-cases (ltb max_size ((off + n) % 2 ^ 32))) [
          | inl large ↦ rw (inside, large) (inl refl)
          | inr small ↦
              rw (inside, small)
                (size-WriteEnds i n (write_loop copy_in fuel i src off 0 n fs)
                  (write_loop-LoopEnds fuel i src off 0 n fs h))
        ]
      ]

  -- `ilock`, `writei` and `iunlock`.
  abbrev locked_write : (ip addr off n : ℕ) → Fs → Run (ℕ × Fs)
  locked_write ip addr off n fs = ilock ip fs >>= λ fs.
      (writei copy_in (n + 1) ip addr off n fs >>= λ r. (iunlock ip r.1 >>= λ fs. done (r.0, fs)))

  -- The result of a call, and the state or the panic behind it.
  abbrev result_of : Run (ℕ × Fs) → ℕ × Run Fs
  result_of (done (r, fs)) = (r, done fs)
  result_of panics = (minus_one, panics)
  result_of out_of_fuel = (minus_one, out_of_fuel)

  -- Files over the inodes of kernel/fs.c, where only their writes are of interest.
  abbrev pub inode_table : Below (Run Fs)
  inode_table = record {
    pipe_read = λ pipe addr n s. (0, s);
    pipe_write = λ pipe addr n s. (0, s);
    inode_read = λ ip addr off n s. (0, s);
    inode_write = λ ip addr off n s. result_of (s >>= locked_write ip addr off n);
    device_read = λ major. none;
    device_write = λ major. none;
    copy_stat = λ ip addr s. (false, s);
    begin_op = λ s. s;
    end_op = λ s. s;
  }

  result_of-bound :
      (n : ℕ) (r : Run (ℕ × Fs))
      → WriteEnds n r
      → ((result_of r).0 ≡ minus_one) ⊎ ((result_of r).0 ≤ n)
  result_of-bound n (done (tot, fs)) h = h
  result_of-bound n panics h = inl refl
  result_of-bound n out_of_fuel h = elim h [ ]

  unlock-WriteEnds :
      (ip n : ℕ) (r : Run (ℕ × Fs))
      → WriteEnds n r
      → WriteEnds n (r >>= λ r. (iunlock ip r.1 >>= λ fs. done (r.0, fs)))
  unlock-WriteEnds ip n (done (tot, fs)) h = elim (Bool-cases (is_held (fs.inode ip).ref)) [
    | inl e ↦ rw e h
    | inr e ↦ rw e tt
  ]
  unlock-WriteEnds ip n panics h = tt
  unlock-WriteEnds ip n out_of_fuel h = elim h [ ]

  -- Once `ilock` has ended.
  locked_write-bound :
      (ip addr off n : ℕ) (r : Run Fs)
      → let w = result_of (
          r >>= λ fs.
          (writei copy_in (n + 1) ip addr off n fs >>= λ r.
          (iunlock ip r.1 >>= λ fs. done (r.0, fs)))) in
        (w.0 ≡ minus_one) ⊎ (w.0 ≤ n)
  locked_write-bound ip addr off n (done fs) =
      let w = writei copy_in (n + 1) ip addr off n fs in
      result_of-bound n (w >>= λ r. (iunlock ip r.1 >>= λ fs. done (r.0, fs)))
        (unlock-WriteEnds ip n w (writei-WriteEnds (n + 1) ip addr off n fs (omega arith)))
  locked_write-bound ip addr off n panics = inl refl
  locked_write-bound ip addr off n out_of_fuel = inl refl

  -- What `filewrite` relies on holds of `writei`.
  pub inode_table-Bounded : (ip : ℕ) → Bounded inode_table ip
  inode_table-Bounded ip addr off n (done fs) = locked_write-bound ip addr off n (ilock ip fs)
  inode_table-Bounded ip addr off n panics = inl refl
  inode_table-Bounded ip addr off n out_of_fuel = inl refl
