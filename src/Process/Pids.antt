-- ===== src/Process/Pids.antt =====
-- No two processes have one pid: an invariant of every step on the process table.
use os_labs.Prelude.{
  ℕ, ◌+◌, ◌<◌, ◌≡◌, refl, ◌≢◌, inl, inr, ◌∙◌, sym, ap, Bool, true, false, ltb, ◌==◌, arith,
  Bool-cases,
}
use native.Mathlib.Decide.{ℕ_discrete}
use os_labs.Process.{Proc, Table, unused, same_state, nproc, set_proc, each}
use os_labs.Process.Loops.{each_lem}

abbrev pub is_unused : Proc → Bool
is_unused p = same_state p.state unused

-- The pids of the processes are distinct and below `nextpid`; an unused slot has none.
pub record IsValid (t : Table) : Type 0 where
  pub next : 0 < t.nextpid
  pub below : (i : ℕ) → (t.proc i).pid < t.nextpid
  pub idle : (i : ℕ) → is_unused (t.proc i) ≡ ((t.proc i).pid == 0)
  pub distinct :
      (i j : ℕ)
      → i < nproc
      → j < nproc
      → (t.proc i).pid ≢ 0
      → (t.proc i).pid ≡ (t.proc j).pid
      → i ≡ j

-- What a step does that makes and frees no process.
pub record Keeps (t t' : Table) : Type 0 where
  pub next : t'.nextpid ≡ t.nextpid
  pub pid : (i : ℕ) → (t'.proc i).pid ≡ (t.proc i).pid
  pub idle : (i : ℕ) → is_unused (t'.proc i) ≡ is_unused (t.proc i)

pub Keeps-trans : {s t u : Table} → Keeps s t → Keeps t u → Keeps s u
Keeps-trans h k = record {
  next = k.next ∙ h.next;
  pid = λ i. k.pid i ∙ h.pid i;
  idle = λ i. k.idle i ∙ h.idle i;
}

pub Keeps-IsValid : {t t' : Table} → Keeps t t' → IsValid t → IsValid t'
Keeps-IsValid k v = record {
  next = omega (arith, k.next, v.next);
  below = λ i. omega (arith, k.next, k.pid i, v.below i);
  idle = λ i. k.idle i ∙ v.idle i ∙ ap (λ p. p == 0) (sym (k.pid i));
  distinct =
      λ i j h l nz e. v.distinct i j h l (λ z. nz (k.pid i ∙ z)) (sym (k.pid i) ∙ e ∙ k.pid j);
}

-- A change of one slot that leaves its pid, and whether it is in use.
pub set_proc-Keeps :
    (i : ℕ) (p : Proc) (t : Table)
    → p.pid ≡ (t.proc i).pid
    → is_unused p ≡ is_unused (t.proc i)
    → Keeps t (set_proc i p t)
set_proc-Keeps i p t pid idle = record {
  next = refl;
  pid = λ j. elim (ℕ_discrete i j) [ yes e ↦ ground (arith, pid) | no ne ↦ ground arith ];
  idle = λ j. elim (Bool-cases (i == j)) [
    | inl e ↦ rw e (idle ∙ ap (λ s. is_unused (t.proc s)) (let q : i ≡ j = ground arith in q))
    | inr e ↦ rw e refl
  ];
}

-- A loop whose body leaves these alone.
pub each-Keeps :
    (body : ℕ → Proc → Proc) (t : Table)
    → ((i : ℕ) (p : Proc) → (body i p).pid ≡ p.pid)
    → ((i : ℕ) (p : Proc) → is_unused (body i p) ≡ is_unused p)
    → Keeps t (record t { proc = each body nproc 0 t.proc })
each-Keeps body t pid idle = record {
  next = refl;
  pid = λ i. elim (Bool-cases (ltb i nproc)) [
    | inl e ↦ rw (each_lem body t.proc i, e) (pid i (t.proc i))
    | inr e ↦ rw (each_lem body t.proc i, e) refl
  ];
  idle = λ i. elim (Bool-cases (ltb i nproc)) [
    | inl e ↦ rw (each_lem body t.proc i, e) (idle i (t.proc i))
    | inr e ↦ rw (each_lem body t.proc i, e) refl
  ];
}

-- A slot that is freed.
pub freed-IsValid :
    (i : ℕ) (p : Proc) (t : Table)
    → p.pid ≡ 0
    → is_unused p ≡ true
    → IsValid t
    → IsValid (set_proc i p t)
freed-IsValid i p t z free v = record {
  next = v.next;
  below = λ j. ground (arith, z, v.below j, v.next);
  idle = λ j. elim (Bool-cases (i == j)) [
    | inl e ↦ rw e (free ∙ sym (ap (λ q. q == 0) z))
    | inr e ↦ rw e (v.idle j)
  ];
  distinct = λ j k h l nz e. ground (arith, z, v.distinct j k);
}

-- A slot that takes the next pid.
pub given-IsValid :
    (i : ℕ) (p : Proc) (t : Table)
    → p.pid ≡ t.nextpid
    → is_unused p ≡ false
    → IsValid t
    → IsValid (set_proc i p (record t { nextpid = t.nextpid + 1 }))
given-IsValid i p t z busy v = record {
  next = omega arith;
  below = λ j. ground (arith, z, v.below j, v.next);
  idle = λ j. elim (Bool-cases (i == j)) [
    | inl e ↦ rw e (busy ∙ ground (arith, z, v.next))
    | inr e ↦ rw e (v.idle j)
  ];
  distinct = λ j k h l nz e. ground (arith, z, v.distinct j k, v.below j, v.below k);
}
