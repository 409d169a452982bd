-- ===== src/Fs/Again.antt =====
-- `bmap` of kernel/fs.c, asked twice.
use mathlib.Core.Path.{subst}
use os_labs.Prelude.{
  ℕ, zero, suc, ◌+◌, ◌-◌, ◌/◌, ◌≤◌, ◌≡◌, ◌≢◌, refl, sym, ap, ◌∙◌, true, false, Bool-cases, inl, inr,
  ltb, ◌==◌, Option, none, some, min, update_self, arith,
}
use os_labs.BlockCache.{Block}
use os_labs.Panic.{Run, done, panics, out_of_fuel}
use os_labs.Fs.{Fs}
use os_labs.Fs.Blocks.{
  bitmap_block, bits_per_block, take_bit, bzero, find_clear, balloc_loop, balloc,
}
use os_labs.Fs.Inodes.{ndirect, nindirect}
use os_labs.Fs.Extents.{keep_addr, keep_entry, own_block, indirect_entry, through_indirect, bmap}

take_bit-inode :
    (b map_block : ℕ) (d : Block) (rest : ℕ × Fs) (fs : Fs) (found : Option ℕ)
    → rest.1.inode ≡ fs.inode
    → (take_bit b map_block d rest fs found).1.inode ≡ fs.inode
unfolding bzero
take_bit-inode b map_block d rest fs none e = e
take_bit-inode b map_block d rest fs (some bi) e = refl

-- `balloc` leaves the table of inodes.
balloc_loop-inode : (left b : ℕ) (fs : Fs) → (balloc_loop left b fs).1.inode ≡ fs.inode
unfolding balloc_loop bzero
balloc_loop-inode zero b fs = refl
balloc_loop-inode (suc left) b fs =
    let ih = balloc_loop-inode left (b + bits_per_block) fs in
    take_bit-inode b (bitmap_block b fs.sb) (fs.blocks (bitmap_block b fs.sb))
      (balloc_loop left (b + bits_per_block) fs) fs
      (find_clear (fs.blocks (bitmap_block b fs.sb)) (min bits_per_block (fs.sb.size - b)) 0) ih

balloc-inode : (fs : Fs) → (balloc fs).1.inode ≡ fs.inode
unfolding balloc
balloc-inode fs = balloc_loop-inode ((fs.sb.size + bits_per_block - 1) / bits_per_block) 0 fs

keep_addr-entry :
    (i k : ℕ) (r : ℕ × Fs)
    → (keep_addr i k r).0 ≢ 0
    → ((keep_addr i k r).1.inode i).addrs k ≡ (keep_addr i k r).0
keep_addr-entry i k (new, fs) ne = elim (Bool-cases (new == 0)) [
  | inl e ↦ absurd (ne (rw e refl))
  | inr e ↦
      rw e (ap (λ ip. ip.addrs k) (update_self fs.inode i _) ∙ update_self (fs.inode i).addrs k new)
]

-- A block that an inode has got is found in its entry.
own_block-entry :
    (i k : ℕ) (fs : Fs)
    → (own_block i k fs).0 ≢ 0
    → ((own_block i k fs).1.inode i).addrs k ≡ (own_block i k fs).0
own_block-entry i k fs = elim (Bool-cases ((fs.inode i).addrs k == 0)) [
  | inl e ↦ rw e (keep_addr-entry i k (balloc fs))
  | inr e ↦ rw e (λ ne. refl)
]

-- An inode that has the block keeps it.
own_block-kept :
    (i k : ℕ) (fs : Fs) (addr : ℕ)
    → addr ≢ 0
    → (fs.inode i).addrs k ≡ addr
    → own_block i k fs ≡ (addr, fs)
own_block-kept i k fs addr ne at =
    let e : ((fs.inode i).addrs k == 0) ≡ false = ground (arith, ne, at) in rw (e, at) refl

-- The indirect block of an inode.
keep_entry-entry :
    (addr bn : ℕ) (r : ℕ × Fs)
    → (keep_entry addr bn r).0 ≢ 0
    → (keep_entry addr bn r).1.blocks addr bn ≡ (keep_entry addr bn r).0
keep_entry-entry addr bn (new, fs) ne = elim (Bool-cases (new == 0)) [
  | inl e ↦ absurd (ne (rw e refl))
  | inr e ↦
      rw e (ap (λ d. d bn) (update_self fs.blocks addr _) ∙ update_self (fs.blocks addr) bn new)
]

keep_entry-inode : (addr bn : ℕ) (r : ℕ × Fs) → (keep_entry addr bn r).1.inode ≡ r.1.inode
keep_entry-inode addr bn (new, fs) = elim (Bool-cases (new == 0)) [
  | inl e ↦ rw e refl
  | inr e ↦ rw e refl
]

indirect_entry-entry :
    (addr bn : ℕ) (fs : Fs)
    → (indirect_entry addr bn fs).0 ≢ 0
    → (indirect_entry addr bn fs).1.blocks addr bn ≡ (indirect_entry addr bn fs).0
indirect_entry-entry addr bn fs = elim (Bool-cases (fs.blocks addr bn == 0)) [
  | inl e ↦ rw e (keep_entry-entry addr bn (balloc fs))
  | inr e ↦ rw e (λ ne. refl)
]

indirect_entry-inode : (addr bn : ℕ) (fs : Fs) → (indirect_entry addr bn fs).1.inode ≡ fs.inode
indirect_entry-inode addr bn fs = elim (Bool-cases (fs.blocks addr bn == 0)) [
  | inl e ↦ rw e (keep_entry-inode addr bn (balloc fs) ∙ balloc-inode fs)
  | inr e ↦ rw e refl
]

indirect_entry-kept :
    (addr bn : ℕ) (fs : Fs) (b : ℕ)
    → b ≢ 0
    → fs.blocks addr bn ≡ b
    → indirect_entry addr bn fs ≡ (b, fs)
indirect_entry-kept addr bn fs b ne at =
    let e : (fs.blocks addr bn == 0) ≡ false = ground (arith, ne, at) in rw (e, at) refl

-- How `bmap` ends: if with a block, then it gives this block again, and changes nothing.
abbrev pub Kept : (i bn : ℕ) → Run (ℕ × Fs) → Type 0
Kept i bn (done (b, fs)) = b ≢ 0 → bmap i bn fs ≡ done (b, fs)
Kept i bn panics = ndirect + nindirect ≤ bn
Kept i bn out_of_fuel = ⊥

bmap-direct : (i bn : ℕ) (fs : Fs) → ltb bn ndirect ≡ true → bmap i bn fs ≡ done (own_block i bn fs)
unfolding bmap
bmap-direct i bn fs e = rw e refl

bmap-indirect :
    (i bn : ℕ) (fs : Fs)
    → ltb bn ndirect ≡ false
    → ltb (bn - ndirect) nindirect ≡ true
    → bmap i bn fs ≡ through_indirect bn (own_block i ndirect fs)
unfolding bmap
bmap-indirect i bn fs far near = rw (far, near) refl

-- A block that the indirect block gave is given again.
through_indirect-again :
    (i bn addr : ℕ) (fs : Fs)
    → ltb bn ndirect ≡ false
    → ltb (bn - ndirect) nindirect ≡ true
    → (fs.inode i).addrs ndirect ≡ addr
    → (addr == 0) ≡ false
    → Kept i bn (done (indirect_entry addr (bn - ndirect) fs))
through_indirect-again i bn addr fs far near at used ne =
    let fs' = (indirect_entry addr (bn - ndirect) fs).1 in
    let there = ap (λ t. (t i).addrs ndirect) (indirect_entry-inode addr (bn - ndirect) fs) ∙ at in
    bmap-indirect i bn fs' far near
    ∙ ap (through_indirect bn) (own_block-kept i ndirect fs' addr (ground (arith, used)) there)
    ∙ rw used (
        ap done (
          indirect_entry-kept addr (bn - ndirect) fs' (indirect_entry addr (bn - ndirect) fs).0 ne
            (indirect_entry-entry addr (bn - ndirect) fs ne)))

through_indirect-Kept :
    (i bn : ℕ) (r : ℕ × Fs)
    → ltb bn ndirect ≡ false
    → ltb (bn - ndirect) nindirect ≡ true
    → (r.0 ≢ 0 → (r.1.inode i).addrs ndirect ≡ r.0)
    → Kept i bn (through_indirect bn r)
through_indirect-Kept i bn (addr, fs) far near at = elim (Bool-cases (addr == 0)) [
  | inl e ↦ rw e (λ ne. absurd (ne refl))
  | inr e ↦ rw e (through_indirect-again i bn addr fs far near (at (ground (arith, e))) e)
]

bmap-past :
    (i bn : ℕ) (fs : Fs)
    → ltb bn ndirect ≡ false
    → ltb (bn - ndirect) nindirect ≡ false
    → bmap i bn fs ≡ panics
unfolding bmap
bmap-past i bn fs far past = rw (far, past) refl

-- `bmap` gives a block that a file has got again, without a change of anything; it panics only
-- for a block past the largest file.
pub bmap-Kept : (i bn : ℕ) (fs : Fs) → Kept i bn (bmap i bn fs)
bmap-Kept i bn fs = elim (Bool-cases (ltb bn ndirect)) [
  | inl e ↦ subst (Kept i bn) (sym (bmap-direct i bn fs e)) (λ ne.
      bmap-direct i bn (own_block i bn fs).1 e
      ∙ ap done (
          own_block-kept i bn (own_block i bn fs).1 (own_block i bn fs).0 ne
            (own_block-entry i bn fs ne)))
  | inr e ↦ elim (Bool-cases (ltb (bn - ndirect) nindirect)) [
    | inl near ↦
        subst (Kept i bn) (sym (bmap-indirect i bn fs e near)) (
          through_indirect-Kept i bn (own_block i ndirect fs) e near (own_block-entry i ndirect fs))
    | inr past ↦ subst (Kept i bn) (sym (bmap-past i bn fs e past)) (ground (arith, e, past))
  ]
]
