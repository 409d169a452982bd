-- ===== src/Fs/Disk.antt =====
-- Inodes on the disk: `iupdate` and `ilock` of kernel/fs.c.
use mathlib.Core.Path.{subst}
use os_labs.Prelude.{
  ℕ, ◌+◌, ◌-◌, ◌*◌, ◌/◌, ◌%◌, ◌^◌, ◌<◌, ◌≡◌, ◌≢◌, sym, ap, ◌∙◌, true, false, ◌&&◌, ltb, leb, ◌==◌,
  update_self, arith,
}
use os_labs.BlockCache.{Block}
use os_labs.Panic.{Run, done, panics, out_of_fuel}
use os_labs.Fs.{Inode, Fs, set_inode}
use os_labs.Fs.Inodes.{
  inodes_per_block, inode_block, dinode_word, put_dinode, get_dinode, is_held, load_inode, iupdate,
  ilock,
}

-- The fields fit into their words, and the addresses are those that the disk has room for.
pub record IsStored (ip : Inode) : Type 0 where
  pub type_short : ip.type_of < 2 ^ 16
  pub minor_short : ip.minor < 2 ^ 16
  pub in_use : ip.type_of ≢ 0

-- `ip` has the fields of `saved` that are on the disk.
pub record Same (saved ip : Inode) : Type 0 where
  pub type_of : ip.type_of ≡ saved.type_of
  pub major : ip.major ≡ saved.major
  pub minor : ip.minor ≡ saved.minor
  pub nlink : ip.nlink ≡ saved.nlink
  pub size : ip.size ≡ saved.size
  pub addrs : (k : ℕ) → k < 13 → ip.addrs k ≡ saved.addrs k

-- How `ilock` ends for the inode `saved`.
abbrev pub Locked : Inode → ℕ → Run Fs → Type 0
Locked saved j (done fs) = ((fs.inode j).valid ≡ true) × Same saved (fs.inode j)
Locked saved j panics = ⊥
Locked saved j out_of_fuel = ⊥

put_dinode-at :
    (inum : ℕ) (ip : Inode) (d : Block) (j : ℕ)
    → j < 16
    → put_dinode inum ip d (inum % inodes_per_block * 16 + j) ≡ dinode_word ip j
put_dinode-at inum ip d j h =
    let first = inum % inodes_per_block * 16 in
    let inside : (leb first (first + j) && ltb (first + j) (first + 16)) ≡ true =
      ground (arith, h) in
    let offset : first + j - first ≡ j = omega arith in
    rw inside (ap (λ k. dinode_word ip k) offset)

put_dinode-first :
    (inum : ℕ) (ip : Inode) (d : Block)
    → put_dinode inum ip d (inum % inodes_per_block * 16) ≡ dinode_word ip 0
put_dinode-first inum ip d =
    ap (put_dinode inum ip d) (omega arith) ∙ put_dinode-at inum ip d 0 (omega arith)

dinode_word-addrs : (ip : Inode) (k : ℕ) → dinode_word ip (3 + k) ≡ ip.addrs k
dinode_word-addrs ip k =
    let zero' : (3 + k == 0) ≡ false = ground arith in
    let one : (3 + k == 1) ≡ false = ground arith in
    let two : (3 + k == 2) ≡ false = ground arith in
    let offset : 3 + k - 3 ≡ k = omega arith in rw zero' (rw one (rw two (ap ip.addrs offset)))

get_dinode-put_dinode :
    (inum : ℕ) (saved ip : Inode) (d : Block)
    → IsStored saved
    → Same saved (get_dinode inum (put_dinode inum saved d) ip)
get_dinode-put_dinode inum saved ip d st =
    let short = st.type_short in
    let small = st.minor_short in
    let first = put_dinode-first inum saved d in
    let second = put_dinode-at inum saved d 1 (omega arith) in
    record {
      type_of = ap (λ w. w % 2 ^ 16) first ∙ omega (arith, short);
      major = ap (λ w. w / 2 ^ 16) first ∙ omega (arith, short);
      minor = ap (λ w. w % 2 ^ 16) second ∙ omega (arith, small);
      nlink = ap (λ w. w / 2 ^ 16) second ∙ omega (arith, small);
      size = put_dinode-at inum saved d 2 (omega arith);
      addrs = λ k h.
          ap (put_dinode inum saved d) (omega arith)
          ∙ put_dinode-at inum saved d (3 + k) (omega (arith, h))
          ∙ dinode_word-addrs saved k;
    }

-- The image of another inode stays.
get_dinode-other :
    (inum other : ℕ) (saved ip : Inode) (d : Block) (k : ℕ)
    → inum % inodes_per_block ≢ other % inodes_per_block
    → k < 16
    → put_dinode inum saved d (other % inodes_per_block * 16 + k)
      ≡ d (other % inodes_per_block * 16 + k)
get_dinode-other inum other saved ip d k ne h = ground (arith, ne, h)

Same-cong : (saved ip ip' : Inode) → ip ≡ ip' → Same saved ip' → Same saved ip
Same-cong saved ip ip' e same = subst (Same saved) (sym e) same

load_inode-Locked :
    (saved ip : Inode) (d : Block) (j : ℕ) (fs : Fs)
    → IsStored saved
    → is_held ip.ref ≡ true
    → ip.valid ≡ false
    → Locked saved j (load_inode j ip (put_dinode ip.inum saved d) fs)
load_inode-Locked saved ip d j fs st held quiet =
    let same = get_dinode-put_dinode ip.inum saved ip d st in
    let in_use = st.in_use in
    let read = get_dinode ip.inum (put_dinode ip.inum saved d) ip in
    let used : (read.type_of == 0) ≡ false =
      ap (λ t. t == 0) same.type_of ∙ ground (arith, in_use) in
    let again : Same saved (record read { valid = true }) = record {
      type_of = same.type_of;
      major = same.major;
      minor = same.minor;
      nlink = same.nlink;
      size = same.size;
      addrs = same.addrs;
    } in
    let e = update_self fs.inode j (record read { valid = true }) in
    rw held (
      rw quiet
        (rw used (ap (λ ip. ip.valid) e, Same-cong saved _ (record read { valid = true }) e again)))

-- `iupdate` of an inode, and later `ilock` of an entry for it that is not valid: it is valid, and
-- has all the fields back that are on the disk.
pub ilock-iupdate :
    (i j : ℕ) (fs : Fs) (ip : Inode)
    → IsStored (fs.inode i)
    → ip.inum ≡ (fs.inode i).inum
    → is_held ip.ref ≡ true
    → ip.valid ≡ false
    → Locked (fs.inode i) j (ilock j (set_inode j ip (iupdate i fs)))
unfolding ilock iupdate
ilock-iupdate i j fs ip st inum held quiet =
    let saved = fs.inode i in
    let later = set_inode j ip (iupdate i fs) in
    let d = fs.blocks (inode_block saved.inum fs.sb) in
    let entry =
      ap (λ x. load_inode j x (later.blocks (inode_block x.inum fs.sb)) later)
        (update_self fs.inode j ip) in
    let block : later.blocks (inode_block ip.inum fs.sb) ≡ put_dinode ip.inum saved d =
      ap (λ n. later.blocks (inode_block n fs.sb)) inum
      ∙ update_self fs.blocks (inode_block saved.inum fs.sb) (put_dinode saved.inum saved d)
      ∙ ap (λ n. put_dinode n saved d) (sym inum) in
    subst (Locked saved j) (sym (entry ∙ ap (λ d. load_inode j ip d later) block))
      (load_inode-Locked saved ip d j later st held quiet)
