-- ===== src/File.antt =====
-- kernel/file.c and `struct file` of kernel/file.h: the table of open files. A file, a pipe and an
-- inode are indexes.
pub mod Handles
pub mod Open
pub mod Count
pub mod Chunks
mod Tests
use os_labs.Prelude.{
  ℕ, zero, suc, ◌+◌, ◌-◌, ◌*◌, ◌%◌, ◌^◌, Bool, true, false, not, ◌&&◌, ◌||◌, Option, none, some,
  ltb, leb, ◌==◌, if◌then◌else◌, update,
}

pub data FileType : Type 0 where
  fd_none fd_pipe fd_inode fd_device : FileType

-- NFILE and NDEV of kernel/param.h, BSIZE of kernel/fs.h.
abbrev pub nfile : ℕ
nfile = 100

abbrev pub ndev : ℕ
ndev = 10

abbrev pub bsize : ℕ
bsize = 1024

pub record File : Type 0 where
  pub type : FileType
  pub ref : ℕ
  pub readable : Bool
  pub writable : Bool
  pub pipe : ℕ
  pub ip : ℕ
  pub off : ℕ
  pub major : ℕ

-- `ftable.file`
abbrev pub Files : Type 0
Files = ℕ → File

-- The `int` with these bits is positive.
abbrev pub is_positive : ℕ → Bool
is_positive r = ltb 0 r && ltb r (2 ^ 31)

-- -1 as an `int`.
abbrev pub minus_one : ℕ
minus_one = 2 ^ 32 - 1

abbrev pub set_ref : ℕ → ℕ → Files → Files
set_ref i n t = update t i (record (t i) { ref = n })

-- The loop of `filealloc`.
unfoldable pub alloc_loop : (left i : ℕ) → Files → Option ℕ × Files
alloc_loop zero i t = (none, t)
alloc_loop (suc left) i t =
    let rest = alloc_loop left (i + 1) t in if (t i).ref == 0 then (some i, set_ref i 1 t) else rest

unfoldable pub filealloc : Files → Option ℕ × Files
filealloc t = alloc_loop nfile 0 t

-- `none` is the panic, here and in `fileclose`.
unfoldable pub filedup : (i : ℕ) → Files → Option Files
filedup i t = if is_positive (t i).ref then some (set_ref i (((t i).ref + 1) % 2 ^ 32) t) else none

-- What `fileclose` has left to do when it has let the table go.
pub data Release : Type 0 where
  nothing : Release
  close_pipe : (pipe : ℕ) → (writable : Bool) → Release
  put_inode : (ip : ℕ) → Release

unfoldable pub release_of : File → Release
release_of ff = elim ff.type [
  | fd_none ↦ nothing
  | fd_pipe ↦ close_pipe ff.pipe ff.writable
  | fd_inode ↦ put_inode ff.ip
  | fd_device ↦ put_inode ff.ip
]

unfoldable pub fileclose : (i : ℕ) → Files → Option (Release × Files)
fileclose i t =
    let f = t i in
    if is_positive f.ref
    then (if is_positive (f.ref - 1)
        then some (nothing, set_ref i (f.ref - 1) t)
        else some (release_of f, update t i (record f { ref = 0; type = fd_none })))
    else none

-- What the table calls, over the rest of the system: reading and writing pipes, inodes and devices,
-- and the transactions. The results are `int`s; a device may lack an operation.
pub record Below (S : Type 0) : Type 0 where
  pub pipe_read : (pipe addr n : ℕ) → S → ℕ × S
  pub pipe_write : (pipe addr n : ℕ) → S → ℕ × S
  pub inode_read : (ip addr off n : ℕ) → S → ℕ × S
  pub inode_write : (ip addr off n : ℕ) → S → ℕ × S
  pub device_read : (major : ℕ) → Option ((addr n : ℕ) → S → ℕ × S)
  pub device_write : (major : ℕ) → Option ((addr n : ℕ) → S → ℕ × S)
  pub copy_stat : (ip addr : ℕ) → S → Bool × S
  pub begin_op : S → S
  pub end_op : S → S

-- `filestat`: `ilock`, `stati`, `iunlock` and `copyout` are `copy_stat`.
unfoldable pub filestat : {S : Type 0} → Below S → (i addr : ℕ) → Files → S → ℕ × S
filestat {S} ops i addr t s =
    let stat : ℕ × S =
      let (ok, s) = ops.copy_stat (t i).ip addr s in (if ok then 0 else minus_one, s) in
    elim (t i).type [
      | fd_none ↦ (minus_one, s)
      | fd_pipe ↦ (minus_one, s)
      | fd_inode ↦ stat
      | fd_device ↦ stat
    ]

-- `f->major < 0 || f->major >= NDEV || !devsw[f->major].read` fails the call.
abbrev call_device :
    {S : Type 0} → (major : ℕ) → Option ((addr n : ℕ) → S → ℕ × S) → (addr n : ℕ) → S → ℕ × S
call_device major none addr n s = (minus_one, s)
call_device major (some device) addr n s =
    if leb ndev major then (minus_one, s) else device addr n s

abbrev pub moved : ℕ → ℕ → ℕ
moved r off = if is_positive r then (off + r) % 2 ^ 32 else off

abbrev pub set_off : ℕ → ℕ → Files → Files
set_off i off t = update t i (record (t i) { off = off })

-- `none` is the panic, here and in `filewrite`.
unfoldable pub fileread :
    {S : Type 0} → Below S → (i addr n : ℕ) → Files → S → Option (ℕ × Files × S)
fileread ops i addr n t s =
    let f = t i in
    if not f.readable then some (minus_one, t, s) else elim f.type [
      | fd_none ↦ none
      | fd_pipe ↦ let (r, s) = ops.pipe_read f.pipe addr n s in some (r, t, s)
      | fd_inode ↦
          let (r, s) = ops.inode_read f.ip addr f.off n s in
          some (r, set_off i (moved r f.off) t, s)
      | fd_device ↦
          let (r, s) = call_device f.major (ops.device_read f.major) addr n s in some (r, t, s)
    ]

-- `((MAXOPBLOCKS-1-1-2) / 2) * BSIZE`
abbrev pub max_chunk : ℕ
max_chunk = 3 * bsize

-- The loop of `filewrite` on an inode, with fuel: `i`, the offset, and the rest.
unfoldable pub chunk_loop :
    {S : Type 0} → Below S → (ip addr n fuel i off : ℕ) → S → Option (ℕ × ℕ × S)
chunk_loop ops ip addr n zero i off s = none
chunk_loop ops ip addr n (suc fuel) i off s =
    let n1 : ℕ = if ltb max_chunk (n - i) then max_chunk else n - i in
    let w = ops.inode_write ip ((addr + i) % 2 ^ 64) off n1 (ops.begin_op s) in
    let off' : ℕ = moved (w.0) off in
    let s' = ops.end_op (w.1) in
    let rest = chunk_loop ops ip addr n fuel (i + n1) off' s' in
    if ltb i n then (if w.0 == n1 then rest else some (i, off', s')) else some (i, off, s)

-- `ret = (i == n ? n : -1)`
unfoldable pub write_end :
    {S : Type 0} → (i n : ℕ) → Files → Option (ℕ × ℕ × S) → Option (ℕ × Files × S)
write_end i n t none = none
write_end i n t (some (done, off, s)) =
    some (if done == n then n else minus_one, set_off i off t, s)

-- `filewrite` of `n` bytes, with `n` an `int`; a round of the loop writes at least one byte or is
-- the last.
unfoldable pub filewrite :
    {S : Type 0} → Below S → (i addr n : ℕ) → Files → S → Option (ℕ × Files × S)
filewrite ops i addr n t s =
    let f = t i in
    if not f.writable then some (minus_one, t, s) else elim f.type [
      | fd_none ↦ none
      | fd_pipe ↦ let (r, s) = ops.pipe_write f.pipe addr n s in some (r, t, s)
      | fd_device ↦
          let (r, s) = call_device f.major (ops.device_write f.major) addr n s in some (r, t, s)
      | fd_inode ↦
          let len : ℕ = if ltb n (2 ^ 31) then n else 0 in
          write_end i n t (chunk_loop ops f.ip addr len (suc len) 0 f.off s)
    ]
