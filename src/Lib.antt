-- ===== src/Lib.antt =====
-- Verification of xv6, the teaching operating system of this repository: parts of its kernel
-- (kernel/) and of its user library and programs (user/), each modelled by the files named here.
--
-- The parts, and how they interact:
--
-- * The redo log, kernel/log.c: Log.antt and Log/. It stands on what kernel/bio.c promises of the
--   block cache, BlockCache.antt: the contents that a reader sees, the disk, the disks that a crash
--   could have left, and the reference counts. Log/System.antt lets file system calls interleave:
--   `begin_op`, writes, `end_op`, and the commit that the last `end_op` makes. A disk is a function
--   from block numbers to blocks of 32-bit words; writing one block is atomic.
-- * Pipes, kernel/pipe.c: Pipe.antt and Pipe/. Each call runs under the lock of the pipe to its end
--   or to its next sleep; Pipe/Fifo.antt puts such turns together in any order. User memory is a
--   function that is undefined where it is not mapped.
-- * Memory and strings, kernel/string.c and user/ulib.c: Memory.antt and CString.antt. A loop that
--   has no bound in the source takes fuel, and its theorem says how much is enough: one more than
--   the length of the string.
-- * Formatted output, kernel/printf.c and user/printf.c: Printf.antt and Printf/. The output is the
--   list of bytes that is put; the sixteen bytes of the buffer of `printint` are counted.
-- * The matcher of user/grep.c: Regex.antt and Regex/.
-- * The process table, kernel/proc.c: Process.antt and Process/. A function is what a process does
--   to the table between taking and releasing the locks; a fork fills in the child in one go. The
--   context switch is not modelled: a sleep is its two halves, before and after.
-- * The page allocator, kernel/kalloc.c: Kalloc.antt and Kalloc/. Memory is a function from addresses
--   to 64-bit words, which holds the links of the free list; the loop of `freerange` takes fuel, one
--   more than the number of pages.
-- * The file table, kernel/file.c: File.antt and File/. Pipes, inodes, devices and transactions are an
--   interface, `Below`. What `filewrite` relies on is `Bounded` of File/Chunks.antt, which Fs/Write.antt
--   shows of `writei`. File/Open.antt is what kernel/sysfile.c and kernel/pipe.c set in a new file. The
--   loop of `filewrite` has one round of fuel more than there are bytes.
-- * The console, kernel/console.c: Console.antt and Console/; `type_key` of Console/Keys.antt says what
--   a key does, and the loop that kills a line has fuel for a full buffer. The UART, kernel/uart.c, and
--   `consolewrite`: Uart.antt and Uart/. The device is the answers that it gives.
-- * Page tables, kernel/vm.c: Vm.antt and Vm/, in the memory of Kalloc.antt. What may panic is a `Run`
--   of Panic.antt, here, in the block cache, the file system and the shell. Loops over addresses take
--   fuel, for one round more than there are pages or bytes.
-- * The block cache, kernel/bio.c: Bio.antt and Bio/: its buffers, the list that keeps them by their
--   last use, and the disk.
-- * The file system, kernel/fs.c: Fs.antt and Fs/. A block is the 256 words that a buffer holds, and
--   `log_write` is a change that is noted; the log promises the rest. Where `readi` and `writei` copy
--   to and from is a parameter. Their loops take fuel, for one round more than there are bytes.
-- * The shell, user/sh.c: Sh.antt is its parser, on lists of bytes; Sh/Grammar.antt has the syntax of
--   command lines, how they are printed, and fuel that is enough to parse them.
-- * Spin locks, kernel/spinlock.c: Spinlock.antt and Spinlock/: the locks as one processor sees them,
--   with its interrupts.
--
-- Pointers into an array of structures are indexes, or an index plus one where null is a value.
-- Machine words are natural numbers with the wrap-around written out; an `int` is its bit pattern
-- where its sign matters. Outside of Spinlock.antt there are no locks: what runs under a lock is one
-- function.
--
-- Not modelled: assembly code and hardware setup, the disk driver, the system call layer, program
-- loading, sleep locks, how the shell runs commands, and the other user programs.
pub mod Prelude
pub mod BlockCache
pub mod Log
pub mod Pipe
pub mod Memory
pub mod CString
pub mod Regex
pub mod Printf
pub mod Process
pub mod Kalloc
pub mod File
pub mod Console
pub mod Uart
pub mod Spinlock
pub mod Panic
pub mod Vm
pub mod Fs
pub mod Bio
pub mod Sh
