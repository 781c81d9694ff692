-- ===== src/Lib.antt =====
-- CUHKSZ_Operating_System: the assignments of an operating-system course. Most of the code is a small
-- Unix kernel for RISC-V that the assignments extend; the rest are single programs. This library
-- models the kernel, and of its user programs grep and the parser of the shell.
--
-- The program's parts and the files that model them:
--
-- - Prelude re-exports the library's names, and has Boolean tests on the native numbers, C arrays as
--   lists over the native numbers (Prelude/Tests, Prelude/Lists), the bits of a byte (Prelude/Bits) and
--   integers (Prelude/Int).
--
-- - Pipe is Assignment3/initial_code/kernel/pipe.c. `Pipe` is `struct pipe` with the two 32-bit counters
--   that wrap, `write` and `read` are `pipewrite` and `piperead` up to the point where they sleep, and
--   `close` is `pipeclose`. A call that sleeps returns the index that its loop has reached: it
--   goes on from there when it is woken. What `copyin`, `copyout` and `killed` answer in each round is
--   an argument.
--
-- - Fs is Assignment4/source/fs.c with the buffer cache and the log header that it uses
--   (Assignment3/initial_code/kernel/bio.c, log.c). Fs/Disk has the state: the bytes of the
--   blocks as the buffer cache shows them, and the blocks that the running transaction has logged.
--   Every operation is a command on this state that returns or panics. Fs/Blocks is `bzero`, `balloc`
--   and `bfree`, Fs/Bmap is `bmap` with the direct, the indirect and the doubly indirect blocks,
--   Fs/Itrunc is `iupdate` and `itrunc`. One command runs as one process: the inode's sleep-lock is
--   held, and no other process changes its blocks.
--
-- - Log is Assignment3/initial_code/kernel/log.c. Log itself has the commit and the recovery with a
--   machine that stops after any number of disk writes (`commit`, `recover_from_log` and what they
--   call), and `begin_op`, `end_op` and `log_write` on the header, as steps of system calls that run at
--   the same time (Log/Reserve). Fs/Disk has its own `log_write`, which also sees the bytes. The pins
--   of the buffers in the cache are not modelled: a logged block stays in the cache.
--
-- - Proc is Assignment3/source/proc.c: the table `proc[NPROC]` as a function from slots, and the
--   functions that create, end, collect, wake and kill processes. Pids are natural numbers, as no run
--   makes 2^31 processes.
--
-- - Vma is the slots of mapped files: Assignment3/source/proc.h and the helpers of `sys_mmap` and
--   `sys_munmap` in Assignment3/source/sysfile.c.
--
-- - Inodes is the upper half of Assignment4/source/fs.c: the table of inodes in memory with its counts
--   of references (`iget`, `idup`, `ilock`, `iput`), directories (`dirlookup`, `dirlink`) and path names
--   (`skipelem`, `namex`). A directory is the list of its entries here; the blocks below it are in Fs.
--   Whether `writei` can write an entry is an argument.
-- - Kalloc is Assignment3/initial_code/kernel/kalloc.c, with the free list in the words of the pages.
-- - Strings is Assignment3/initial_code/kernel/string.c on a memory of bytes.
-- - Grep is Assignment3/initial_code/user/grep.c and `strchr` of user/ulib.c. What the calls of `read`
--   bring is a list of chunks.
--
-- - Bio is Assignment3/initial_code/kernel/bio.c: the buffers, their order by use and their counts, and
--   the bytes that they show of the disk. A call that finds its buffer locked by another process
--   ends asleep; what follows the wait is not modelled. Fs sees blocks through it, without buffers.
-- - Files is the table of open files, Assignment3/initial_code/kernel/file.c, and the descriptors of
--   processes: Assignment3/source/sysfile.c and the loops over descriptors of Assignment3/source/proc.c.
--   What the last close gives up is a list of events, which Pipe (`close`) and Inodes (`iput`) take up.
--
-- - Vm is `walk`, `walkaddr` and `mappages` of Assignment3/initial_code/kernel/vm.c, over the three levels
--   of tables of Sv39 in memory and the pages that `kalloc` gives.
--
-- - Spinlock is Assignment3/initial_code/kernel/spinlock.c: `acquire` and `release` as steps of any
--   number of processors in any order, where a step changes the lock once at most and the test of
--   `holding` goes with the step after it; and `push_off` and `pop_off`.
--
-- - Sh is the parser of command lines of Assignment3/initial_code/user/sh.c, from the tokens to `parsecmd`.
--   Sh/Grammar has the lines as trees, with how they are written.
--
-- - Async is the pool of threads of Assignment2/3150-p2-bonus-main/async.c, as steps of its workers and of
--   the callers of `async_run`; a step is one call of pthread or one read or write of the list.
--
-- - Game is the game of Assignment2/source/source.c: a turn of `main` with what its two threads do in it.
--
-- Loops over the blocks of a file, the bits of the bit map and the bytes of a transfer are structural
-- recursion on the number of rounds left, which is the bound that the source has. `namex` takes the
-- length of the path and two as fuel, since each round takes an element from the path; `freerange` takes
-- the number of pages and one; the theorems on both say that they return. `strlen` takes the number of
-- bytes that it may look at, and answers `none` where the source would read on. `parsecmd` takes the
-- length of the line and three, since every call of `parseline` in another and every round of a loop
-- takes a token; the theorem on it says that this is enough. What runs on without an end, the loops of
-- the threads in Spinlock, Async and Game, is steps or turns of any number.
--
-- Not modelled: interleavings inside a function (but for Spinlock and Async, a function is modelled as if
-- it ran alone from one sleep to the next), the rest of vm.c, readi and writei, the calls of the file
-- system on paths, traps, drivers, the user programs but grep and the parser of the shell, the programs
-- of Assignment1, and the HTTP server of Assignment2.
pub mod Prelude
pub mod Pipe
pub mod Fs
pub mod Log
pub mod Proc
pub mod Vma
pub mod Strings
pub mod Grep
pub mod Kalloc
pub mod Inodes
pub mod Bio
pub mod Files
pub mod Vm
pub mod Spinlock
pub mod Sh
pub mod Async
pub mod Game
