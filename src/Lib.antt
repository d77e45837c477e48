-- ===== src/Lib.antt =====
-- A model in antt of the exercises of an operating-systems course: the teaching kernel under HW3
-- (a variant of xv6 for x86, in C, extended by process clocks, `wait_stat` and another scheduler)
-- and the small programs beside it.
--
-- The parts and how they interact. The process table (HW3/proc.c) makes, schedules and reaps
-- processes. It calls the page allocator, the virtual memory, the file table and the inodes, and the
-- timer of HW3/trap.c drives its clocks. Pipes (HW3/pipe.c) put bytes through a ring between two
-- processes and sleep and wake through the process table. String and memory routines (HW3/string.c)
-- serve all of them.
--
-- Base and its children: arithmetic of 32-bit words, lists with native lengths, loops over a
-- range, integers. They model no code of their own.
-- Proc: HW3/proc.c. Types has the table (`ptable`, `nextpid`, `initproc`, `ticks`), and `Services`,
-- the operations of the other parts that it calls, as a record of functions on a state of their
-- own, of which nothing is assumed. Create has `allocproc`, `userinit`, `growproc` and `fork`;
-- Signal has `sleep` (cut at its call of `sched` into `go_to_sleep` and `awake`), `wakeup`,
-- `kill`, `yield`, `update_stat` and the timer's work; Finish has `exit`, `wait` and `wait_stat`
-- (one pass of their endless loops each, cut at the sleep); Sched has `scheduler` (one pass over the
-- table, with the processes' own work between two switches as a parameter) and `sched`. A pointer
-- into the table is the index of a slot. Steps has these steps in any order as a relation, each as one
-- change of state. That is an abstraction: `allocproc` gives the table lock up before `kalloc`, `fork`
-- and `userinit` fill their slot without it, and `exit` closes its files before it takes it, and what
-- others do to the table in between is not modelled. The wakeups that `fileclose` and `end_op` make in
-- their own parts do not reach the table within `exit`.
-- Str: HW3/string.c over a memory of bytes. A loop over a count is recursion on it; `strlen` has
-- no bound in the code and runs on fuel, of which more than the length of the string is enough.
-- Pipe: HW3/pipe.c. Ring has the ring and its calls, Queue the bounded queue, Refine and Calls how
-- the one implements the other.
-- Log: HW3/log.c. Store has the disk and the dirty buffers of HW3/bio.c; the disk fails after a
-- number of writes, `power`, and writes a block as a whole or not at all. Ops has the operations,
-- with `end_op` cut at its commit; Header, Writes and Installs their loops, Phases and Crash the
-- states of the disk that a failure can leave, Atomic the commit as a whole, Pinning `log_write`,
-- and Space the reservations of `begin_op`.
-- Grep: the matcher of HW3/grep.c; Match has the code, Meaning what patterns mean.
-- File: the table of HW3/file.c; Table has the code, Holders the counts against a list of the
-- references that are held. Lock: HW3/spinlock.c, with one round of the loop of `acquire`.
-- Kalloc: HW3/kalloc.c over the bytes of the memory, with Chain for the list in the free pages; the
-- loop of `freerange` runs on fuel, a round for each page.
-- Cache: HW3/bio.c; Buffers has `bget` (one round from its label) and `brelse` over the list of the
-- buffers, the most recently used first, and Unique, Search and Calls what holds of them.
-- Linked: HW2/linkedList.c on a heap of nodes. The loops follow pointers and run on fuel: the
-- theorems ask for more than the nodes of the lists. Heap has the code, Walk lists in the heap and
-- `listInsertTail`, Merge and Order `mergeLists`.
-- Console: HW3/console.c; Input has the line that `consoleintr` edits and the loop of `consoleread`.
-- The loop of kill line runs on fuel, as many rounds as there are edited bytes. Syscall:
-- HW3/syscall.c, the fetches of arguments.
-- Path: `skipelem` of HW3/fs.c.
-- Blocks: the superblock and the free map of HW3/fs.c, on the blocks as a transaction sees them: what
-- `log_write` got is what a later `bread` gives. Bits has the masks, Map the code, FreeMap and Effects
-- what it does. The loop of `balloc` runs on fuel, a round for each block of the map.
-- Inode: HW3/fs.c. Cache has the table of inodes in memory, with the inodes on the disk as a function,
-- Bmap the addresses of an inode's blocks, Content `readi`, `writei` and `iupdate`, whose loops run on
-- the number of bytes as fuel, since each round moves one at least. Owned says when an inode is sound,
-- Mapping and Mapped are about `bmap`, Reads, Writes, Files and ReadBack about the
-- contents. Trunc has `itrunc`, `iput` and `ialloc`.
-- Dir: the directories of HW3/fs.c. Entries has the code, its loops on the size of the directory as
-- fuel; Lookup and Found are about `dirlookup`, Link and Linked about `dirlink`.
-- Paging: HW3/vm.c on the bytes of the memory and its free list. Walk, Users and Copies have the code;
-- its loops over pages have a round for each page of the address space, 2^20. Space says which pages
-- the tables are in and what entry an address has, Walked and Maps are about `walkpgdir`, Entries,
-- Ranges and Mapping about `mappages`, Translate about `uva2ka`.
-- Shell: the parser of HW3/sh.c on the bytes of the line; a word is its bytes, and `malloc` does not
-- fail. The calls run on fuel, four for each byte of the line and four more. Tokens and Parser have the
-- code, Words, Loops and Total say what every parse gives. Print writes commands out, Args, Brackets,
-- Commands and RoundTrip are about their parse.
-- Fd: the descriptors of HW3/sysfile.c over the table of HW3/file.c. UserLib: the numbers that
-- HW3/printf.c and HW3/console.c print and `atoi` of HW3/ulib.c reads; the digits run on 32 as fuel, the
-- bits of a number.
-- Not modelled: the path names of HW3/fs.c but for `skipelem`, HW3/exec.c, the calls of
-- HW3/sysfile.c on paths, HW3/sysproc.c, the commands that the shell runs, the rest of the
-- user library and the user programs but for the
-- matcher of HW3/grep.c; and the drivers and the boot code, which are device registers.
pub mod Base
pub mod Str
pub mod Proc
pub mod Pipe
pub mod Log
pub mod Grep
pub mod File
pub mod Lock
pub mod Kalloc
pub mod Cache
pub mod Linked
pub mod Console
pub mod Syscall
pub mod Inode
pub mod Path
pub mod Blocks
pub mod Paging
pub mod Shell
pub mod Dir
pub mod UserLib
pub mod Fd
