-- ===== src/Lib.antt =====
-- The course kernels: four assignments on the teaching kernel xv6 for RISC-V, each a copy of the
-- kernel with one part rewritten. The parts that the assignments add are modelled here, with the
-- parts of the kernel under them.
--
-- Memory: physical memory as bytes and the routines of string.c
--   (assignment2/src/xv6-riscv/kernel/string.c, the same file in each assignment).
-- Alloc: the page allocator (assignment4/src/xv6-riscv/kernel/kalloc.c). `Machine` is the memory
--   with the head of the free list; `kalloc`, `kfree`, `freerange` and `kinit` are the functions
--   of these names, and the kernel's end is the parameter `first`.
-- Paging: Sv39 page tables (assignment4/src/xv6-riscv/kernel/vm.c and proc_pagetable of
--   kernel/proc.c) over that memory. `walk`, `walkaddr`, `mappages`, `uvmunmap`, `uvmcreate`,
--   `uvmfree`, `freewalk`; Paging/Grow has `uvmfirst`, `uvmalloc`,
--   `uvmdealloc`, `uvmcopy` and `uvmclear`.
-- Trap: the virtual machine monitor (assignment4/src/xv6-riscv/kernel/trap-and-emulate.c), which
--   emulates the privileged instructions of a guest that runs as a process. `VmState` is
--   vm_virtual_state, `Sys` adds the process and the machine; Trap/Tables has the page table
--   copies for the PMP, Trap/Handlers one function per handler and the dispatch.
-- Threads: the user-level thread library (assignment3/src/xv6-riscv/user/ulthread.c, ulthread.h).
--   `Threads` holds the globals; each call is modelled up to its switch of contexts.
-- Cow: the groups of processes that share pages copy-on-write
--   (assignment2/src/xv6-riscv/kernel/cow.c).
-- Swap: demand paging of the heap (assignment2/src/xv6-riscv/kernel/pfault.c). `Heap` is what the
--   code reads of struct proc, with psa_tracker, the disk and the process' mapped pages.
-- Log: the file system log (assignment4/src/xv6-riscv/kernel/log.c). `Fs` is the log, the cache as
--   bread shows it, the disk, and the number of block writes before the machine stops; past that
--   number a write is lost, so a crash is a value of `power`.
-- Bio: the buffer cache (assignment4/src/xv6-riscv/kernel/bio.c), the list of buffers as the order of
--   their indices.
-- Strings: the string functions of string.c; `strlen` runs on a bound of the length, and `none` says
--   that the bound was reached.
-- Boot: the boot loader of assignment 1 (assignment1/src/xv6-riscv/bootloader/start.c, elf.c, load.c).
--   `Machine` is the memory with the registers that it writes; `start` is the function up to its mret.
--   The digest and the trusted hash are parameters.
-- Spin: the spinlocks (assignment4/src/xv6-riscv/kernel/spinlock.c). `World` is one lock with the place
--   of each CPU in acquire and release; `move` is a CPU's next access to shared memory, the two reads of
--   holding apart, and `run` takes any list of turns.
-- Files: the table of open files (assignment4/src/xv6-riscv/kernel/file.c): filealloc, filedup and
--   fileclose, whose calls of pipe.c and fs.c are a result.
-- Proc: the process table and the scheduler (assignment4/src/xv6-riscv/kernel/proc.c). `World` is the
--   table with the process and the depth of masks of each CPU; each function is a change of it, up to the
--   switch of contexts where it has one. A call that has several critical sections, or a loop of them, is
--   their sequence (fork, exit, wakeup, kill, wait); Proc/Steps puts the sections of all calls in sequence
--   in any order.
-- Path: path names (skipelem of assignment4/src/xv6-riscv/kernel/fs.c).
-- Content: the contents of files (balloc, bfree, bmap, itrunc, readi and writei of
--   assignment4/src/xv6-riscv/kernel/fs.c). `Store` has the bits of the bitmap, the bytes of each block and
--   the inode; the cache and the log between are in Bio and Log. Reads and writes are for addresses in the
--   kernel, and run on as many rounds as bytes and one.
-- Pipe: pipes (assignment4/src/xv6-riscv/kernel/pipe.c), each call up to where it gives up the lock;
--   copyin and copyout are parameters.
--
-- The trap handlers call the page tables, which take their pages from the allocator, which writes
-- them through the byte routines. The processes hold handles of the table of files, whose closing calls
-- the pipes and inodes; those calls are recorded and not run. A critical section of the process table
-- runs under the locks of Spin and is one change there. The other parts stand for themselves.
--
-- What may fail returns an `Outcome`: `ok`, `panic` for the kernel's panic, `fault` for an access
-- that C leaves undefined. Loops over a range run on the number of their rounds, computed from the
-- bounds; `walk` and `freewalk` run on the level, and `freewalk` is given the three levels that a
-- table has. Addresses are natural numbers below 2^64 where the code keeps them there.
--
-- Not modelled: console output, the sleep locks, the assembly of the context switches, devices, the rest
-- of the file system (the table of inodes, namex, directories), the memory of the processes in Proc
-- (whether pages are there is an argument, in Swap too), SHA-256, which is a copy of another project,
-- and the user programs. Outside Spin and Proc a call under its lock is one step.
mod Prelude
pub mod Memory
pub mod Alloc
pub mod Paging
pub mod Trap
pub mod Threads
pub mod Cow
pub mod Swap
pub mod Log
pub mod Pipe
pub mod Bio
pub mod Strings
pub mod Boot
pub mod Spin
pub mod Files
pub mod Proc
pub mod Path
pub mod Content
