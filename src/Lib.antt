-- ===== src/Lib.antt =====
-- A model of the kernel and user code of oscraft, three course projects on xv6-riscv.
--
-- The parts. The page allocator hands out physical pages from a free list that is threaded through
-- the pages themselves. The page tables are trees of such pages, and every address space is one of
-- them; the code for user memory grows, copies and frees an address space with both. The process
-- table refers to an address space, a trapframe page and a shared page for each process, and the
-- scheduler, sleep and wakeup, fork, exit, wait and kill work on it. System calls read their
-- arguments out of the trapframe and call these parts. The shell cuts a line with its parser and
-- makes processes for its commands; the string functions of the user library stand by themselves.
--
-- The files.
-- Machine, Monad: physical memory as 64-bit words with the head of the free list; a run ends with a
--   value and a state, stops in a panic, or is out of fuel. Memory is one function, so a write
--   through one pointer is seen through every other.
-- Riscv: the macros of Proyecto3/kernel/riscv.h and memlayout.h.
-- Kalloc: Proyecto2/kernel/kalloc.c (kinit, freerange, kfree, kalloc, get_free_memory). FreeList and
--   Contract hold the abstract view, a list of distinct pages; Boot is about kinit, and Clients about
--   whole sequences of requests.
-- PageTable: walk, walkaddr, ismapped, mappages, uvmunmap, uvmcreate, uvmclear and kvmmap of
--   Proyecto3/kernel/vm.c. Shape has the abstract view, trees of tables and the entry that they give
--   an address; Well is about the state as a whole; Grow, Write, Entry and Frame are about a new
--   table, a new entry and a change elsewhere; Walk, Map, Range, Single, Access, Unmap and Release
--   about the functions, Release about uvmunmap over a range; Fresh is about a new frame that is
--   mapped, and Create about uvmcreate.
-- UserMemory, Transfer, Print: the other functions of vm.c (uvmalloc, uvmdealloc, uvmcopy, uvmfree,
--   freewalk; copyout, copyin, copyinstr, vmfault; vmprint). Of UserMemory, Shrink is about
--   uvmdealloc, Expand about uvmalloc and Copy about uvmcopy; Placed has what the rounds of the last
--   two have in common, and Undone how they give their pages back. Tables says which tables freewalk
--   gives back, Freewalk is about one round of its loop and its end, Children about the recursion,
--   and Free about freewalk and uvmfree of a whole space. Transfer.Fault is about vmfault.
-- Kernel: struct proc and the global variables of Proyecto3/kernel/proc.c.
-- Proc: that file. Alloc has allocproc to growproc, Sleep the scheduler to procdump, Life fork, exit
--   and wait; Space, NewSpace, Pagetable, Free, Allocate, Found, Wakeup, Handshake, Reparent, Rouse,
--   Exit and Kill hold theorems, the first six on proc_freepagetable, proc_pagetable (in two parts),
--   freeproc and allocproc (in two parts), and Schedule is about sequences of events on several CPUs.
--   Traced has the functions of Proyecto2/kernel/proc.c that differ; kkill_unchecked and
--   get_runnable_count are of that file, too.
-- Syscall: Proyecto2/kernel/syscall.c, and in Dispatch the syscall of Proyecto3/kernel/syscall.c.
-- Sysproc: Proyecto3/kernel/sysproc.c, and sys_sysinfo and sys_trace of Proyecto2/kernel/sysproc.c;
--   Access and Clear are about the two passes of sys_pgaccess, Info about sysinfo, and Traced has the
--   calls of Proyecto2 that reach other functions of proc.c.
-- Shell: Proyecto1/user/parser.c, commands.c and sh.c, which Proyecto2/user has, too. Parser has the
--   functions on the text, and Scan, Words and Pipe are about them; Commands has the system calls
--   that a line leads to, as a tree with the child and the parent of each fork, and the parent again
--   where fork fails, Descriptors says what they do to the descriptors of a process, and Children is
--   about the processes that they make.
-- Tools: trace.c and sysinfo.c of Proyecto2/user. Report is about what sysinfo prints.
-- Ulib: Proyecto3/user/ulib.c.
-- Common: Boolean tests, lists and bits. Examples: the theorems at concrete states.
--
-- State and steps. A function of the source is one function of the model with its tests in the same
-- order. Locks are not part of the state: what the source does between acquire and release is one
-- step. A function that sleeps is given by its turns: kwait_turn and pause_turn end where the source
-- is about to sleep, and sched where it would leave the CPU. Pointers into the process table are
-- indices, and a null pointer is none, or 0 for an address. A result of -1 is false or none, and a
-- uint64 result of a system call is 2 ^ 64 - 1.
--
-- Bounds and fuel. Addresses and entries are natural numbers with the wrap-around of 64 bits written
-- out. The loop of freerange gets a round for each page below its end, which is enough since it
-- starts at 0 or above. get_free_memory gets a number of rounds; the 32768 of sys_sysinfo is the
-- number of pages of the machine. The loops of copyout, copyin and copyinstr get a round for each
-- byte, and move on by at least one. The user library's and the parser's loops get a number of
-- rounds; one for each byte of the text and one more is enough.
--
-- Not modelled: the inline assembly and CSRs, interrupts, swtch, forkret and the boot of the kernel
-- page table; the file system, whose pointers are parameters (Kernel.Config); the handlers of the
-- dispatch, an argument; the effect of sfence_vma in sys_pgaccess, since memory is read without a
-- TLB; fork and wait among the events of Proc.Schedule; the system behind the calls of trace.c and
-- sysinfo.c.
pub mod Common
pub mod Riscv
pub mod Monad
pub mod Machine
pub mod Kalloc
pub mod PageTable
pub mod UserMemory
pub mod Transfer
pub mod Print
pub mod Kernel
pub mod Proc
pub mod Syscall
pub mod Sysproc
pub mod Shell
pub mod Tools
pub mod Ulib
pub mod Examples
