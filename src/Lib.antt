-- ===== src/Lib.antt =====
-- PandAOSsh: a kernel for the uRISCV emulator in three levels. Phase 1 keeps process control blocks,
-- process queues, the process tree and the active semaphore list; phase 2, the Nucleus, has the
-- scheduler, the exception and interrupt handlers and ten services; phase 3, the support level, gives
-- user processes virtual memory. klog.c is a log in memory.
--
-- The files and what they model:
--   Types           headers/types.h: pcb_t, semd_t, support_t and the static data of phase 1
--   Listx           headers/listx.h: circular doubly linked lists, by pointers
--   Listx.Ring      the sequence that such a list stands for, and what the operations do to it
--   Listx.ProcQ     phase1/pcb.c: the process queues by pointers; they implement Phase1.ProcQ
--   Phase1.Pcb      phase1/pcb.c: the pool (Pool) and the process tree (Tree)
--   Phase1.ProcQ    phase1/pcb.c: the process queues as lists, and their order (Order)
--   Phase1.Asl      phase1/asl.c: the active semaphore list, its queues and its invariant
--   Nucleus.Globals phase2/headers/globals.h, the variables of phase2/initial.c, and the machine
--   Nucleus.Initial phase2/initial.c: main
--   Nucleus.Scheduler   phase2/scheduler.c
--   Nucleus.Process, Syscalls, PassUp, Exceptions   phase2/exceptions.c
--   Nucleus.Interrupts  phase2/interrupts.c
--   Nucleus.Semaphores, Blocking, Completion, Clock, Devices, Conservation, Termination, Start
--                   theorems on V, P, device and clock interrupts, and on the whole of the handlers
--   Nucleus.Running the Nucleus between two exceptions (Services, Interrupts, Handlers), and its
--                   reachable states (Reach)
--   Nucleus.Places  where each process control block is: the invariant, the ways between the places
--                   (Moves, Heads, Blocked, Family, Birth, Choice), termination (Finish, Burial, Outlives,
--                   Ends, Dying), the other handlers (Creation, Services, Interrupts, Handlers, Start),
--                   and the reachable states (Reach)
--   Nucleus.Soft    `softBlockCount`: through the services (Queues, Steps, Services), creation and termination
--                   (Finish, Processes), the interrupts (Interrupts), in the reachable states (Handlers,
--                   Reach), and what a wait and a panic mean (Deadlock)
--   Nucleus.Debug   phase2/debug.h
--   Support.Vm      phase3/vmSupport.c, and supTerminate of phase3/sysSupport.c
--   Support.Vm.Pages, Mutex   theorems on page numbers and on the swap pool's semaphore
--   Support.Vm.Pool, Evict, Flash, Paging, Release, Life, Agreement, Failure
--                   the agreement of swap pool and page tables, and what keeps or breaks it
--   Support.Init    phase3/initProc.c (Boot: what it sets up), constants of phase3/headers/support.h
--   Support.Sys     phase3/sysSupport.c: the services of the Support Level and its handlers
--   Support.Sys.Terminal, Rounds, Write, Read, Execute, Handler, Ends
--                   theorems on SYS4, SYS5, SYS6 and the handler
--   Klog            klog.c
--   Testers.Libuser testers/h/libuser.h, and its number conversion (Decimal)
--   Testers.Programs    testers/echo.c, fibEleven.c, uname.c and sl.c
--   Testers.Calc    testers/calc.c, and what it prints (Result)
--   Testers.Prints  what a program prints, from the program to the terminal
--   Testers.Shell   testers/shell.c, its table (Names), and what a session is (Session)
--   Prelude, Examples   shared names and lemmas; the theorems at concrete inputs
--
-- A function keeps its name in snake_case. A pcb_t pointer is an index into pcbFree_table, NULL is
-- `none`; an int pointer is the address of a word, NULL is 0. Phase 1 functions take and return the
-- record Phase1; a handler takes a Kernel and returns one with an Outcome, the way in which control
-- leaves the Nucleus: LDST, LDCXT, HALT, WAIT or PANIC. A C int is the word of 32 bits that stands for
-- it: additions and subtractions wrap, and comparisons are of signed words (Prelude.Words).
--
-- The Support Level calls the Nucleus by SYSCALL: Support records those calls in a trace, with the
-- semaphore, the device command or the processor state that they name. Sys holds the state of the
-- Pager, the first values of the semaphores, the support structures by ASID and the bytes of the
-- U-proc, which stand for the contents of its pages, in a frame or on the flash. Each access of a
-- service of the terminal to a byte whose page has no valid entry (`is_resident`) runs the Pager of
-- Support.Vm first (`touch`), with its calls and the answers that it takes, and the U-proc ends where
-- the Pager ends it. A program of testers is the list of what it asks of the Support Level; a string
-- is the list of its codes.
--
-- Fuel: the walks of Listx.ProcQ take fuel as an argument, and one unit more than the length of the
-- queue is enough. `terminate` takes twice the number of entries of all children lists and two more,
-- which is enough when those lists hold blocks of the table; in the reachable states of a proper run
-- they do. `tick_all`, the loop of the interval
-- timer, takes one unit more than the number of entries of all semaphore queues. `read_loop` takes one
-- unit for each character; 31 pages of characters and one are enough for every input. `tmp_loop` takes
-- ten units, one for each digit of an int.
--
-- A proper run (Nucleus.Places.Reach.IsProperRun) starts with a table in which no block has a parent or
-- a child; whenever the Nucleus is entered, the device semaphores do not start at the address 0, a
-- process that calls PASSEREN names a semaphore, and no process that runs has the process id -1.
--
-- Parameters: the clock is a function that gives its n-th reading, and the constants ACK and READY of
-- the emulator are fields of the state, and so are the addresses of the two handlers that the pass up
-- vector gets, and that vector, whose layout belongs to the emulator. Device registers are words of the
-- memory, and reading one has no effect on it. The results of the services that the Support Level calls
-- are taken in order from a function of the state, and so are the addresses of the handlers and their
-- stacks. What SYS5 gives to a program of testers is an argument.
--
-- Not modelled: the bytes of frames and flash blocks, the interleaving of several U-procs, SYS3 (which
-- the handler does not know either), the tests of the phases, and the emulator's library, which is not
-- part of the repository.
pub mod Prelude
pub mod Types
pub mod Phase1
pub mod Listx
pub mod Nucleus
pub mod Support
pub mod Klog
pub mod Testers
pub mod Examples
