-- ===== src/Lib.antt =====
-- A model of the small teaching kernel of this repository: its processes and their scheduler, the
-- priority queue below it, the message queues, the hash table, the text screen, the clock, the
-- program break, the descriptor tables and the page tables of the boot, the interrupts, the handler of
-- exceptions and the 64-bit arithmetic, with theorems on them.
--
-- The parts, and the code each models:
--   Queue      shared/queue.h. The macros on `link` fields as functions on two maps from addresses to
--              addresses (Links). Queue/Spec has the abstract queue, a list in ascending order of
--              priority; Queue/Seg says which list a queue head stands for; Queue/Add and
--              Queue/Remove compare the two.
--   Proc       kernel/proc.c and kernel/proc.h. Proc/State is `struct Process`, the table and the
--              globals (Sched); Proc/Lists the lists of the dead, the ready and the sleepers;
--              Proc/Schedule ordonnance, sleep_until, dors, fin_processus and exit; Proc/Calls start,
--              kill, getprio, chprio; Proc/Wait waitpid. The other files below Proc hold the theorems:
--              Elect and Ordonnance on the choice of a process, Sleepers and Sleep on the sleepers, Bury
--              on insert_mort, End on the end of a process (End/Exit with waitpid), Children on the
--              removal of a child, Start on start, Priority on chprio, Args on arguments and getprio,
--              Delete on sleep_del, Kill on kill, Collect on waitpid.
--              Proc/System has the state between two calls (Settled): Wake on ordonnance, Step and
--              Calls on runs of ticks and calls, Progress on how long sleepers wait, Block on a process that waits
--              without a time.
--   Fifo       kernel/fifo_process.c, the lists of processes that wait at a message queue.
--   Message    kernel/message.c and kernel/message.h, over Fifo and Proc. Message/Create is on pcreate,
--              Message/Exchange on calls that return at once, Message/Blocking on
--              senders and receivers that wait, with the scheduler and the waiting list.
--   Hash       kernel/hash.c and kernel/hash.h.
--   Display    kernel/display.c, and Clock kernel/clock.c over it and Proc.
--   EarlyMm    kernel/boot/early_mm.c: the directory and the mapping of a region; EarlyMm/Kernel has the
--              checks and the mapping of the kernel. EarlyMm/Region, EarlyMm/Kernel/Pages and
--              EarlyMm/Kernel/Sections are on what the tables hold.
--   Segments   kernel/boot/processor_structs.c and kernel/segment.h: fill_descriptor and fill_gate, with
--              Segments/Fields on what the processor reads from an entry. Segments/Tables has cpu_init and
--              the tables it fills (Cpu), Segments/Tables/Traps the theorems on them.
--   Interrupt  kernel/interrupt.c, kernel/keyboard_int.c, kernel/kernel_it_49.c, clock_freq and init_clock
--              of kernel/clock.c, and the first calls of kernel/start.c. Interrupt/Gate compares the two
--              ways to fill a gate, Interrupt/Mask is on the controller, Interrupt/Start on both.
--   Debugger   kernel/debugger.c: trap_handler and debugger, with the screen in Debugger/Dump and the keys
--              in Debugger/Keys; Debugger/Resume is on what a task finds afterwards, Debugger/Task on the
--              tables of Segments. Debugger/Paging has kernel/gdb_serial_support.c: Copy on a look-up,
--              Read on gdb_copyin, Identity and Kernel on both with the tables of EarlyMm.
--   Sbrk       sbrk of kernel/mem.c and of user/lib/sbrk.c.
--   Div64      shared/div64.c, each instruction sequence as a function: Wide on divisors of more than 32
--              bits, Quotient on all.
--   Math64     user/tests/lib/math.c: div64 as it is compiled by default, mul64, the random numbers.
--   Common     what these share: tests and lists on the native numbers, signed integers, Outcome, and
--              `|` and `&` on words (Bits).
--   Tests and the modules of this name below other modules apply the theorems to concrete states.
--
-- State and control. An operation takes the state and gives an Outcome: a value, a fault (a failed
-- `assert`, or undefined behaviour of C such as a read through NULL or a write out of an array, whatever
-- the machine does then), or out_of_fuel for a loop that has used up its rounds. Words of 32 bits keep their wrap-around. A `struct Process *` is an index of the table,
-- since it never points elsewhere. In Proc the queue at head_queue is the list that Queue/Spec
-- describes, with the assertions of queue_add and queue_del as faults. ctx_sw is recorded in
-- `switches`; a process goes on when a later call switches back to it. psend and preceive are each
-- split there, in a part up to the switch and one from the switch back on. waitpid takes what the other
-- processes do at its waiting points as a function of the state.
--
-- Fuel. Every loop over a list takes fuel; a theorem that a call returns asks for more rounds than the
-- list has elements, and two for wake_process. The loops of div64 take 64 rounds, that of do_div64 one
-- more than the quotient is high; a region of memory takes one for each page, and one more. The search
-- of hash_lookup takes more rounds than there are slots in use on its way (Hash/Lookup).
--
-- Parameters. mem_alloc and mem_free, with a state of their own; the characters that sprintf makes and
-- what printf does with one; what the other processes do while waitpid waits; the devices behind the
-- ports, of which the interrupt controller is described in Interrupt/Mask; the addresses that the linker
-- gives; gdb_serial_converse, which may write to the registers, the screen and the rest of memory; the
-- text below the dump of the registers.
--
-- The descriptor tables are entries of 64 bits in Segments and words of memory in Interrupt, as the two
-- files of the kernel have them. The loop of trap_handler takes the bytes of the keyboard as a list.
--
-- Not modelled: assembly, but for that of shared/div64.c; tic_PIT_SUPERUSER, which takes its arguments
-- from registers; reboot; the serial line and the stub of the remote debugger in kernel/gdb_serial.c, a
-- copy; the keyboard driver; the copies of an allocator and of C library routines under shared; the
-- demonstration processes of kernel/proc.c; the tests; the div64 of user/tests/lib/math.c that
-- DIVISION_FOIREUSE selects.
pub mod Common
pub mod Queue
pub mod Proc
pub mod Fifo
pub mod Message
pub mod Hash
pub mod Display
pub mod Math64
pub mod Div64
pub mod Sbrk
pub mod Segments
pub mod Debugger
pub mod Interrupt
pub mod Clock
pub mod EarlyMm
pub mod Tests
