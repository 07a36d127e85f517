-- ===== src/Lib.antt =====
-- sOS64: a model of the kernel, and theorems about it.
--
-- The kernel (src/kernel) keeps its objects in circular lists. Interrupts arrive at do_IRQ, which runs the
-- handler that a driver registered. The clock interrupt advances jiffies, raises the timer soft interrupt
-- and charges the running task; do_softirq later runs the pending soft interrupts, among them do_timer,
-- which fires the due timers. The scheduler keeps a run queue for each CPU, sorted by virtual run time; a
-- semaphore blocks and wakes tasks through it. The keyboard interrupt fills a ring buffer that
-- analysis_keycode decodes. Physical pages are handed out from a bitmap by alloc_pages and mapped
-- by pagetable_init; kmalloc and the pools of slab_create cut them into objects, each slab with a bitmap of
-- its own. Numbers are printed by number and read by skip_atoi. An exception reaches, through the gate of its
-- vector, a handler that prints what happened and stops.
--
-- Files:
--   Base          numbers, lists, integers, words bit by bit, do blocks
--   ListHeap      src/kernel/include/list.h: a memory of links; Chain and Ring say which list it holds,
--                 Ordered which place a key has in it, Apart that two lists do not disturb each other
--   State         the kernel's memory: the fields of tasks, timers and waiters by their address, the
--                 run queues and the soft interrupts; State/Sample is a small state for the tests
--   Softirq       src/kernel/idt/softirq.c
--   Timer         src/kernel/timer/timer.c
--   Scheduler     src/kernel/sched/scheduler.c
--   Semaphore     src/kernel/lock/semaphore.c and src/kernel/include/lock/atomic.h
--   Lock          src/kernel/include/lock/spinlock.h and src/kernel/include/preempt.h, as steps of the CPUs
--   Task          do_fork, kernel_thread, system calls and __switch_to of src/kernel/sched/task.c, with
--                 src/kernel/include/task.h and ptrace.h
--   Hpet          HPET_handler of src/kernel/device/HPET.c
--   Keyboard      src/kernel/device/keyboard.c and src/kernel/include/keyboard.h
--   Irq           src/kernel/idt/interrupt.c and src/kernel/device/pic/APIC.c; Setup, Ready and Devices
--                 start the device interrupts, with the registrations of HPET.c and keyboard.c;
--                 Smp: the interrupts between processors of src/kernel/init/SMP.c
--   Printk        number and skip_atoi of src/kernel/debug/printk.c
--   Format        vsprintf of the same file
--   Screen        putchar and the loop of color_printk of the same file
--   Slab          src/kernel/mm/slab.c, and kmalloc_create, kmalloc and kfree of src/kernel/mm/mm.c
--   Paging        pagetable_init of src/kernel/mm/mm.c, do_execve of src/kernel/sched/task.c,
--                 IOAPIC_pagetable_remap of src/kernel/device/pic/APIC.c and frame_buffer_init of
--                 src/kernel/debug/printk.c, and what the processor finds in their tables
--   Gate          src/kernel/include/gate.h, and what the processor reads
--   Trap          src/kernel/idt/trap.c
--   Memory        init_memory, page_init, page_clean, alloc_pages and free_pages of src/kernel/mm/mm.c
-- The functions have the source's names in lower case; __up and __down are `wake` and `wait_for`, __switch_to
-- is `switch_registers`.
-- Most folders have a file Tests.antt, which runs the theorems on concrete states.
--
-- An object is named by the address of its list member, so container_of is the identity. A call through a
-- function pointer is a parameter, `call`; the theorems on soft interrupts and timers suppose that the
-- handlers leave the kernel's own structures alone. `1 << i` of an int is a parameter from bit 31 on, where
-- C leaves it undefined. Widths of 64 bits are written out where a value can reach them; virtual run times
-- and counters of tasks are taken as unbounded. Where C writes behind an array whose size the code does not
-- test, the model answers `none`: the table of 32 memory entries and the arrays of pages in init_memory, and
-- the 50 digits of number. Indexes of type int are taken as unbounded; the slabs of the theorems have fewer
-- than 2^30 objects.
--
-- Fuel: the search for a place in a sorted list and do_timer take fuel, and answer `none` when it runs out;
-- the theorems say that one more than the length of the list is enough. do_softirq needs two rounds: one
-- that serves the pending bits and one that finds none. vsprintf has the length of the format as fuel, since
-- each step takes a character of it at least. The walks over the slabs of a pool have as fuel one more than
-- the slabs that are passed over; kmalloc and kfree call each other, for the descriptions of slabs of large
-- objects, to a depth that is given. The loops of pagetable_init count zones and pages.
--
-- Not modelled: the rest of the start of the processors, port and register writes of the drivers, assembly,
-- and the boot loader. What the processor does with a gate, a descriptor or a page table is described where a theorem says
-- what it finds there; the translation buffers and the privilege tests are left out. A handler of an exception
-- is the list of the messages that it prints before it stops.
pub mod Base
pub mod Format
pub mod Gate
pub mod Hpet
pub mod Irq
pub mod Keyboard
pub mod ListHeap
pub mod Lock
pub mod Memory
pub mod Paging
pub mod Printk
pub mod Scheduler
pub mod Screen
pub mod Semaphore
pub mod Slab
pub mod Softirq
pub mod State
pub mod Task
pub mod Timer
pub mod Trap
