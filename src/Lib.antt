-- ===== src/Lib.antt =====
-- LazyOS: the memory, process, file and console parts of the kernel.
--
-- The kernel runs on 32-bit x86 in one address space. kheap.c hands out 4 KB blocks of a fixed region
-- through heap.c, and clears them with memory.c. pmm.c keeps a bitmap of physical frames, which
-- e820_mmap.c fills from the firmware's map. paging.c takes page tables from the kernel heap and frames
-- from the bitmap; process.c builds a directory and a stack with it for each process, and keeps the
-- ready processes in the priority queue of queue.c, from which the timer's interrupt picks the next
-- one. disk.c transfers sectors through the machine's ports, streamer.c splits transfers into
-- sectors, and fat12.c keeps files in chains of clusters on the disk. VGA.c is the screen; keyboard.c
-- turns scan codes into letters and stores them in the buffers of vga_buffer.c, which runs a command
-- at the end of a line. idt.c gives every interrupt its handler.
--
-- Paths are below the directory src/ of the repository.
-- Prelude: Boolean tests, arrays as functions (`update`, `fill`), 32-bit words (an `int` is its bit
--   pattern, `neg` and `sub32` wrap around), signed integers, bytes with their bits, and bit masks.
-- Memory: memory/memory.c. `memset` and `memcmp` over regions.
-- Heap: memory/heap/heap.c. `Heap` is the struct with its table of entries; the operations have the
--   C names without the prefix `heap_`, and return the new heap. The null pointer is 0.
-- Kheap: memory/heap/kheap.c. `Kernel` is the heap with the memory's words; Kheap/Bytes has their bytes.
-- Queue: queue/queue.c. A process is a number whose priority is read through `prio`.
-- Pmm: memory/paging/PMM/pmm.c and e820_mmap/e820_mmap.c. The bitmap is passed and returned.
--   `get_free_in` is `get_free_physical_address` over any number of entries.
-- Paging: memory/paging/paging.c. `System` is the kernel's heap and memory, the bitmap and the current
--   directory. Paging/Walk also describes the translation that the processor makes.
-- Process: process/process.c, with `context_switch` of process/process.asm. `Machine` is all the
--   globals of the file; Process/Slots has the steps and the reachable machines, and Process/Handover the
--   effect of a switch.
-- Streamer: disk/streamer.c. The disk's blocks are the interface `Blocks`; Streamer/Laws has what a
--   client relies on of them.
-- Disk: disk/disk.c, over the ports of the machine. Disk/Ata has the behaviour of the hardware that the
--   driver relies on, as hypotheses; Disk/Driver fills the streamer's interface under them.
-- Fat12: fs/fat/fat12.c, the table of clusters. Fat12/Content has the contents of files,
--   Fat12/Directory the root directory as its bytes, and Fat12/Files the operations on files.
-- Vga: drivers/VGA/VGA.c. `Terminal` is the globals of the file.
-- Keyboard: drivers/keyboard/keyboard.c, the table of letters.
-- Console: drivers/VGA/vga_buffer.c, and `keyboard_callback` of drivers/keyboard/keyboard.c. What the
--   commands call is the record `Services`.
-- Idt: idt/idt.c and idt/ISR/isr.c. The addresses of the handlers are parameters. Interrupts: what the
--   handlers do to the controllers, the processes and the console, with the stack that idt/ISR/isr.asm
--   leaves to the handler of exceptions.
-- Ports: IO/io.h and IO/io.asm, the interface of the ports. Each driver states what it relies on of the
--   hardware behind them as a record of hypotheses, which a simulated device fills.
-- Pic: idt/PIC/pic.c. Pic/Chips has the two controllers. Timer: PIT/pit.c. Timer/Channel has the channel.
-- Lock: process/spinlock.asm, with the processes of kernel.c that use it. `one_step` is one access to
--   shared memory of one process; a schedule is a list of process numbers.
-- SystemCommands: drivers/VGA/system_commands.c.
-- Str: str/str.c. A string is a function from the index to the character.
-- Clock: clock/clock.c, the date and its printed form. Clock/Cmos has the clock behind the ports.
--
-- Loops over a range are recursions on the number of rounds that are left. The others run on fuel:
-- `bubble_up` rises at most `i` levels and `bubble_down` sinks at most `size` levels;
-- `heap_mark_blocks_taken` and `heap_mark_blocks_free` visit each entry once; the backspace moves back
-- over the positions before the cursor, of which its fuel is the number. Each of these is proved to
-- reach the end of its loop before the fuel is spent. `itoa` has at most three digits. `strlen` and
-- `strcomp` take the fuel as an argument, which is enough above the lengths of the strings. The walk of
-- `free_file` returns `none` when it runs out of fuel. The waits for the disk take as fuel a number of
-- reads of its status, which is enough above the hardware's patience. The loops of the streamer run on
-- one round for each byte and one more, of which every round transfers at least one; those over a
-- file's clusters on 2^16 rounds, the number of 16-bit cluster numbers. Both are proved to be enough.
--
-- The wait for the clock takes as fuel a number of reads of its status, above the longest update. The
-- loop of `sleep` runs on 2^32 rounds, more than a word counts.
--
-- Not modelled: the messages that the heap and the file system print, the instructions cli and sti but
-- for those of the clock, the registers that a context switch restores, the TLB, the boot code,
-- kernel_main, and the kernel's own tests. A step of a process ends with its context switch. The
-- contents of a file and the streamer's buffer are regions apart from the kernel's memory.
pub mod Prelude
pub mod Memory
pub mod Heap
pub mod Kheap
pub mod Queue
pub mod Pic
pub mod Pmm
pub mod Ports
pub mod SystemCommands
pub mod Timer
pub mod Paging
pub mod Process
pub mod Fat12
pub mod Vga
pub mod Interrupts
pub mod Keyboard
pub mod Lock
pub mod Str
pub mod Idt
pub mod Console
pub mod Clock
pub mod Streamer
pub mod Disk
