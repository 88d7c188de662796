-- ===== src/Lib.antt =====
-- clks: models and proofs for the CLeonOS kernel, written in C. The kernel is a set of files that each
-- keep static state and export functions on it. Modelled here are the two allocators, the scheduler
-- that keeps its table in memory from the heap, the pseudo terminals, the service registry, the string
-- routines that all of them use, the loader of program images, which takes its block from the heap, the
-- setting of the locale, the walk over the initial ramdisk, the queues of the keyboard, and the disk
-- with its FAT32 volume up to the contents of files.
--
-- The file for a part has its state as a record, its data with the fields of the C structures, and one
-- function for each C function, named as in C without the prefix `clks_` and the name of the part; a
-- function that changes the static state returns the new state. The files in the folder of the part
-- prove its properties, and `Tests` there runs it and applies its theorems to concrete inputs.
--
-- - Base: shared helpers. Conditionals and the C comparisons, arrays as functions of their index,
--   unsigned words with their wrap-around, C strings, lists without repetition, and `Allocator`, the
--   interface of the heap that its clients take as a parameter.
-- - Pmm: kernel/memory/pmm.c. `init`, `alloc_page`, `free_page`, `get_stats`. The inner loop over
--   the pages of an entry runs on fuel, one round more than the entry has pages.
-- - Heap: kernel/memory/heap.c. `init`, `kmalloc`, `kfree`, `get_stats`. The abstract heap is
--   the list of the cells that tile the arena (Heap/Cells). The walk of `kmalloc` runs on as much fuel
--   as the arena has bytes; a list of headers of 40 bytes is shorter, so the fuel is enough.
-- - Sched: kernel/core/scheduler.c with include/clks/task.h. Sched/Table grows the table and adds and
--   removes tasks, Sched/Switch picks and switches tasks and has the timer tick, Sched/Dispatch runs
--   tasks, Sched/Api has the operations on one task. The doubling loop runs on 33 rounds of fuel, the
--   loop of `dispatch_ready` on as many as its 32-bit index has values. What an entry point does is an
--   argument of the functions that call it.
-- - Pty: kernel/runtime/pty.c. `init`, `alloc`, `retain`, `release`, `read`, `write`. The abstract
--   pipe is the queue of the bytes it holds, oldest first (Pty/Ring).
-- - Service: kernel/core/service.c. What start-up asks of other parts are arguments.
-- - Strings: kernel/support/string.c. The loops that look for a final 0 run on fuel, and the theorems
--   ask for more fuel than the length of the text.
-- - Elf: kernel/runtime/elf64.c. Elf/Image validates and inspects an image, Elf/Loader loads it.
-- - Locale: kernel/runtime/locale.c. The file of the locale and the routine that trims its text are
--   arguments.
-- - Disk: kernel/storage/disk.c with the parts under kernel/storage/disk. Disk/Cache is cache_io.inc,
--   Disk/Layout and Disk/Fat are fat_layout.inc, Disk/Clusters is fat_alloc.inc, Disk/Chain is
--   file_chain.inc and Disk/Init the start-up in public_api.inc. The drive behind the I/O ports of
--   ata.inc is its content and the outcome of each of its commands, which may end in an error at any
--   sector. The abstract view is the table on the drive: `link` gives the entry of a cluster and
--   `Reaches` a chain. A disk is sound (`IsSound`) if its buffer agrees with the drive on the loaded
--   sectors and its volume lies within it. The loops over batches have a round of fuel for each sector,
--   the loops over chains one for each cluster, as their guards in C have.
-- - Ramdisk: kernel/storage/ramdisk.c with include/clks/ramdisk.h, the walk over a tar image. The walk
--   has a round of fuel for each block of the image and one more, the skipping of slashes at the head
--   of a path one for each byte of its buffer and one more; the function that is called for each entry
--   is a parameter.
-- - Keyboard: the queues of kernel/input/keyboard.c. The abstract queue is the characters a terminal has
--   waiting (Keyboard/Fifo). The loop over a text runs on fuel, one round more than it has characters; how
--   many terminals there are and which is active are arguments.
--
-- Not modelled: lines that are logged, the contents of heap payloads, what hardware and interrupts do,
-- on the disk the cache of whole files, directories, formatting and checking, and the other parts of the
-- kernel: file system, virtual memory, network, the rest of the input, display, processes and system
-- calls. Pointers are numbers that do not wrap around within an object.
pub mod Base
pub mod Pmm
pub mod Pty
pub mod Heap
pub mod Sched
pub mod Service
pub mod Strings
pub mod Disk
pub mod Ramdisk
pub mod Elf
pub mod Keyboard
pub mod Locale
