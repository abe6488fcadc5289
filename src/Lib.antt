-- ===== src/Lib.antt =====
-- The Nika kernel: a model of its C code, and theorems about it.
--
-- Parts, by file of the repository, and the modules that model them:
--   inc/multiboot.h: Multiboot, what the boot loader hands over.
--   memory/pmm.c: Pmm, the page allocator. Pmm/Init models the boot-time set-up.
--   memory/heap.c: Heap, `malloc` and `free`, over the pages of Pmm.
--   memory/paging.c, memory/pf.c: Paging, page directories and tables, over Pmm. Paging/Walk is the
--     processor's walk through them, which the theorems speak about.
--   lib/string.c: CString, on buffers of bytes; strings as lists of characters.
--   fs/ramfs.c: Ramfs, the files and mounts, over Heap for the memory of a file and CString for names.
--   process/fork.c: Process, the list of processes, over Heap, Pmm and Paging.
--   core/hal.c, core/io/pic.c, core/io/irq.c, core/io/timer.c: Io, Io/Pic, Io/Irq and Io/Timer, the
--     ports as a log of events, the interrupt controllers, the handlers of the lines and the timer.
--   drivers/mouse.c: Mouse, over Io.
--   lib/serial.c: Serial, over Io: the output of strings and the texts of numbers.
--   core/gdt.c, core/idt.c: Descriptors, the tables of segments and of interrupt gates.
--   lib/stdio.c: Console, the text screen, `itoa` and the format loop of `EarlyLog`.
--   drivers/gd.c: Gd, the framebuffer: pixels, rectangles, characters, scrolling and `kDebug`.
--   drivers/pci.c: Pci, over Io, the configuration registers and the scan over the buses.
--   drivers/kybrd.c: Keyboard, over Io and its interrupt lines.
--   core/init.c: Boot, `kernel_init` and `kmain` over all of these.
--
-- How they interact. The boot code of core/init.c fills the descriptor tables, sets the controllers
-- and the timer up, takes the memory map, turns paging on, and then sets up the heap, the drivers and
-- the file system, telling on the framebuffer and on the text screen what it does. The heap and the
-- page tables take their pages from the one page allocator; a process takes its structure from the
-- heap and its directory and stack from the page allocator; a file takes its memory from the heap.
-- Boot hands the one allocator from part to part.
--
-- Not modelled: the assembly stubs, whose addresses are arguments; inc/font8x8_basic.h, a font table of
-- another project and an argument here; most records of inc/multiboot.h, which nothing reads; and the
-- messages that the parts other than Boot print on failure, which change the screens alone. Accesses to
-- memory are not translated: the theorems on Boot say which addresses are mapped, and are for a machine
-- whose pages all lie there.
--
-- Conventions. A word of w bits is a native number with its wrap-around written out. An address
-- is a number and 0 is NULL. A function that changes static variables or memory takes the state
-- and returns the new one. A loop over addresses or pointers takes fuel, with `none` for a loop
-- that used it up; theorems say how much fuel is enough. Memory is a total function, so that a
-- write through a bad pointer is a write there, as on the machine without paging. Each part has its
-- own view of it: words of tables, block headers, process structures, cells of the text screen, and
-- bytes of the framebuffer. The text of a number below 2^32 has at most 32 digits, which is the fuel
-- of `itoa`; loops over a string take more fuel than it has characters; a bus that the PCI scan enters
-- takes one. The arguments of a format are a function from their number to a word.
-- `itoa` has no meaning in C for the least `int` in base 10, whose negation overflows.
pub mod Prelude
pub mod Multiboot
pub mod Pmm
pub mod Heap
pub mod Paging
pub mod CString
pub mod Ramfs
pub mod Process
pub mod Io
pub mod Mouse
pub mod Descriptors
pub mod Serial
pub mod Console
pub mod Gd
pub mod Pci
pub mod Keyboard
pub mod Boot
