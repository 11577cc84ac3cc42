-- ===== src/Lib.antt =====
-- micron: a 64-bit kernel in C++. This library models its memory management, its processor tables,
-- interrupts and clock, its drivers and its user program, and proves what they keep.
--
-- The modules and the code they are about (paths from the repository's root):
--
--   Boot                   kernel/src/boot/kmain.cpp and kconf.cpp: mnkmain, which calls the others
--   Util.Bitmap            kernel/src/util/bitmap.{h,cpp}: a bit per page
--   Util.Text              kernel/src/util/kutil.cpp: itoa, strcomp, strlen, strcat, isdigit
--   Util.Strings           the same file and memory/operations.cpp over memory: strcat, strcpy, memset
--   Memory.Pmm             kernel/src/memory/pmm.cpp: the page allocator over that bitmap
--   Memory.Pmm.Contract    the allocator as a set of taken pages, which it refines
--   Memory.Paging          kernel/src/memory/paging.{h,cpp}: four levels of page tables; it asks the
--                          page allocator for the tables that are missing
--   Memory.Paging.Entry    the bit fields of page_directory_entry
--   Memory.Mapping         the loops that map pages: request_pages of pmm.cpp, and
--                          kernel/src/boot/kconf.cpp
--   Memory.Heap            kernel/src/memory/heap.{h,cpp}: malloc over a list of segments
--   Memory.Heap.Tiles      the segments one behind the other, which every operation keeps (Ops, Joins,
--                          Steps, Frees); Live and Used are about any calls of malloc and free
--   Cpu.Gdt                kernel/src/cpu/gdt.{h,cpp}: the descriptor table
--   Cpu.Tss                kernel/src/cpu/tss.{h,cpp} and kernel/src/userspace/syscalls.cpp: the stacks
--                          of interrupts, from the page allocator, and the system calls
--   Cpu.Idt, Cpu.Clock     kernel/src/cpu/interrupts.cpp: the gates, and irq_handler with the clock
--   Cpu.Exceptions         the same file: exception_handler, which prints with Drivers.Printf, and the
--                          lookup of symbols
--   Drivers.Kbd            kernel/src/drivers/kbd/kbd.cpp: scan codes, modifiers, subscribers
--   Drivers.Gfx            kernel/src/drivers/gfx/gop/gop.{h,cpp}: the frame, its copy, the font
--   Drivers.Tty            kernel/src/drivers/tty/tty.cpp: cells, cursor, colour codes
--   Drivers.Tty.Screen     the same operations with the drawing of the cells into the frame
--   Drivers.Printf         kernel/src/drivers/tty/printf.cpp: formatted printing
--   Drivers.Ahci           kernel/src/drivers/disk/ahci/ahci.cpp: slots, ports, command fields
--   Drivers.Ahci.Issue     command_read and command_write with their waits
--   Drivers.Ahci.Engine    command_stop, command_start and configure_port
--   Drivers.Ahci.Controller  initialize, with memory from Memory.Heap for each port
--   Drivers.Pci            kernel/src/drivers/acpi/pci.cpp and acpi.cpp: devices and tables
--   Drivers.Ports          kernel/src/drivers/8259/pic.cpp, scheduling/timer.cpp,
--                          drivers/audio/beeper/beeper.cpp, drivers/uart/serial.cpp
--   Drivers.Serial         drivers/uart/serial.cpp: what the serial console sends back
--   User.Keyboard          kernel/src/userspace/entry/kcascii.cpp and umain.cpp: the command line
--   User.Prompt            umain.cpp and cpuid.cpp: the prompt's loop, and what the commands print
--   Base, Bits             shared names, casts to fixed widths, and the bits of a word
--
-- How the code is read. Globals are records that each operation takes and returns. A fixed-width
-- integer is a natural number with its wrap written out; `uint` is 64 bits wide in types.h, and a
-- product of two `uint16` is an `int`, which is taken to wrap around as the processor does it.
-- Memory is a function of the address: of bytes for the bitmap, of 64-bit entries for page tables,
-- of headers for the heap, of 32-bit pixels for the frame. A page table is reached at its physical
-- address, as the code does it. A pointer that is null is 0. Reads from a device are functions of
-- how often it has been read; what memory held before, and what stands around a table, are
-- arguments. Texts are lists of character codes up to the NUL.
--
-- Loops over a range recurse on what is left of it. The other loops follow data, and take fuel:
-- map_memory, which calls itself for each table that it makes; malloc, which walks the segments; the
-- loop of vprintf; the frames of a stack; strcat and strcpy, which look for a NUL; the second wait
-- of a disk command; and the waits for a disk port to stop and to start. With the tables in place
-- one unit is enough for the first, and two where the last table is missing; one unit for each
-- segment, for each character of the format, for each frame and for each character of a text with
-- one more is enough for the next four; a wait needs a unit for each round that the device lets it
-- make. A heap has one segment at most for each 32 bytes. `none` is a run that the fuel does not
-- reach, or code with no defined outcome: a division by zero, a text that is read past its NUL, a
-- store past a buffer, an index before a table, an argument of a call that is not there.
--
-- Not modelled: assembly, control-register instructions, and floating-point numbers in printf.
pub mod Base
pub mod Bits
pub mod Boot
pub mod Cpu
pub mod Drivers
pub mod Memory
pub mod Tests
pub mod User
pub mod Util
