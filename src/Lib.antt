-- ===== src/Lib.antt =====
-- HueOS: a verification library for the kernel of this repository.
--
-- The kernel is C for 32-bit protected mode. `kernel_main` sets up the serial port, the frame buffer, the
-- terminal and the video mode, then the descriptor tables, the memory and the drivers, and prints what it found.
-- Everything is printed through `terminal_writestring`, which goes to the VGA text memory or, if a linear frame
-- buffer is active, to kernel/framebuffer.c; and through `serial_write`.
--
-- Base             tests, arrays, machine words, bit fields, counted loops and byte memory, shared by all parts
-- Io               the port functions of include/kernel.h. What the kernel does to the world is a trace of
--                  events, the newest first; a `Device` says what a port read gives, from the trace before it.
--                  A driver that prints adds one event with the text for each call.
-- Multiboot        `struct multiboot_info` of include/kernel.h
-- Memory           kernel/memory.c. Blocks: what the allocators hand out; Map: the walk over the memory map
-- Gdt              kernel/gdt.c. Encoding: descriptors as the processor reads them; Setup: the two tables
-- Font             kernel/font8x8.h, and `reverse_bits` of kernel/vesa.c
-- Numbers          the decimal and hexadecimal printing that several files repeat inline
-- Framebuffer      kernel/framebuffer.c. Pixels: the grid of pixels over memory; Glyphs, Picture, Scrolling:
--                  what is seen; Bounds, Cursor: what is kept; Page: the text as a grid of characters (Rolling,
--                  Typing: the refinement to it; Start: from `framebuffer_init` and `terminal_initialize` on)
-- Terminal         kernel/terminal.c. Paper, Writing: the screen as the end of a roll of paper; Scrolling, Bounds
-- Ide              kernel/ide.c. Registers: which ports a register number reaches; Polling: the waits; Names: the
--                  model; Detection: which drives (Filling, and Present, Slots, Found against the hardware), and what is
--                  recorded of them (Identified); Sectors: addresses and data; Listing: the printed table
-- Vesa             kernel/vesa.c. Plane: the font in VGA memory; Registers: save and restore; Modes: the command
--                  line; Setup: the dimensions from the registers or the boot loader (Keeping: what every step
--                  keeps; Dimensions, Memory, Blank; Mode: when the video mode stays; Texts: the buffers)
-- Serial           kernel/serial.c, and the texts of a whole run (`carry_out`). Sending: the bytes on the line; Hex: `serial_write_hex`
-- Scsi             kernel/scsi.c. Swapping: byte order; Pci: configuration reads; Ready: the wait; Controllers:
--                  the search of the bus; Texts: the copy of strings; Devices: the simulated commands and the
--                  scan (Inquiry, Scanned, and Served for the two searches one after the other); Access: the calls
--                  for the other parts; Listing: the printed table
-- Hwinfo           kernel/hwinfo.c. Identity: what CPUID says; Bus: the listing of the PCI bus (Decoding: against
--                  the reads of kernel/scsi.c; Found: what is counted)
-- Hyperv           kernel/hyperv.c. Vendor: what is taken for Hyper-V; CPUID is a parameter
-- Main             kernel/main.c. Search: what the string functions find; Kernel: `kernel_main`, over the states of
--                  all parts (Stages: the screen at first; Refusal: a wrong magic number; Running: the right one;
--                  Printed, Display, Lines, Shown: the text on a graphics or a text screen)
-- Tests            each theorem at concrete values
--
-- A function of C is a function of the same name from the state that it changes to the new state. Static
-- variables are the fields of a record for each file, with the same names. A machine integer is a natural number
-- whose wrap-around is written out (`u8`, `u16`, `u32`, `sub32`); `size_t` and pointers have 32 bits. Memory is a
-- function from addresses to bytes. A string is the list of its bytes before the NUL. A null pointer is `none`.
--
-- Loops with a counter recur on the rounds that are left, `buslogic_wait_ready` on its 10000. The loops that end
-- by what they read have fuel and give `none` when it runs out; the last loop of `kernel_main`, which never ends, is
-- an outcome. `init_memory` needs one unit more than `mmap_length`, since each entry of the map is at least four bytes; the status loops of the IDE driver and the
-- serial port need one unit more than the number of reads for which the hardware is not ready, and the theorems
-- on them say so. Division by ten recurs on the well-founded order.
--
-- The state of the kernel holds the console as it is before the first text; what is printed is in the trace, and
-- `screen` gives the console after it. A text for the serial port is an event of the trace too, in its place among the
-- port accesses. `carry_out` sends the texts of a trace, each by `serial_write` with its waits for the transmitter, and
-- `kernel_main` ends with it: if a wait runs out of fuel, there is no result, as with the waits for the drives. What
-- the other ports read as is decided from the trace with the texts as events, what the serial port reads as from the
-- trace with the bytes.
--
-- Not modelled: boot/ and kernel/gdt_asm.asm, which are assembly (the two flush routines are events); timing; writes
-- behind the end of an array, but for the byte behind the answer of an inquiry; and what the hardware does beyond the
-- values of its port reads.
pub mod Base
pub mod Io
pub mod Multiboot
pub mod Memory
pub mod Gdt
pub mod Font
pub mod Numbers
pub mod Framebuffer
pub mod Terminal
pub mod Ide
pub mod Vesa
pub mod Serial
pub mod Hyperv
pub mod Scsi
pub mod Main
pub mod Tests
pub mod Hwinfo
