-- ===== src/Lib.antt =====
-- The firmware of the RP2350 beside a 65C02 with a memory management unit: its pure state and
-- decisions as functions, and theorems about them.
--
-- The RP serves the 6502 through a request block in shared memory, the mailbox. A request rings the
-- doorbell; taskMailbox finds it, looks its command up and runs it. Console commands move bytes
-- between the 6502's memory and two ring buffers, of which the keyboard fills one and the VDU empties
-- the other. Interrupts to the 6502 share one slot that the scheduler hands out. Before that, the
-- memory models read from /memory.ini say which physical pages each context of the MMU sees. Paths of
-- the 6502's processes are resolved against a table of working directories.
--
--   Base          shared names, tests, lists, bit masks, C strings
--   Fifo          NEO6502_MMU_V3/fifo.h. `Fifo k` has the size 2 ^ k; the 32-bit sums of the indices
--                 wrap as written. Fifo/Deque is the bounded sequence that it implements.
--   FsPath        NEO6502_MMU_V3/rp_fs_path.cpp and .h: Text (the checkers of paths), Cwd (the
--                 rp_fs_cwd_ functions), Resolve (rp_fs_resolve_process_path); Spec is the stack of
--                 components that a path stands for, Home and Begins are about where
--                 a path starts, Component and Valid are the grammars.
--   Memory        NEO6502_MMU_V3/memory_config.cpp and .h: Config (the structs), Scan, Sections and
--                 Parse (parseMemoryIni), Validate (validateConfig), Allocate
--                 (configureMMUFromActiveModel); Fuel is about the reader, Coverage, Checked,
--                 Written, Bounds and Pages about the last two, and Owner, Sharing, Giving, Filling
--                 and Isolation about who sees which page.
--   Ram           the 6502's 64 KB as the snoop functions of NEO6502_MMU_V3/neobus.cpp show them, and
--                 the words of mailbox.cpp
--   Scheduler     NEO6502_MMU_V3/scheduler.cpp: genIRQ6502, taskIRQTimer, the timer and the requests;
--                 an Event is a call of these, by the monitor too, or what the 6502 does.
--                 Invariant is about the slot itself, Slot about who holds it and who waits.
--   Input         NEO6502_MMU_V3/input.cpp: the two console queues
--   Mailbox       NEO6502_MMU_V3/mailbox.cpp and rp_console_io.cpp: Rp (the addresses), Console (the
--                 transfers), Fsm (the table, the dispatcher and taskMailbox); Commands, Dispatch and
--                 Queues are about them.
--   RpFs          NEO6502_MMU_V3/rp_fs.cpp and usb_fatfs.cpp: FatFs (what they call), Names (the paths),
--                 Storage (the handles and the mounted drives), Files and Folders (the operations);
--                 Agree and Handover compare the paths with FsPath, Handles, Consistent and Run follow
--                 the handles.
--   FsMailbox     NEO6502_MMU_V3/rp_fs_mailbox.cpp: Action (how an operation goes on or ends), Access
--                 (the memory of a context), Paths, Handles and Bulk (the operations), Exec
--                 (rp_fs_mailbox_handle_exec); Proper, Ending, BulkEnding and Completed are about how
--                 a request ends, Ranges and PathRead about the memory, Seek about the seek.
--   Keyboard      NEO6502_MMU_V3/usb_hid_input.cpp and usb_keyboard_layout.cpp: Layout (the tables),
--                 Keys (a report and the key repeat), Devices (the callbacks of TinyUSB and the
--                 selection), Task (taskUSBHIDInput), Descriptor (the role of an interface); Ascii,
--                 Again, Scanned, Held, Kept and Run are about them.
--
-- State is a record, and an operation a function that returns the changed record. Bytes and indices
-- are natural numbers with the wrap-around of their C type written out. A buffer of characters is the
-- list of the bytes before its zero. Calls of millis() are arguments, so are the handler of fs.exec and
-- the reset of the file handles for Mailbox, which FsMailbox fills. FatFs is a record of functions on a
-- state of its own, and what the memory board shows in another context is a function. Messages on the
-- serial port are left out.
--
-- Fuel: rp_fs_resolve_process_path walks with one unit for each byte of the path, and processVDUoutQ
-- with 128, more than the queue can hold; a round of the walk passes at least one byte. The
-- reader of /memory.ini has one unit for each byte of the file, since a line takes at least one. The
-- loops of fs.load and fs.save have one for each byte to move, since a round that goes on moves at
-- least one; rp_fs_readdir has 65537, since FAT allows 65536 entries in a directory. The scan
-- of a report descriptor has one more than the descriptor's bytes.
--
-- Not modelled: the bus cycles, the MMU's registers and the CPU's states (neobus.cpp, mmu.cpp,
-- p6502.cpp, control.cpp), the USB devices (usb_storage.cpp, usb_msc_diskio.cpp), the VDU, the graphics, the monitor, the disassembler and the system configuration;
-- fatfs_local is a third party's library.
pub mod Base
pub mod Fifo
pub mod FsMailbox
pub mod FsPath
pub mod Input
pub mod Keyboard
pub mod Mailbox
pub mod Memory
pub mod Ram
pub mod RpFs
pub mod Scheduler
