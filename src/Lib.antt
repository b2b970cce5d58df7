-- ===== src/Lib.antt =====
-- Stable Genius is an operating system for the x86: a kernel under kernel/ and a C and C++
-- library for its user programs under stdlib/. This library models parts of both as functions
-- on explicit states, and proves what those parts keep and promise.
--
-- The parts and their files
-- - Frames: kernel/cpp/PageFrameAllocator.cpp. The bitmap `used_pages` of physical 4KB pages
--   with `check`, `allocate` and `free` for small (4KB) and large (4MB) pages; the static
--   members and `last_alloc` are fields of the state. Frames/Setup models `pfa_initialise` and
--   `pfa_read_map`, which run at the start of the kernel, before the first allocation: they
--   mark what the kernel, the first megabyte and the boot loader's memory map occupy.
--   Frames/Small, Frames/History and Frames/Large hold the proofs for single pages, sequences
--   of calls and large pages; Frames/Setup/Initial, ReadMap and Available those of the start.
-- - Procs: `class ProcTable` of kernel/cpp/ProcTable.cpp, the map from PIDs to processes with
--   `insert` and its search for an unused PID. Procs/Pids is about that search, Procs/Insert
--   about the table.
-- - Files: `class FileTable` of kernel/cpp/ProcTable.cpp, the file descriptions that all
--   processes share, and the descriptor tables of kernel/cpp/Process.cpp. A descriptor holds
--   the key of a description, which counts its descriptors: `open_file` and `close_file` of the
--   process call those of the table, `fork_duplicate` and `exec_duplicate` call `copy_file` for
--   each descriptor. Files/Keys is about the search for an unused key, Files/Open about one
--   call, Files/Refs and Files/Shared about the counts under calls by any number of processes.
-- - Sched: `class RoundRobin` of kernel/cpp/Scheduler.cpp with `swap_in` and `swap_out` of
--   kernel/cpp/ProcTable.cpp. `next_proc` goes round the process table behind the current
--   process, chooses the first that is ready, and switches to it. Sched/Order is about the
--   choice in the cyclic order of the PIDs, Sched/Active about the switch, Sched/Fair about
--   sequences of turns.
-- - Signals: kernel/cpp/SignalManager.cpp and `syscalls::wait` of kernel/cpp/Syscall.cpp. The
--   manager reaches the process table, the file table and user memory, which are fields of its
--   state. `waitpid` and `poll` put their process to sleep and yield: each is cut there, and
--   the part behind the yield is a function of its own, from the state at which the process has
--   time again. Signals/Wait has `waitpid` and `notify_wait`, with NoMissed, Place, Meanwhile
--   and Answer below it: what may happen while a process sleeps is a relation, and its request
--   keeps its place; Signals/Poll has `poll`, `notify_file` and `tick_down`, with NoPending,
--   Notify and Ticks below it; Signals/Status is about the status of a process.
-- - Text: stdlib/cpp/cstring.cpp, in Text/Strings, and `itoa`, `uitoa` and `reverse` of
--   kernel/cpp/no_heap_util.cpp, in Text/Numbers, over a memory of bytes. `kvprintf` of the
--   same file, with the characters that a device has received for its output and the 32-bit
--   words that `va_arg` steps over, is in Text/Kprintf, and Text/Kprintf/Counts is about its
--   result; it is on fuel of 2^32 steps, one for each address. `strerror` is in Text/Errors.
--   Text/Strings/Copies and Compares are about the copying and comparing functions,
--   Text/Numbers/Digits, Reverse and Print about the steps of printing a number.
-- - Text/Parse: the conversions of text to integers in stdlib/cpp/cstdlib.cpp, `strtoull` and
--   what calls it. Text/Parse/Chars is about the characters, Digits and Reads about the digit
--   loop, Unsigned about `strtoull` and Printed about `atoi` on what `itoa` of
--   kernel/cpp/no_heap_util.cpp prints.
-- - UserHeap: stdlib/cpp/UserHeap.cpp with stdlib/include/UserHeap.h, `malloc` and `free` of a
--   user process on blocks linked through the memory. UserHeap/Layout says which list of chunks
--   a heap stands for, UserHeap/Scan, Claim, Malloc and Free prove that the operations on the
--   links implement those on the list, and UserHeap/Blocks draws from that what a caller sees.
-- - KernelHeap: kernel/cpp/KernelHeap.cpp with kernel/include/KernelHeap.h, the heap of the
--   kernel: the constructor, `initialise` and the searches of `find_free_block` in KernelHeap,
--   `next_page`, `new_block`, `malloc` and `free` in KernelHeap/Malloc. KernelHeap/Words is
--   about aligned addresses, Chain about the searches along the blocks, Grow about new blocks,
--   Aligned about `malloc` and Overrun about space that starts behind its block. The
--   definitions have names of their own, such as `kernel_malloc`, beside those of UserHeap.
-- - ProcMemory: `brk` and `set_user_stack` of kernel/cpp/Process.cpp, the data segment and the
--   stack of a process, over the set of its mapped pages. ProcMemory/Stack is about the stack,
--   ProcMemory/Shrunk about a break that moves down and up.
-- - MemoryFiles: kernel/cpp/MemoryFileSystem.cpp, a map from names to inodes that stand in a
--   store by their addresses, since two names can share one. MemoryFiles/Names has the laws of
--   the map, MemoryFiles/Removal is about `unlink`, `rename` and `rmdir`.
-- - Tty: kernel/cpp/Tty.cpp, a terminal with its buffer of characters, which is read by lines;
--   the screen is the list of the characters written to it. Tty/Lines is about any sequence of
--   typing and reading. `add_char` says whether the signal manager is to be notified.
-- - Ctype: stdlib/cpp/cctype.cpp, the character classes and case mappings over the table.
--   Ctype/Classes and Ctype/Cases compare them with ASCII.
-- - Paging: kernel/cpp/PageDescriptorTable.cpp, the page directory and the page tables, which
--   stand at addresses, over the page frame allocator of Frames. `translate`, `allocate` and
--   `free` (`allocate_page` and `free_page`, in steps) are in Paging, the operations on ranges
--   of pages and on the space of a user in Paging/Space. Paging/Cover, Pages and Reuse are
--   about one small page, Large about large pages, Order and Allocates about the order that the
--   calls keep among the tables, Ranges about `unmap` and `free_user_space`.
-- - Keyboard: kernel/cpp/Keyboard.cpp, the driver of a PS/2 keyboard: its tables in
--   Keyboard/Tables, the key codes in KeyCode, the reading and decoding of scan codes in Scan,
--   the commands in Commands, `read_key` in Read. What the driver calls of its device and sends
--   to its controller is gathered in lists. Keyboard/Codes and Keys are about pressing and
--   releasing a key, Letters about the characters of the letters.
-- - Vga: kernel/cpp/VgaController.cpp with kernel/cpp/VgaCursor.cpp, the framebuffer of the
--   text display and its cursor. `set_pos` and `new_line` of several arguments have names of
--   their own (`set_pos_at`, `new_line_at`). Vga/Written is about texts, Overrun about new
--   lines on the last line.
-- - Common holds what the modules share: maps as association lists, bounded loops, Boolean
--   tests on numbers and an integer. Tests applies the theorems at concrete inputs.
--
-- State, errors and bounds
-- - State is passed explicitly: an operation takes the state and returns the new one with its
--   result. Results that the source reports by a special value (0, -1, nullptr) are reported by
--   that value.
-- - A word of the bitmap is the function from its bit positions, and the bitmap the function
--   from word indices. An index out of range is no error in the model of Frames, as the arrays
--   test none; where that matters, the theorem says below which bound it speaks.
-- - `klib::map` is an association list that its operations keep in the order of the keys. A key
--   that is missing is `none`.
-- - Addresses and sizes of the heap are 32-bit words: additions and subtractions are taken
--   modulo 2 ^ 32.
-- - Loops with a counted range are structural recursion on the number of rounds that are left.
--   The search for a PID has 32768 rounds, as it visits each PID below 32768 once. The search
--   for an unused key has one round more than the map has entries, as one of so many keys is
--   unused. The walks along the blocks of a heap have one round more than the heap has room for
--   headers of 16 bytes. The digits of a number below 2 ^ 64 take 64 rounds at most, from radix
--   2 up, and one more to stop. A loop over a string has a round for each byte of the memory. A
--   scan code has eight bytes at most. The loops over pages have a round for each of the 2^20
--   pages of the addresses, and one more where the loop has to stop behind them. A walk that
--   runs out of rounds gives `none`; that the operations do not, under the conditions of the
--   results below, is part of what is proved of them.
--
-- What is not modelled
-- - What the code gets from elsewhere is a parameter: whether `brk` grants memory, what the
--   file system answers when a file is opened, the entries of the memory map, what a device
--   answers to `poll_check`, where the kernel's space begins, how often a file is open, and
--   what the page tables of kernel/cpp/PageDescriptorTable.cpp give: a page to the kernel's
--   heap, and memory for a page of a process.
-- - `new_page_table`, which allocates a table on the kernel's heap in the middle of `allocate`:
--   a parameter of Paging. With it the buffer of translations in the processor,
--   `duplicate_user_space`, `load` and the dumps of the tables are left out.
-- - The file stream of a description, the bytes inside the blocks of a heap and with them the
--   clearing that `calloc` does, the functions that print a status, and the registers that a
--   switch of processes saves.
-- - Interleavings inside an operation, other than at the yields: each operation runs as a
--   whole, and steps of different processes are interleaved between operations.
-- - The other parts of the kernel: the file systems but the one in memory, loaders, graphic
--   displays, drivers other than those of the keyboard and the text display; and the streams,
--   containers and start-up code of the library. The file system in memory is without the bytes
--   of the files and without the functions that open, close, resize and list them. Printing and
--   reading of floating point numbers (`dtoa`, `format_bytes`, `strtold`) have no counterpart
--   here, as there are no floats; `kvprintf` takes the text of such a number from a parameter.
pub mod Common
pub mod Frames
pub mod Paging
pub mod Keyboard
pub mod Vga
pub mod Procs
pub mod ProcMemory
pub mod Sched
pub mod Files
pub mod MemoryFiles
pub mod Ctype
pub mod Tty
pub mod UserHeap
pub mod KernelHeap
pub mod Signals
pub mod Text
mod Tests
