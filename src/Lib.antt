-- ===== src/Lib.antt =====
-- ZynexOS: the string and formatting library; the memory, environments, scheduler, system calls and
-- lock of the kernel; the file system with its server; and the descriptors, the pipe, the allocator
-- and the argument parser of user programs.
--
-- The program. A kernel for 64-bit RISC-V in the manner of an exokernel: kern/riscv/pmap.c owns the
-- physical pages (a list of the free ones, a reference count for each) and the four-level page
-- tables; kern/riscv/env.c owns the table of environments (the processes), each with a page
-- directory; kern/riscv/sched.c chooses who runs; kern/riscv/syscall.c lets environments create
-- each other, map pages into each other, and exchange messages. lib/riscv/string.c and
-- lib/riscv/printfmt.c serve both the kernel and user programs. fs/fs.c, in a server environment,
-- keeps files and directories on a disk that is mapped into its memory block by block; fs/serv.c
-- answers the requests of other environments, with a table of the files that they have open.
-- lib/riscv/pipe.c passes bytes between two environments through a page that both map, and
-- kern/riscv/spinlock.c lets one CPU at a time into the kernel.
--
-- The files.
--   Base           names of the libraries passed on, tests, lists, integers, bits, memory
--   CString        lib/riscv/string.c, function by function (strlen is `strlen`, and so on)
--   CString/Copy, Scan, Compare, Number, Tests
--   Printf         lib/riscv/printfmt.c: `printnum`, `sprintputch`, `vsnprintf`
--   Printf/Number, Buffer, Tests; Printf/Format is vprintfmt and snprintf; Printf/Format/Directive,
--                  Meaning, Pieces, Fuel, Stops, Tests
--   Kern/Pages     kern/riscv/pmap.c: `PageState` is the array of `struct PageInfo`, the free list
--                  and physical memory; `page_insert`, `page_remove`, ... are its functions
--   Kern/Pages/FreeList, Init, Mapping, Remove, Tests; Kern/Pages/Check is user_mem_check
--   Kern/Env       kern/riscv/env.c: `Kernel` is the table `envs`, its free list, `curenv` and the
--                  pages; `envid2env`, `env_alloc`, `env_free`, `env_run` are its functions
--   Kern/Env/Ids, Table, Tests
--   Kern/Sched     kern/riscv/sched.c, with env_destroy; Kern/Sched/Choice, Tests
--   Kern/Syscall   kern/riscv/syscall.c; Kern/Syscall/Control, Page, Ipc, Ipc/Message, Tests
--   Kern/Trap      page_fault_handler of kern/riscv/trap.c: the upcall and its `struct UTrapframe`;
--                  Kern/Trap/Frame, Tests
--   Kern/Lock      kern/riscv/spinlock.c: a step relation over any number of CPUs; Kern/Lock/Time is
--                  kern/riscv/time.c; Kern/Lock/Exclusion, Tests
--   Fs             fs/fs.c: `Disk` is the mapped disk as words, with the super block, the bitmap and
--                  the `struct File`s in it; `alloc_block`, `file_block_walk`, ... are its functions
--   Fs/Bitmap, Blocks, Tests; Fs/Layout is what a file is whose blocks are all there
--   Fs/Bytes       file_read and file_write; Fs/Bytes/Words, Content, Write, Transfer, Tests
--   Fs/Path        directories, walk_path, file_create and file_open; Fs/Path/Words, Lookup, Name,
--                  Create, Tests
--   Fs/Cache       fs/bc.c and the sectors of fs/cfi_flash.c: `Cache` is the server's memory, the bits
--                  of its pages and the chip; Fs/Cache/Sectors, View, Flat, Flush, Tests
--   Fs/Serve       fs/serv.c: `Server` is the table `opentab` over a `Disk`, one function per handler;
--                  Fs/Serve/Table, Writes, Reads, Tests
--   User/Pipe      lib/riscv/pipe.c: a step relation of a reader and a writer on one `struct Pipe`;
--                  User/Pipe/Queue, Stream, Read, Tests
--   User/Fd        lib/riscv/fd.c: `Space` is which page is mapped where, and what the Fd pages hold;
--                  User/Fd/Io is read and readn, User/Fd/Ops the other operations of a device;
--                  User/Fd/Dup, Tests
--   User/Ipc       lib/riscv/ipc.c
--   User/Malloc    lib/riscv/malloc.c: `Heap` is `mptr` with the bits and the count of each page;
--                  User/Malloc/Space, Chunk, Free, Fresh, Page, Tests
--   User/Args      lib/riscv/args.c; User/Args/Flags, Values, Tests
--
-- The way of modelling. Numbers are natural numbers, and wrap-around is written out. A pointer into
-- an array is its index, a pointer into a page table is a frame and an index, and a pointer to
-- bytes is an address. A function that changes state takes the state and returns the new one. A
-- panic or a fault is `none`, or a constructor of the result type. A loop over a count recurs on
-- it; a loop to a NUL byte runs on fuel, and the theorems say which fuel is enough: one more than
-- the length of the string. The recursion of printnum runs on fuel too: the bits of the number are
-- enough; vprintfmt needs ten units and one for each character. The loops of fs/fs.c over the bytes
-- of a file and over a path run on one more than the number of the bytes or characters, which is
-- enough since every round takes at least one. The search of malloc runs on a round for each page
-- of its range, three times over; a search that starts past the range never ends. Where
-- environments or CPUs run at once, a step is one access of what they share, and every order of
-- steps is allowed.
--
-- Not modelled: devices, boot code, the trap path in assembly, the TLB; the dispatch of traps; in
-- lib/riscv/fd.c the code of the devices, which is a parameter; the creation and closing of pipes;
-- fork and spawn in the user library, which rest on page faults; the network server, which is glue
-- over the copy of lwIP. The theorems on page_insert, page_remove and page_lookup are about
-- addresses whose page tables exist, those on the bytes of files and on directories about files
-- whose blocks are all there.
pub mod Base
pub mod CString
pub mod Fs
pub mod Kern
pub mod Printf
pub mod User
