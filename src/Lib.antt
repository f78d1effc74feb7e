-- ===== src/Lib.antt =====
-- Verification of staut, which turns the pthreads of a program into user-level threads and answers
-- its file system calls from NVMe drives in user space.
--
-- The program's parts. zpoline (mylib/zpoline.c) rewrites every `syscall` instruction to a call of
-- a page at address 0, which leads to `asm_syscall_hook` and on to `hook_function` of mylib/hook.c.
-- There, a read or write of a hooked file becomes `read_impl` or `write_impl`: these ask the file
-- system (mylib/myfs.c) for addresses, block by block, and give requests to the driver
-- (mylib/nvme.cc), which they poll until the requests are done.
--
-- The files. Prelude and its children are shared: library names, Boolean tests, arrays as
-- functions, C strings, and Option chains.
--
-- Fs models mylib/myfs.h and mylib/myfs.c. State has `superblock_t` and `myfs_file_states` as one
-- record with `myfs_superblock_init`, `myfs_mount` and `myfs_get_size`; Ops has `__myfs_unlink`,
-- `__myfs_try_unlink`, `myfs_unlink`, `myfs_close`, the reference counts and `myfs_get_lba`; Open
-- has `myfs_open`. Count counts where a block number occurs, Blocks how allocation and release
-- change that, and Invariant says what well formed means; Unlink, Removal, Mount, Lookup,
-- Addresses, References and Steps are named for what they are about. Every operation is taken there
-- as one step, so the compare-and-swap loops on the ring's pointers succeed at once. Allocs has the
-- allocation of blocks by any number of threads, each access a step, and Shared what they get;
-- interleavings with a removal, which the source's mutexes do not all rule out, are not modelled.
-- The device's signed 32-bit block numbers are `Block`, with INACTIVE_BLOCK a constructor of its
-- own; reference counts wrap at 2 ^ 16. `myfs_get_lba` answers `none` for an access outside the
-- arrays, and `myfs_open` for a name that does not fit an entry; the other operations are answered
-- at any index, and the theorems are about descriptors of entries in the table.
--
-- Transfer models `read_impl` and `write_impl` of mylib/hook.c: Request the arguments of a request
-- and the choice of its size, Impl the loops, Shape what a sound request is, Read and Write what is
-- issued over blocks that a file has, Grow, Extend and Appends what a write does that makes the
-- file longer, Reread a read behind it. The answer lists the requests in batches with the number
-- that is awaited; the polling itself is in Nvme. READ_DEG and WRITE_DEG are set by the build and
-- are parameters. Every round of the loops advances by at least one byte, so fuel of the length is
-- enough. The offset in the loops is an `int`: a transfer of 2 ^ 31 - 4096 bytes or more, in which
-- it may overflow, is answered `none`.
--
-- Hook models the rest of mylib/hook.c: Names `parse_hooked_filenames` and `is_hooked_filename`,
-- Parse what the names come out as, Calls the tables `hookfds` and `cur_pos` and the cases of
-- `hook_function`, Dispatch what is left to the kernel, Position how the position moves. It is
-- built without USE_IO_URING. Waits has the calls that wait in user space: `hook_futex`,
-- `hook_clock_nanosleep`, and the cases of select and epoll_pwait2; Polling is about their loop and
-- Waiting says when they answer. Their world is a parameter: what others store, the clock, and what
-- goes on in a yield. Each has fuel for its loop, one unit a round; a time whose sum with the clock
-- overflows is answered `none`. `next_sys_call` is a parameter, a state of the kernel and what a
-- call does to it; buffers are left out. `other` stands for a number without a case in Calls; 202,
-- 230, 270 and 441 are in Waits. A descriptor beyond the tables is answered like any other index.
--
-- Uring models mylib/iouringlib.c and mylib/iouringlib.h, the back end built with USE_IO_URING:
-- Rings `struct submitter` with `iouring_check`, `iouring_get_sqe`, `iouring_op`, `iouring_read`
-- and `iouring_write`, Reap what a check takes from the completion ring, Submit what a request puts
-- into the submission ring, Wait `__io_uring_read` and `__io_uring_write` of mylib/hook.c. The
-- kernel is the other side of the rings: the tail of the completion ring is what the last read of
-- the loop gives. Each round but the last takes a pending entry, so fuel of one more than these is
-- enough.
--
-- Threads models mylib/myfifo.hpp, the free list of mutexes and condition variables of
-- mylib/mylib.c: Fifo the ring, with `push` as its two steps, Queue what it holds. QD is set by the
-- build and is a parameter. A compare-and-swap succeeds at once, since no other thread runs inside
-- a step. Of mylib/mylib.c, Lazy has `get_abt_mutex` and `get_abt_cond` as steps of any number of
-- threads, each shared access one step, and Made what the threads get; Once has `pthread_once` in
-- the same way; Keys has the keys of thread-specific data over those of Argobots, which are a
-- parameter. Objects has the calls on mutexes and condition variables one at a time, over Argobots
-- and a heap of wrappers; Handles says what well formed means, Got is about the handle of one
-- object, Calls lists the calls with what a correct program keeps to, and Kept is about one call.
-- The address of a new wrapper is an argument, since `malloc` may give any that is free.
--
-- Zpoline models mylib/zpoline.c: Machine the six x86-64 instructions of the page at address 0,
-- Trampoline `setup_trampoline` and the run down the sled, Entry the first instructions of
-- `asm_syscall_hook`, Hook the others with `syscall_hook` and `enter_syscall`, Returns what the
-- caller of a system call finds. The kernel is a parameter. Registers that no instruction touches
-- are left out. An entry runs at most 512 instructions of the sled and four behind it, so fuel 516
-- is enough. Rewrite has the bitmap of replaced instructions, `do_rewrite` and
-- `disassemble_and_rewrite`; the disassembler is a parameter, and an instruction is at least one
-- byte long, so fuel of the size of the region is enough. Maps has `rewrite_code` over the lines of
-- the memory map, Printed what it does with the lines that the kernel prints.
--
-- Backup models abt_backup/abt_backup.c and abt_backup/abt_restore.c: Tools both programs behind
-- `myfs_mount`, Restored and Roundtrip what a restore brings back, Striped the same on the drives
-- behind mylib/nvme.cc, which are a parameter. A request is done at once, since the tools wait for
-- all before they use the buffers.
--
-- Nvme models mylib/nvme.cc: Address the striping over drives, request identifiers and bounce
-- buffers, Qp class QP with `nvme_read_req`, `nvme_write_req` and `nvme_check`, Poll what a poll
-- consumes, Window, Lists, Polled, Consistent and Requests a queue pair with its drive, Device the
-- steps of both, Delivery what a run of them delivers. Setup models `__nvme_init`, Admin and
-- Created what it does to a drive that answers after a number of polls, Drives `nvme_init`. ND and
-- N_CORE are set by the build and are parameters. `n_cqe` always equals `n_sqe` and is not kept
-- apart. The address of a command has 32 bits, and a request for more than the eight blocks of a
-- bounce buffer is answered `none`. What the drive does between polls is a parameter, a function of
-- queue pairs. A wait of `new_sqe` is in Device a run of steps, so it has no fuel there.
--
-- The Examples modules hold runs and the theorems at concrete inputs.
--
-- Not modelled: the mapping of rings, registers and pages, and printing, which are input and output
-- only; the loading of the hook library in mylib/zpoline.c; the creation of threads and the
-- reader-writer lock in mylib/mylib.c, which only call Argobots; the cases of asynchronous input
-- and output in mylib/hook.c, which are compiled out; and the older variants under abtlib, blklib
-- and blkdev. Argobots is a vendored library.
pub mod Prelude
pub mod Fs
pub mod Transfer
pub mod Hook
pub mod Uring
pub mod Threads
pub mod Zpoline
pub mod Backup
pub mod Nvme
