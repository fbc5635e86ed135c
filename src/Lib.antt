-- ===== src/Lib.antt =====
-- A small Unix-like kernel for RISC-V (after xv6), file by file.
--
-- The program: processes enter the kernel through system calls (kernel/syscall), which use open files
-- (kernel/fs/file.c), pipes (kernel/fs/pipe.c) and i-nodes (kernel/fs/inode.c). The file system
-- changes blocks in the buffer cache (kernel/fs/buf.c) inside transactions of the write-ahead log
-- (kernel/fs/log.c), which makes them permanent together. Below are memory (kernel/mm/mm.c), processes
-- (kernel/sched), locks (kernel/lock.c) and devices (kernel/dev).
--
-- Prelude and its children: Boolean tests, arrays as functions, lists, and `Run`, a value or a panic.
-- Param: the constants of include/param.h and include/fs/fs.h.
-- Pipe models kernel/fs/pipe.c: `Pipe` is `struct pipe` with `ring` for `data`; `pipe_read`,
--   `pipe_write` and `pipe_close` are the C functions from one wait (`sleep_on`) to the next, during
--   which they hold the pipe's lock. What `copy_in` and `copy_out` do for each byte is an argument.
--   Pipe/Invariant has the ring as a queue, Pipe/Stream the functions as operations on that queue, with
--   what a read does where the copy of a byte fails.
-- Log models kernel/fs/log.c: `Log` is `struct log`, `Io` the disk with the buffer cache over it.
--   `Io.past` keeps each state of the disk, so that a crash is the choice of one of them.
--   Log/Header has the header block, Log/Install the copying of logged blocks to their places,
--   Log/Crash recovery, Log/Commit commits, Log/Write and Log/Pins `log_write`, Log/Admission the
--   reservations of `begin_op` and Log/Overflow their limit.
-- Lock models kernel/lock.c (spin locks) and `push_off`, `pop_off` of kernel/sched/cpu.c; acquiring and
--   releasing are split where another CPU can act. Lock/Nesting has interrupt nesting, Lock/Exclusion a
--   machine of CPUs that take one lock, Lock/Sleep the sleep locks and the processes that wait for one.
-- Strings models kernel/lib/string.c over a memory of bytes; Strings/Blocks has memset and memmove,
--   Strings/Text the functions on strings. A search for the end of a string has fuel, the number of
--   bytes to look at; a string that ends within them is enough.
-- Files models the file table of kernel/fs/file.c and the descriptor calls of kernel/syscall/sysfile.c.
--   Files/Slots has the searches for a descriptor, Files/Counts the reference counts, Files/Dup the
--   calls `dup` and `dup2`, Files/Write the rounds of `file_write`.
-- Buffers models kernel/fs/buf.c: the ring of buffers is a list, most recently used first.
--   Buffers/Search has the two searches of `bread`, Buffers/Unique the invariant of the cache.
-- Inode models the blocks of kernel/fs/inode.c. Inode/Bitmap and Inode/Blocks have the allocation of
--   blocks, Inode/Map the block map, Inode/Read reading. Inode/Table models the table of i-nodes in memory,
--   with Inode/Table/Unique on `iget` and Inode/Table/Life on `iput`.
-- Proc models kernel/sched/proc.c. Proc/Numbers has process numbers, Proc/Sleeping `wake_up` and `kill`,
--   Proc/Family `fork`, `do_exit` and `wait`; `do_exit` gives back the calls of `pipe_close` and `iput`
--   that it makes, since Proc does not have the i-nodes. `pid_alloc` may never return, so it takes a number of
--   rounds and says whether they ended the search.
-- Paging models kernel/mm/mm.c over a memory of words and bytes. Paging/Free has the free pages as a
--   stack, Paging/Entries the arithmetic of entries, Paging/Walk the walk and mapping a page, and
--   Paging/Users user memory. A copy has fuel: each round moves a byte at least, so the length is enough.
--   The words, which are page tables and the list of free pages, are kept apart from the bytes.
-- Paging/Text has `copy_str_in` and `copy_str_out`, whose loops may not end: each takes a number of rounds,
--   and stands before the next one when these do not end it. They stop at a store to a word, such as an
--   entry of a page table, or behind physical memory.
--   Paging/Grow has `proc_grow` and `sys_sbrk`.
-- Console models kernel/dev/console.c: Console/Editing has typing and deleting.
-- Descriptors models the descriptors of kernel/dev/virtio_disk.c, Descriptors/Three a request's three
--   descriptors, Descriptors/Request the requests and the interrupt. The fuel of `free_chain` is one more
--   than there are descriptors, as it frees none twice.
-- Sched models `scheduler`, `sched`, `yield` and `sleep_on` of kernel/sched/proc.c as steps of CPUs, with the
--   number of other spin locks that each holds; Sched/Exclusive has their invariant. Steps of other
--   functions under a process's lock are those of Proc.
-- Inode/Write models `writei`, with Inode/Write/Content and Inode/Write/Again on what is there then.
-- Dir models the directories of kernel/fs/inode.c over the table of i-nodes: Dir/Entries has `dir_lookup`,
--   Dir/Link `dir_link`, Dir/Path `skip_elem` and `lookup`, Dir/Path/Elements the elements of a path and
--   Dir/Path/Ends the loop of `lookup`, whose fuel is the length of the path and one.
-- Calls models kernel/syscall/sysfile.c over Dir, Files and the table of i-nodes: Calls/Create, Calls/Links,
--   Calls/Open, Calls/Descriptors (with the functions of kernel/fs/file.c that these calls use) and
--   Calls/Pipes (with `pipe_alloc`). Of the log they keep the number of operations that have begun. A path
--   is what `fetch_str` gives, or nothing. Calls/Balance, Calls/Seek, Calls/PipeFiles and Calls/PipeFds have
--   their proofs.
-- Exec models the segments and the stack of kernel/fs/exec.c, Exec/Stack the bounds of the stack. The NULL
--   behind the strings is an entry of the array: where the array has no room for it, Exec says so and stops.
-- Ulib models user/ulib.c: Ulib/Heap `malloc` and `free`, Ulib/Text its string functions, on lists of
--   characters, Ulib/Print `printf`; `vdprintf` has the length of the format and one as fuel.
-- Shell models user/sh.c: Shell/Tokens the scanner and Shell/Parse the parser. Each token but the last
--   takes a character, so the length of the line and one is fuel enough.
--
-- Numbers are natural numbers; where the source computes with `uint32_t` or an index wraps, the
-- remainder is written out. A C array is a function from its index. Loops recur on the number of
-- rounds left, which their conditions bound, so no fuel is needed where none is named above.
--
-- Not modelled: the use of sleep locks in the file system, where holders are taken to have what they
-- lock; the dispatch of system calls and traps; `user_init`; `sys_execve` and the rest of `do_execve`;
-- `getcwd`, `execvp` and `stat` of user/ulib.c; `run_cmd` and `main` of user/sh.c; the other user programs
-- and tools/mkfs.c; the UART, the timer and the interrupt controller. Nor are assembly, device registers,
-- booting and printing, which are input and output.
pub mod Prelude
pub mod Param
pub mod Pipe
pub mod Log
pub mod Lock
pub mod Strings
pub mod Files
pub mod Buffers
pub mod Inode
pub mod Paging
pub mod Console
pub mod Descriptors
pub mod Proc
pub mod Sched
pub mod Dir
pub mod Calls
pub mod Exec
pub mod Ulib
pub mod Shell
