-- ===== src/Lib.antt =====
-- The kernel of KusaOS: message passing, scheduling, memory, files and terminals, as
-- models of the C code with proofs.
--
-- KusaOS is a small x86 teaching system with a microkernel: tasks (TTY, SYS, HD, FS, MM), native
-- processes (INIT and three test processes) and forked processes exchange messages through
-- one system call, sendrec(). The parts modelled here and the files they stand in:
--   * include/sys/proc.h, const.h, type.h (the process table and its constants): Kernel, where the
--     state `Kernel` is proc_table, the current process, the memory and the globals. A pointer
--     into proc_table is an index; memory is a function from addresses to bytes.
--   * kernel/proc.c, msg_send(), deadlock(), block(), unblock(): Ipc/Defs.
--   * kernel/proc.c, msg_receive(), inform_int(), sys_sendrec(): Ipc/Receive. Ipc/Abstract is what
--     message passing promises: who waits for whom, one queue of senders for each process, and the
--     kept interrupts. Ipc/Invariant ties proc_table to it.
--   * kernel/proc.c, rr_schedule(), priority_schedule(), schedule(): Sched.
--   * kernel/clock.c, clock_handler(): Clock.
--   * kernel/main.c, kernel_main(): Boot, as far as it sets up proc_table.
--   * mm/main.c: Mm/Requests (alloc_mem() and the requests that change priorities and policies),
--     Mm/Buddy (alloc() of the buddy system, on mem_buf).
--   * mm/forkexit.c and do_kill() of mm/main.c: Mm/Life. The messages that the memory manager
--     sends are a list, in their order.
--   * fs/main.c, get_inode() and put_inode(), and fs/open.c, do_lseek(): Fs/Inodes, Fs/Lseek.
--     What the disk driver reads is a parameter.
--   * the open files of do_open() and do_close() in fs/open.c, and of fs_fork() and fs_exit() in
--     fs/main.c: Fs/Files.
--   * the inode map, alloc_imap_bit() of fs/open.c and the bit that do_unlink() of fs/link.c
--     frees: Fs/Bitmap.
--   * fs/read_write.c, do_rdwt() on a file: Fs/Transfer. The device is a function from positions
--     to bytes; the loop has as many turns as there are sectors, and one more. The driver answers
--     at most 256 sectors in a request.
--   * fs/misc.c, search_file() and find_entry() in a directory, new_dir_entry() of fs/open.c, and
--     the directory in do_unlink() of fs/link.c: Fs/Directory. A name is compared and copied in
--     thirteen steps, one more than it has characters.
--   * kernel/klib.c, itoa(), and kernel/systask.c: Klib, Systask. The registers of the clock are
--     a parameter.
--   * fs/misc.c, strip_path() and search_file() for a path: Fs/Path. The loop over the path has a
--     step for each character and one more.
--   * lib/misc.c, memcmp() and strcmp(), and lib/vsprintf.c: Strings. A recursion of i2a() is at
--     most as deep as the number is large.
--   * kernel/console.c: Console; the table of the consoles, and what kernel/tty.c starts and
--     prints on them: Console/Screens. Video memory and registers are states; the loop of
--     out_char() has 120 turns, more than it takes.
--   * kernel/hd.c and include/sys/hd.h: Hd, Hd/Partition, Hd/Rdwt, Hd/Task. What the drive does
--     with the registers that it is given is a parameter, and Hd/Command.IsAta what ATA lays down
--     for it.
--   * kernel/keyboard.c and include/sys/keymap.h: Keyboard. The bytes that arrive while the
--     reader waits are a list; the loop has as many turns as there are bytes, and one more.
--   * kernel/tty.c, the input buffer of a terminal, its echo and in_process(): Tty.
--
-- An assertion that fails, a panic, a loop that never ends and an access outside every object are
-- the values of Base/Results.Fault.
--
-- Loops over proc_table run on fuel: one step for each of its 37 entries. A queue of senders
-- and a chain of senders has at most so many members (Ipc/Queue, Ipc/Graph); a scheduler that has
-- passed every entry in vain runs for ever.
-- The buddy system's tree has eleven levels, its recursions twelve steps of fuel.
--
-- Not modelled: the boot sector and loader, the interrupt entry code, the interrupt controller,
-- the sector map and the format of a file system, the disk log, exec(), the C library's wrappers
-- of system calls and the commands. They are hardware accesses, or clients of the parts above.
pub mod Base
pub mod Kernel
pub mod Sched
pub mod Ipc
pub mod Clock
pub mod Boot
pub mod Console
pub mod Fs
pub mod Hd
pub mod Keyboard
pub mod Klib
pub mod Mm
pub mod Strings
pub mod Systask
pub mod Tty
mod Tests
