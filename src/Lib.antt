-- ===== src/Lib.antt =====
-- rvos is a small operating system for 64-bit RISC-V: a kernel of tasks, messages, pages and names,
-- with its drivers and servers as user tasks. This library models the kernel, and of what runs
-- above it the file protocol, the filesystem, the network stack and the allocator of user programs.
--
-- The parts and where they stand:
--   Text       src/util.c (and streq of src/vfs.c): strings as lists of bytes, utoa and xtoa
--   Vfs        src/vfs.c: a namespace as the list of its entries; mount, bind, unmount, resolve
--   Memory     memset and memcpy of src/util.c over a byte memory, and the words of pages
--   Pmm        src/pmm.c: the free list threaded through the free pages
--   Vm         src/vm.c: Sv39 page tables in that memory, and copies between address spaces
--   Kernel     the state: struct task of src/task.h and the tables of the kernel
--   Task       src/task.c: slots, ids, and the scheduler
--   Ipc        src/ipc.c: send, trysend, recv and recvfrom, and the queues of senders
--   Namespaces src/vfs.c: the pool of namespaces, private copies and the sweep of unused ones
--   Retire     src/task.c: task_retire
--   Trap       src/trap.c: alarms, interrupts and the handler of a trap
--   Create     src/task.c and src/vm.c: new address spaces, new tasks, and segments of a program
--   Heap       src/task.c: SYS_SBRK
--   Syscalls   src/task.c: the other calls that change tasks, names or memory
--   Reports    src/task.c and src/vm.c: the calls that report, and the text of a walk
--   Dispatch   src/task.c: syscall_dispatch, the call for each number
--   Wire       src/fsproto.h: the messages of the file protocol between machines
--   Fat        src/fat16.c: a FAT16 volume: its table, names, directories, paths and files
--   Net        src/net_ip.c: bytes and checksums, ARP, the frames of IPv4, ICMP, UDP and TCP, DNS
--   Tcp        src/net_ip.c: connections: sending, acknowledgements, reassembly, states, the table
--   Malloc     src/malloc.h: the allocator of user programs: blocks, runs of small objects, the page map
--   Common     tests, lists and words that the parts share
-- A message goes through task_by_id, the queues of Ipc, a copy of Vm, and the scheduler of Task;
-- pages for tables come from Pmm, and all of them act on the one Kernel.
--
-- How the code is read. A pointer to a task is the index of its slot, a null pointer is `none` (or
-- 0 for an address), and a call that returns -1 is `none` or `false`. An int is its 32-bit pattern
-- and a uint64 a number below 2 ^ 64, with the wrap-around written out where the code can reach it.
-- A namespace is the list of its entries, so shifting entries is taking out and putting in. The
-- page that holds a namespace is kept as that list, beside the bytes of the memory. A call that
-- parks the machine in the loop of wfi is `none`.
--
-- Loops and their bounds. The walk to the last sender and the search of a queue take as many steps
-- as there are slots (and one more): a queue holds no task twice. The copy between address spaces
-- takes at most as many rounds as there are bytes, since each round moves one. utoa divides at most
-- 24 times, the size of its buffer, and a 64-bit number has at most 20 digits. A resolution takes
-- the four hops of the code. Walks of page tables go down three levels. Sweeps of the tables of
-- tasks and namespaces go once over their 24 entries.
--
-- A directory of a volume has at most 65528 clusters of at most 255 sectors of sixteen slots, which
-- is below the 2 ^ 28 rounds of a scan; a chain of the table has fewer clusters than there are
-- cluster numbers; a resolution takes a byte of the path in each round, and a read at least one
-- byte of the file. A directory whose chain runs into itself, which a sound volume has not, is
-- walked for ever by the code where it has no free slot, and for 2 ^ 28 slots here.
--
-- The TCP stands on a clock and on whether the hardware address of the next hop is known (`Env`),
-- on whether malloc has memory (`room`) and on which tasks are alive (`alive`). A segment on `wire`
-- is handed to the link, which may lose it, as the test hook drop_next does. tcp_output sends a
-- byte in each round of its loop, so that the bytes of the buffer bound them; the rounds of
-- ooo_drain are a parameter, and running out of them is `none`. timers_rearm is a function of the
-- table and is not called by the operations on one connection, which leave it nothing but the
-- deadlines. A name of DNS is gone over in as many rounds as it has bytes, since each round takes
-- one; what is behind the end of a message is the empty list.
--
-- The heap of a task has a window of 112 MiB and its blocks at least 16 bytes, so a list of its
-- blocks or runs has fewer than 2 ^ 24 members, the bound of the walks of the allocator. The map of
-- its pages doubles at most 64 times. SYS_SBRK is a parameter there, and the header at the start of
-- the heap is a record beside the memory. A store of the allocator to the break or behind it is a
-- fault (`faulted`), after which the rest of the run is of no account; the lock around the calls,
-- which only matters to threads, is left out.
--
-- The filesystem stands on the driver of src/srv_blk.c, which is a parameter: a disk, and the
-- sectors of it that can be read and that can be written. What is in a buffer before a read that
-- fails and is not looked at is a parameter too (`junk`). Bytes of a sector are numbers below 256.
--
-- What the code does not determine is a parameter: what the stack has behind the terminator of a
-- path buffer (`stale`), where the image ends (`image_end`, a symbol of the linker), the clock
-- (`now`), the interrupt that the controller hands out (`irq`), and where the locals of a handler
-- stand (`local`).
--
-- Not modelled: SYS_DEVINFO (an argument of the dispatch), whose text the device tree and PCI give;
-- the table of the kernel itself (vm_init); device registers, assembly and boot; and what runs
-- above the system calls besides the filesystem: the servers, the shell, and of the network stack
-- when the resolver is asked again, the files of /net and who waits on them.
pub mod Common
pub mod Text
pub mod Vfs
pub mod Memory
pub mod Pmm
pub mod Vm
pub mod Kernel
pub mod Task
pub mod Ipc
pub mod Namespaces
pub mod Retire
pub mod Trap
pub mod Create
pub mod Heap
pub mod Syscalls
pub mod Reports
pub mod Dispatch
pub mod Wire
pub mod Fat
pub mod Net
pub mod Tcp
pub mod Malloc
