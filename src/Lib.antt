-- ===== src/Lib.antt =====
-- FoxOS kernel: the memory management, the scheduler, the network stack, the virtual file system and its
-- disks, the keyboard and mouse drivers, the symbols and the text routines, as functions on explicit
-- states.
--
-- The kernel has one address space. `src/bitmap.cpp` is the map of physical pages on which the page
-- frame allocator of `src/paging/page_frame_allocator.cpp` works; the page tables of `src/paging/` take
-- their pages from it, and the heap of `src/memory/heap.cpp` takes pages and maps them. The scheduler
-- keeps a queue of tasks for each core and takes stacks from the allocator. The network stack keeps its
-- sockets and handlers in the slot list of `include/net/listv2.h`, which also holds the file descriptors;
-- DHCP and DNS are handlers of its UDP sockets. The virtual file system keeps its mounts in the node list
-- of `src/fs/vfs/list.cpp`, calls the driver of the mount that a path names, and is called by the file
-- descriptors. The command line is parsed with the same node list.
--
--   Prelude       booleans on numbers, lists over native numbers, words, loops, bits
--   Bitmap        src/bitmap.cpp: `get` and `set`
--   PageFrames    src/paging/page_frame_allocator.cpp: `lock_page`, `free_page`, `reserve_page`,
--                 `unreserve_page`, the same for ranges, `request_page`, `request_pages`; in
--                 PageFrames/Boot `read_EFI_memory_map`, and src/memory/memory.cpp
--   Paging        src/paging/paging.cpp, page_map_indexer.cpp and page_table_manager.cpp: the entries,
--                 the indices of an address, `map_memory` and `map_range`
--   Heap          src/memory/heap.cpp: `malloc`, `free`, `realloc`, `split`, `combine_forward`,
--                 `expand_heap`, `initialize_heap`
--   TaskQueue     src/scheduling/scheduler/queue.cpp: `add`, `next`, `remove_first`
--   Scheduler     src/scheduling/scheduler/scheduler.cpp, errno.cpp and signal.cpp: `new_task`,
--                 `task_exit`, `schedule`, `set_task_errno`, `handle_signal`
--   Slots         include/net/listv2.h: `find`, `add`, `remove`
--   NodeList      src/fs/vfs/list.cpp: `find_node`, `add_node`, `remove_node`
--   Vfs           src/fs/vfs/vfs.cpp: `mount`, `unmount`; in Vfs/Files, Vfs/Folders and Vfs/Moves the
--                 operations on streams, directories, and `copy` and `rename`
--   BootFiles     src/fs/stivale/vfs.cpp: the driver of the boot loader's modules
--   Descriptors   src/fs/fd.cpp: `alloc_fd`, `free_fd`, `register_fd`, `get_fd`, and in
--                 Descriptors/Calls `open`, `close`, `read`, `write`
--   Keyboard      src/driver/keyboard.cpp: `keymap_de`, `keymap_us`, `keymap_fr`, `handle`
--   Mouse         src/driver/mouse.cpp: `handle`, the waits, `activate`
--   Decimal       src/cstr.cpp: `to_string`, `to_hstring`
--   Format        src/string.cpp: `number_printf`, `vsprintf`
--   Disks         src/driver/disk/disk.cpp and virtual_disk.cpp and src/fs/gpt/gpt.cpp: `add_disk`,
--                 `read`, `write`, `read_gpt`
--   Stdin         src/interrupts/syscalls/read.cpp: `add_char`, and `sys_read` of the standard input
--   CmdLine       src/cmdline.cpp: `add_handler`, `parse`
--   Symbols       src/config.cpp and src/scheduling/scheduler/elf.cpp: `resolve_symbol`, `unwind`, `patch`,
--                 `unpatch`, and in Symbols/Elf the resolver of a file
--   Net           the byte order of words
--   EtherFrame    src/net/etherframe.cpp: `recv`, `send_f`
--   Ipv4          src/net/ipv4.cpp: `checksum`, `onEtherFrameReceived`, `send`
--   Icmp          src/net/icmp.cpp: `onInternetProtocolReceived`, `send_echo_request`
--   Arp           src/net/arp.cpp: `onEtherFrameReceived`, `resolve`, `get_mac_from_cache`
--   Udp           src/net/udp.cpp: `onInternetProtocolReceived`, `connect`, `listen`, `send`
--   Tcp           src/net/tcp.cpp: `onInternetProtocolReceived` in Tcp/Receive and Tcp/Provider, `send`
--                 and `retransmit` in Tcp/Send
--   Dhcp          src/net/dhcp.cpp: `request`, `onUdpMessage`, `get_dhcp_options`
--   Dns           src/net/dns.cpp: `resolv_domain_to_hostname`, `onUdpMessage`, and in Dns/Client
--                 `dns_request` and `resolve`
--   Strings       src/string.cpp: the routines on strings and memory
--   Examples      the theorems at concrete states
--
-- How the code corresponds. A global or an object is a record that each function takes and gives back.
-- A `uint64_t` is a native number with its wrap-around written out where the code can reach it; a
-- `bool` is a `Bool`; a pointer is a number, and `NULL` is 0 or `none`. Memory is a function from
-- addresses or indices to cells, so that an access behind an array reads and writes what lies there. A
-- compiled constant keeps its value. Log output over the serial port is left out.
--
-- Loops and fuel. A loop over a fixed range is a recursion over its length. The search for a run of
-- pages has a round for each bit of the bitmap. `schedule` searches its queue with fuel: one round more
-- than there are blocked tasks in front is enough. The retry of `add` has fuel, of which two rounds are
-- enough where a node behind the list is clear. The waits of TCP and ARP are bounded by the time-outs
-- of the code; what an interrupt does while they sleep is an argument, as is the handler that a program
-- gives to a socket. `send` and `retransmit` call each other with fuel, since with a silent peer nothing
-- in the code ends them. String routines have fuel, of which one round more than the string has
-- characters is enough. The loops of `copy` have fuel: a round for each byte of the source and one more,
-- and 4096 rounds for the writes of a buffer, are enough where the drivers read and write as streams do,
-- and with the boot modules no fuel is. `to_string` has fuel, of which 20 rounds are enough for 64 bits,
-- and `number_printf` takes 64 rounds. `vsprintf` has a round for each character of the format, and
-- `get_dhcp_options` one for each byte of the options. The wait of the DNS client has 100000 rounds, as
-- its time-out.
--
-- Drivers of file systems are records of functions that the definitions take, as is what `to_string`
-- gives to a mount without a name. The bytes that the ports of the keyboard and the mouse give are
-- arguments, and the calls of their handlers are lists of events. A call through a function or a pointer
-- that is `NULL` gives `none`, as do a stream or directory that has been freed and a disk behind the
-- places of its array: what the code does there is not defined.
--
-- A TCP segment goes through the IPv4 provider's `send` and the wait for an address of ARP, whose
-- interrupts may change the TCP provider as well. UDP stops at the datagram that it gives to IPv4.
--
-- Left out: the drivers of real disks, network cards and the serial port, the FAT file system, which is
-- a library of another project, the renderer and the shell, the interrupt entry code, the FPU state and
-- spinlocks of the scheduler, whose critical sections are single steps here, the loading of programs, and
-- the `activate` of the keyboard.
pub mod Prelude
pub mod Bitmap
pub mod PageFrames
pub mod Paging
pub mod Heap
pub mod Slots
pub mod TaskQueue
pub mod Scheduler
pub mod Net
pub mod Ipv4
pub mod Arp
pub mod Tcp
pub mod Strings
pub mod Udp
pub mod NodeList
pub mod Descriptors
pub mod Examples
pub mod EtherFrame
pub mod Icmp
pub mod Vfs
pub mod BootFiles
pub mod Keyboard
pub mod Mouse
pub mod Symbols
pub mod Stdin
pub mod Disks
pub mod Decimal
pub mod Format
pub mod CmdLine
pub mod Dhcp
pub mod Dns
