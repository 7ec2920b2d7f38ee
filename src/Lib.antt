-- ===== src/Lib.antt =====
-- The POSIX layer of nucleo_tests, a bare-metal C library for STM32 boards: signals, timers, waiting
-- for descriptors and the descriptor table; sockets on a W5100 network chip and the disk on an SD
-- card; and the network clients, for DHCP, DNS and the time.
--
-- The parts and their files. Each file named here holds the definitions of a part; the files in the
-- directory of the same name prove what is stated of them.
--   Timespec   src/timespec.c, include/timespec.h: times and the expiry test that poll, select, the
--              signal waits and the timers share.
--   File       src/file.c, include/file.h: the table of file structures; drivers put the addresses
--              of their functions there.
--   Poll       src/poll.c, include/poll.h: `poll` asks each descriptor's driver through the table,
--              and waits on the clock.
--   Select     src/select.c, include/sys/select.h: `pselect` polls the descriptors of three sets one
--              at a time, and puts the sets back between rounds.
--   Signal     src/signal.c, src/kill.c, src/raise.c, src/getpid.c, include/signal.h. State is the
--              common state, Sets the `sigset_t` operations, Queue the queueing and taking of
--              signals, Mask and Action the mask and the actions, Deliver the PendSV handler, Wait
--              `sigtimedwait`, `sigwaitinfo` and `sigwait`.
--   Sleep      src/clock_nanosleep_poll.c, src/nanosleep.c, src/sleep.c: sleeping on a clock.
--   Timers     src/timers.c. State is the table, Table its slots, Expiry the next timer to expire
--              and what happens then, Api the functions of <time.h>. An expiry queues a signal or
--              calls a function.
--   Syscalls   src/syscalls.c, src/fcntl.c: reads, writes and the other calls on a descriptor, which
--              go through the file table to the driver; the program break.
--   Systick    src/clock_gettime_systick.c: the clocks that the interrupt of the system tick drives.
--              Before each access to its variables the interrupt may come.
--   Inet       src/inet.c: the byte order of the network; Text is addresses as text.
--   Socket     the socket calls, the clock and `rand`, as a record that the network clients take.
--   Dhcp       src/dhcp_client.c, include/dhcp_client.h. State is the binding and the moves of its
--              state, Options the parser of a message's options, Message the building of a request,
--              Reply the reception, Client the exchange of the two and `dhcp_step`, which an
--              application calls again and again.
--   Sntp       src/sntp.c: time stamps, the estimate of the time, and the exchange with a server.
--   Rfc868     src/rfc868_time.c: the time from an older protocol, over UDP.
--   Timesync   src/timesync.c: sets the clock from Sntp when its interval has passed.
--   Timeofday  src/gettimeofday.c: the time of day.
--   Dns        src/getaddrinfo.c, src/gethostbyname.c, include/netdb.h. Name is the names in a message,
--              Query the query, Response the response and `getaddrinfo`, Host `gethostbyname`.
--   W5100      src/w5100_spi.c: the frames to the network chip; and src/w5100_socket.c, with
--              include/sys/socket.h. Ring is the ring buffers of a socket, State the table of
--              sockets and what a descriptor stands for, Open `socket` and `close`, Connect
--              `connect`, `bind`, `listen` and `accept`, Transfer lost connections, `recv` and
--              `recvfrom`, Send `send` and `sendto`, Query the readiness, the options, the names and
--              the start, Calls programs of these calls. A socket's file entries point at its
--              structure, and the structure at them; the file layer calls the socket layer through
--              the addresses that `fill_fd_struct` writes.
--   SdCard     src/sd_spi.c: commands and blocks of an SD card, on a link of the same kind. Disk is
--              src/sd_spi_diskio.c, the card as the disk of a file system.
--   Base       integers, bits, lists and outcomes; Tests runs the theorems on concrete inputs.
--
-- How the code is read. `int`, `long` and `time_t` are 32-bit two's complement integers: a sum goes
-- through `i32`, which wraps, so that the theorems name the ranges where nothing wraps. A bit set
-- is a word; `~` is the complement on 32 bits. What C leaves undefined in `1 << n` is the parameter
-- `wild_shift`. A function has the name it has in C (`_write` is `sys_write`), takes the state it
-- reads, and returns its value, what it writes through pointers, and the state. A pointer that may
-- be NULL is an option. A function pointer is an address, called through a parameter. A read
-- outside a table is the outcome `fault`. A local that is read before it is assigned is the
-- parameter `junk`. A message is a list of bytes, the whole array that a call received into;
-- addresses and the words of a message are in network order, as the words that hold them in the
-- little-endian memory. A network client's `W` is the state of its network. The sizes are those of
-- include/limits.h: 20 descriptors, 32 timers, 32 queued signals.
--
-- Parameters: the serial links; the socket calls, which a driver for a network chip implements;
-- `clock_gettime`, which is one of two files chosen when the program is linked; the counter of the
-- system tick; the functions of the drivers; the application's signal handlers and notification
-- functions; the numbers that the toolchain's headers give to signals and file types; how the C
-- library reads and prints a number and sorts characters into classes. `W` is the state they keep.
--
-- Loops over a table recurse on the slots that are left. The loops that wait, and those whose end
-- depends on handlers, run on rounds that the caller gives: `poll_until`, `pselect_until`,
-- `wait_from`, `sleep_until`, `pend_sv_handler` and `sys_timers_manage`. A wait with an end needs a
-- round for each reading of the clock before it, and the PendSV handler one for each pending signal
-- and one to find none. The search of the next timer has 33 rounds, one for each slot and one to
-- find the end. `sys_timers_manage` needs a round for each one-shot timer that is armed and one more.
-- The others need not end, by what the code means to do: a periodic timer may expire again while it
-- is served, and a wait without a timeout ends with its event.
--
-- A wait for the SD card needs a round for each byte of its delay and one more. `w5100_command`
-- needs a round for each time that the chip is found busy and one more, and a wait for a state of
-- a socket one for each time that it is found in another and one more; a call that blocks needs
-- one for each time that it finds nothing to do and one more. `get_avail_port` needs one for each
-- port that is in use and one more. The loops that read and
-- write a clock need a round for each interrupt and one more. The options of a DHCP message have a
-- round for each byte and one more, which is enough. A receiving loop (`recv_bootp_reply`,
-- `recv_dns_response`) needs a round for each message that it discards and one more; a name in a
-- DNS message one for each label and pointer and one more, and there are messages for which none
-- suffice.
--
-- Not modelled: the critical sections (each operation that they protect is one step), the empty
-- functions for a hardware timer, memory that is released or runs out, the accessors of the time
-- servers, the set-up of the chips and their pins, and the components that drive a device or wrap
-- a library: src/w5100_dhcp.c, src/fatfs.c, src/stdio_usart.c, src/faults.c and
-- src/clock_gettime_dummy.c. Files reach FatFs and the mounted card, which are not in the
-- repository.
pub mod Base
pub mod Timespec
pub mod File
pub mod Poll
pub mod Select
pub mod Signal
pub mod Sleep
pub mod Timers
pub mod Systick
pub mod Syscalls
pub mod Inet
pub mod Socket
pub mod Dhcp
pub mod Sntp
pub mod Rfc868
pub mod Timesync
pub mod Dns
pub mod W5100
pub mod SdCard
pub mod Tests
pub mod Timeofday
