-- ===== src/Lib.antt =====
-- ndhc, a DHCP client for IPv4 in three processes. ndhc-master (src/ndhc.c) holds the lease: an event
-- loop calls the coroutine `dhcp_handle` (src/state.c), which sends DHCP messages (src/dhcp.c,
-- src/options.c), watches the address with ARP (src/arp.c) and has the interface configured
-- (src/ifchange.c). ndhc-sockd opens sockets for it (src/sockd.c), and ndhc-ifch changes the interface
-- (src/ifchd.c, src/ifchd-parse.rl, src/ifset.c, src/nl.c); both are asked over a socket pair.
--
-- The parts of the model:
--   Common     Boolean tests, lists, octets in network order, loops with fuel, automata on octets, and
--              the monad of a process (Process).
--   Options    src/options.c. A packet (`struct dhcpmsg` of src/dhcp.h) has lists of octets for its
--              arrays. A read or a write outside an array is a fault, `none`. Scan has the three loops
--              over a buffer, Append the writers, Getters the readers. Items is the specification: a
--              field as a list of options, as RFC 2132 and RFC 3396 read it.
--   Master     Client has the structs of src/ndhc.h and src/arp.h, World the state of the process
--              with the static variables of src/arp.c and src/ifchange.c, and the monad of its
--              functions, Ipc the requests to the other processes.
--   Dhcp       src/dhcp.c: Build has the messages, Send the sockets and the senders, RawPacket the read
--              from the raw socket, Receive the reception behind it, whose buffer is a packet of the
--              full size.
--   Ifchange   src/ifchange.c: the text of the commands, and when one is sent.
--   Arp        src/arp.c, by its tasks.
--   State      src/state.c: the timers, the messages of servers, the signals, and `dhcp_handle`, where
--              Search has the states up to the lease, Bound those with one, and Machine the whole.
--   MainLoop   the loop of `do_ndhc_work` of src/ndhc.c: Events has the messages of netlink
--              (src/netlink.c) and of rfkill (src/rfkill.c), Round one round, Timeout the wait,
--              Start `ndhc_main` with the loop.
--   Boot       what comes before the loop: World has the files and the array of the identifier,
--              Identifiers src/duiaid.c, Setting the identifier from the configuration (src/ndhc.c).
--              Stored, Persists and Clientid show what the files and the identifier hold. Interface has
--              the data of the interface (src/netlink.c), Leasefile src/leasefile.c, Radio how the
--              interface is brought up.
--   Ifchd      ndhc-ifch: World has its state, Netlink and Numbers what the commands share, Links and
--              Address those of src/ifset.c, Resolv those of src/ifchd.c, Grammar the automata of
--              src/ifchd-parse.rl, Execute their actions and `process_client_socket`. Refinement has
--              the specification, a list of commands that are performed in order; Appends and
--              ResolvText are about the text of resolv.conf, Work and WorkSound about the loop,
--              Injection about a host name with semicolons.
--   Sockd      ndhc-sockd: Bpf has the instructions of the kernel's filters, ArpFilters the programs
--              for ARP, DhcpFilter the one for DHCP beside the test of src/dhcp.c that takes its place,
--              Sockets the calls that open a socket, Execute the requests, Work the loop. What the
--              loops of ndhc-ifch and ndhc-sockd share is in Common/Subprocess.
--   Tests      concrete packets and states.
-- Files named Sound or Keeps are about a condition under which nothing faults. Paths are those of the
-- repository. Names are the source's in snake case.
--
-- What the kernel, the clock, the random generator and the other processes answer is the record `Env`,
-- for ndhc-ifch and ndhc-sockd the records `Kernel`: the questions are numbered, and the answers are
-- arbitrary. What a process does is a list of events, requests or calls. A function returns, ends the
-- process, or faults. The machine that runs the BPF programs is a parameter, with the laws that the
-- kernel documents for each instruction.
--
-- Fuel: the loops over a buffer get a round for each octet and one more; the theorems on safety show
-- that this is enough for every content. The loop of `quit_after_lease_handler` ends by the clock, and
-- gets as many rounds as `patience` of the environment; the theorem on `dhcp_handle` leaves it out,
-- since it runs only where the configuration asks to quit after a lease. A file that is appended to
-- resolv.conf has at most as many parts as octets.
--
-- Numbers are natural numbers. The places where the source cuts a number to its width are written out:
-- the lease in milliseconds, the rebinding time, the wait between probes, the sequence numbers of
-- netlink, `buflen` of ndhc-sockd. A time or a descriptor that the source sets to -1 is `none`.
--
-- Not modelled: the checksums (those of ncmlib are parameters), the sequence of `main` in src/ndhc.c,
-- the start of the other processes, the setup of privileges and signals, the layout of
-- netlink messages, the parser of the configuration, and seccomp. Log lines have no effect here, but
-- for two in RawPacket whose arguments do not fit the format.
pub mod Common
pub mod Options
pub mod Master
pub mod Dhcp
pub mod Ifchange
pub mod Arp
pub mod Sockd
pub mod State
pub mod Boot
pub mod Ifchd
pub mod MainLoop
pub mod Tests
