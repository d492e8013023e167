-- ===== src/Lib.antt =====
-- dts.net: a small TCP/IP stack for embedded systems.
--
-- The program. `ether_ll_recv` takes a frame from the interface and hands its payload to ARP
-- (`ether_arp_ether_recv`) or to IP (`ip_ll_recv`), which hands its own to ICMP, UDP or TCP.
-- `icmp_ip_recv` answers an echo, `udp_ip_recv` calls the callback bound to the port, and
-- `tcp_ip_recv` unpacks the segment, finds the connection it is for, queues the segment there and
-- runs the handler of the connection's state. The handlers, the user's calls (`tcp_open`,
-- `tcp_close`, `tcp_send`, `tcp_recv`) and the timer (`tcp_loop`, `tcp_timeout`) send segments with
-- `tcp_ip_send`, which copies the packed segment and hands it to `ip_hl_send`. That packs the header,
-- cuts what is too long into fragments, and hands them to `ip_ether_send`, which looks up the
-- hardware address and sends frames. The DHCP client stands on top of the sockets. All layers keep
-- their bytes in data blocks (`dblk_t`) and use the byte order functions and the checksum.
--
-- The files.
--   Base       what all parts share: lists and options over the native numbers, tests, bits.
--   Endian     include/dts/net/endian.h. A pointer is a buffer and an index.
--   Bytes      `memcpy` and `memset` at an index, and what reads see after them.
--   Checksum   include/dts/net/checksum.h.
--   Dblk       dts_net_dblk.c, include/dts_net_dblk.h: Defs (nodes, size, merge), Alloc (new and
--              delete over a heap), Copy, Stream (seek, read, write), Fragment.
--              A block is a chain, the list of the nodes that `next` leads through.
--   Ip         dts_net_ip.c, include/dts_net_ip.h: Addr (addresses, and
--              include/dts/net/pseudo_header.h), Header (pack and unpack), Send (`ip_hl_send` with
--              its fragments over any `ll_send`, the same with what is handed down recorded, and what
--              `ip_ll_recv` reads).
--   Tcp        dts_net_tcp.c, include/dts_net_tcp.h: Defs (types), Seq (`sncmp`), Wire (pack and
--              unpack), Send (segments out), Receive (`process_received_seq` and the handlers
--              `received_when_...`, here `listen_seg`, `syn_sent_seg`, ...), Events (dispatch and
--              user calls), Connections (`tcp_list`). FIN-WAIT-1 and LAST-ACK share `fin_seg`, TIME-WAIT
--              and CLOSE-WAIT share `fin_again_seg`.
--   Udp        dts_net_udp.c, include/dts_net_udp.h; `send_to` is `_sendto`.
--   Icmp       dts_net_icmp.c, include/dts_net_icmp.h.
--   Arp        dts_net_arp.c, include/dts_net_arp.h.
--   Ether      dts_net_ether.c, include/dts_net_ether.h.
--   EtherArp   dts_net_ether_arp.c, include/dts_net_ether_arp.h: Table (`arp_table`, `nif_list`;
--              `learn` is the loop for a reply), Send (asking, answering, `ip_ether_send`).
--   Mem        dts.net.mem.impl: dts_net_mem_arr.c, dts_net_mem_list.c and dts_net_mem_malloc.c.
--   Inet       include/arpa/inet.h. `atoi` and `strchr` are parameters (`CText` has their laws).
--   Sys        dts_net_sys.c.
--   Dhcp       dts_net_dhcp.c, include/dts_net_dhcp.h: Defs (messages), Options, World (what the
--              client works on), Client.
--   Socket     socket/socket.c, include/bsd/socket.h: Defs (descriptors, `bind`, datagrams), Stream
--              (the calls of TCP sockets; `listen_on` is `listen`). `recvfrom_udp`, `recvfrom_tcp`,
--              `sendto_udp` and `sendto_tcp` are the branches of `recvfrom` and `sendto`.
--   Stack      the state of all layers: Defs has `ether_ll_recv` of dts_net_ether.c and `ip_ll_recv`
--              of dts_net_ip.c with the calls that they make, Send has `udp_sendto`, `icmp_ip_recv` and
--              `ip_hl_send` with `ip_ether_send` below them (`host_udp_sendto`, `host_icmp_ip_recv`,
--              `host_hl_send`).
--   The other modules below these hold proofs, and Tests the concrete runs.
--
-- State is passed on: a function takes the state it works on (a TCP connection with the heap and the
-- network around it, the address table, the DHCP client and its world) and returns the changed one.
-- The list library is a parameter with its laws (`ListLib`, `FindLib`); whether memory is granted, a
-- datagram or a frame is taken or a timer has expired is an input; what was handed to the outside is
-- recorded. A read through NULL is the result `none`.
--
-- Bounds. 16-, 32- and 64-bit values wrap where the code lets them. The folding loop of the checksum
-- goes down along `<`. `dblk_list_delete` runs a round for each node, `tcp_recv` one for each queued
-- block and one to spare, `ip_ether_send` four for each node and four more, the search for a DHCP
-- option one for each byte and one more, and learning an address two; each is shown to be enough.
-- `connect` tries three times. Every other loop goes down a list.
--
-- Not modelled: the calls of the sockets by the DHCP client, whose answers are inputs; that a socket's
-- pointer outlives a connection which `tcp_loop` frees. What TCP hands down, and ICMP in `ip_ll_recv`,
-- is recorded and not led on to `ip_ether_send`; what `ip_hl_send` deletes before it returns is then
-- left out (`host_hl_send` has it).
-- The fragments of `ip_hl_send` are those with memory for all of them (`dblk_fragment_alloc` asks the
-- heap). A read of memory that the DHCP client has freed gives what the memory held last. A read
-- behind the end of a buffer gives 0 in the model (`byte_at`), where C reads whatever lies there. The
-- checksum of data of odd size makes such a read, so the results on datagrams and segments that carry
-- a text ask for one of even size.
pub mod Base
pub mod Endian
pub mod Bytes
pub mod Checksum
pub mod Dblk
pub mod Ip
pub mod Tcp
pub mod Udp
pub mod Icmp
pub mod Inet
pub mod Arp
pub mod Ether
pub mod Mem
pub mod EtherArp
pub mod Dhcp
pub mod Socket
pub mod Stack
pub mod Sys
