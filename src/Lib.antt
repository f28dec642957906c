-- ===== src/Lib.antt =====
-- Dysco: dynamic service chaining in the Linux kernel (kernel/common).
--
-- A host that runs Dysco replaces the addresses and ports of a TCP session by those of a
-- subsession to the next middlebox. The first SYN carries the session and the list of middleboxes
-- that are left (the service chain) as its payload. A later reconfiguration opens a second path
-- between two hosts, the anchors, by UDP control messages; while both paths exist, the anchors
-- translate sequence numbers, ack numbers, timestamps and windows between the two numberings, and
-- choose the path of each packet. Drivers hand frames to dysco_handle_frame and packets to
-- dysco_output; without such drivers the Netfilter hooks do.
--
-- Parts:
--   Base         booleans, lists over the native numbers, byte order and 32-bit arithmetic
--                (add32, sub32, u16, u32 wrap as __u32 and __u16 do)
--   Types        kernel/common/dysco.h: tcp_session, service_chain, the control blocks
--                dysco_cb_out, dysco_cb_in, dysco_cb_reconfig, the control message, and a packet
--   Kernel       the Linux functions that the module calls, as parameters (`Kernel`), and their
--                documented behaviour (`KernelLaws`); the rhashtable is Kernel.Tables
--   Heap         the state of a namespace, the memory of control blocks, and the monad of a
--                handler; a dereference of NULL or of a freed block is a fault. What is left
--                when the allocator refuses (Refused) or grants (Granted)
--   Ports        allocate_local_port and allocate_neighbor_port of kernel/common/dysco.h
--   Csum         the incremental checksums of kernel/common/dysco.h
--   TcpOptions   dysco_get_ts_option (kernel/common/dysco.h), and kernel/common/dysco_tcp.c
--   Chain        dysco_add_sc (kernel/common/dysco_output.c), dysco_remove_sc
--                (kernel/common/dysco_input.c)
--   Rewrite      the rewriting of headers in both files, with the SACK blocks
--   Output       kernel/common/dysco_output.c: dysco_output and what it calls
--   Input        kernel/common/dysco_input.c: dysco_handle_frame, dysco_input and what they
--                call; the blocks that the first SYN of a session leaves (Refused, Linked)
--   Control      kernel/common/dysco_control_input.c and kernel/common/dysco_control_output.c:
--                the differences that the right anchor computes (Deltas), the handlers of the
--                messages (Input, Output, Anchors, Splice), the switch of the left anchor
--                to the new path (Switch), messages that come again (Retransmission,
--                Settled)
--   Anchor       an abstract specification of one output block during a reconfiguration: its state
--                and flags, and the events of the protocol as steps
--   Journey      the SYN of a session from the host that adds the service chain to the next host
--                (dysco_out_syn, dysco_rx_initiation_new), and the segments that follow
--                (Segment: dysco_output, dysco_input)
--   System       the whole module driven by frames, packets, messages from user space, the clock
--                and the allocator (`perform`), against the specification of Anchor: the handlers
--                (Output, Input, Control, Hooks, Policies) and whole runs (Course)
--   Nf           kernel/nf/d.c: the Netfilter hooks
--   Namespaces   kernel/common/dysco_main.c: the tables of the namespaces, their cache, and the
--                resources that the kernel hands out and gets back
--   Main         kernel/common/dysco_main.c: policies, the reports to user space, and the blocks
--                that are freed when a namespace is destroyed (Removal)
--   Tests        a concrete host, and the theorems at concrete inputs
--
-- A definition has the name of its function without the prefix dysco_; a function of several
-- hundred lines is one definition for each of its branches. A packet is its header fields and the
-- bytes behind the fixed TCP header, fields of several bytes in network byte order as they are
-- loaded from memory by a little-endian host. A pointer to a control block is its number.
--
-- Bounds: the loops over the TCP options run on fuel of one more than the length of the options,
-- and each round uses up at least one byte of them. The loop over the SACK blocks of one option
-- runs on fuel of one more than the option's length, and each round uses up eight bytes of it. All
-- other loops are by recursion on a list or a length. Each allocation may fail, as a list in the
-- state says.
--
-- Not modelled: the spinlocks and the interleaving of handlers on several processors, the
-- measurements (DYSCO_MEASUREMENT), printk, send_pkt_user_space (not called), the sharing of a
-- policy's chain by the blocks made from it (a block has its own copy), kernel/common/dysco_proc.c,
-- the registration of the hooks, and the network drivers of kernel/ixgbe, kernel/e1000 and
-- kernel/veth, which are copies of Linux drivers that call dysco_input and dysco_output.
pub mod Base
pub mod Types
pub mod Kernel
pub mod Ports
pub mod Csum
pub mod TcpOptions
pub mod Heap
pub mod Rewrite
pub mod Control
pub mod Chain
pub mod Output
pub mod Input
pub mod Main
pub mod Anchor
pub mod Namespaces
pub mod Nf
pub mod Journey
pub mod System
pub mod Tests
