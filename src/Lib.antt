-- ===== src/Lib.antt =====
-- A model of swnet-linux, the network library of nshost on Linux: non-blocking TCP, UDP and ARP
-- links over epoll(7), with a template that cuts a TCP stream into packets, a queue of nodes that
-- wait to be sent on each link, and a pool of threads that sends them.
--
-- How the parts interact. A link is an `ncb` (ncb.h). The event loop (io.c) calls its `ncb_read`
-- when the socket is readable and queues a task at the write pool (wpool.c) when it is writable.
-- `tcp_rx` (tcpio.c) reads segments and hands them to `tcp_parse_pkt` (tcpal.c), which posts whole
-- packets to the user. A write goes to the send queue (fifo.c) unless the link can send at once;
-- the pool's thread calls `ncb_write` (`tcp_tx`, `udp_tx`) and takes what was sent off the queue.
--
-- Which file models which part:
--   Ncb          ncb.h, fifo.h, tcp.h: the control block, its nodes and constants; the posting of
--                events of ncb.c
--   Ncb/Life     ncb.c: ncb_allocator, ncb_deconstruct; Ncb/Uninit: ncb_uninit; Ncb/Options: the
--                socket options, and the kernel that the options of tcp.c and udp.c share
--   Io           io.c: io_modify, io_detach, io_close; Io/Attach: io_fcntl, io_attach, io_pipefd;
--                Io/Loop: __epoll_proc and __iorun; Io/Init: io_init, io_uninit and their
--                helpers, Io/Init/Bounds is about their array and what io_attach and io_pipefd read of
--                it
--   Fifo         fifo.c: every operation. Fifo/Invariant and Fifo/Watch are about its counters and
--                the registration for writability; Fifo/Spec is a bounded queue, Fifo/Refine relates
--                the two; Fifo/Calls is about sequences of calls, Fifo/Rest about the fields that the
--                queue leaves alone
--   Tcpal        tcpal.c: tcp_parse_pkt and __tcp_parse_marked_lb. Tcpal/Stream is the framing of a
--                whole stream by a template; the modules under Tcpal/Refine relate the two;
--                Tcpal/CutHeader is about a large packet whose header was cut
--   Tcpio        tcpio.c: __tcp_rx and tcp_rx; Tcpio/Send: tcp_txn and tcp_tx; Tcpio/Syn: accepting;
--                Tcpio/Connect: tcp_tx_syn and tcp_rx_syn
--   Submit       what tcp_write, udp_write and arp_nrequest share: the packet in its buffer, and its
--                way to the kernel or to the send queue; Submit/Stream is about the bytes of it
--   Tcp          tcp.c: __tcprefr; Tcp/Template: tcp_settst and its kin; Tcp/Write: tcp_write;
--                Tcp/Connect: tcp_connect, tcp_connect2 and tcp_listen; Tcp/Create: tcp_create,
--                tcp_destroy, tcp_awaken, tcp_getaddr; Tcp/Attr: tcp_setattr and its kin;
--                Tcp/Options: tcp_update_opts and the socket options, Tcp/Options/Values and
--                Tcp/Options/Keepalive are about what they come to;
--                Tcp/Init: tcp_init, tcp_uninit, udp_init, udp_uninit; Tcp/Init/Lifetime is about them
--   Udp          udp.c: __udprefr, udp_destroy, udp_getaddr, udp_awaken, udp_set_boardcast,
--                udp_setattr_r; Udp/Create: udp_create; Udp/Write: udp_write; Udp/Group:
--                udp_joingrp, udp_dropgrp; Udp/Options: the socket options, udp_getattr_r
--   Udpio        udpio.c: __udp_rx, udp_rx, udp_txn, udp_tx
--   Arp          arp.h, arpio.c, and of arp.c __arprefr and arp_nrequest; Arp/Create: arp_create,
--                arp_bindsource, arp_destroy; Arp/Frame is about the frame of a request
--   Pipe         pipe.c: every operation; Pipe/Message is about a message that is written and read
--   Objects      the live links by their handles, for the code that looks a link up
--   Mxx          mxx.c: nis_call_ecr, nis_checr, nis_getver, nis_cntl; Mxx/Log is about the log;
--                Mxx/Interfaces: nis_getifmisc, Mxx/Interfaces/Calls is about two calls of it;
--                Mxx/Names: nis_lgethost, nis_gethost
--   Wpool        wpool.c: the task queue, __wp_exec and the inner loop of __wp_run; Wpool/Thread:
--                __wp_run; Wpool/Queued: wp_queued; Wpool/Init: wp_init and wp_uninit
--   Flow         tcp.c and wpool.c together: calls of tcp_write and tasks of the write pool on one
--                link, in any order, as steps; Flow/Moved, Flow/Task and Flow/Integrity are
--                about its stream; Flow/Answers and the modules of Flow/Drain are about the
--                pool's thread and one link; Flow/Frames is about packets one behind the other, and
--                Flow/Delivery about what the peer's tcp_rx makes of them
--   Echo         echo/echo.c: the callbacks of the example program and the loop of its client;
--                Echo/Startup: the two startup functions; Echo/Writes and Echo/Answer are about what
--                the server writes back
--   Echo/Args    echo/args.c: check_args; Echo/Args/Laws is about lists of options
--
-- The control block is one record, and every function of the source is a function of the same name
-- (without leading underscores where C has two) that takes the control block and returns the return
-- code with the new one. Base holds the shared helpers, Buffer what C says of malloc and memcpy.
--
-- Conventions. What a system call answers is an argument: an `Option ℕ` with `none` for success and
-- an errno otherwise, or a list of answers for a loop of calls. A result `none`, or `fault`, is
-- undefined behaviour of a memory access, and `waiting` a run that still waits for an answer. The
-- fields `posted` (the events handed to the user's callback), `interest` (the mask that epoll holds
-- for the socket) and `flags` (those of the descriptor) are not in the C structure.
-- posix__makeerror (an error code, which is negative), the user's parser and builder, the success
-- of malloc and the attribute bits, flags and limits of nisdef.h are parameters, as their code is
-- not in the repository. A size of a template is a natural number. Tests for a null control block
-- are absent, as a value is never null, but for the socket options, whose functions take an
-- `Option`. A mutex makes each call on a queue one step. The machine is little-endian.
--
-- Fuel. `parse_loop` gets as many rounds as the segment has bytes, and a round that is followed by
-- another is meant to consume one byte or more; `wp_run` is bounded by its first argument, since a
-- task may go back to the pool after each round, and gives `done none` where the rounds are used
-- up; for a link alone in the pool, two rounds more than its queue has nodes are enough.
--
-- Not modelled: what the library logs, the state of the signal that wakes a pool's thread (of the
-- thread itself the pool's record tells whether it was created), two threads that begin a protocol
-- at once, main of the example program, what a user's callback does to the link while it runs. The
-- callback of the example server is modelled by itself.
pub mod Arp
pub mod Base
pub mod Buffer
pub mod Echo
pub mod Fifo
pub mod Flow
pub mod Io
pub mod Mxx
pub mod Ncb
pub mod Objects
pub mod Pipe
pub mod Submit
pub mod Tcp
pub mod Tcpal
pub mod Tcpio
mod Tests
pub mod Udp
pub mod Udpio
pub mod Wpool
