-- ===== src/Submit.antt =====
-- What tcp.c, udp.c and arp.c share in a write: the packet in its buffer, and its way to the kernel
-- or to the send queue.
pub mod Stream
use swnet_linux.Base.{
  ℕ, ◌+◌, List, [], ◌++◌, Option, none, some, Bool, ◌==◌, ◌||◌, ltb, if◌then◌else◌, length, enomem,
  einval, eagain,
}
use swnet_linux.Base.Int.{ℤ, pos, neg, is_neg, is_nonpos, int_eq, to_ℕ}
use swnet_linux.Base.Run.{Run, fault, done, ◌>>=◌}
use swnet_linux.Buffer.{Buffer, malloc, memcpy}
use swnet_linux.Ncb.{
  Ncb, Node, SockAddr, Builder, Routine, AttrBits, has_attr, tcp_maximum_packet_size,
}
use swnet_linux.Fifo.{fifo_queue}
use swnet_linux.Tcpio.Send.{SendReply, Sending, Tx, tcp_txn, tcp_established}

-- Given what can be read at `origin` and the size: its status, and the bytes that it writes.
abbrev pub Serializer : Type 0
Serializer = List ℕ → ℕ → ℤ × List ℕ

-- The packet in its buffer, or the return code with which tcp_write gives up.
pub data Packet : Type 0 where
  failed : ℤ → Packet
  built : Buffer → Packet

abbrev pub in_buffer : Option Buffer → Run Packet
in_buffer none = fault
in_buffer (some b) = done (built b)

-- Serializes the payload of `cb` bytes to offset `off`, or copies it.
unfoldable pub serialize : Option Serializer → Buffer → ℕ → List ℕ → ℕ → Run Packet
serialize none b off origin cb = in_buffer (memcpy b off origin cb)
serialize (some f) b off origin cb =
    let (status, bytes) = f origin cb in
    if is_neg status then done (failed (neg 1)) else in_buffer (memcpy b off bytes (length bytes))

-- The result, the link, the bytes sent and the answers left.
abbrev pub Written : Type 0
Written = Run (ℤ × Option Ncb × List ℕ × List SendReply)

abbrev pub on_caller : Tx → Written
on_caller (done (r, ncb, sent, rest)) = done (r, some ncb, sent, rest)
on_caller Run.waiting = Run.waiting
on_caller fault = fault

-- The packet without a head. `alloc n` tells whether malloc(n) succeeds.
unfoldable pub plain_packet : (ℕ → Bool) → Option Serializer → List ℕ → ℕ → Run Packet
plain_packet alloc serializer origin cb =
    if alloc cb then serialize serializer (malloc cb) 0 origin cb else done (failed (neg enomem))

-- A TCP node has no target.
abbrev pub no_target : SockAddr
no_target = record { addr = 0; port = 0 }

abbrev pub node_of : SockAddr → Buffer → ℕ → Node
node_of target b wcb = record { bytes = b.bytes; wcb = wcb; offset = 0; target = target }

module _ (makeerror : ℕ → ℤ) where
  -- The node goes to the queue; `ctl` is what epoll_ctl(2) answers.
  unfoldable pub queue_node : Option ℕ → Ncb → Node → List ℕ → List SendReply → Tx
  queue_node ctl ncb node sent replies =
      let (retval, ncb') = fifo_queue makeerror ncb (some node) ctl in
      if is_neg retval
      then done (retval, ncb', sent, replies)
      else done (pos 0, ncb', sent, replies)

  -- What is done with the result of tcp_txn, of which udp_txn and arp_txn are copies: only a node
  -- that would block is queued.
  unfoldable pub after_txn : Option ℕ → Ncb → ℤ × Node × List ℕ × List SendReply → Tx
  after_txn ctl ncb (retval, node', sent, rest) =
      if int_eq retval (neg eagain)
      then queue_node ctl ncb node' sent rest
      else done (retval, ncb, sent, rest)

  -- The node is sent at once, unless the IO is blocking; what cannot be sent now is queued.
  unfoldable pub submit : Option ℕ → Ncb → Node → List SendReply → Tx
  submit ctl ncb node replies =
      if ncb.fifo.blocking == 0
      then tcp_txn node replies >>= after_txn ctl ncb
      else queue_node ctl ncb node [] replies
