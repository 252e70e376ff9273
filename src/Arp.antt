-- ===== src/Arp.antt =====
-- arp.h, arp.c and arpio.c: ARP requests and replies on a packet socket. `found` is what objrefr
-- answers for the caller's handle. Numbers of several bytes stand in a frame in the order of the
-- network, and the memory of the machine is little-endian.
pub mod Frame
pub mod Create
use swnet_linux.Base.{
  ℕ, ◌+◌, List, [], ◌∷◌, ◌++◌, Option, none, some, Bool, true, false, ◌==◌, ◌&&◌, ltb,
  if◌then◌else◌, length, take, drop, replicate, le_bytes, of_le, swap16, swap32, einval, enoent,
  enomem, eintr, eagain, eprototype,
}
use swnet_linux.Base.Int.{ℤ, pos, neg, is_neg, is_zero}
use swnet_linux.Base.Run.{done, fault, Run, ◌>>=◌}
use swnet_linux.Ncb.{Ncb, Node, SockAddr, ArpPacket, ArpPart, post, arp_reply, eth_p_arp}
use swnet_linux.Submit.{Written, on_caller, submit}
use swnet_linux.Tcpio.Send.{SendReply, Sending, Tx, tcp_txn}
use swnet_linux.Udpio.{udp_tx}

-- sizeof(struct Ethernet_Head), and NIS_P_ARP_SIZE, which adds the 46 bytes of union arp_layer
abbrev pub eth_size : ℕ
eth_size = 14

abbrev pub nis_p_arp_size : ℕ
nis_p_arp_size = 60

abbrev pub eth_p_ip : ℕ
eth_p_ip = 0x0800

abbrev pub arp_op_req : ℕ
arp_op_req = 1

abbrev pub arp_op_reply : ℕ
arp_op_reply = 2

abbrev pub broadcast : List ℕ
broadcast = replicate 6 255

-- htons of a number, as it stands in memory.
abbrev pub be16 : ℕ → List ℕ
be16 n = le_bytes 2 (swap16 n)

-- __arprefr. The reference is given back where the link is not an ARP link.
unfoldable pub arp_refr : ℤ → Option Ncb → ℤ × Option Ncb
arp_refr hld found = if is_neg hld then (neg einval, none) else elim found [
  | none ↦ (neg enoent, none)
  | some ncb ↦ if ncb.protocol == eth_p_arp then (pos 0, some ncb) else (neg eprototype, none)
]

-- The frame that arp_nrequest fills, of 42 bytes; `stale` are the bytes behind it in the memory
-- that malloc gave, which are sent with it. `target` is the address as inet_addr(3) gives it.
unfoldable pub arp_frame : ArpPart → ℕ → List ℕ → List ℕ
arp_frame arp target stale =
    broadcast
    ++ (arp.source_phyaddr
        ++ (be16 eth_p_arp
            ++ (be16 1
                ++ (be16 eth_p_ip
                    ++ (6
                        ∷ 4
                        ∷ (be16 arp_op_req
                            ++ (arp.source_phyaddr
                                ++ (le_bytes 4 arp.source
                                    ++ (broadcast ++ (le_bytes 4 target ++ stale))))))))))

-- The two bytes, and the four, at an offset.
abbrev pub short_at : ℕ → List ℕ → ℕ
short_at off bytes = of_le (take 2 (drop off bytes))

abbrev pub long_at : ℕ → List ℕ → ℕ
long_at off bytes = of_le (take 4 (drop off bytes))

abbrev pub byte_at : ℕ → List ℕ → ℕ
byte_at off bytes = of_le (take 1 (drop off bytes))

-- What the user gets of a frame: the ARP layer as it stands in memory, with both IP addresses in
-- the order of the host.
unfoldable pub arp_packet : List ℕ → ArpPacket
arp_packet bytes = record {
  hardware_type = short_at 14 bytes;
  protocol_type = short_at 16 bytes;
  hardware_size = byte_at 18 bytes;
  protocol_size = byte_at 19 bytes;
  op_code = short_at 20 bytes;
  sender_mac = take 6 (drop 22 bytes);
  sender_ip = swap32 (long_at 28 bytes);
  target_mac = take 6 (drop 32 bytes);
  target_ip = swap32 (long_at 38 bytes);
}

-- What recvfrom(2) answers: a frame, of which at most 60 bytes are stored; 0; or -1 with an errno.
pub data FrameReply : Type 0 where
  frame : List ℕ → FrameReply
  none_read : FrameReply
  frame_failed : ℕ → FrameReply

-- A frame of a full 60 bytes that is an ARP reply goes to the user; another is dropped.
unfoldable pub on_frame : Ncb → List ℕ → Ncb
unfolding arp_packet
on_frame ncb bytes =
    if ltb (length bytes) nis_p_arp_size
    then ncb
    else if (short_at 12 bytes == swap16 eth_p_arp) && (short_at 20 bytes == swap16 arp_op_reply)
    then post ncb (arp_reply (arp_packet bytes))
    else ncb

-- __arp_rx
unfoldable pub arp_rx_once : Ncb → FrameReply → ℤ × Ncb
unfolding on_frame
arp_rx_once ncb (frame []) = (neg 1, ncb)
arp_rx_once ncb (frame (b ∷ bs)) = (pos 0, on_frame ncb (b ∷ bs))
arp_rx_once ncb none_read = (neg 1, ncb)
arp_rx_once ncb (frame_failed e) =
    if e == eagain then (pos eagain, ncb) else if e == eintr then (pos 0, ncb) else (neg 1, ncb)

-- arp_rx: until __arp_rx returns something but 0. `waiting` is a run that has not returned.
unfoldable pub arp_rx : Ncb → List FrameReply → Run (ℤ × Ncb × List FrameReply)
arp_rx ncb [] = Run.waiting
arp_rx ncb (r ∷ rs) =
    let (retval, ncb') = arp_rx_once ncb r in
    let rest = arp_rx ncb' rs in if is_zero retval then rest else done (retval, ncb', rs)

-- arp_txn: the loop of tcp_txn, with sendto(2) to the node's target. No caller passes a null node.
unfoldable pub arp_txn : Node → List SendReply → Sending
arp_txn node replies = tcp_txn node replies

-- The node of a frame.
abbrev pub frame_node : Ncb → List ℕ → Node
frame_node ncb bytes = record {
  bytes = bytes;
  wcb = nis_p_arp_size;
  offset = 0;
  target = record { addr = ncb.arp.ifindex; port = 0 };
}

module _ (makeerror : ℕ → ℤ) where
  -- arp_tx, the same code as udp_tx.
  unfoldable pub arp_tx : Option ℕ → Ncb → List SendReply → Tx
  arp_tx ctl ncb replies = udp_tx makeerror ctl ncb replies

  -- arp_nrequest. The two Booleans tell whether the allocations of the frame and of the node
  -- succeed, `stale` are the last 18 of the 60 bytes that malloc gave. `ctl` is what epoll_ctl(2)
  -- answers.
  unfoldable pub arp_nrequest :
      Bool → Bool → List ℕ → Option ℕ → ℤ → Option Ncb → ℕ → List SendReply → Written
  unfolding submit
  arp_nrequest memory node_memory stale ctl link found target replies =
      elim (arp_refr link found).1 [
        | none ↦ done ((arp_refr link found).0, found, [], replies)
        | some ncb ↦
            if memory && node_memory
            then on_caller
                (submit makeerror ctl ncb (frame_node ncb (arp_frame ncb.arp target stale)) replies)
            else done (neg enomem, some ncb, [], replies)
      ]
