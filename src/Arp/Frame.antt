-- ===== src/Arp/Frame.antt =====
-- The frame of an ARP request, and what becomes of it.
use swnet_linux.Base.{
  ℕ, ◌<◌, ◌≡◌, refl, sym, ap, ap₂, subst, List, [], ◌∷◌, ◌++◌, Option, some, true, false, ◌==◌,
  take, drop, length, length-append, le_bytes, of_le-le_bytes, byte_limit, swap16, swap32, arith,
}
use swnet_linux.Base.Int.{ℤ, pos, is_neg}
use swnet_linux.Ncb.{Node, Ncb, ArpPacket, ArpPart, eth_p_arp}
use swnet_linux.Submit.{on_caller, submit}
use swnet_linux.Submit.Stream.{Keeps, submit-Keeps}
use swnet_linux.Fifo.Invariant.{IsQueue}
use swnet_linux.Tcpio.Send.{SendReply}
use swnet_linux.Tcpio.Send.Laws.{AreHonest}
use swnet_linux.Arp.{
  arp_refr, arp_frame, arp_packet, short_at, broadcast, arp_nrequest, be16, eth_p_ip, arp_op_req,
}

-- An ARP link whose interface has a hardware address of six bytes.
pub record IsArp (link : ℤ) (ncb : Ncb) : Type 0 where
  pub handle : is_neg link ≡ false
  pub protocol : (ncb.protocol == eth_p_arp) ≡ true
  pub source_ip : ncb.arp.source < byte_limit 4
  pub mac : (a b c d e f : ℕ) × (ncb.arp.source_phyaddr ≡ a ∷ b ∷ c ∷ d ∷ e ∷ f ∷ [])

refr_arp : (link : ℤ) (ncb : Ncb) → IsArp link ncb → arp_refr link (some ncb) ≡ (pos 0, some ncb)
unfolding arp_refr
refr_arp link ncb v = rw (v.handle, v.protocol) refl

-- The request in the form in which a receiver of it reads it.
abbrev pub request_of : ArpPart → ℕ → ArpPacket
request_of arp target = record {
  hardware_type = swap16 1;
  protocol_type = swap16 eth_p_ip;
  hardware_size = 6;
  protocol_size = 4;
  op_code = swap16 arp_op_req;
  sender_mac = arp.source_phyaddr;
  sender_ip = swap32 arp.source;
  target_mac = broadcast;
  target_ip = swap32 target;
}

-- The bytes are an ARP request: an Ethernet frame to all, from the interface's hardware address and
-- with ARP's type in network order, and the ARP layer as above.
pub record IsRequest (arp : ArpPart) (target : ℕ) (bytes : List ℕ) : Type 0 where
  pub to_all : take 6 bytes ≡ broadcast
  pub from_interface : take 6 (drop 6 bytes) ≡ arp.source_phyaddr
  pub ether_type : short_at 12 bytes ≡ swap16 eth_p_arp
  pub layer : arp_packet bytes ≡ request_of arp target

frame_read :
    (source ifindex target a b c d e f : ℕ) (stale : List ℕ)
    → source < byte_limit 4
    → target < byte_limit 4
    → let arp : ArpPart = record {
      source = source;
      ifindex = ifindex;
      source_phyaddr = a ∷ b ∷ c ∷ d ∷ e ∷ f ∷ [];
    } in
      IsRequest arp target (arp_frame arp target stale)
unfolding arp_packet arp_frame
frame_read source ifindex target a b c d e f stale h k =
    let arp : ArpPart = record {
      source = source;
      ifindex = ifindex;
      source_phyaddr = a ∷ b ∷ c ∷ d ∷ e ∷ f ∷ [];
    } in
    record {
      to_all = refl;
      from_interface = refl;
      ether_type = refl;
      layer =
          ap₂ (λ s t. record (request_of arp target) { sender_ip = swap32 s; target_ip = swap32 t })
            (of_le-le_bytes 4 source h) (of_le-le_bytes 4 target k);
    }

length-frame :
    (arp : ArpPart) (target : ℕ) (stale : List ℕ)
    → length arp.source_phyaddr ≡ 6
    → length stale ≡ 18
    → length (arp_frame arp target stale) ≡ 60
unfolding arp_frame
length-frame arp target stale six rest =
    let mac = arp.source_phyaddr in
    let back = le_bytes 4 arp.source ++ (broadcast ++ (le_bytes 4 target ++ stale)) in
    omega (
      arith,
      six,
      rest,
      length-append mac (
          be16 eth_p_arp
          ++ (be16 1 ++ (be16 eth_p_ip ++ (6 ∷ 4 ∷ (be16 arp_op_req ++ (mac ++ back)))))),
      length-append mac back,
    )

-- A node of 60 bytes, all of them still to send, for the index of the link's interface.
abbrev pub interface_node : Ncb → List ℕ → Node
interface_node ncb bytes = record {
  bytes = bytes;
  wcb = 60;
  offset = 0;
  target = record { addr = ncb.arp.ifindex; port = 0 };
}

module _ (makeerror : ℕ → ℤ) where
  -- arp_nrequest over an ARP link whose queue meets its invariant, with memory for the frame and
  -- the node and a kernel that takes at most what it is handed: it submits one node, with a frame of
  -- 60 bytes for the link's interface. The frame goes to the broadcast address, comes from the
  -- interface's hardware address and has ARP's Ethernet type, and a receiver reads its ARP layer as
  -- a request with the hardware and IP address of the interface, for the target's address. Unless
  -- the call still waits for the kernel, it returns with the frame behind what waited before, in
  -- part sent and in part queued, and no byte lost or out of order; or it returns an error, with the
  -- link as it was.
  pub arp_nrequest-Keeps :
      (ctl : Option ℕ) (link : ℤ) (ncb : Ncb) (target : ℕ) (stale : List ℕ)
      (replies : List SendReply)
      → IsArp link ncb
      → IsQueue ncb.fifo
      → target < byte_limit 4
      → length stale ≡ 18
      → AreHonest (interface_node ncb (arp_frame ncb.arp target stale)) replies
      → (bytes : List ℕ) × (length bytes ≡ 60)
        × IsRequest ncb.arp target bytes
        × (arp_nrequest makeerror true true stale ctl link (some ncb) target replies
            ≡ on_caller (submit makeerror ctl ncb (interface_node ncb bytes) replies))
        × Keeps ncb
            (interface_node ncb bytes)
            (submit makeerror ctl ncb (interface_node ncb bytes) replies)
  unfolding arp_nrequest
  arp_nrequest-Keeps ctl link ncb target stale replies v q k rest honest =
      let bytes = arp_frame ncb.arp target stale in
      let (a, b, c, d, e, f, mac) = v.mac in
      let size = length-frame ncb.arp target stale (ap length mac) rest in
      (
        bytes,
        size,
        subst
            (λ m.
              let arp : ArpPart = record ncb.arp { source_phyaddr = m } in
              IsRequest arp target (arp_frame arp target stale))
            (sym mac)
            (frame_read ncb.arp.source ncb.arp.ifindex target a b c d e f stale v.source_ip k),
        rw (arp_nrequest, refr_arp link ncb v) refl,
        submit-Keeps makeerror ctl ncb (interface_node ncb bytes) replies q
            (record { sent_part = omega arith; inside = omega (arith, size) }) honest,
      )
