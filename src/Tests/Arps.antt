-- ===== src/Tests/Arps.antt =====
-- ARP links: tests and instances.
use swnet_linux.Base.{
  ℕ, ◌≡◌, refl, List, [], ◌∷◌, none, some, true, length, replicate, arith, eagain, take,
}
use swnet_linux.Base.Int.{pos}
use swnet_linux.Base.Run.{done, fault}
use swnet_linux.Ncb.{Ncb, ArpPacket, arp_reply, eth_p_arp, post}
use swnet_linux.Submit.{on_caller}
use swnet_linux.Submit.Stream.{Keeps}
use swnet_linux.Fifo.Invariant.{IsQueue}
use swnet_linux.Tcpio.Send.{wrote}
use swnet_linux.Arp.{arp_packet, arp_nrequest, arp_rx, arp_rx_once, on_frame, frame, frame_failed}
use swnet_linux.Submit.{submit}
use swnet_linux.Arp.Frame.{IsArp, IsRequest, interface_node, arp_nrequest-Keeps}
use swnet_linux.Arp.Create.{find_source}
use swnet_linux.Tests.Samples.{fresh, makeerror}

-- 192.168.0.2 on the interface 3
abbrev arp_link : Ncb
arp_link = record fresh {
  protocol = eth_p_arp;
  arp = record { source = 33597632; ifindex = 3; source_phyaddr = 1 ∷ 2 ∷ 3 ∷ 4 ∷ 5 ∷ 6 ∷ [] };
}

arp_link-IsArp : IsArp (pos 7) arp_link
arp_link-IsArp = record {
  handle = refl;
  protocol = refl;
  source_ip = omega arith;
  mac = (1, 2, 3, 4, 5, 6, refl);
}

arp_link-IsQueue : IsQueue arp_link.fifo
arp_link-IsQueue = record { counted = refl; bounded = omega arith; flagged = refl }

abbrev behind : List ℕ
behind = replicate 18 0

arp_nrequest-Keeps_example :
    (bytes : List ℕ) × (length bytes ≡ 60)
    × IsRequest arp_link.arp 16820416 bytes
    × (arp_nrequest makeerror true true behind none (pos 7) (some arp_link) 16820416 (wrote 60 ∷ [])
        ≡ on_caller
            (submit makeerror none arp_link (interface_node arp_link bytes) (wrote 60 ∷ [])))
    × Keeps arp_link
        (interface_node arp_link bytes)
        (submit makeerror none arp_link (interface_node arp_link bytes) (wrote 60 ∷ []))
arp_nrequest-Keeps_example =
    arp_nrequest-Keeps makeerror none (pos 7) arp_link 16820416 behind (wrote 60 ∷ [])
      arp_link-IsArp arp_link-IsQueue (omega arith) refl (omega arith)

-- A reply of 192.168.0.1, in the sixty bytes of a frame.
abbrev reply_frame : List ℕ
reply_frame =
    1 ∷ 2 ∷ 3 ∷ 4 ∷ 5 ∷ 6 ∷ 9 ∷ 9 ∷ 9 ∷ 9 ∷ 9 ∷ 9 ∷ 8 ∷ 6 ∷ 0 ∷ 1 ∷ 8 ∷ 0 ∷ 6 ∷ 4 ∷ 0 ∷ 2 ∷ 9 ∷ 9
    ∷ 9 ∷ 9 ∷ 9 ∷ 9 ∷ 192 ∷ 168 ∷ 0 ∷ 1 ∷ 1 ∷ 2 ∷ 3 ∷ 4 ∷ 5 ∷ 6 ∷ 192 ∷ 168 ∷ 0 ∷ 2 ∷ behind

abbrev told_packet : ArpPacket
told_packet = record {
  hardware_type = 256;
  protocol_type = 8;
  hardware_size = 6;
  protocol_size = 4;
  op_code = 512;
  sender_mac = 9 ∷ 9 ∷ 9 ∷ 9 ∷ 9 ∷ 9 ∷ [];
  sender_ip = 3232235521;
  target_mac = 1 ∷ 2 ∷ 3 ∷ 4 ∷ 5 ∷ 6 ∷ [];
  target_ip = 3232235522;
}

reply-read :
    arp_rx arp_link (frame reply_frame ∷ frame (take 59 reply_frame) ∷ frame_failed eagain ∷ [])
    ≡ done (pos eagain, record arp_link { posted = arp_reply told_packet ∷ [] }, [])
unfolding arp_rx arp_rx_once on_frame arp_packet post
reply-read = refl

-- The second entry has no address, and the code reads it.
source-unread :
    find_source 7 (
      record { addr = some 1; ifindex = 1; phyaddr = none }
      ∷ record { addr = none; ifindex = 2; phyaddr = none }
      ∷ [])
    ≡ fault
unfolding find_source
source-unread = refl
