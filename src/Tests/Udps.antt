-- ===== src/Tests/Udps.antt =====
-- Making and writing to UDP links: tests and instances.
use swnet_linux.Base.{◌≡◌, refl, [], ◌∷◌, none, some, true, eagain, arith}
use swnet_linux.Base.Int.{pos}
use swnet_linux.Base.Run.{done}
use swnet_linux.Buffer.{Buffer, malloc, memcpy}
use swnet_linux.Ncb.{Ncb, GroupRequest, ipproto_udp}
use swnet_linux.Submit.{on_caller, plain_packet, serialize, built, node_of, submit}
use swnet_linux.Submit.Stream.{Keeps}
use swnet_linux.Fifo.Invariant.{IsQueue}
use swnet_linux.Tcpio.Send.{send_failed}
use swnet_linux.Udp.{UdpLimits, udp_refr, udp_getaddr}
use swnet_linux.Udp.Write.{udp_write, IsUdp, udp_write-Keeps}
use swnet_linux.Udp.Group.{GroupReplies, udp_joingrp, join_link, add_membership}
use swnet_linux.Udp.Create.{UdpReplies}
use swnet_linux.Tests.Links.{granted}
use swnet_linux.Tests.Samples.{alloc, fresh, makeerror, nowhere}

abbrev limits : UdpLimits
limits = record { max_udp_unit = 1472; flag_broadcast = 1; flag_multicast = 2; attr_broadcast = 1 }

abbrev udp_link : Ncb
udp_link = record fresh {
  protocol = ipproto_udp;
  attr = 2;
  local_addr = record { addr = 16777343; port = 20480 };
}

udp_link-IsUdp : IsUdp (pos 7) udp_link
udp_link-IsUdp = record { handle = refl; protocol = refl }

abbrev datagram_bytes : Buffer
datagram_bytes = record { cap = 2; bytes = 5 ∷ 6 ∷ [] }

udp_packet : plain_packet alloc none (5 ∷ 6 ∷ 7 ∷ []) 2 ≡ done (built datagram_bytes)
unfolding plain_packet serialize malloc memcpy
udp_packet = refl

udp_link-IsQueue : IsQueue udp_link.fifo
udp_link-IsQueue = record { counted = refl; bounded = omega arith; flagged = refl }

udp_write-Keeps_example :
    (udp_write makeerror limits alloc true none
        (pos 7)
        (some udp_link)
        (some (5 ∷ 6 ∷ 7 ∷ []))
        (pos 2)
        (some 16777343)
        80
        none
        (send_failed eagain ∷ [])
      ≡ on_caller (
          submit makeerror none udp_link
            (node_of (record { addr = 16777343; port = 20480 }) datagram_bytes 2)
            (send_failed eagain ∷ [])))
    × Keeps udp_link (node_of (record { addr = 16777343; port = 20480 }) datagram_bytes 2) (
        submit makeerror none udp_link
          (node_of (record { addr = 16777343; port = 20480 }) datagram_bytes 2)
          (send_failed eagain ∷ []))
udp_write-Keeps_example =
    udp_write-Keeps makeerror limits alloc none (pos 7) udp_link (5 ∷ 6 ∷ 7 ∷ []) 2 16777343 80 none
      (send_failed eagain ∷ []) datagram_bytes udp_link-IsUdp refl refl (omega arith)
      udp_link-IsQueue udp_packet refl (omega arith)

-- 127.0.0.1 and port 80, in the order of the host.
udp_getaddr-local : udp_getaddr (pos 7) (some udp_link) ≡ (pos 0, some (2130706433, 80))
unfolding udp_getaddr udp_refr
udp_getaddr-local = refl

abbrev group_replies : GroupReplies
group_replies = record { loop = pos 0; membership = pos 0 }

abbrev group : GroupRequest
group = record { multiaddr = 9; interface_addr = 16777343 }

joingrp :
    udp_joingrp limits true group_replies (pos 7) (some udp_link) (some 9) 80
    ≡ (pos 0, some (record udp_link { mreq = some group }), some group)
unfolding udp_joingrp udp_refr join_link add_membership
joingrp = refl

abbrev replies : UdpReplies
replies = record {
  fd = some 9;
  bound = true;
  hld = some 7;
  memory = true;
  broadcast = pos 0;
  local_addr = nowhere;
  attach = record { fcntl = granted; add = none };
  ctl = none;
}
