-- ===== src/Udp/Write.antt =====
-- udp.c: udp_write. `ipstr` is the address that inet_addr(3) reads from the caller's string, where
-- there is one; `origin` is what can be read at the caller's pointer.
use swnet_linux.Base.{
  ℕ, ◌≡◌, ◌≤◌, refl, List, [], Option, none, some, Bool, true, false, ◌==◌, ◌||◌, ltb, ge→ltb,
  if◌then◌else◌, length, einval, enomem, swap16, arith,
}
use swnet_linux.Base.Int.{ℤ, pos, neg, is_neg, is_nonpos, to_ℕ}
use swnet_linux.Base.Run.{done, ◌>>=◌}
use swnet_linux.Buffer.{Buffer}
use swnet_linux.Ncb.{Ncb, SockAddr, ipproto_udp}
use swnet_linux.Submit.{
  Serializer, Packet, failed, built, Written, on_caller, plain_packet, node_of, submit,
}
use swnet_linux.Submit.Stream.{Keeps, submit-Keeps}
use swnet_linux.Fifo.Invariant.{IsQueue}
use swnet_linux.Tcpio.Send.{SendReply, Tx}
use swnet_linux.Tcpio.Send.Laws.{AreHonest}
use swnet_linux.Udp.{UdpLimits, udp_refr}

module _ (makeerror : ℕ → ℤ) (limits : UdpLimits) (alloc : ℕ → Bool) where
  -- From the packet on. `node_memory` tells whether the allocation of the node succeeds.
  unfoldable pub write_datagram :
      Bool → Option ℕ → Ncb → ℕ → SockAddr → Packet → List SendReply → Tx
  write_datagram node_memory ctl ncb cb target (failed r) replies = done (r, ncb, [], replies)
  write_datagram node_memory ctl ncb cb target (built b) replies =
      if node_memory
      then submit makeerror ctl ncb (node_of target b cb) replies
      else done (neg enomem, ncb, [], replies)

  -- udp_write past the tests for null pointers.
  unfoldable pub udp_write_to :
      Bool
      → Option ℕ
      → ℤ
      → Option Ncb
      → List ℕ
      → ℤ
      → ℕ
      → ℕ
      → Option Serializer
      → List SendReply
      → Written
  unfolding write_datagram
  udp_write_to node_memory ctl link found origin cb ip port serializer replies =
      if (port == 0) || is_nonpos cb || is_neg link || ltb limits.max_udp_unit (to_ℕ cb)
      then done (neg einval, found, [], replies)
      else elim (udp_refr link found).1 [
        | none ↦ done ((udp_refr link found).0, found, [], replies)
        | some ncb ↦ on_caller (
            plain_packet alloc serializer origin (to_ℕ cb) >>= (λ p.
              write_datagram node_memory ctl ncb (to_ℕ cb)
                (record { addr = ip; port = swap16 port }) p replies))
      ]

  -- udp_write
  unfoldable pub udp_write :
      Bool
      → Option ℕ
      → ℤ
      → Option Ncb
      → Option (List ℕ)
      → ℤ
      → Option ℕ
      → ℕ
      → Option Serializer
      → List SendReply
      → Written
  unfolding udp_write_to
  udp_write node_memory ctl link found none cb ipstr port serializer replies =
      done (neg einval, found, [], replies)
  udp_write node_memory ctl link found (some origin) cb none port serializer replies =
      done (neg einval, found, [], replies)
  udp_write node_memory ctl link found (some origin) cb (some ip) port serializer replies =
      udp_write_to node_memory ctl link found origin cb ip port serializer replies

-- A UDP link that data can be sent over.
pub record IsUdp (link : ℤ) (ncb : Ncb) : Type 0 where
  pub handle : is_neg link ≡ false
  pub protocol : (ncb.protocol == ipproto_udp) ≡ true

pub refr_udp :
    (link : ℤ) (ncb : Ncb) → IsUdp link ncb → udp_refr link (some ncb) ≡ (pos 0, some ncb)
unfolding udp_refr
refr_udp link ncb v = rw (v.handle, v.protocol) refl

module _ (makeerror : ℕ → ℤ) (limits : UdpLimits) (alloc : ℕ → Bool) where
  -- udp_write of some data of at most MAX_UDP_UNIT bytes to an address and a port other than 0,
  -- over a UDP link whose queue meets its invariant, with memory for the packet and the node, a
  -- packet that is built with the size of the data, and a kernel that takes at most what it is
  -- handed: it submits one node, with the packet and the target's address and its port in network
  -- order. Unless that still waits for the kernel, it returns with the packet behind what waited
  -- before, in part sent and in part queued, no byte lost or out of order, and at most this node
  -- with this target added to the queue; or it returns an error, with the link as it was.
  pub udp_write-Keeps :
      (ctl : Option ℕ) (link : ℤ) (ncb : Ncb) (origin : List ℕ) (cb ip port : ℕ)
      (serializer : Option Serializer) (replies : List SendReply) (b : Buffer)
      → IsUdp link ncb
      → (port == 0) ≡ false
      → is_nonpos (pos cb) ≡ false
      → cb ≤ limits.max_udp_unit
      → IsQueue ncb.fifo
      → plain_packet alloc serializer origin cb ≡ done (built b)
      → length b.bytes ≡ cb
      → AreHonest (node_of (record { addr = ip; port = swap16 port }) b cb) replies
      → (udp_write makeerror limits alloc true ctl link
            (some ncb)
            (some origin)
            (pos cb)
            (some ip)
            port
            serializer
            replies
          ≡ on_caller (
              submit makeerror ctl ncb
                (node_of (record { addr = ip; port = swap16 port }) b cb)
                replies))
        × Keeps ncb (node_of (record { addr = ip; port = swap16 port }) b cb) (
            submit makeerror ctl ncb
              (node_of (record { addr = ip; port = swap16 port }) b cb)
              replies)
  unfolding udp_write udp_write_to write_datagram
  udp_write-Keeps ctl link ncb origin cb ip port serializer replies b u p c small q built' size h =
      let target : SockAddr = record { addr = ip; port = swap16 port } in
      (
        rw (p, c, u.handle, ge→ltb limits.max_udp_unit cb small)
            (rw (refr_udp link ncb u, built') refl),
        submit-Keeps makeerror ctl ncb (node_of target b cb) replies q
            (record { sent_part = omega arith; inside = omega arith }) h,
      )
