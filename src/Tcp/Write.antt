-- ===== src/Tcp/Write.antt =====
-- tcp.c: tcp_write. The payload is given with what can be read at `origin`.
pub mod Call
pub mod Head
use swnet_linux.Base.{
  ℕ, ◌+◌, List, [], ◌++◌, Option, none, some, Bool, ◌==◌, ◌||◌, ltb, if◌then◌else◌, length, enomem,
  einval, eagain,
}
use swnet_linux.Base.Int.{ℤ, pos, neg, is_neg, is_nonpos, int_eq, to_ℕ}
use swnet_linux.Base.Run.{Run, fault, done, ◌>>=◌}
use swnet_linux.Buffer.{Buffer, malloc, memcpy}
use swnet_linux.Ncb.{
  Ncb, Node, SockAddr, Builder, Routine, AttrBits, has_attr, tcp_maximum_packet_size,
}
use swnet_linux.Fifo.{fifo_queue}
use swnet_linux.Submit.{
  Serializer, Packet, failed, built, serialize, plain_packet, Written, on_caller, submit, no_target,
  node_of,
}
use swnet_linux.Tcp.{tcp_refr}
use swnet_linux.Tcpio.Send.{SendReply, Sending, Tx, tcp_txn, tcp_established}

module _ (makeerror : ℕ → ℤ) (bits : AttrBits) (alloc : ℕ → Bool) where
  -- The packet with the head that the template's builder writes.
  unfoldable pub headed_packet : Builder → ℕ → Option Serializer → List ℕ → ℕ → Run Packet
  headed_packet builder template_cb serializer origin cb =
      let (status, head) = builder cb in
      if alloc (cb + template_cb)
      then if is_neg status
        then done (failed (neg 1))
        else elim (memcpy (malloc (cb + template_cb)) 0 head (length head)) [
          | none ↦ fault
          | some b ↦ serialize serializer b template_cb origin cb
        ]
      else done (failed (neg enomem))

  unfoldable pub packet_with : Option Builder → Ncb → Option Serializer → List ℕ → ℕ → Run Packet
  unfolding headed_packet plain_packet
  packet_with none ncb serializer origin cb = plain_packet alloc serializer origin cb
  packet_with (some builder) ncb serializer origin cb =
      if has_attr ncb.attr bits.no_build
      then plain_packet alloc serializer origin cb
      else headed_packet builder ncb.tcp.template.cb serializer origin cb

  unfoldable pub make_packet : Ncb → Option Serializer → List ℕ → ℕ → Run Packet
  unfolding packet_with
  make_packet ncb serializer origin cb =
      packet_with ncb.tcp.template.builder ncb serializer origin cb

  -- From the packet on. `node_memory` tells whether the allocation of the node succeeds.
  unfoldable pub write_packet : Bool → Option ℕ → Ncb → ℕ → Packet → List SendReply → Tx
  unfolding submit
  write_packet node_memory ctl ncb cb (failed r) replies = done (r, ncb, [], replies)
  write_packet node_memory ctl ncb cb (built b) replies =
      if node_memory
      then submit makeerror ctl ncb (node_of no_target b (cb + ncb.tcp.template.cb)) replies
      else done (neg enomem, ncb, [], replies)

  -- From the test of the socket's state on, which getsockopt(2) may not tell.
  unfoldable pub write_in :
      Option ℕ → Bool → Option ℕ → Ncb → Option Serializer → List ℕ → ℕ → List SendReply → Tx
  unfolding make_packet write_packet
  write_in none node_memory ctl ncb serializer origin cb replies =
      make_packet ncb serializer origin cb >>= (λ p. write_packet node_memory ctl ncb cb p replies)
  write_in (some state) node_memory ctl ncb serializer origin cb replies =
      let written =
        make_packet ncb serializer origin cb
        >>= (λ p. write_packet node_memory ctl ncb cb p replies) in
      if state == tcp_established then written else done (neg 1, ncb, [], replies)

  -- From the reference to the link on: both of its routines are to be set.
  unfoldable pub write_link :
      Option Routine
      → Option Routine
      → Option ℕ
      → Bool
      → Option ℕ
      → Ncb
      → Option Serializer
      → List ℕ
      → ℕ
      → List SendReply
      → Tx
  unfolding write_in
  write_link none read state node_memory ctl ncb serializer origin cb replies =
      done (neg einval, ncb, [], replies)
  write_link (some w) none state node_memory ctl ncb serializer origin cb replies =
      done (neg einval, ncb, [], replies)
  write_link (some w) (some r) state node_memory ctl ncb serializer origin cb replies =
      write_in state node_memory ctl ncb serializer origin cb replies

  -- tcp_write
  unfoldable pub tcp_write :
      Option ℕ
      → Bool
      → Option ℕ
      → ℤ
      → Option Ncb
      → Option (List ℕ)
      → ℤ
      → Option Serializer
      → List SendReply
      → Written
  unfolding write_link
  tcp_write state node_memory ctl link found none cb serializer replies =
      done (neg einval, found, [], replies)
  tcp_write state node_memory ctl link found (some origin) cb serializer replies =
      if is_neg link || is_nonpos cb || ltb tcp_maximum_packet_size (to_ℕ cb)
      then done (neg einval, found, [], replies)
      else elim (tcp_refr link found).1 [
        | none ↦ done ((tcp_refr link found).0, found, [], replies)
        | some ncb ↦ on_caller (
            write_link ncb.ncb_write ncb.ncb_read state node_memory ctl ncb serializer origin
              (to_ℕ cb) replies)
      ]
