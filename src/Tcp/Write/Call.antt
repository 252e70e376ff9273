-- ===== src/Tcp/Write/Call.antt =====
-- tcp_write as the user calls it, on a connected link.
use swnet_linux.Base.{
  ℕ, ◌+◌, ◌<◌, ◌≤◌, ◌≡◌, refl, ap, ◌∙◌, List, [], ◌∷◌, Option, none, some, Bool, true, false, ◌==◌,
  ltb, leb, ge→ltb, lt→ltb, gt→leb, length, arith,
}
use swnet_linux.Base.Int.{ℤ, pos, is_nonpos}
use swnet_linux.Base.Run.{fault, done, ◌>>=◌}
use swnet_linux.Buffer.{Buffer}
use swnet_linux.Buffer.Laws.{memcpy-malloc}
use swnet_linux.Ncb.{Ncb, Node, Routine, AttrBits, tcp_maximum_packet_size}
use swnet_linux.Fifo.Invariant.{IsQueue}
use swnet_linux.Tcpio.Send.{SendReply, Tx, tcp_txn, tcp_established}
use swnet_linux.Tcpio.Send.Laws.{AreHonest}
use swnet_linux.Tcp.Template.{IsTcp, refr_tcp}
use swnet_linux.Submit.{
  Serializer, built, on_caller, plain_packet, serialize, node_of, submit, no_target,
}
use swnet_linux.Tcp.Write.{make_packet, packet_with, write_packet, write_in, write_link, tcp_write}
use swnet_linux.Submit.Stream.{Keeps, submit-Keeps}

-- A TCP link that can be written to.
pub record IsWritable (link : ℤ) (ncb : Ncb) (cb : ℕ) : Type 0 where
  pub tcp_link : IsTcp link ncb
  pub write_routine : (w : Routine) × (ncb.ncb_write ≡ some w)
  pub read_routine : (r : Routine) × (ncb.ncb_read ≡ some r)
  pub some_data : is_nonpos (pos cb) ≡ false
  pub not_too_much : cb ≤ tcp_maximum_packet_size

module _ (makeerror : ℕ → ℤ) (bits : AttrBits) (alloc : ℕ → Bool) where
  -- Past all guards tcp_write submits its packet.
  pub tcp_write_submits :
      (ctl : Option ℕ) (link : ℤ) (ncb : Ncb) (origin : List ℕ) (cb : ℕ)
      (serializer : Option Serializer) (replies : List SendReply) (b : Buffer)
      → IsWritable link ncb cb
      → make_packet makeerror bits alloc ncb serializer origin cb ≡ done (built b)
      → tcp_write makeerror bits alloc
          (some tcp_established)
          true
          ctl
          link
          (some ncb)
          (some origin)
          (pos cb)
          serializer
          replies
        ≡ on_caller
            (submit makeerror ctl ncb (node_of no_target b (cb + ncb.tcp.template.cb)) replies)
  unfolding tcp_write write_link write_in write_packet
  tcp_write_submits ctl link ncb origin cb serializer replies b w m =
      rw (w.tcp_link.handle, w.some_data, ge→ltb tcp_maximum_packet_size cb w.not_too_much)
        (rw (refr_tcp link ncb w.tcp_link) refl)
      ∙ ap
          (λ x. on_caller (
            write_link makeerror bits alloc x ncb.ncb_read (some tcp_established) true ctl ncb
              serializer origin cb replies))
          w.write_routine.1
      ∙ ap
          (λ x. on_caller (
            write_link makeerror bits alloc (some w.write_routine.0) x (some tcp_established) true
              ctl ncb serializer origin cb replies))
          w.read_routine.1
      ∙ ap
          (λ p.
            on_caller (p >>= (λ q. write_packet makeerror bits alloc true ctl ncb cb q replies)))
          m

  -- For data that passes its guards, on an established link whose queue meets its invariant, with
  -- memory for the packet and the node, a packet of the template's and the payload's size, and a
  -- kernel that takes at most what it is handed: tcp_write makes no access outside the packet, and
  -- unless it still waits for the kernel, it returns with the packet behind what waited before, in
  -- part sent and in part queued, and no byte lost, doubled or out of order; or it returns an
  -- error, with the link as it was.
  pub tcp_write-Keeps :
      (ctl : Option ℕ) (link : ℤ) (ncb : Ncb) (origin : List ℕ) (cb : ℕ)
      (serializer : Option Serializer) (replies : List SendReply) (b : Buffer)
      → IsWritable link ncb cb
      → IsQueue ncb.fifo
      → make_packet makeerror bits alloc ncb serializer origin cb ≡ done (built b)
      → length b.bytes ≡ cb + ncb.tcp.template.cb
      → AreHonest (node_of no_target b (cb + ncb.tcp.template.cb)) replies
      → (out : Tx) × (tcp_write makeerror bits alloc
            (some tcp_established)
            true
            ctl
            link
            (some ncb)
            (some origin)
            (pos cb)
            serializer
            replies
          ≡ on_caller out)
        × Keeps ncb (node_of no_target b (cb + ncb.tcp.template.cb)) out
  tcp_write-Keeps ctl link ncb origin cb serializer replies b w v m n h =
      let node = node_of no_target b (cb + ncb.tcp.template.cb) in
      (
        submit makeerror ctl ncb node replies,
        tcp_write_submits ctl link ncb origin cb serializer replies b w m,
        submit-Keeps makeerror ctl ncb node replies v
            (record { sent_part = omega arith; inside = omega arith }) h,
      )

  txn_over :
      (node : Node) (replies : List SendReply)
      → ltb node.offset node.wcb ≡ true
      → leb node.wcb (length node.bytes) ≡ false
      → tcp_txn node replies ≡ fault
  unfolding tcp_txn
  txn_over node [] o i = rw (o, i) refl
  txn_over node (r ∷ rs) o i = rw (o, i) refl

  -- On an established link that does not block, with a template of one byte or more but no
  -- builder, for data that passes its guards, without a serializer and with memory for the payload
  -- and the node: tcp_write reads behind its packet, as it allocates the payload alone and sends
  -- the template's size more.
  pub tcp_write_overreads :
      (ctl : Option ℕ) (link : ℤ) (ncb : Ncb) (origin : List ℕ) (replies : List SendReply)
      → IsWritable link ncb (length origin)
      → ncb.tcp.template.builder ≡ none
      → 0 < ncb.tcp.template.cb
      → alloc (length origin) ≡ true
      → (ncb.fifo.blocking == 0) ≡ true
      → tcp_write makeerror bits alloc
          (some tcp_established)
          true
          ctl
          link
          (some ncb)
          (some origin)
          (pos (length origin))
          none
          replies
        ≡ fault
  unfolding make_packet packet_with plain_packet serialize submit
  tcp_write_overreads ctl link ncb origin replies w none_set t a free =
      let (b, copied, c, e) = memcpy-malloc (length origin) origin (omega arith) in
      let node = node_of no_target b (length origin + ncb.tcp.template.cb) in
      tcp_write_submits ctl link ncb origin (length origin) none replies b w (
        ap (λ x. packet_with makeerror bits alloc x ncb none origin (length origin)) none_set
        ∙ rw (a, copied) refl)
      ∙ rw free (
          rw
            (txn_over node replies (lt→ltb 0 (length origin + ncb.tcp.template.cb) (omega arith)) (
              gt→leb (length origin + ncb.tcp.template.cb) (length b.bytes)
                (omega (arith, ap length e))))
            refl)
