-- ===== src/Udpio.antt =====
-- udpio.c: sending and receiving datagrams.
use swnet_linux.Base.{ℕ, List, [], ◌∷◌, Option, none, some, ◌==◌, if◌then◌else◌, eintr, eagain}
use swnet_linux.Base.Int.{ℤ, pos, neg, is_nonpos, is_zero}
use swnet_linux.Base.Run.{done, ◌>>=◌}
use swnet_linux.Ncb.{Ncb, Node, SockAddr, post, datagram}
use swnet_linux.Fifo.{fifo_pop}
use swnet_linux.Tcpio.Send.{SendReply, Sending, Tx, tcp_txn}

-- What recvfrom(2) answers: a datagram and its sender, 0, or -1 with an errno.
pub data RecvfromReply : Type 0 where
  arrived : List ℕ → SockAddr → RecvfromReply
  empty : RecvfromReply
  recvfrom_failed : ℕ → RecvfromReply

-- __udp_rx
unfoldable pub udp_rx_once : Ncb → RecvfromReply → ℤ × Ncb
udp_rx_once ncb (arrived [] from) = (neg 1, ncb)
udp_rx_once ncb (arrived (x ∷ xs) from) = (pos 0, post ncb (datagram (x ∷ xs) from))
udp_rx_once ncb empty = (neg 1, ncb)
udp_rx_once ncb (recvfrom_failed e) =
    if e == eagain then (pos eagain, ncb) else if e == eintr then (pos 0, ncb) else (neg 1, ncb)

-- udp_rx: until __udp_rx returns something but 0. `none` is a run that has not returned.
unfoldable pub udp_rx : Ncb → List RecvfromReply → Option (ℤ × Ncb × List RecvfromReply)
udp_rx ncb [] = none
udp_rx ncb (r ∷ rs) =
    let (retval, ncb') = udp_rx_once ncb r in
    let rest = udp_rx ncb' rs in if is_zero retval then rest else some (retval, ncb', rs)

-- udp_txn: the loop of tcp_txn, with sendto(2) to the node's target. No caller passes a null node.
unfoldable pub udp_txn : Node → List SendReply → Sending
udp_txn node replies = tcp_txn node replies

module _ (makeerror : ℕ → ℤ) where
  -- udp_tx on the queue's nodes. A node that was sent is taken out of the queue; `ctl` is what
  -- epoll_ctl(2) answers if that is the last one.
  unfoldable pub udp_tx_front : Ncb → List Node → Option ℕ → List SendReply → Tx
  udp_tx_front ncb [] ctl replies = done (pos 0, ncb, [], replies)
  udp_tx_front ncb (front ∷ nodes) ctl replies = do
    sent ← udp_txn front replies
    let ncb' : Ncb = record ncb { fifo = record ncb.fifo { nodes = sent.1 ∷ nodes } }
    done
        (sent.0, if is_nonpos sent.0 then ncb' else (fifo_pop makeerror ncb' ctl).2, sent.2, sent.3)

  unfoldable pub udp_tx : Option ℕ → Ncb → List SendReply → Tx
  unfolding udp_tx_front
  udp_tx ctl ncb replies = udp_tx_front ncb ncb.fifo.nodes ctl replies
