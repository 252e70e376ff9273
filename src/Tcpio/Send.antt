-- ===== src/Tcpio/Send.antt =====
-- The sending half of tcpio.c: tcp_txn and tcp_tx. What send(2) answers is given as a list, one
-- entry for each call. The bytes that the kernel took are a part of the result.
pub mod Laws
pub mod Ends
use swnet_linux.Base.{
  ℕ, zero, suc, ◌+◌, ◌-◌, List, [], ◌∷◌, ◌++◌, Option, none, some, Bool, ◌==◌, ltb, leb,
  if◌then◌else◌, length, take, drop, eintr, eagain,
}
use swnet_linux.Base.Int.{ℤ, pos, neg}
use swnet_linux.Base.Run.{Run, fault, waiting, done, ◌>>=◌}
use swnet_linux.Ncb.{Ncb, Node}

-- What send(2) and sendto(2) answer: a number of bytes, or -1 with an errno.
pub data SendReply : Type 0 where
  wrote : ℕ → SendReply
  send_failed : ℕ → SendReply

-- What one round of the loop does with an answer: return, or go on with bytes sent.
pub data Next : Type 0 where
  stop : ℤ → Next
  again : Node → List ℕ → Next

unfoldable pub on_reply : Node → SendReply → Next
on_reply node (wrote zero) = stop (neg 1)
on_reply node (wrote (suc n)) =
    again (record node { offset = node.offset + suc n })
      (take (suc n) (drop node.offset node.bytes))
on_reply node (send_failed e) =
    if e == eagain then stop (neg eagain) else if e == eintr then again node [] else stop (neg 1)

-- The return code, the node, the bytes sent and the answers left.
abbrev pub Sending : Type 0
Sending = Run (ℤ × Node × List ℕ × List SendReply)

abbrev pub add_sent : List ℕ → Sending → Sending
add_sent w fault = fault
add_sent w waiting = waiting
add_sent w (done (r, node, w', rest)) = done (r, node, w ++ w', rest)

-- tcp_txn. To hand the kernel bytes behind the node's own is undefined.
unfoldable pub tcp_txn : Node → List SendReply → Sending
tcp_txn node [] =
    if ltb node.offset node.wcb
    then if leb node.wcb (length node.bytes) then waiting else fault
    else done (pos node.wcb, node, [], [])
tcp_txn node (r ∷ rs) =
    if ltb node.offset node.wcb
    then if leb node.wcb (length node.bytes)
      then elim (on_reply node r) [
        | stop ret ↦ done (ret, node, [], rs)
        | again node' w ↦ add_sent w (tcp_txn node' rs)
      ]
      else fault
    else done (pos node.wcb, node, [], r ∷ rs)

-- TCP_ESTABLISHED of tcpi_state
abbrev pub tcp_established : ℕ
tcp_established = 1

-- The return code, the link, the bytes sent and the answers left.
abbrev pub Tx : Type 0
Tx = Run (ℤ × Ncb × List ℕ × List SendReply)

-- The node at the front is written where it stands: the queue holds the pointer.
unfoldable pub tcp_tx_front : Ncb → List Node → List SendReply → Tx
tcp_tx_front ncb [] replies = done (pos 0, ncb, [], replies)
tcp_tx_front ncb (front ∷ nodes) replies = do
  sent ← tcp_txn front replies
  done (sent.0, record ncb { fifo = record ncb.fifo { nodes = sent.1 ∷ nodes } }, sent.2, sent.3)

-- tcp_tx. `state` is the socket's tcpi_state, or `none` where getsockopt(2) fails.
unfoldable pub tcp_tx : Option ℕ → Ncb → List SendReply → Tx
unfolding tcp_tx_front
tcp_tx none ncb replies = tcp_tx_front ncb ncb.fifo.nodes replies
tcp_tx (some state) ncb replies =
    if state == tcp_established
    then tcp_tx_front ncb ncb.fifo.nodes replies
    else done (neg 1, ncb, [], replies)
