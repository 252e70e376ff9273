-- ===== src/Tests/Send.antt =====
-- Sending: tests and instances.
use swnet_linux.Base.{true, ◌≡◌, ◌≢◌, refl, List, [], ◌∷◌, none, some, eagain, eintr, arith}
use swnet_linux.Base.Int.{pos}
use swnet_linux.Base.Run.{waiting, done}
use swnet_linux.Ncb.{Fifo}
use swnet_linux.Tcpio.Send.{SendReply, wrote, send_failed, tcp_txn, on_reply}
use swnet_linux.Tcpio.Send.Laws.{IsNode, Sends, tcp_txn-Sends}
use swnet_linux.Tcpio.Send.Ends.{tcp_txn_returns}
use swnet_linux.Udpio.{udp_tx, udp_txn}
use swnet_linux.Wpool.{Worker, wp_exec}
use swnet_linux.Wpool.Exec.{udp_exec_drops}
use swnet_linux.Tests.Samples.{link, parser, node, other, makeerror}

abbrev replies : List SendReply
replies = send_failed eintr ∷ wrote 1 ∷ wrote 1 ∷ []

node-IsNode : IsNode node
node-IsNode = record { sent_part = omega arith; inside = omega arith }

txn-node : tcp_txn node replies ≡ done (pos 3, record node { offset = 3 }, 2 ∷ 3 ∷ [], [])
unfolding tcp_txn on_reply
txn-node = refl

tcp_txn-Sends_example : Sends node (tcp_txn node replies)
tcp_txn-Sends_example = tcp_txn-Sends node replies node-IsNode (omega arith)

tcp_txn_returns_example : tcp_txn node replies ≢ waiting
tcp_txn_returns_example = tcp_txn_returns node replies node-IsNode (omega arith) (omega arith)

abbrev two : Fifo
two = record { blocking = 1; size = 2; nodes = node ∷ other ∷ [] }

abbrev worker : List SendReply → Worker
worker rs = record {
  pool = record { tasks = []; task_list_size = 0; actived = true; thread = true };
  link = link parser [] two;
  sent = [];
  replies = rs;
  closed = [];
}

abbrev full : List SendReply
full = wrote 1 ∷ send_failed eagain ∷ []

udp_exec_drops_example :
    (w' : Worker) × (wp_exec makeerror true (some (udp_tx makeerror none)) none (worker replies) 7
      ≡ done (pos 3, w'))
    × (w'.link.fifo.nodes ≡ [])
    × (w'.sent ≡ 2 ∷ 3 ∷ [])
    × (w'.replies ≡ [])
unfolding udp_txn tcp_txn on_reply
udp_exec_drops_example =
    udp_exec_drops makeerror (worker replies) 7 2 node (record node { offset = 3 }) other []
      (2 ∷ 3 ∷ []) [] none refl refl
