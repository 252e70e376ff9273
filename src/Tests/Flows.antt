-- ===== src/Tests/Flows.antt =====
-- A link between its users and the write pool: a write that is sent in part, and the task that
-- sends the rest.
use swnet_linux.Base.{◌+◌, ◌≡◌, refl, [], ◌∷◌, ◌++◌, none, some, true, arith}
use swnet_linux.Base.Int.{pos}
use swnet_linux.Base.Run.{done}
use swnet_linux.Ncb.{Ncb}
use swnet_linux.Io.{io_modify, registered, epollin, epollout}
use swnet_linux.Fifo.{fifo_queue, fifo_pop, fifo_block, fifo_added, fifo_removed, fifo_pop_nodes}
use swnet_linux.Fifo.Invariant.{IsQueue}
use swnet_linux.Submit.{submit, serialize, after_txn, queue_node, no_target}
use swnet_linux.Submit.Stream.{pending}
use swnet_linux.Tcpio.Send.{wrote, tcp_txn, on_reply, tcp_tx, tcp_tx_front, tcp_established}
use swnet_linux.Buffer.{malloc, memcpy}
use swnet_linux.Tcp.{tcp_refr}
use swnet_linux.Tcp.Write.{
  tcp_write, write_link, write_in, write_packet, make_packet, packet_with, headed_packet,
}
use swnet_linux.Wpool.{Worker, wp_exec, wp_exec_link, wp_after, wp_add_task}
use swnet_linux.Flow.{Flow, Call, IsCall, call_write, write, task, Reach, here, later}
use swnet_linux.Flow.Integrity.{stream_integrity}
use swnet_linux.Tests.Samples.{alloc, bits, makeerror}
use swnet_linux.Tests.Writes.{
  headed_link, payload, packet, answers, headed_link-IsWritable, fresh-IsQueue, make_packet-payload,
}

abbrev pub begun : Flow
begun = record {
  worker = record {
    link = headed_link;
    pool = record { tasks = []; task_list_size = 0; actived = true; thread = true };
    sent = [];
    closed = [];
    replies = [];
  };
  accepted = [];
}

abbrev pub call : Call headed_link
call = record {
  link = pos 7;
  origin = payload;
  cb = 3;
  serializer = none;
  b = packet;
  ctl = none;
  replies = answers;
}

pub call-IsCall : IsCall makeerror bits alloc headed_link call
call-IsCall = record {
  writable = headed_link-IsWritable;
  packet = make_packet-payload;
  size = refl;
  honest = omega arith;
}

abbrev pub waiting_link : Ncb
waiting_link = record headed_link {
  fifo = record {
    blocking = 1;
    size = 1;
    nodes = record { bytes = packet.bytes; wcb = 5; offset = 2; target = no_target } ∷ [];
  };
  interest = some (registered (epollin + epollout));
}

pub call-queued :
    call_write makeerror bits alloc headed_link call
    ≡ done (pos 0, some waiting_link, 3 ∷ 0 ∷ [], [])
unfolding tcp_refr tcp_write write_link write_in write_packet make_packet packet_with headed_packet
    serialize malloc memcpy submit after_txn queue_node fifo_queue fifo_block fifo_added io_modify
    tcp_txn on_reply
call-queued = refl

abbrev pub queued : Flow
queued = record begun {
  worker = record begun.worker { link = waiting_link; sent = 3 ∷ 0 ∷ [] };
  accepted = packet.bytes;
}

abbrev pub rest_sent : Worker
rest_sent = record queued.worker {
  link = record waiting_link {
    fifo = record { blocking = 0; size = 0; nodes = [] };
    interest = some (registered epollin);
  };
  pool = record { tasks = 7 ∷ []; task_list_size = 1; actived = true; thread = true };
  sent = packet.bytes;
}

pub task-sends :
    wp_exec makeerror true
      (some (tcp_tx (some tcp_established)))
      none
      (record queued.worker { replies = wrote 3 ∷ [] })
      7
    ≡ done (pos 5, rest_sent)
unfolding wp_exec wp_exec_link tcp_tx tcp_tx_front tcp_txn on_reply wp_after fifo_pop fifo_pop_nodes
    fifo_removed io_modify wp_add_task
task-sends = refl

abbrev pub ended : Flow
ended = record queued { worker = rest_sent }

abbrev pub write_then_task : Reach makeerror bits alloc begun ended
write_then_task =
    later (later here (write call 0 waiting_link (3 ∷ 0 ∷ []) [] call-IsCall call-queued))
      (task 7 none (wrote 3 ∷ []) (pos 5) rest_sent (omega arith) task-sends)

stream_integrity_example : rest_sent.sent ++ pending rest_sent.link.fifo.nodes ≡ packet.bytes
stream_integrity_example =
    stream_integrity makeerror bits alloc fresh-IsQueue refl refl write_then_task

waiting_link-IsQueue : IsQueue waiting_link.fifo
waiting_link-IsQueue = record { counted = refl; bounded = omega arith; flagged = refl }
