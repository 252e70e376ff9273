-- ===== src/Tests/Drain.antt =====
-- The pool's thread and a link with two nodes: the first is sent whole, the second in part.
use swnet_linux.Base.{refl, [], ◌∷◌, none, true, eagain, arith}
use swnet_linux.Ncb.{Ncb}
use swnet_linux.Fifo.Invariant.{IsQueue}
use swnet_linux.Tcpio.Send.{wrote, send_failed}
use swnet_linux.Wpool.{Worker}
use swnet_linux.Flow.Drain.Loop.{Settles, wp_run-Settles}
use swnet_linux.Tests.Samples.{parser, link, node, other, makeerror}

abbrev full : Ncb
full = link parser [] (record { blocking = 1; size = 2; nodes = node ∷ other ∷ [] })

abbrev full_worker : Worker
full_worker = record {
  link = full;
  pool = record { tasks = 7 ∷ []; task_list_size = 1; actived = true; thread = true };
  sent = 1 ∷ [];
  closed = [];
  replies = wrote 2 ∷ wrote 1 ∷ send_failed eagain ∷ [];
}

full-IsQueue : IsQueue full.fifo
full-IsQueue = record { counted = refl; bounded = omega arith; flagged = refl }

wp_run-Settles_example : Settles makeerror (λ hld. true) none full_worker 0 4
wp_run-Settles_example =
    wp_run-Settles makeerror (λ hld. true) none (node ∷ other ∷ []) full_worker 0 7 full-IsQueue
      refl
      (
        record { sent_part = omega arith; inside = omega arith },
        omega arith,
        (record { sent_part = omega arith; inside = omega arith }, omega arith, _),
      )
      (omega arith) refl refl
