-- ===== src/Wpool/Exec.antt =====
-- One write task: what it sends, and what it takes out of the link's queue.
use swnet_linux.Base.{
  true, ℕ, suc, ◌≡◌, refl, ap, ◌∙◌, List, [], ◌∷◌, ◌++◌, Option, none, some, arith, eagain,
}
use swnet_linux.Base.Int.{ℤ, pos, neg}
use swnet_linux.Base.Run.{done, ◌>>=◌}
use swnet_linux.Ncb.{Ncb, Node}
use swnet_linux.Io.{io_modify}
use swnet_linux.Fifo.{fifo_pop, fifo_pop_nodes, fifo_removed}
use swnet_linux.Tcpio.Send.{SendReply, tcp_txn, tcp_tx, tcp_tx_front, tcp_established}
use swnet_linux.Udpio.{udp_tx, udp_tx_front, udp_txn}
use swnet_linux.Wpool.{Worker, Write, wp_add_task, wp_exec, wp_exec_link, wp_after}

module _ (makeerror : ℕ → ℤ) where
  pub nodes-fifo_removed :
      (ncb : Ncb) (rest : List Node) (ctl : Option ℕ)
      → (fifo_removed makeerror ncb rest ctl).fifo.nodes ≡ rest
  unfolding fifo_removed io_modify
  nodes-fifo_removed ncb rest none = ground arith
  nodes-fifo_removed ncb rest (some e) = ground arith

  -- The link with its front node written.
  abbrev pub written : Ncb → Node → List Node → Ncb
  written ncb front' nodes = record ncb { fifo = record ncb.fifo { nodes = front' ∷ nodes } }

  pub fifo_pop-cons :
      (ncb : Ncb) (front : Node) (rest : List Node) (ctl : Option ℕ)
      → ncb.fifo.nodes ≡ front ∷ rest
      → fifo_pop makeerror ncb ctl ≡ (pos 1, some front, fifo_removed makeerror ncb rest ctl)
  unfolding fifo_pop fifo_pop_nodes
  fifo_pop-cons ncb front rest ctl e = ap (λ ns. fifo_pop_nodes makeerror ncb ns ctl) e

  -- A positive return code takes the front node out, and the task is added again.
  pub wp_after_sent :
      (w : Worker) (task n : ℕ) (front : Node) (rest : List Node) (ctl : Option ℕ)
      → w.link.fifo.nodes ≡ front ∷ rest
      → wp_after makeerror ctl w task (pos (suc n))
        ≡ record w { link = fifo_removed makeerror w.link rest ctl; pool = wp_add_task w.pool task }
  unfolding wp_after
  wp_after_sent w task n front rest ctl e = rw (fifo_pop-cons w.link front rest ctl e) refl

  pub wp_exec_done :
      (write : Write) (ctl : Option ℕ) (w : Worker) (task : ℕ) (r : ℤ) (link : Ncb) (bytes : List ℕ)
      (rest : List SendReply)
      → write w.link w.replies ≡ done (r, link, bytes, rest)
      → wp_exec makeerror true (some write) ctl w task
        ≡ done (
          r,
          wp_after makeerror ctl
              (record w { link = link; sent = w.sent ++ bytes; replies = rest })
              task
              r,
        )
  unfolding wp_exec wp_exec_link
  wp_exec_done write ctl w task r link bytes rest e = rw e refl

  pub tcp_tx_done :
      (ncb : Ncb) (front front' : Node) (nodes : List Node) (replies rest : List SendReply) (r : ℤ)
      (bytes : List ℕ)
      → ncb.fifo.nodes ≡ front ∷ nodes
      → tcp_txn front replies ≡ done (r, front', bytes, rest)
      → tcp_tx (some tcp_established) ncb replies ≡ done (r, written ncb front' nodes, bytes, rest)
  unfolding tcp_tx
  tcp_tx_done ncb front front' nodes replies rest r bytes e t =
      ap (λ ns. tcp_tx_front ncb ns replies) e
      ∙ ap (λ s. s >>= (λ sent. done (sent.0, written ncb sent.1 nodes, sent.2, sent.3))) t

  udp_tx_sent :
      (ncb : Ncb) (front front' : Node) (nodes : List Node) (replies rest : List SendReply) (n : ℕ)
      (bytes : List ℕ) (ctl : Option ℕ)
      → ncb.fifo.nodes ≡ front ∷ nodes
      → udp_txn front replies ≡ done (pos (suc n), front', bytes, rest)
      → udp_tx makeerror ctl ncb replies
        ≡ done
            (pos (suc n), fifo_removed makeerror (written ncb front' nodes) nodes ctl, bytes, rest)
  unfolding udp_tx
  udp_tx_sent ncb front front' nodes replies rest n bytes ctl e t =
      ap (λ ns. udp_tx_front makeerror ncb ns ctl replies) e
      ∙ rw t (rw (fifo_pop-cons (written ncb front' nodes) front' nodes ctl refl) refl)

  -- Where the front node of a TCP link is sent whole, its task takes exactly that node out of the
  -- queue, and goes back to the end of the pool's tasks.
  pub tcp_exec_sent :
      (w : Worker) (task n : ℕ) (front front' : Node) (nodes : List Node) (bytes : List ℕ)
      (rest : List SendReply) (ctl : Option ℕ)
      → w.link.fifo.nodes ≡ front ∷ nodes
      → tcp_txn front w.replies ≡ done (pos (suc n), front', bytes, rest)
      → (w' : Worker) × (wp_exec makeerror true (some (tcp_tx (some tcp_established))) ctl w task
          ≡ done (pos (suc n), w'))
        × (w'.link.fifo.nodes ≡ nodes)
        × (w'.sent ≡ w.sent ++ bytes)
        × (w'.replies ≡ rest)
        × (w'.pool.tasks ≡ w.pool.tasks ++ (task ∷ []))
  unfolding wp_add_task
  tcp_exec_sent w task n front front' nodes bytes rest ctl e t =
      let link = fifo_removed makeerror (written w.link front' nodes) nodes ctl in
      (
        record w {
          pool = wp_add_task w.pool task;
          link = link;
          sent = w.sent ++ bytes;
          replies = rest;
        },
        wp_exec_done (tcp_tx (some tcp_established)) ctl w task (pos (suc n))
              (written w.link front' nodes) bytes rest
              (tcp_tx_done w.link front front' nodes w.replies rest (pos (suc n)) bytes e t)
            ∙ ap (λ k. done (pos (suc n), k))
                (wp_after_sent
                  (record w {
                    link = written w.link front' nodes;
                    sent = w.sent ++ bytes;
                    replies = rest;
                  })
                  task n front' nodes ctl refl),
        nodes-fifo_removed (written w.link front' nodes) nodes ctl,
        refl,
        refl,
        refl,
      )

  -- Where the front node of a TCP link cannot be sent now, its task is done: no node is taken out,
  -- the front one keeps its place with what is left of it, and no link is closed.
  pub tcp_exec_blocked :
      (w : Worker) (task : ℕ) (front front' : Node) (nodes : List Node) (bytes : List ℕ)
      (rest : List SendReply) (ctl : Option ℕ)
      → w.link.fifo.nodes ≡ front ∷ nodes
      → tcp_txn front w.replies ≡ done (neg eagain, front', bytes, rest)
      → wp_exec makeerror true (some (tcp_tx (some tcp_established))) ctl w task
        ≡ done (
          neg eagain,
          record w { link = written w.link front' nodes; sent = w.sent ++ bytes; replies = rest },
        )
  unfolding wp_after
  tcp_exec_blocked w task front front' nodes bytes rest ctl e t =
      wp_exec_done (tcp_tx (some tcp_established)) ctl w task (neg eagain)
        (written w.link front' nodes) bytes rest
        (tcp_tx_done w.link front front' nodes w.replies rest (neg eagain) bytes e t)

  -- Where the front node of a UDP link is sent whole, its task takes two nodes out of the queue:
  -- udp_tx pops the one that it sent, and __wp_exec pops the next, which is never sent.
  pub udp_exec_drops :
      (w : Worker) (task n : ℕ) (front front' next : Node) (nodes : List Node) (bytes : List ℕ)
      (rest : List SendReply) (ctl : Option ℕ)
      → w.link.fifo.nodes ≡ front ∷ next ∷ nodes
      → udp_txn front w.replies ≡ done (pos (suc n), front', bytes, rest)
      → (w' : Worker) × (wp_exec makeerror true (some (udp_tx makeerror ctl)) ctl w task
          ≡ done (pos (suc n), w'))
        × (w'.link.fifo.nodes ≡ nodes)
        × (w'.sent ≡ w.sent ++ bytes)
        × (w'.replies ≡ rest)
  udp_exec_drops w task n front front' next nodes bytes rest ctl e t =
      let link = fifo_removed makeerror (written w.link front' (next ∷ nodes)) (next ∷ nodes) ctl in
      let gone : link.fifo.nodes ≡ next ∷ nodes =
        nodes-fifo_removed (written w.link front' (next ∷ nodes)) (next ∷ nodes) ctl in
      let link' = fifo_removed makeerror link nodes ctl in
      (
        record w {
          pool = wp_add_task w.pool task;
          link = link';
          sent = w.sent ++ bytes;
          replies = rest;
        },
        wp_exec_done (udp_tx makeerror ctl) ctl w task (pos (suc n)) link bytes rest
              (udp_tx_sent w.link front front' (next ∷ nodes) w.replies rest n bytes ctl e t)
            ∙ ap (λ k. done (pos (suc n), k))
                (wp_after_sent (record w { link = link; sent = w.sent ++ bytes; replies = rest })
                  task n next nodes ctl gone),
        nodes-fifo_removed link nodes ctl,
        refl,
        refl,
      )
