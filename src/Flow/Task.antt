-- ===== src/Flow/Task.antt =====
-- One write task of a TCP link keeps the link's stream.
use swnet_linux.Base.{
  ℕ, zero, suc, ◌≡◌, refl, sym, ap, subst, length, ◌∙◌, ◌≤◌, List, [], ◌∷◌, ◌++◌, append-nil,
  Option, some, true, ◌⊎◌, inl, inr, arith,
}
use swnet_linux.Base.Int.{ℤ, pos}
use swnet_linux.Base.Run.{Run, waiting, done, ◌>>=◌}
use swnet_linux.Ncb.{Ncb, Node}
use swnet_linux.Fifo.{fifo_removed}
use swnet_linux.Fifo.Rest.{fifo_removed-IsLike}
use swnet_linux.Fifo.Invariant.{IsQueue, flag}
use swnet_linux.Submit.Stream.{pending, AreNodes}
use swnet_linux.Tcpio.Send.{SendReply, tcp_txn, tcp_tx, tcp_tx_front, tcp_established}
use swnet_linux.Tcpio.Send.Laws.{
  IsNode, IsError, AreHonest, Sends, waits, returns, bytes_between, tcp_txn-Sends,
}
use swnet_linux.Flow.Moved.{IsMoved, written-IsMoved, popped-IsMoved, removed-IsQueue}
use swnet_linux.Wpool.{Worker, wp_exec, wp_exec_link, wp_after, wp_add_task}
use swnet_linux.Wpool.Exec.{written, wp_after_sent, nodes-fifo_removed, tcp_tx_done, wp_exec_done}

-- The kernel takes at most what it is handed of the front node.
abbrev pub IsHonest : List Node → List SendReply → Type 0
IsHonest [] rs = Unit {0}
IsHonest (node ∷ nodes) rs = AreHonest node rs

module _ (makeerror : ℕ → ℤ) where
  pub tx_waits :
      (ncb : Ncb) (front : Node) (nodes : List Node) (replies : List SendReply)
      → ncb.fifo.nodes ≡ front ∷ nodes
      → tcp_txn front replies ≡ waiting
      → tcp_tx (some tcp_established) ncb replies ≡ waiting
  unfolding tcp_tx
  tx_waits ncb front nodes replies e t =
      ap (λ ns. tcp_tx_front ncb ns replies) e
      ∙ ap (λ s. s >>= (λ sent. done (sent.0, written makeerror ncb sent.1 nodes, sent.2, sent.3)))
          t

  pub exec_waits :
      (ctl : Option ℕ) (w : Worker) (task : ℕ)
      → tcp_tx (some tcp_established) w.link w.replies ≡ waiting
      → wp_exec makeerror true (some (tcp_tx (some tcp_established))) ctl w task ≡ waiting
  unfolding wp_exec wp_exec_link
  exec_waits ctl w task e = rw e refl

  -- What a task may do: it waits for the kernel, or it is done and has moved bytes of the queue.
  abbrev pub Moves : Worker → Run (ℤ × Worker) → Type 0
  Moves w out = (out ≡ waiting) ⊎ ((r : ℤ) × (w' : Worker) × (out ≡ done (r, w')) × IsMoved w w')

  abbrev pub after_front : Worker → Node → List Node → ℕ → List SendReply → Worker
  after_front w front nodes offset rest = record w {
    link = written makeerror w.link (record front { offset = offset }) nodes;
    sent = w.sent ++ bytes_between front front.offset offset;
    replies = rest;
  }

  -- The front node was sent whole.
  pub whole-IsMoved :
      (w : Worker) (front : Node) (nodes : List Node) (ctl : Option ℕ) (task n : ℕ)
      (rest : List SendReply)
      → IsQueue w.link.fifo
      → w.link.fifo.nodes ≡ front ∷ nodes
      → IsNode front
      → AreNodes nodes
      → n ≡ front.wcb
      → IsMoved w (wp_after makeerror ctl (after_front w front nodes front.wcb rest) task (pos n))
  unfolding wp_after
  whole-IsMoved w front nodes ctl task zero rest q e v ns z =
      written-IsMoved makeerror w front nodes front.wcb rest
        (after_front w front nodes front.wcb rest) q e v ns v.sent_part (omega arith) refl refl
  whole-IsMoved w front nodes ctl task (suc n) rest q e v ns z =
      let w1 = after_front w front nodes front.wcb rest in
      subst (IsMoved w)
        (sym
          (wp_after_sent makeerror w1 task n (record front { offset = front.wcb }) nodes ctl refl))
        (popped-IsMoved makeerror w front nodes ctl
          (record w1 {
            link = fifo_removed makeerror w1.link nodes ctl;
            pool = wp_add_task w.pool task;
          })
          q e ns
          (removed-IsQueue makeerror w1.link (record front { offset = front.wcb }) nodes ctl refl
            (record {
              counted = q.counted ∙ ap length e;
              bounded = q.bounded;
              flagged = q.flagged ∙ ap flag e;
            }))
          (nodes-fifo_removed makeerror w1.link nodes ctl) refl
          (fifo_removed-IsLike makeerror w1.link nodes ctl))

  -- The front node was sent in part, with an error.
  pub part-IsMoved :
      (w : Worker) (front : Node) (nodes : List Node) (ctl : Option ℕ) (task offset : ℕ) (r : ℤ)
      (rest : List SendReply)
      → IsQueue w.link.fifo
      → w.link.fifo.nodes ≡ front ∷ nodes
      → IsNode front
      → AreNodes nodes
      → front.offset ≤ offset
      → offset ≤ front.wcb
      → IsError r
      → IsMoved w (wp_after makeerror ctl (after_front w front nodes offset rest) task r)
  unfolding wp_after
  part-IsMoved w front nodes ctl task offset r rest q e v ns lo hi (inl fatal) =
      subst (λ k. IsMoved w (wp_after makeerror ctl (after_front w front nodes offset rest) task k))
        (sym fatal)
        (written-IsMoved makeerror w front nodes offset rest
          (record (after_front w front nodes offset rest) {
            closed = w.closed ++ (w.link.hld ∷ []);
          })
          q e v ns lo hi refl refl)
  part-IsMoved w front nodes ctl task offset r rest q e v ns lo hi (inr blocks) =
      subst (λ k. IsMoved w (wp_after makeerror ctl (after_front w front nodes offset rest) task k))
        (sym blocks)
        (written-IsMoved makeerror w front nodes offset rest (after_front w front nodes offset rest)
          q e v ns lo hi refl refl)

  front-Moves :
      (w : Worker) (task : ℕ) (ctl : Option ℕ) (front : Node) (nodes : List Node)
      → IsQueue w.link.fifo
      → w.link.fifo.nodes ≡ front ∷ nodes
      → IsNode front
      → AreNodes nodes
      → Sends front (tcp_txn front w.replies)
      → Moves w (wp_exec makeerror true (some (tcp_tx (some tcp_established))) ctl w task)
  front-Moves w task ctl front nodes q e v ns (waits o) =
      inl (exec_waits ctl w task (tx_waits w.link front nodes w.replies e o))
  front-Moves w task ctl front nodes q e v ns (returns r offset rest o lo hi end) =
      let w1 = after_front w front nodes offset rest in
      inr (
        r,
        wp_after makeerror ctl w1 task r,
        wp_exec_done makeerror (tcp_tx (some tcp_established)) ctl w task r w1.link
            (bytes_between front front.offset offset) rest
            (tcp_tx_done makeerror w.link front (record front { offset = offset }) nodes w.replies
              rest r (bytes_between front front.offset offset) e o),
        elim end [
          | inl (whole, all) ↦
              subst (λ k. IsMoved w (wp_after makeerror ctl w1 task k)) (sym whole)
                (subst
                  (λ k. IsMoved w (
                    wp_after makeerror ctl (after_front w front nodes k rest) task (pos front.wcb)))
                  (sym all) (whole-IsMoved w front nodes ctl task front.wcb rest q e v ns refl))
          | inr bad ↦ part-IsMoved w front nodes ctl task offset r rest q e v ns lo hi bad.0
        ],
      )

  queue-Moves :
      (w : Worker) (task : ℕ) (ctl : Option ℕ) (nodes : List Node)
      → IsQueue w.link.fifo
      → w.link.fifo.nodes ≡ nodes
      → AreNodes nodes
      → IsHonest nodes w.replies
      → Moves w (wp_exec makeerror true (some (tcp_tx (some tcp_established))) ctl w task)
  unfolding tcp_tx wp_after
  queue-Moves w task ctl [] q e ns h = inr (
    pos 0,
    record w { sent = w.sent ++ [] },
    wp_exec_done makeerror (tcp_tx (some tcp_established)) ctl w task (pos 0) w.link [] w.replies
        (ap (λ ns. tcp_tx_front w.link ns w.replies) e),
    record {
      queue = q;
      nodes = subst AreNodes (sym e) ns;
      stream = ap (λ l. l ++ pending w.link.fifo.nodes) (append-nil w.sent);
      like = (refl, refl);
    },
  )
  queue-Moves w task ctl (front ∷ nodes) q e (v, ns) h =
      front-Moves w task ctl front nodes q e v ns (tcp_txn-Sends front w.replies v h)

  -- A write task of an established TCP link, with a kernel that takes at most what it is handed: it
  -- waits for the kernel, or it ends with its queue still a queue, and the bytes on the wire
  -- followed by those that wait are what they were. This holds on every branch: the queue empty,
  -- the front node sent whole, in part, or not at all, and the link closed.
  pub tcp_exec-Moves :
      (w : Worker) (task : ℕ) (ctl : Option ℕ)
      → IsQueue w.link.fifo
      → AreNodes w.link.fifo.nodes
      → IsHonest w.link.fifo.nodes w.replies
      → Moves w (wp_exec makeerror true (some (tcp_tx (some tcp_established))) ctl w task)
  tcp_exec-Moves w task ctl q ns h = queue-Moves w task ctl w.link.fifo.nodes q refl ns h
