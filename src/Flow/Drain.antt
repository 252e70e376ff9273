-- ===== src/Flow/Drain.antt =====
-- The pool's thread and one link: it sends the link's queue until it is empty, or until the kernel
-- takes no more.
pub mod Rounds
pub mod Loop
use swnet_linux.Base.{
  ℕ, zero, suc, ◌+◌, ◌-◌, ◌≤◌, ◌<◌, ◌≡◌, refl, sym, ap, ◌∙◌, subst, List, [], ◌∷◌, ◌++◌, Option,
  none, some, Bool, true, false, inl, inr, length, append-nil, eagain, if◌then◌else◌, arith,
}
use swnet_linux.Base.Int.{ℤ, pos, neg, is_nonpos}
use swnet_linux.Base.Run.{Run, waiting, done}
use swnet_linux.Ncb.{Ncb, Node}
use swnet_linux.Fifo.{fifo_removed}
use swnet_linux.Fifo.Invariant.{IsQueue}
use swnet_linux.Submit.Stream.{AreNodes}
use swnet_linux.Tcpio.Send.{SendReply, send_failed, tcp_txn, tcp_tx, tcp_tx_front, tcp_established}
use swnet_linux.Tcpio.Send.Laws.{IsNode, IsError, bytes_between}
use swnet_linux.Wpool.{Wpool, Worker, Write, wp_get_task, wp_add_task, wp_exec, wp_after, wp_run}
use swnet_linux.Wpool.Exec.{wp_exec_done, tcp_tx_done, wp_after_sent, written, nodes-fifo_removed}
use swnet_linux.Flow.Moved.{IsMoved}
use swnet_linux.Flow.Task.{after_front, whole-IsMoved, part-IsMoved, exec_waits, tx_waits}
use swnet_linux.Flow.Answers.{AreTaken, SendsFront, waits, whole, blocks, fails}

-- Every node has bytes to send.
abbrev pub AreOpen : List Node → Type 0
AreOpen [] = Unit {0}
AreOpen (node ∷ nodes) = IsNode node × (node.offset < node.wcb) × AreOpen nodes

pub AreOpen-nodes : (ns : List Node) → AreOpen ns → AreNodes ns
AreOpen-nodes [] o = _
AreOpen-nodes (n ∷ ns) (v, h, o) = (v, AreOpen-nodes ns o)

abbrev pub established : Option Write
established = some (tcp_tx (some tcp_established))

module _ (makeerror : ℕ → ℤ) where
  -- What a task whose link has a front node may come to.
  pub data Round (w : Worker) (task : ℕ) (nodes : List Node) (out : Run (ℤ × Worker)) : Type 0 where
    pauses : out ≡ waiting → Round w task nodes out
    sent :
        (n : ℕ) (w' : Worker)
        → out ≡ done (pos (suc n), w')
        → IsMoved w w'
        → w'.link.fifo.nodes ≡ nodes
        → AreTaken nodes w'.replies
        → (used : List SendReply) × (w.replies ≡ used ++ w'.replies)
        → w'.pool.tasks ≡ w.pool.tasks ++ (task ∷ [])
        → w'.closed ≡ w.closed
        → Round w task nodes out
    blocked :
        (w' : Worker) (front' : Node)
        → out ≡ done (neg eagain, w')
        → IsMoved w w'
        → w'.link.fifo.nodes ≡ front' ∷ nodes
        → (used : List SendReply) × (w.replies ≡ used ++ (send_failed eagain ∷ w'.replies))
        → w'.pool.tasks ≡ w.pool.tasks
        → w'.closed ≡ w.closed
        → Round w task nodes out
    broken :
        (w' : Worker)
        → out ≡ done (neg 1, w')
        → IsMoved w w'
        → w'.pool.tasks ≡ w.pool.tasks
        → w'.closed ≡ w.closed ++ (w.link.hld ∷ [])
        → Round w task nodes out

  round-done :
      (w : Worker) (task : ℕ) (ctl : Option ℕ) (front : Node) (nodes : List Node) (r : ℤ)
      (offset : ℕ) (rest : List SendReply)
      → w.link.fifo.nodes ≡ front ∷ nodes
      → tcp_txn front w.replies
        ≡ done (r, record front { offset = offset }, bytes_between front front.offset offset, rest)
      → wp_exec makeerror true established ctl w task
        ≡ done (r, wp_after makeerror ctl (after_front makeerror w front nodes offset rest) task r)
  round-done w task ctl front nodes r offset rest e o =
      wp_exec_done makeerror (tcp_tx (some tcp_established)) ctl w task r
        (after_front makeerror w front nodes offset rest).link
        (bytes_between front front.offset offset) rest
        (tcp_tx_done makeerror w.link front (record front { offset = offset }) nodes w.replies rest
          r (bytes_between front front.offset offset) e o)

  round-whole :
      (w : Worker) (task : ℕ) (ctl : Option ℕ) (front : Node) (nodes : List Node) (n : ℕ)
      (used rest : List SendReply) (out : Run (ℤ × Worker))
      → w.replies ≡ used ++ rest
      → IsQueue w.link.fifo
      → w.link.fifo.nodes ≡ front ∷ nodes
      → IsNode front
      → AreNodes nodes
      → n ≡ front.wcb
      → 0 < n
      → out
        ≡ done (
          pos n,
          wp_after makeerror ctl (after_front makeerror w front nodes front.wcb rest) task (pos n),
        )
      → AreTaken nodes rest
      → Round w task nodes out
  unfolding wp_add_task
  round-whole w task ctl front nodes zero used rest out u q e v ns s h o t = absurd (omega arith)
  round-whole w task ctl front nodes (suc n) used rest out u q e v ns s h o t =
      let w1 = after_front makeerror w front nodes front.wcb rest in
      let is =
        wp_after_sent makeerror w1 task n (record front { offset = front.wcb }) nodes ctl refl in
      sent n
        (record w1 {
          link = fifo_removed makeerror w1.link nodes ctl;
          pool = wp_add_task w.pool task;
        })
        (o ∙ ap (λ k. done (pos (suc n), k)) is)
        (subst (IsMoved w) is
          (whole-IsMoved makeerror w front nodes ctl task (suc n) rest q e v ns s))
        (nodes-fifo_removed makeerror w1.link nodes ctl) t (used, u) refl refl

  round-blocks :
      (w : Worker) (task : ℕ) (ctl : Option ℕ) (front : Node) (nodes : List Node) (offset : ℕ)
      (used rest : List SendReply) (out : Run (ℤ × Worker))
      → w.replies ≡ used ++ (send_failed eagain ∷ rest)
      → IsQueue w.link.fifo
      → w.link.fifo.nodes ≡ front ∷ nodes
      → IsNode front
      → AreNodes nodes
      → front.offset ≤ offset
      → offset ≤ front.wcb
      → out
        ≡ done (
          neg eagain,
          wp_after makeerror ctl
              (after_front makeerror w front nodes offset rest)
              task
              (neg eagain),
        )
      → Round w task nodes out
  unfolding wp_after
  round-blocks w task ctl front nodes offset used rest out u q e v ns lo hi o =
      blocked
        (wp_after makeerror ctl (after_front makeerror w front nodes offset rest) task (neg eagain))
        (record front { offset = offset }) o
        (part-IsMoved makeerror w front nodes ctl task offset (neg eagain) rest q e v ns lo hi
          (inr refl))
        refl (used, u) refl refl

  round-fails :
      (w : Worker) (task : ℕ) (ctl : Option ℕ) (front : Node) (nodes : List Node) (offset : ℕ)
      (rest : List SendReply) (out : Run (ℤ × Worker))
      → IsQueue w.link.fifo
      → w.link.fifo.nodes ≡ front ∷ nodes
      → IsNode front
      → AreNodes nodes
      → front.offset ≤ offset
      → offset ≤ front.wcb
      → out
        ≡ done (
          neg 1,
          wp_after makeerror ctl (after_front makeerror w front nodes offset rest) task (neg 1),
        )
      → Round w task nodes out
  unfolding wp_after
  round-fails w task ctl front nodes offset rest out q e v ns lo hi o =
      broken (wp_after makeerror ctl (after_front makeerror w front nodes offset rest) task (neg 1))
        o
        (part-IsMoved makeerror w front nodes ctl task offset (neg 1) rest q e v ns lo hi
          (inl refl))
        refl refl

  pub front-Round :
      (w : Worker) (task : ℕ) (ctl : Option ℕ) (front : Node) (nodes : List Node)
      → IsQueue w.link.fifo
      → w.link.fifo.nodes ≡ front ∷ nodes
      → AreOpen (front ∷ nodes)
      → SendsFront front nodes w.replies (tcp_txn front w.replies)
      → Round w task nodes (wp_exec makeerror true established ctl w task)
  front-Round w task ctl front nodes q e (v, h, ns) (waits o) =
      pauses (exec_waits makeerror ctl w task (tx_waits makeerror w.link front nodes w.replies e o))
  front-Round w task ctl front nodes q e (v, h, ns) (whole used rest u o t) =
      round-whole w task ctl front nodes front.wcb used rest
        (wp_exec makeerror true established ctl w task) u q e v (AreOpen-nodes nodes ns) refl
        (omega arith) (round-done w task ctl front nodes (pos front.wcb) front.wcb rest e o) t
  front-Round w task ctl front nodes q e (v, h, ns) (blocks offset used rest u o lo hi) =
      round-blocks w task ctl front nodes offset used rest
        (wp_exec makeerror true established ctl w task) u q e v (AreOpen-nodes nodes ns) lo hi
        (round-done w task ctl front nodes (neg eagain) offset rest e o)
  front-Round w task ctl front nodes q e (v, h, ns) (fails offset rest o lo hi) =
      round-fails w task ctl front nodes offset rest (wp_exec makeerror true established ctl w task)
        q e v (AreOpen-nodes nodes ns) lo hi
        (round-done w task ctl front nodes (neg 1) offset rest e o)
