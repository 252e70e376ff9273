-- ===== src/Fifo/Refine.antt =====
-- The send queue of a link behaves as a bounded queue of nodes.
use swnet_linux.Base.{ℕ, ◌≡◌, refl, List, [], ◌∷◌, none, some, arith}
use swnet_linux.Base.Int.{ℤ}
use swnet_linux.Ncb.{Ncb, Node}
use swnet_linux.Io.{io_modify}
use swnet_linux.Fifo.{
  fifo_queue, fifo_top, fifo_pop, fifo_pop_nodes, fifo_is_blocking, fifo_removed,
}
use swnet_linux.Fifo.Spec
use swnet_linux.Fifo.Spec.{Op, queue, top, pop, is_blocking, Reply}
use swnet_linux.Fifo.Invariant.{IsQueue, fifo_queue-IsQueue, fifo_pop-IsQueue}

module _ (makeerror : ℕ → ℤ) where
  -- A call on a link, where epoll_ctl(2) succeeds.
  pub apply : Ncb → Op → Reply × Ncb
  apply ncb (queue n) = let (r, ncb') = fifo_queue makeerror ncb (some n) none in ((r, none), ncb')
  apply ncb top = (fifo_top ncb, ncb)
  apply ncb pop = let (r, n, ncb') = fifo_pop makeerror ncb none in ((r, n), ncb')
  apply ncb is_blocking = ((fifo_is_blocking ncb, none), ncb)

  pub run : Ncb → List Op → List Reply
  run ncb [] = []
  run ncb (op ∷ ops) = let (r, ncb') = apply ncb op in r ∷ run ncb' ops

  apply-IsQueue : (ncb : Ncb) (op : Op) → IsQueue ncb.fifo → IsQueue (apply ncb op).1.fifo
  unfolding apply
  apply-IsQueue ncb (queue n) v = fifo_queue-IsQueue makeerror ncb (some n) none v
  apply-IsQueue ncb top v = v
  apply-IsQueue ncb pop v = fifo_pop-IsQueue makeerror ncb none v
  apply-IsQueue ncb is_blocking v = v

  queue_refines :
      (ncb : Ncb) (n : Node)
      → IsQueue ncb.fifo
      → let (r, ncb') = fifo_queue makeerror ncb (some n) none in
        ((r, none), ncb'.fifo.nodes) ≡ Spec.apply ncb.fifo.nodes (queue n)
  unfolding fifo_queue io_modify Spec.apply
  queue_refines ncb n v = ground arith

  rest_refines :
      (ncb : Ncb) (nodes : List Node) (op : Op)
      → ncb.fifo.nodes ≡ nodes
      → IsQueue ncb.fifo
      → let (r, ncb') = apply ncb op in (r, ncb'.fifo.nodes) ≡ Spec.apply nodes op
  unfolding apply fifo_top fifo_pop fifo_pop_nodes fifo_removed fifo_is_blocking io_modify
      Spec.apply
  rest_refines ncb nodes (queue n) e v = rw (← e) (queue_refines ncb n v)
  rest_refines ncb [] top e v = ground arith
  rest_refines ncb (m ∷ ms) top e v = ground arith
  rest_refines ncb [] pop e v = ground arith
  rest_refines ncb (m ∷ ms) pop e v = ground arith
  rest_refines ncb [] is_blocking e v = ground arith
  rest_refines ncb (m ∷ ms) is_blocking e v = ground arith

  -- While epoll_ctl(2) succeeds, no sequence of calls tells the send queue of a link from a queue
  -- of at most 100 nodes, first in first out: the same return codes, the same nodes in the same
  -- order.
  pub run_refines :
      (ncb : Ncb) (ops : List Op) → IsQueue ncb.fifo → run ncb ops ≡ Spec.run ncb.fifo.nodes ops
  unfolding run Spec.run
  run_refines ncb [] v = refl
  run_refines ncb (op ∷ ops) v =
      rw
        (
          run_refines (apply ncb op).1 ops (apply-IsQueue ncb op v),
          ← rest_refines ncb ncb.fifo.nodes op refl v,
        )
        refl
