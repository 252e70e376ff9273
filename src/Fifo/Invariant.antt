-- ===== src/Fifo/Invariant.antt =====
-- The counters of a send queue agree with its nodes.
use swnet_linux.Base.{
  ℕ, ◌≤◌, ◌<◌, ◌≡◌, refl, List, [], ◌∷◌, ◌++◌, Option, none, some, true, length, length-append,
  arith,
}
use swnet_linux.Base.Int.{ℤ, is_neg}
use swnet_linux.Ncb.{Ncb, Node, Fifo}
use swnet_linux.Io.{io_modify}
use swnet_linux.Fifo.{
  maximum_fifo_size, fifo_init, fifo_queue, fifo_pop, fifo_pop_nodes, fifo_removed,
}

-- The blocking flag that belongs to a queue with these nodes.
abbrev pub flag : List Node → ℕ
flag [] = 0
flag (n ∷ ns) = 1

pub record IsQueue (f : Fifo) : Type 0 where
  pub counted : f.size ≡ length f.nodes
  pub bounded : f.size ≤ maximum_fifo_size
  pub flagged : f.blocking ≡ flag f.nodes

pub flag-append : (ns : List Node) (n : Node) → flag (ns ++ (n ∷ [])) ≡ 1
flag-append [] n = refl
flag-append (m ∷ ns) n = refl

flag_pos : (ns : List Node) → 0 < length ns → flag ns ≡ 1
flag_pos [] h = absurd (omega arith)
flag_pos (n ∷ ns) h = refl

flag_le : (ns : List Node) → flag ns ≤ 1
flag_le [] = omega arith
flag_le (n ∷ ns) = omega arith

module _ (makeerror : ℕ → ℤ) where
  -- A new queue meets the invariant.
  pub fifo_init-IsQueue : (ncb : Ncb) → IsQueue (fifo_init ncb).fifo
  unfolding fifo_init
  fifo_init-IsQueue ncb = record { counted = refl; bounded = omega arith; flagged = refl }

  -- fifo_queue keeps the invariant, whatever epoll_ctl(2) answers and whichever branch it takes:
  -- the size is the number of nodes and at most the maximum, and the flag is set just where a node
  -- waits.
  pub fifo_queue-IsQueue :
      (ncb : Ncb) (node : Option Node) (ctl : Option ℕ)
      → IsQueue ncb.fifo
      → IsQueue (fifo_queue makeerror ncb node ctl).1.fifo
  unfolding fifo_queue io_modify
  fifo_queue-IsQueue ncb none ctl v = v
  fifo_queue-IsQueue ncb (some node) none v = ground (
    arith,
    length-append ncb.fifo.nodes (node ∷ []),
    flag-append ncb.fifo.nodes node,
    flag_le ncb.fifo.nodes,
  )
  fifo_queue-IsQueue ncb (some node) (some e) v = ground (
    arith,
    length-append ncb.fifo.nodes (node ∷ []),
    flag-append ncb.fifo.nodes node,
    flag_le ncb.fifo.nodes,
  )

  pop_nodes-IsQueue :
      (ncb : Ncb) (nodes : List Node) (ctl : Option ℕ)
      → ncb.fifo.nodes ≡ nodes
      → IsQueue ncb.fifo
      → IsQueue (fifo_pop_nodes makeerror ncb nodes ctl).2.fifo
  unfolding fifo_pop_nodes fifo_removed io_modify
  pop_nodes-IsQueue ncb [] ctl e v = v
  pop_nodes-IsQueue ncb (n ∷ []) none e v = ground arith
  pop_nodes-IsQueue ncb (n ∷ []) (some c) e v = ground arith
  pop_nodes-IsQueue ncb (n ∷ m ∷ ns) ctl e v = ground arith

  -- fifo_pop keeps the invariant, whatever epoll_ctl(2) answers.
  pub fifo_pop-IsQueue :
      (ncb : Ncb) (ctl : Option ℕ) → IsQueue ncb.fifo → IsQueue (fifo_pop makeerror ncb ctl).2.fifo
  unfolding fifo_pop
  fifo_pop-IsQueue ncb ctl v = pop_nodes-IsQueue ncb ncb.fifo.nodes ctl refl v

  -- A queueing that reports an error leaves the link as it was: no node is lost in the queue, and
  -- neither a counter nor the registration moves.
  pub fifo_queue_rejected :
      (ncb : Ncb) (node : Option Node) (ctl : Option ℕ)
      → is_neg (fifo_queue makeerror ncb node ctl).0 ≡ true
      → (fifo_queue makeerror ncb node ctl).1 ≡ ncb
  unfolding fifo_queue io_modify
  fifo_queue_rejected ncb none ctl h = refl
  fifo_queue_rejected ncb (some node) none h = ground arith
  fifo_queue_rejected ncb (some node) (some e) h = ground arith
