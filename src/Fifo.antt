-- ===== src/Fifo.antt =====
-- fifo.c: the queue of nodes that wait to be sent on a link. The mutex makes each call one step.
-- Where a call reaches epoll_ctl(2) its answer is the last argument (see Io).
pub mod Invariant
pub mod Watch
pub mod Spec
pub mod Refine
pub mod Rest
pub mod Calls
use swnet_linux.Base.{
  ℕ, zero, suc, ◌+◌, ◌-◌, List, [], ◌∷◌, ◌++◌, Option, none, some, Bool, ◌==◌, ◌&&◌, leb,
  if◌then◌else◌, ebusy, einval,
}
use swnet_linux.Base.Int.{ℤ, pos, neg, is_neg}
use swnet_linux.Ncb.{Ncb, Node, Fifo}
use swnet_linux.Io.{io_modify, epollin, epollout}

abbrev pub maximum_fifo_size : ℕ
maximum_fifo_size = 100

unfoldable pub fifo_init : Ncb → Ncb
fifo_init ncb = record ncb { fifo = record { blocking = 0; size = 0; nodes = [] } }

-- Every node is freed; the counters are left as they are.
unfoldable pub fifo_uninit : Ncb → Ncb
fifo_uninit ncb = record ncb { fifo = record ncb.fifo { nodes = [] } }

-- The node stays in the queue.
unfoldable pub fifo_top : Ncb → ℤ × Option Node
fifo_top ncb = elim ncb.fifo.nodes [ [] ↦ (neg 1, none) | front ∷ rest ↦ (pos 0, some front) ]

module _ (makeerror : ℕ → ℤ) where
  -- `++size`, with the node at the tail
  unfoldable pub fifo_added : Ncb → Node → ℕ → ℤ × Ncb
  fifo_added ncb node blocking = (
    pos (ncb.fifo.size + 1),
    record ncb {
      fifo = record {
        blocking = blocking;
        size = ncb.fifo.size + 1;
        nodes = ncb.fifo.nodes ++ (node ∷ []);
      };
    },
  )

  -- The first node makes the IO blocking; if that fails the node is taken out again.
  unfoldable pub fifo_block : Ncb → Node → ℤ × Ncb → ℤ × Ncb
  fifo_block ncb node (n, ncb') = if is_neg n then (n, ncb') else fifo_added ncb' node 1

  unfoldable pub fifo_queue : Ncb → Option Node → Option ℕ → ℤ × Ncb
  unfolding fifo_added fifo_block
  fifo_queue ncb none ctl = (neg einval, ncb)
  fifo_queue ncb (some node) ctl =
      if leb maximum_fifo_size ncb.fifo.size
      then (neg ebusy, ncb)
      else if ncb.fifo.blocking == 0
      then fifo_block ncb node (io_modify makeerror ncb (epollin + epollout) ctl)
      else fifo_added ncb node ncb.fifo.blocking

  -- The last node out makes the IO unblocked.
  unfoldable pub fifo_removed : Ncb → List Node → Option ℕ → Ncb
  fifo_removed ncb rest ctl =
      let remain = ncb.fifo.size - 1 in
      if (remain == 0) && (ncb.fifo.blocking == 1)
      then (io_modify makeerror
          (record ncb { fifo = record { blocking = 0; size = remain; nodes = rest } }) epollin
          ctl).1
      else record ncb {
        fifo = record { blocking = ncb.fifo.blocking; size = remain; nodes = rest };
      }

  -- Returns the node too; a caller that passes no place for it has it freed.
  unfoldable pub fifo_pop_nodes : Ncb → List Node → Option ℕ → ℤ × Option Node × Ncb
  fifo_pop_nodes ncb [] ctl = (pos 0, none, ncb)
  fifo_pop_nodes ncb (front ∷ rest) ctl = (pos 1, some front, fifo_removed ncb rest ctl)

  unfoldable pub fifo_pop : Ncb → Option ℕ → ℤ × Option Node × Ncb
  unfolding fifo_pop_nodes
  fifo_pop ncb ctl = fifo_pop_nodes ncb ncb.fifo.nodes ctl

unfoldable pub fifo_is_blocking : Ncb → ℤ
fifo_is_blocking ncb = pos ncb.fifo.blocking
