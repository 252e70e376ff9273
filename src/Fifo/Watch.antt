-- ===== src/Fifo/Watch.antt =====
-- The send queue and the link's registration for writability go together.
use swnet_linux.Base.{ℕ, ◌+◌, ◌≡◌, List, [], ◌∷◌, Option, none, some, ◌==◌, if◌then◌else◌, arith}
use swnet_linux.Base.Int.{ℤ}
use swnet_linux.Ncb.{Ncb, Node}
use swnet_linux.Io.{io_modify, registered, epollin, epollout}
use swnet_linux.Fifo.{fifo_queue, fifo_pop, fifo_pop_nodes, fifo_removed}
use swnet_linux.Fifo.Invariant.{IsQueue}

-- The registration that belongs to a blocking flag.
abbrev pub watch : ℕ → ℕ
watch blocking = if blocking == 0 then registered epollin else registered (epollin + epollout)

-- The link's socket is registered for writability exactly while its queue is blocking.
abbrev pub IsWatched : Ncb → Type 0
IsWatched ncb = ncb.interest ≡ some (watch ncb.fifo.blocking)

module _ (makeerror : ℕ → ℤ) where
  -- While epoll_ctl(2) succeeds, fifo_queue keeps the registration and the flag together.
  pub fifo_queue-IsWatched :
      (ncb : Ncb) (node : Option Node)
      → IsWatched ncb
      → IsWatched (fifo_queue makeerror ncb node none).1
  unfolding fifo_queue io_modify
  fifo_queue-IsWatched ncb none w = w
  fifo_queue-IsWatched ncb (some node) w = ground arith

  pop_nodes-IsWatched :
      (ncb : Ncb) (nodes : List Node)
      → IsWatched ncb
      → IsWatched (fifo_pop_nodes makeerror ncb nodes none).2
  unfolding fifo_pop_nodes fifo_removed io_modify
  pop_nodes-IsWatched ncb [] w = w
  pop_nodes-IsWatched ncb (n ∷ ns) w = ground arith

  -- While epoll_ctl(2) succeeds, fifo_pop keeps the registration and the flag together.
  pub fifo_pop-IsWatched : (ncb : Ncb) → IsWatched ncb → IsWatched (fifo_pop makeerror ncb none).2
  unfolding fifo_pop
  fifo_pop-IsWatched ncb w = pop_nodes-IsWatched ncb ncb.fifo.nodes w

  -- fifo_pop ignores a failure of epoll_ctl(2): where the last node of a blocking queue is taken
  -- out and the call fails, the queue is no longer blocking and the link is still registered as it
  -- was.
  pub fifo_pop_unwatched :
      (ncb : Ncb) (node : Node) (errno : ℕ)
      → IsQueue ncb.fifo
      → ncb.fifo.nodes ≡ node ∷ []
      → ((fifo_pop makeerror ncb (some errno)).2.fifo.blocking ≡ 0)
        × ((fifo_pop makeerror ncb (some errno)).2.interest ≡ ncb.interest)
  unfolding fifo_pop fifo_pop_nodes fifo_removed io_modify
  fifo_pop_unwatched ncb node errno v e = ground arith
