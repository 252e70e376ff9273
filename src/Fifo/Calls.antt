-- ===== src/Fifo/Calls.antt =====
-- Any sequence of calls on a send queue, with what epoll_ctl(2) answers to each.
use swnet_linux.Base.{ℕ, ◌≡◌, sym, subst, List, [], ◌∷◌, Option, none}
use swnet_linux.Base.Int.{ℤ}
use swnet_linux.Ncb.{Ncb, Node}
use swnet_linux.Fifo.{fifo_queue, fifo_pop}
use swnet_linux.Fifo.Invariant.{IsQueue, fifo_queue-IsQueue, fifo_pop-IsQueue}
use swnet_linux.Fifo.Watch.{IsWatched, fifo_queue-IsWatched, fifo_pop-IsWatched}

pub data Call : Type 0 where
  queueing : Option Node → Option ℕ → Call
  popping : Option ℕ → Call

-- Every epoll_ctl(2) succeeds.
abbrev pub AreGranted : List Call → Type 0
AreGranted [] = Unit {0}
AreGranted (queueing n ctl ∷ calls) = (ctl ≡ none) × AreGranted calls
AreGranted (popping ctl ∷ calls) = (ctl ≡ none) × AreGranted calls

module _ (makeerror : ℕ → ℤ) where
  unfoldable pub after : Ncb → List Call → Ncb
  after ncb [] = ncb
  after ncb (queueing n ctl ∷ calls) = after (fifo_queue makeerror ncb n ctl).1 calls
  after ncb (popping ctl ∷ calls) = after (fifo_pop makeerror ncb ctl).2 calls

  -- Whatever is queued and popped in whatever order, and whatever epoll_ctl(2) answers: the size is
  -- always the number of nodes, which is at most 100, and the blocking flag is set exactly while
  -- there is a node.
  pub calls-IsQueue :
      (ncb : Ncb) (calls : List Call) → IsQueue ncb.fifo → IsQueue (after ncb calls).fifo
  unfolding after
  calls-IsQueue ncb [] v = v
  calls-IsQueue ncb (queueing n ctl ∷ calls) v =
      calls-IsQueue (fifo_queue makeerror ncb n ctl).1 calls
        (fifo_queue-IsQueue makeerror ncb n ctl v)
  calls-IsQueue ncb (popping ctl ∷ calls) v =
      calls-IsQueue (fifo_pop makeerror ncb ctl).2 calls (fifo_pop-IsQueue makeerror ncb ctl v)

  -- Whatever is queued and popped in whatever order, while epoll_ctl(2) succeeds: the link's socket
  -- is always registered for writability exactly while its queue is blocking.
  pub calls-IsWatched :
      (ncb : Ncb) (calls : List Call)
      → AreGranted calls
      → IsWatched ncb
      → IsWatched (after ncb calls)
  unfolding after
  calls-IsWatched ncb [] g w = w
  calls-IsWatched ncb (queueing n ctl ∷ calls) (e, g) w =
      calls-IsWatched (fifo_queue makeerror ncb n ctl).1 calls g (
        subst (λ c. IsWatched (fifo_queue makeerror ncb n c).1) (sym e)
          (fifo_queue-IsWatched makeerror ncb n w))
  calls-IsWatched ncb (popping ctl ∷ calls) (e, g) w =
      calls-IsWatched (fifo_pop makeerror ncb ctl).2 calls g (
        subst (λ c. IsWatched (fifo_pop makeerror ncb c).2) (sym e)
          (fifo_pop-IsWatched makeerror ncb w))
