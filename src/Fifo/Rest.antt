-- ===== src/Fifo/Rest.antt =====
-- What the operations of a send queue leave alone in the link: its TCP part, with the template, and
-- its attributes.
use swnet_linux.Base.{ℕ, ◌≡◌, List, Option, none, some, arith}
use swnet_linux.Base.Int.{ℤ}
use swnet_linux.Ncb.{Ncb, Node}
use swnet_linux.Io.{io_modify}
use swnet_linux.Fifo.{fifo_queue, fifo_removed}

abbrev pub IsLike : Ncb → Ncb → Type 0
IsLike ncb ncb' = (ncb'.tcp ≡ ncb.tcp) × (ncb'.attr ≡ ncb.attr)

module _ (makeerror : ℕ → ℤ) where
  pub fifo_queue-IsLike :
      (ncb : Ncb) (node : Node) (ctl : Option ℕ)
      → IsLike ncb (fifo_queue makeerror ncb (some node) ctl).1
  unfolding fifo_queue io_modify
  fifo_queue-IsLike ncb node none = ground arith
  fifo_queue-IsLike ncb node (some e) = ground arith

  pub fifo_removed-IsLike :
      (ncb : Ncb) (nodes : List Node) (ctl : Option ℕ)
      → IsLike ncb (fifo_removed makeerror ncb nodes ctl)
  unfolding fifo_removed io_modify
  fifo_removed-IsLike ncb nodes none = ground arith
  fifo_removed-IsLike ncb nodes (some e) = ground arith
