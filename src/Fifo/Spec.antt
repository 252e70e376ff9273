-- ===== src/Fifo/Spec.antt =====
-- What a send queue promises: a queue of at most 100 nodes, first in first out.
use swnet_linux.Base.{
  ◌+◌, List, [], ◌∷◌, ◌++◌, Option, none, some, length, leb, if◌then◌else◌, ebusy,
}
use swnet_linux.Base.Int.{ℤ, pos, neg}
use swnet_linux.Ncb.{Node}
use swnet_linux.Fifo.{maximum_fifo_size}
use swnet_linux.Fifo.Invariant.{flag}

pub data Op : Type 0 where
  queue : Node → Op
  top pop is_blocking : Op

-- The return code, and the node that comes out.
abbrev pub Reply : Type 0
Reply = ℤ × Option Node

-- The bounded queue, oldest first.
unfoldable pub apply : List Node → Op → Reply × List Node
apply q (queue n) =
    if leb maximum_fifo_size (length q)
    then ((neg ebusy, none), q)
    else ((pos (length q + 1), none), q ++ (n ∷ []))
apply [] top = ((neg 1, none), [])
apply (n ∷ q) top = ((pos 0, some n), n ∷ q)
apply [] pop = ((pos 0, none), [])
apply (n ∷ q) pop = ((pos 1, some n), q)
apply q is_blocking = ((pos (flag q), none), q)

unfoldable pub run : List Node → List Op → List Reply
run q [] = []
run q (op ∷ ops) = let (r, q') = apply q op in r ∷ run q' ops
