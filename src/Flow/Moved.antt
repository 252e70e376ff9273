-- ===== src/Flow/Moved.antt =====
-- Bytes of a link that move from its queue to the wire.
use swnet_linux.Base.{
  ℕ, ◌≡◌, sym, ap, ap₂, subst, length, ◌∙◌, ◌≤◌, List, ◌∷◌, ◌++◌, append_assoc, Option,
}
use swnet_linux.Base.Int.{ℤ}
use swnet_linux.Ncb.{Ncb, Node}
use swnet_linux.Fifo.{fifo_removed}
use swnet_linux.Fifo.Rest.{IsLike}
use swnet_linux.Fifo.Invariant.{IsQueue, fifo_pop-IsQueue, flag}
use swnet_linux.Submit.Stream.{pending, AreNodes, sent_then}
use swnet_linux.Tcpio.Send.{SendReply}
use swnet_linux.Tcpio.Send.Laws.{IsNode, bytes_between}
use swnet_linux.Wpool.{Worker}
use swnet_linux.Wpool.Exec.{written, fifo_pop-cons}

-- The worker's bytes and queue are those of `w`, moved by some bytes from the queue to the wire. The
-- template and the attributes of the link stay.
pub record IsMoved (w w' : Worker) : Type 0 where
  pub queue : IsQueue w'.link.fifo
  pub nodes : AreNodes w'.link.fifo.nodes
  pub stream : w'.sent ++ pending w'.link.fifo.nodes ≡ w.sent ++ pending w.link.fifo.nodes
  pub like : IsLike w.link w'.link

module _ (makeerror : ℕ → ℤ) where
  -- With the front node written and still in the queue.
  pub written-IsMoved :
      (w : Worker) (front : Node) (nodes : List Node) (offset : ℕ) (rest : List SendReply)
      (w' : Worker)
      → IsQueue w.link.fifo
      → w.link.fifo.nodes ≡ front ∷ nodes
      → IsNode front
      → AreNodes nodes
      → front.offset ≤ offset
      → offset ≤ front.wcb
      → w'.link ≡ written makeerror w.link (record front { offset = offset }) nodes
      → w'.sent ≡ w.sent ++ bytes_between front front.offset offset
      → IsMoved w w'
  written-IsMoved w front nodes offset rest w' q e n ns lo hi l s =
      let front' : Node = record front { offset = offset } in
      record {
        queue =
            subst (λ k. IsQueue k.fifo) (sym l)
              (record {
                counted = q.counted ∙ ap length e;
                bounded = q.bounded;
                flagged = q.flagged ∙ ap flag e;
              });
        nodes =
            subst (λ k. AreNodes k.fifo.nodes) (sym l)
              (record { sent_part = hi; inside = n.inside }, ns);
        stream =
            ap₂ (λ a k. a ++ pending k.fifo.nodes) s l
            ∙ append_assoc w.sent (bytes_between front front.offset offset)
                (pending (front' ∷ nodes))
            ∙ ap (λ l. w.sent ++ l)
                (sym (
                    append_assoc (bytes_between front front.offset offset)
                      (bytes_between front offset front.wcb) (pending nodes))
                  ∙ ap (λ l. l ++ pending nodes) (sent_then makeerror front offset lo hi))
            ∙ ap (λ ns. w.sent ++ pending ns) (sym e);
        like = (ap (λ k. k.tcp) l, ap (λ k. k.attr) l);
      }

  -- With the front node sent whole and taken out.
  pub popped-IsMoved :
      (w : Worker) (front : Node) (nodes : List Node) (ctl : Option ℕ) (w' : Worker)
      → IsQueue w.link.fifo
      → w.link.fifo.nodes ≡ front ∷ nodes
      → AreNodes nodes
      → IsQueue w'.link.fifo
      → w'.link.fifo.nodes ≡ nodes
      → w'.sent ≡ w.sent ++ bytes_between front front.offset front.wcb
      → IsLike w.link w'.link
      → IsMoved w w'
  popped-IsMoved w front nodes ctl w' q e ns q' e' s like = record {
    queue = q';
    nodes = subst AreNodes (sym e') ns;
    stream =
        ap₂ (λ a l. a ++ pending l) s e'
        ∙ append_assoc w.sent (bytes_between front front.offset front.wcb) (pending nodes)
        ∙ ap (λ ns. w.sent ++ pending ns) (sym e);
    like = like;
  }

  pub removed-IsQueue :
      (ncb : Ncb) (front : Node) (nodes : List Node) (ctl : Option ℕ)
      → ncb.fifo.nodes ≡ front ∷ nodes
      → IsQueue ncb.fifo
      → IsQueue (fifo_removed makeerror ncb nodes ctl).fifo
  removed-IsQueue ncb front nodes ctl e q =
      subst (λ k. IsQueue k.2.fifo) (fifo_pop-cons makeerror ncb front nodes ctl e)
        (fifo_pop-IsQueue makeerror ncb ctl q)
