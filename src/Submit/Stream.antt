-- ===== src/Submit/Stream.antt =====
-- What a write does to the stream of a link.
use swnet_linux.Base.{
  ℕ, ◌-◌, ◌⊎◌, ◌≡◌, refl, sym, ap, subst, ◌∙◌, List, [], ◌∷◌, ◌++◌, append_assoc, append-nil,
  Option, none, some, true, false, ◌==◌, arith, ◌≤◌, Bool-cases, inl, inr, eagain,
}
use swnet_linux.Base.Int.{ℤ, pos, neg, is_neg, int_eq}
use swnet_linux.Base.Run.{waiting, done, ◌>>=◌}
use swnet_linux.Ncb.{Ncb, Node}
use swnet_linux.Io.{io_modify}
use swnet_linux.Fifo.{fifo_queue}
use swnet_linux.Fifo.Rest.{IsLike, fifo_queue-IsLike}
use swnet_linux.Fifo.Invariant.{IsQueue, fifo_queue-IsQueue, fifo_queue_rejected, flag}
use swnet_linux.Tcpio.Send.{SendReply, Sending, Tx, tcp_txn}
use swnet_linux.Tcpio.Send.Laws.{
  IsNode, IsError-neg, AreHonest, Sends, waits, returns, bytes_between, between-append,
  tcp_txn-Sends,
}
use swnet_linux.Submit.{submit, queue_node, after_txn}

-- The bytes that wait in a queue.
abbrev pub pending : List Node → List ℕ
pending [] = []
pending (node ∷ nodes) = bytes_between node node.offset node.wcb ++ pending nodes

pending-append :
    (ns : List Node) (node : Node)
    → pending (ns ++ (node ∷ [])) ≡ pending ns ++ bytes_between node node.offset node.wcb
pending-append [] node = append-nil (bytes_between node node.offset node.wcb)
pending-append (n ∷ ns) node =
    ap (λ l. bytes_between n n.offset n.wcb ++ l) (pending-append ns node)
    ∙ sym (
        append_assoc (bytes_between n n.offset n.wcb) (pending ns)
          (bytes_between node node.offset node.wcb))

-- Every node's range lies inside its data.
abbrev pub AreNodes : List Node → Type 0
AreNodes [] = Unit {0}
AreNodes (node ∷ nodes) = IsNode node × AreNodes nodes

AreNodes-append :
    (ns : List Node) (node : Node) → AreNodes ns → IsNode node → AreNodes (ns ++ (node ∷ []))
AreNodes-append [] node h v = (v, _)
AreNodes-append (n ∷ ns) node h v = (h.0, AreNodes-append ns node h.1 v)

-- The queue is what it was, or it has the node behind it, its target and data unchanged, with some
-- of its bytes sent.
abbrev pub HasQueued : Ncb → Node → Ncb → Type 0
HasQueued ncb node ncb' =
    (ncb'.fifo.nodes ≡ ncb.fifo.nodes)
    ⊎ ((k : ℕ) × (ncb'.fifo.nodes ≡ ncb.fifo.nodes ++ (record node { offset = k } ∷ [])))

-- A write that has not been refused keeps the stream: what was sent, with what waits now, is what
-- waited with the new node behind; the queue stays a queue of nodes, with at most this node added,
-- and the template and the attributes of the link stay. A write that was refused leaves the link as
-- it was.
pub data Keeps (ncb : Ncb) (node : Node) (out : Tx) : Type 0 where
  sending : out ≡ waiting → Keeps ncb node out
  taken :
      (r : ℕ) (ncb' : Ncb) (sent : List ℕ) (rest : List SendReply)
      → out ≡ done (pos r, ncb', sent, rest)
      → sent ++ pending ncb'.fifo.nodes
        ≡ pending ncb.fifo.nodes ++ bytes_between node node.offset node.wcb
      → IsQueue ncb'.fifo
      → (AreNodes ncb.fifo.nodes → AreNodes ncb'.fifo.nodes)
      → IsLike ncb ncb'
      → HasQueued ncb node ncb'
      → Keeps ncb node out
  refused :
      (r : ℤ) (sent : List ℕ) (rest : List SendReply)
      → out ≡ done (r, ncb, sent, rest)
      → is_neg r ≡ true
      → Keeps ncb node out

module _ (makeerror : ℕ → ℤ) where
  -- fifo_queue either refuses and leaves the link, or has the node at the end.
  pub data Queues (ncb : Ncb) (node : Node) (out : ℤ × Ncb) : Type 0 where
    rejected : is_neg out.0 ≡ true → out.1 ≡ ncb → Queues ncb node out
    added :
        is_neg out.0 ≡ false
        → out.1.fifo.nodes ≡ ncb.fifo.nodes ++ (node ∷ [])
        → IsLike ncb out.1
        → Queues ncb node out

  pub queue_adds :
      (ncb : Ncb) (node : Node) (ctl : Option ℕ)
      → is_neg (fifo_queue makeerror ncb (some node) ctl).0 ≡ false
      → (fifo_queue makeerror ncb (some node) ctl).1.fifo.nodes ≡ ncb.fifo.nodes ++ (node ∷ [])
  unfolding fifo_queue io_modify
  queue_adds ncb node none a = ground arith
  queue_adds ncb node (some e) a = ground arith

  queue-Queues :
      (ncb : Ncb) (node : Node) (ctl : Option ℕ)
      → Queues ncb node (fifo_queue makeerror ncb (some node) ctl)
  queue-Queues ncb node ctl =
      elim (Bool-cases (is_neg (fifo_queue makeerror ncb (some node) ctl).0)) [
        | inl r ↦ rejected r (fifo_queue_rejected makeerror ncb (some node) ctl r)
        | inr a ↦ added a (queue_adds ncb node ctl a) (fifo_queue-IsLike makeerror ncb node ctl)
      ]

  -- Queueing `node'` after `sent` of `node` has been sent.
  queue_node-Keeps :
      (ncb : Ncb) (node : Node) (k : ℕ) (ctl : Option ℕ) (sent : List ℕ) (rest : List SendReply)
      (out : ℤ × Ncb)
      → out ≡ fifo_queue makeerror ncb (some (record node { offset = k })) ctl
      → Queues ncb (record node { offset = k }) out
      → IsQueue out.1.fifo
      → IsNode (record node { offset = k })
      → sent ++ (pending ncb.fifo.nodes ++ bytes_between node k node.wcb)
        ≡ pending ncb.fifo.nodes ++ bytes_between node node.offset node.wcb
      → Keeps ncb node (queue_node makeerror ctl ncb (record node { offset = k }) sent rest)
  unfolding queue_node
  queue_node-Keeps ncb node k ctl sent rest out e (rejected r same) q v h =
      refused out.0 sent rest (rw (← e) (rw (r, same) refl)) r
  queue_node-Keeps ncb node k ctl sent rest out e (added r nodes like) q v h =
      taken 0 out.1 sent rest (rw (← e) (rw r refl))
        (ap (λ ns. sent ++ pending ns) nodes
          ∙ ap (λ l. sent ++ l) (pending-append ncb.fifo.nodes (record node { offset = k }))
          ∙ h)
        q
        (λ a.
          subst AreNodes (sym nodes)
            (AreNodes-append ncb.fifo.nodes (record node { offset = k }) a v))
        like (inr (k, nodes))

  not_blocking :
      (ncb : Ncb) → IsQueue ncb.fifo → (ncb.fifo.blocking == 0) ≡ true → ncb.fifo.nodes ≡ []
  not_blocking ncb v b = go ncb.fifo.nodes v.flagged
    where
      go : (ns : List Node) → ncb.fifo.blocking ≡ flag ns → ns ≡ []
      go [] e = refl
      go (n ∷ ns) e = ground arith

  pub sent_then :
      (node : Node) (offset : ℕ)
      → node.offset ≤ offset
      → offset ≤ node.wcb
      → bytes_between node node.offset offset ++ bytes_between node offset node.wcb
        ≡ bytes_between node node.offset node.wcb
  sent_then node offset lo hi =
      ap (λ k. bytes_between node node.offset offset ++ bytes_between node k node.wcb) (omega arith)
      ∙ between-append node node.offset (offset - node.offset) node.wcb (omega arith)

  after_txn-Keeps :
      (ctl : Option ℕ) (ncb : Ncb) (node : Node) (out : Sending)
      → IsQueue ncb.fifo
      → IsNode node
      → ncb.fifo.nodes ≡ []
      → Sends node out
      → Keeps ncb node (out >>= after_txn makeerror ctl ncb)
  unfolding after_txn
  after_txn-Keeps ctl ncb node out v n e (waits w) =
      sending (ap (λ o. o >>= after_txn makeerror ctl ncb) w)
  after_txn-Keeps ctl ncb node out v n e (returns r offset rest o lo hi (inl (whole, all))) =
      taken node.wcb ncb (bytes_between node node.offset offset) rest (rw (o, whole) refl)
        (ap (λ ns. bytes_between node node.offset offset ++ pending ns) e
          ∙ append-nil (bytes_between node node.offset offset)
          ∙ ap (λ k. bytes_between node node.offset k) all
          ∙ ap (λ ns. pending ns ++ bytes_between node node.offset node.wcb) (sym e))
        v (λ a. a) (refl, refl) (inl refl)
  after_txn-Keeps ctl ncb node out v n e (returns r offset rest o lo hi (inr bad)) =
      elim (Bool-cases (int_eq r (neg eagain))) [
        | inl blocks ↦
            let node' : Node = record node { offset = offset } in
            let sent = bytes_between node node.offset offset in
            rw (o, blocks)
              (queue_node-Keeps ncb node offset ctl sent rest
                (fifo_queue makeerror ncb (some node') ctl) refl (queue-Queues ncb node' ctl)
                (fifo_queue-IsQueue makeerror ncb (some node') ctl v)
                (record { sent_part = hi; inside = n.inside })
                (ap (λ ns. sent ++ (pending ns ++ bytes_between node offset node.wcb)) e
                  ∙ sent_then node offset lo hi
                  ∙ ap (λ ns. pending ns ++ bytes_between node node.offset node.wcb) (sym e)))
        | inr fails ↦
            refused r (bytes_between node node.offset offset) rest (rw (o, fails) refl)
              (IsError-neg r bad.0)
      ]

  -- Sending at once and queueing what is left.
  pub submit-Keeps :
      (ctl : Option ℕ) (ncb : Ncb) (node : Node) (replies : List SendReply)
      → IsQueue ncb.fifo
      → IsNode node
      → AreHonest node replies
      → Keeps ncb node (submit makeerror ctl ncb node replies)
  unfolding submit
  submit-Keeps ctl ncb node replies v n h = elim (Bool-cases (ncb.fifo.blocking == 0)) [
    | inl free ↦ rw free (
        after_txn-Keeps ctl ncb node (tcp_txn node replies) v n (not_blocking ncb v free)
          (tcp_txn-Sends node replies n h))
    | inr blocked ↦ rw blocked (
        queue_node-Keeps ncb node node.offset ctl [] replies
          (fifo_queue makeerror ncb (some node) ctl) refl (queue-Queues ncb node ctl)
          (fifo_queue-IsQueue makeerror ncb (some node) ctl v) n refl)
  ]
