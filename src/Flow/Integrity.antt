-- ===== src/Flow/Integrity.antt =====
-- What a TCP link puts on the wire, whatever the order of writes and write tasks.
use swnet_linux.Base.{
  ℕ, ◌+◌, ◌≡◌, refl, sym, ap, ap₂, subst, ◌∙◌, List, [], ◌++◌, append_assoc, append-nil, some, Bool,
  true, inl, inr, take, take-length, arith,
}
use swnet_linux.Base.Int.{ℤ, pos, is_neg}
use swnet_linux.Base.Run.{Run, done}
use swnet_linux.Ncb.{Ncb, Node, AttrBits}
use swnet_linux.Submit.{on_caller, no_target, node_of}
use swnet_linux.Submit.Stream.{pending, AreNodes, Keeps, sending, taken, refused}
use swnet_linux.Fifo.Rest.{IsLike}
use swnet_linux.Fifo.Invariant.{IsQueue}
use swnet_linux.Tcpio.Send.{SendReply, Tx}
use swnet_linux.Tcpio.Send.Laws.{bytes_between}
use swnet_linux.Tcp.Write.Call.{tcp_write-Keeps}
use swnet_linux.Wpool.{Worker}
use swnet_linux.Flow.{Flow, Call, IsCall, Step, write, fail, task, Reach, here, later, IsFlow}
use swnet_linux.Flow.Task.{Moves, tcp_exec-Moves}

IsLike-trans : (a b c : Ncb) → IsLike a b → IsLike b c → IsLike a c
IsLike-trans a b c (t, m) (t', m') = (t' ∙ t, m' ∙ m)

module _ (makeerror : ℕ → ℤ) (bits : AttrBits) (alloc : ℕ → Bool) where
  abbrev call_node : (ncb : Ncb) → Call ncb → Node
  call_node ncb c = node_of no_target c.b (c.cb + ncb.tcp.template.cb)

  node_bytes :
      (ncb : Ncb) (c : Call ncb)
      → IsCall makeerror bits alloc ncb c
      → bytes_between (call_node ncb c) 0 (c.cb + ncb.tcp.template.cb) ≡ c.b.bytes
  node_bytes ncb c v =
      ap (λ k. take k c.b.bytes) (omega arith)
      ∙ take-length (c.cb + ncb.tcp.template.cb) c.b.bytes (omega (arith, v.size))

  write-IsFlow :
      (f : Flow) (c : Call f.worker.link) (r : ℕ) (ncb : Ncb) (sent : List ℕ)
      (rest : List SendReply) (out : Tx) (start : Ncb)
      → IsFlow start f
      → IsCall makeerror bits alloc f.worker.link c
      → on_caller out ≡ done (pos r, some ncb, sent, rest)
      → Keeps f.worker.link (call_node f.worker.link c) out
      → IsFlow start (record {
        worker = record f.worker { link = ncb; sent = f.worker.sent ++ sent };
        accepted = f.accepted ++ c.b.bytes;
      })
  write-IsFlow f c r ncb sent rest out start i v e (sending o) = cc
  write-IsFlow f c r ncb sent rest out start i v e (refused r' sent' rest' o n) = cc
  write-IsFlow f c r ncb sent rest out start i v e
        (taken r' ncb' sent' rest' o stream q ns like queued) =
      let same : ncb' ≡ ncb = cc in
      let same_sent : sent' ≡ sent = cc in
      record {
        queue = subst (λ k. IsQueue k.fifo) same q;
        nodes = subst (λ k. AreNodes k.fifo.nodes) same (ns i.nodes);
        stream =
            append_assoc f.worker.sent sent (pending ncb.fifo.nodes)
            ∙ ap (λ l. f.worker.sent ++ l)
                (ap₂ (λ s k. s ++ pending k.fifo.nodes) (sym same_sent) (sym same)
                  ∙ stream
                  ∙ ap (λ l. pending f.worker.link.fifo.nodes ++ l) (node_bytes f.worker.link c v))
            ∙ sym (append_assoc f.worker.sent (pending f.worker.link.fifo.nodes) c.b.bytes)
            ∙ ap (λ l. l ++ c.b.bytes) i.stream;
        like = IsLike-trans start f.worker.link ncb i.like (subst (IsLike f.worker.link) same like);
      }

  fail-IsFlow :
      (f : Flow) (c : Call f.worker.link) (r : ℤ) (ncb : Ncb) (rest : List SendReply) (out : Tx)
      (start : Ncb)
      → IsFlow start f
      → is_neg r ≡ true
      → on_caller out ≡ done (r, some ncb, [], rest)
      → Keeps f.worker.link (call_node f.worker.link c) out
      → IsFlow start (record f { worker = record f.worker { link = ncb } })
  fail-IsFlow f c r ncb rest out start i n e (sending o) = cc
  fail-IsFlow f c r ncb rest out start i n e (taken r' ncb' sent' rest' o stream q ns like queued) =
      let same : r ≡ pos r' = cc in absurd (cc (ap is_neg same))
  fail-IsFlow f c r ncb rest out start i n e (refused r' sent' rest' o n') =
      let same : f.worker.link ≡ ncb = cc in
      record {
        queue = subst (λ k. IsQueue k.fifo) same i.queue;
        nodes = subst (λ k. AreNodes k.fifo.nodes) same i.nodes;
        stream = ap (λ k. f.worker.sent ++ pending k.fifo.nodes) (sym same) ∙ i.stream;
        like = subst (IsLike start) same i.like;
      }

  task-IsFlow :
      (f : Flow) (w w' : Worker) (r r' : ℤ) (out : Run (ℤ × Worker)) (start : Ncb)
      → IsFlow start f
      → w.link ≡ f.worker.link
      → w.sent ≡ f.worker.sent
      → out ≡ done (r, w')
      → Moves makeerror w out
      → IsFlow start (record f { worker = w' })
  task-IsFlow f w w' r r' out start i l s e (inl o) = cc
  task-IsFlow f w w' r r' out start i l s e (inr (r2, w2, o, m)) =
      let same : w2 ≡ w' = cc in
      subst (λ k. IsFlow start (record f { worker = k })) same
        (record {
          queue = m.queue;
          nodes = m.nodes;
          stream = m.stream ∙ ap₂ (λ a k. a ++ pending k.fifo.nodes) s l ∙ i.stream;
          like =
              IsLike-trans start f.worker.link w2.link i.like
                (subst (λ k. IsLike k w2.link) l m.like);
        })

  pub Step-IsFlow :
      {f g : Flow} (start : Ncb) → Step makeerror bits alloc f g → IsFlow start f → IsFlow start g
  Step-IsFlow {f} start (write c r ncb sent rest v e) i =
      let (out, o, k) =
        tcp_write-Keeps makeerror bits alloc c.ctl c.link f.worker.link c.origin c.cb c.serializer
          c.replies c.b v.writable i.queue v.packet v.size v.honest in
      write-IsFlow f c r ncb sent rest out start i v (sym o ∙ e) k
  Step-IsFlow {f} start (fail c r ncb rest v n e) i =
      let (out, o, k) =
        tcp_write-Keeps makeerror bits alloc c.ctl c.link f.worker.link c.origin c.cb c.serializer
          c.replies c.b v.writable i.queue v.packet v.size v.honest in
      fail-IsFlow f c r ncb rest out start i n (sym o ∙ e) k
  Step-IsFlow {f} start (task hld ctl replies r w h e) i =
      task-IsFlow f (record f.worker { replies = replies }) w r r _ start i refl refl e
        (tcp_exec-Moves makeerror (record f.worker { replies = replies }) hld ctl i.queue i.nodes h)

  pub Reach-IsFlow :
      {f g : Flow} (start : Ncb) → IsFlow start f → Reach makeerror bits alloc f g → IsFlow start g
  Reach-IsFlow start i here = i
  Reach-IsFlow start i (later r s) = Step-IsFlow start s (Reach-IsFlow start i r)

  -- A link with an empty queue, before anything that waits.
  pub empty-IsFlow :
      (f : Flow)
      → IsQueue f.worker.link.fifo
      → f.worker.link.fifo.nodes ≡ []
      → f.worker.sent ≡ f.accepted
      → IsFlow f.worker.link f
  empty-IsFlow f q e s = record {
    queue = q;
    nodes = subst AreNodes (sym e) _;
    stream = ap (λ ns. f.worker.sent ++ pending ns) e ∙ append-nil f.worker.sent ∙ s;
    like = (refl, refl);
  }

  -- However calls of tcp_write and write tasks follow each other on an established link that starts
  -- with an empty queue, with complete packets, a kernel that takes at most what it is handed, and
  -- no write that fails after a part of it was sent: what the kernel took, followed by what waits
  -- in the queue, is always the packets accepted, in order and without a gap.
  pub stream_integrity :
      {f g : Flow}
      → IsQueue f.worker.link.fifo
      → f.worker.link.fifo.nodes ≡ []
      → f.worker.sent ≡ f.accepted
      → Reach makeerror bits alloc f g
      → g.worker.sent ++ pending g.worker.link.fifo.nodes ≡ g.accepted
  stream_integrity {f} {g} q e s r = (Reach-IsFlow f.worker.link (empty-IsFlow f q e s) r).stream
