-- ===== src/Flow/Delivery.antt =====
-- A link from end to end: what a peer's tcp_rx hands to its user of what tcp_write and the write
-- tasks put on the wire.
use swnet_linux.Base.{
  ℕ, ◌+◌, ◌≤◌, ◌<◌, ◌≡◌, sym, ap, ap₂, ◌∙◌, List, [], ◌∷◌, ◌++◌, map, append-nil, append_assoc,
  none, some, Bool, true, false, length, eagain,
}
use swnet_linux.Base.Int.{ℤ, pos, positive}
use swnet_linux.Base.Run.{done}
use swnet_linux.Ncb.{Ncb, Parser, Builder, AttrBits, has_attr, receivedata}
use swnet_linux.Submit.{built}
use swnet_linux.Submit.Stream.{pending}
use swnet_linux.Fifo.Invariant.{IsQueue}
use swnet_linux.Tcp.Write.{make_packet}
use swnet_linux.Tcp.Write.Head.{make_packet_headed}
use swnet_linux.Tcpal.Refine.{IsFramed, Holds}
use swnet_linux.Tcpal.Refine.Call.{Suitable}
use swnet_linux.Tcpio.{tcp_rx}
use swnet_linux.Tcpio.Receive.{
  answers, stream, AreSegments, SmallPackets, tcp_rx-Drains, Drains-good,
}
use swnet_linux.Flow.{Flow, Call, IsCall, Step, write, fail, task, Reach, here, later, IsFlow}
use swnet_linux.Flow.Integrity.{Reach-IsFlow, empty-IsFlow}
use swnet_linux.Flow.Frames.{
  framed, frames, frames-append, AllFit, AllFit-append, AllFit-left, Agrees, run-part,
  deliveries-framed,
}

-- A link whose template has this builder, without LINKATTR_TCP_NO_BUILD.
pub record Builds (bits : AttrBits) (cb : ℕ) (builder : Builder) (ncb : Ncb) : Type 0 where
  pub head : ncb.tcp.template.cb ≡ cb
  pub template_builder : ncb.tcp.template.builder ≡ some builder
  pub may_build : has_attr ncb.attr bits.no_build ≡ false

module _ (makeerror : ℕ → ℤ) (bits : AttrBits) (alloc : ℕ → Bool) where
  -- The payloads of the writes that are accepted, in order.
  abbrev pub step_payloads : {f g : Flow} → Step makeerror bits alloc f g → List (List ℕ)
  step_payloads (write c r ncb sent rest v e) = c.origin ∷ []
  step_payloads (fail c r ncb rest v n e) = []
  step_payloads (task hld ctl replies r w h e) = []

  abbrev pub payloads : {f g : Flow} → Reach makeerror bits alloc f g → List (List ℕ)
  payloads here = []
  payloads (later r s) = payloads r ++ step_payloads s

  -- Each accepted write is without a serializer, and of the whole of its data, which is no longer
  -- than `limit`.
  abbrev pub StepIsPlain : {f g : Flow} → ℕ → Step makeerror bits alloc f g → Type 0
  StepIsPlain limit (write c r ncb sent rest v e) =
      (c.serializer ≡ none) × (c.cb ≡ length c.origin) × (length c.origin ≤ limit)
  StepIsPlain limit (fail c r ncb rest v n e) = Unit {0}
  StepIsPlain limit (task hld ctl replies r w h e) = Unit {0}

  abbrev pub IsPlain : {f g : Flow} → ℕ → Reach makeerror bits alloc f g → Type 0
  IsPlain limit here = Unit {0}
  IsPlain limit (later r s) = IsPlain limit r × StepIsPlain limit s

  module _ (cb limit : ℕ) (builder : Builder) (parser : Parser)
      (agrees : Agrees cb limit builder parser) (memory : (n : ℕ) → alloc n ≡ true) where
    call_bytes :
        (ncb : Ncb) (c : Call ncb)
        → Builds bits cb builder ncb
        → IsCall makeerror bits alloc ncb c
        → c.serializer ≡ none
        → c.cb ≡ length c.origin
        → 0 < length c.origin
        → length c.origin ≤ limit
        → c.b.bytes ≡ framed builder c.origin
    call_bytes ncb c t v s e n small =
        let (b, made, bytes) =
          make_packet_headed makeerror bits alloc ncb builder c.origin t.template_builder
            t.may_build (agrees.builds (length c.origin) n small)
            (agrees.head_size (length c.origin) n small ∙ sym t.head)
            (memory (length c.origin + ncb.tcp.template.cb)) in
        let same : make_packet makeerror bits alloc ncb c.serializer c.origin c.cb
            ≡ done (built b) =
          rw (s, e) made in
        let packet : c.b ≡ b = cc (v.packet) in ap (λ k. k.bytes) packet ∙ bytes

    Builds-IsFlow :
        (start : Ncb) (f : Flow)
        → Builds bits cb builder start
        → IsFlow start f
        → Builds bits cb builder f.worker.link
    Builds-IsFlow start f t i = record {
      head = ap (λ k. k.template.cb) i.like.0 ∙ t.head;
      template_builder = ap (λ k. k.template.builder) i.like.0 ∙ t.template_builder;
      may_build = ap (λ k. has_attr k bits.no_build) i.like.1 ∙ t.may_build;
    }

    accepted_then :
        {f g : Flow} (start : Ncb) (s : Step makeerror bits alloc f g)
        → Builds bits cb builder start
        → IsFlow start f
        → StepIsPlain limit s
        → (g.accepted ≡ f.accepted ++ frames builder (step_payloads s))
          × AllFit limit (step_payloads s)
    accepted_then {f} start (write c r ncb sent rest v e) t i (s, l, small) =
        let n : 0 < length c.origin = rw (← l) (positive c.cb v.writable.some_data) in
        (
          ap (λ k. f.accepted ++ k)
              (call_bytes f.worker.link c (Builds-IsFlow start f t i) v s l n small
                ∙ sym (append-nil (framed builder c.origin))),
          ((n, small), _),
        )
    accepted_then {f} start (fail c r ncb rest v n e) t i p = (sym (append-nil f.accepted), _)
    accepted_then {f} start (task hld ctl replies r w h e) t i p = (sym (append-nil f.accepted), _)

    -- The bytes accepted are the packets of the payloads.
    pub reach_accepted :
        {f g : Flow} (start : Ncb) (r : Reach makeerror bits alloc f g)
        → Builds bits cb builder start
        → IsFlow start f
        → IsPlain limit r
        → (g.accepted ≡ f.accepted ++ frames builder (payloads r)) × AllFit limit (payloads r)
    reach_accepted {f} start here t i p = (sym (append-nil f.accepted), _)
    reach_accepted {f} start (later r s) t i (p, ps) =
        let (a, fit) = reach_accepted start r t i p in
        let (a', fit') = accepted_then start s t (Reach-IsFlow makeerror bits alloc start i r) ps in
        (
          a'
              ∙ ap (λ l. l ++ frames builder (step_payloads s)) a
              ∙ append_assoc f.accepted (frames builder (payloads r))
                  (frames builder (step_payloads s))
              ∙ ap (λ l. f.accepted ++ l)
                  (sym (frames-append builder (payloads r) (step_payloads s))),
          AllFit-append limit (payloads r) (step_payloads s) fit fit',
        )

    -- End to end. However calls of tcp_write and write tasks follow each other on an established
    -- link that starts with an empty queue and nothing sent, with a template whose builder and
    -- parser agree for payloads of at most `limit` bytes, with memory, without
    -- LINKATTR_TCP_NO_BUILD, each accepted write without a serializer and of at most `limit` bytes,
    -- with a kernel that takes at most what it is handed, and no write that fails after a part of
    -- it was sent: let `lost` be what of the bytes on the wire does not arrive. However recv(2) cuts
    -- the rest at a peer with the same head size and parser that holds nothing, with a callback and
    -- memory, a head of 1 to 32 bytes, a parser that looks at the header only and accepts no packet
    -- beyond the receive buffer, and without LINKATTR_TCP_FULLY_RECEIVE, its tcp_rx returns EAGAIN
    -- with exactly the payloads of the first writes handed to its user, whole, in order and without
    -- their heads; and of all the writes where nothing is lost and the sender's queue is sent.
    pub writes_delivered :
        {f g : Flow} (r : Reach makeerror bits alloc f g) (alloc' : ℕ → Bool) (peer : Ncb)
        (segments : List (List ℕ)) (lost : List ℕ)
        → IsQueue f.worker.link.fifo
        → f.worker.link.fifo.nodes ≡ []
        → f.worker.sent ≡ []
        → f.accepted ≡ []
        → Builds bits cb builder f.worker.link
        → IsPlain limit r
        → Suitable alloc' cb parser
        → SmallPackets cb parser
        → IsFramed cb parser peer
        → Holds cb parser peer []
        → has_attr peer.attr bits.fully_receive ≡ false
        → AreSegments segments
        → stream segments ++ lost ≡ g.worker.sent
        → (peer' : Ncb) × (got others : List (List ℕ)) × (tcp_rx bits alloc' peer (answers segments)
            ≡ some (pos eagain, peer', []))
          × (peer'.posted ≡ peer.posted ++ map receivedata got)
          × (got ++ others ≡ payloads r)
          × (lost ≡ [] → pending g.worker.link.fifo.nodes ≡ [] → others ≡ [])
    writes_delivered {f} {g} r alloc' peer segments lost q e s0 a0 t plain suit small framed' holds
          attr segs sent =
        let start = f.worker.link in
        let i : IsFlow start f = empty-IsFlow makeerror bits alloc f q e (s0 ∙ sym a0) in
        let flow : IsFlow start g = Reach-IsFlow makeerror bits alloc start i r in
        let (accepted, fit) = reach_accepted start r t i plain in
        let whole : stream segments ++ (lost ++ pending g.worker.link.fifo.nodes)
            ≡ frames builder (payloads r) =
          sym (append_assoc (stream segments) lost (pending g.worker.link.fifo.nodes))
          ∙ ap (λ l. l ++ pending g.worker.link.fifo.nodes) sent
          ∙ flow.stream
          ∙ accepted
          ∙ ap (λ l. l ++ frames builder (payloads r)) a0 in
        let (got, others, p', read, parts, end) =
          run-part cb limit builder parser suit.some_header agrees (payloads r) (stream segments)
            (lost ++ pending g.worker.link.fifo.nodes) fit whole in
        let (peer', returns, posted) =
          Drains-good bits alloc' cb parser peer [] (stream segments) p' (map (framed builder) got)
            (tcp_rx bits alloc' peer (answers segments)) read
            (tcp_rx-Drains bits alloc' cb parser peer [] segments suit small framed' holds segs) in
        (
          peer',
          got,
          others,
          returns,
          posted
              ∙ ap (λ l. peer.posted ++ l)
                  (deliveries-framed cb limit builder parser suit.some_header agrees bits peer.attr
                    got attr (AllFit-left limit got others (rw parts fit))),
          parts,
          λ l n. end (ap₂ (◌++◌) l n),
        )
