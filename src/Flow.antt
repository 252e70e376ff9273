-- ===== src/Flow.antt =====
-- A TCP link between its users and the write pool: calls of tcp_write (tcp.c) and write tasks
-- (__wp_exec of wpool.c) in any order, each as one step. `accepted` are the bytes of the packets
-- that tcp_write has accepted; the worker holds the link and what the kernel took from it.
pub mod Moved
pub mod Task
pub mod Integrity
pub mod Answers
pub mod Drain
pub mod Frames
pub mod Delivery
use swnet_linux.Base.{ℕ, ◌+◌, ◌≡◌, List, [], ◌∷◌, ◌++◌, Option, none, some, Bool, true, length}
use swnet_linux.Base.Int.{ℤ, pos, is_neg}
use swnet_linux.Base.Run.{done}
use swnet_linux.Buffer.{Buffer}
use swnet_linux.Ncb.{Ncb, Node, AttrBits}
use swnet_linux.Submit.{Serializer, Written, built, no_target, node_of}
use swnet_linux.Submit.Stream.{pending, AreNodes}
use swnet_linux.Fifo.Rest.{IsLike}
use swnet_linux.Fifo.Invariant.{IsQueue}
use swnet_linux.Tcpio.Send.{SendReply, tcp_tx, tcp_established}
use swnet_linux.Tcpio.Send.Laws.{AreHonest}
use swnet_linux.Tcp.Write.{make_packet, tcp_write}
use swnet_linux.Tcp.Write.Call.{IsWritable}
use swnet_linux.Flow.Task.{IsHonest}
use swnet_linux.Wpool.{Worker, wp_exec}

pub record Flow : Type 0 where
  pub worker : Worker
  pub accepted : List ℕ

-- A call of tcp_write that passes the guards, with its packet built in `b`.
pub record Call (ncb : Ncb) : Type 0 where
  pub link : ℤ
  pub origin : List ℕ
  pub cb : ℕ
  pub serializer : Option Serializer
  pub b : Buffer
  pub ctl : Option ℕ
  pub replies : List SendReply

module _ (makeerror : ℕ → ℤ) (bits : AttrBits) (alloc : ℕ → Bool) where
  -- The packet is complete and the kernel takes at most what it is handed.
  pub record IsCall (ncb : Ncb) (c : Call ncb) : Type 0 where
    pub writable : IsWritable c.link ncb c.cb
    pub packet : make_packet makeerror bits alloc ncb c.serializer c.origin c.cb ≡ done (built c.b)
    pub size : length c.b.bytes ≡ c.cb + ncb.tcp.template.cb
    pub honest : AreHonest (node_of no_target c.b (c.cb + ncb.tcp.template.cb)) c.replies

  abbrev pub call_write : (ncb : Ncb) → Call ncb → Written
  call_write ncb c =
      tcp_write makeerror bits alloc (some tcp_established) true c.ctl c.link (some ncb)
        (some c.origin) (pos c.cb) c.serializer c.replies

  -- One call: a write that is accepted, one that fails with nothing sent, or a task of the pool
  -- with the answers that the kernel gives to it.
  pub data Step (f : Flow) : Flow → Type 0 where
    write :
        (c : Call f.worker.link) (r : ℕ) (ncb : Ncb) (sent : List ℕ) (rest : List SendReply)
        → IsCall f.worker.link c
        → call_write f.worker.link c ≡ done (pos r, some ncb, sent, rest)
        → Step f (record {
          worker = record f.worker { link = ncb; sent = f.worker.sent ++ sent };
          accepted = f.accepted ++ c.b.bytes;
        })
    fail :
        (c : Call f.worker.link) (r : ℤ) (ncb : Ncb) (rest : List SendReply)
        → IsCall f.worker.link c
        → is_neg r ≡ true
        → call_write f.worker.link c ≡ done (r, some ncb, [], rest)
        → Step f (record f { worker = record f.worker { link = ncb } })
    task :
        (hld : ℕ) (ctl : Option ℕ) (replies : List SendReply) (r : ℤ) (w : Worker)
        → IsHonest f.worker.link.fifo.nodes replies
        → wp_exec makeerror true
            (some (tcp_tx (some tcp_established)))
            ctl
            (record f.worker { replies = replies })
            hld
          ≡ done (r, w)
        → Step f (record f { worker = w })

  pub data Reach (f : Flow) : Flow → Type 0 where
    here : Reach f f
    later : {g h : Flow} → Reach f g → Step g h → Reach f h

-- The queue meets its invariant, and the bytes that the kernel took, with those that wait, are the
-- bytes accepted. The template and the attributes are those of the link at the start.
pub record IsFlow (start : Ncb) (f : Flow) : Type 0 where
  pub queue : IsQueue f.worker.link.fifo
  pub nodes : AreNodes f.worker.link.fifo.nodes
  pub stream : f.worker.sent ++ pending f.worker.link.fifo.nodes ≡ f.accepted
  pub like : IsLike start f.worker.link
