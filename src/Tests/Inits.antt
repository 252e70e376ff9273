-- ===== src/Tests/Inits.antt =====
-- The beginning and the end of a protocol: tests and instances.
use swnet_linux.Base.{
  if◌then◌else◌, ◌≡◌, refl, List, [], ◌∷◌, none, some, Bool, true, false, ◌==◌, arith, ealready,
}
use swnet_linux.Base.Int.{pos, neg}
use swnet_linux.Base.Run.{done, fault}
use swnet_linux.Ncb.{Ncb, ipproto_tcp, ipproto_udp}
use swnet_linux.Io.Attach.{IoObject, live}
use swnet_linux.Tests.Links.{granted as all_granted}
use swnet_linux.Io.Init.{IoBlock, unset, gone, used, InitReplies, threads_of, end_slot, end_blocks}
use swnet_linux.Io.Init.Bounds.{made_slot, IsGranted}
use swnet_linux.Wpool.{Wpool}
use swnet_linux.Wpool.Queued as Queued
use swnet_linux.Wpool.Init.{PoolReplies}
use swnet_linux.Tcp.Init.{Globals, Ended, tcp_init, tcp_uninit}
use swnet_linux.Tcp.Init.Lifetime.{IsPool, before, tcp_init-uninit, tcp_init_stuck}
use swnet_linux.Tests.Samples.{fresh}

-- Of two processors; the second thread cannot be made.
abbrev init_replies : InitReplies
init_replies = record {
  object = true;
  referenced = true;
  nprocs = pos 2;
  memory = true;
  threads = λ i. record { epoll_create = pos 5; thread = i == 0; pipe = pos 6 };
}

abbrev pool_replies : Bool → PoolReplies
pool_replies thread = record { object = true; referenced = true; thread = thread }

granted : IsGranted init_replies
granted = record { object = refl; referenced = refl; memory = refl }

pool : (thread : Bool) → IsPool (pool_replies thread)
pool thread = record { object = refl; referenced = refl }

-- One processor gives UDP one thread all the same, and so does a failure to count them.
threads : (threads_of ipproto_udp (pos 1) ≡ 1) × (threads_of ipproto_tcp (neg 1) ≡ 1)
unfolding threads_of
threads = (refl, refl)

-- Both blocks as io_attach and io_pipefd read them: the second one's thread could not be made.
abbrev made : IoBlock
made = record {
  protocol = ipproto_tcp;
  divisions = 2;
  epoptr = some (
      record { epfd = pos 5; actived = some true; pipefdw = some (pos 6) }
      ∷ record { epfd = neg 1; actived = some false; pipefdw = some (pos 6) }
      ∷ []);
}

abbrev view : IoObject
view = record { divisions = 2; epfd = λ i. if i == 0 then pos 5 else neg 1; pipefdw = λ i. pos 6 }

-- Without an epoll instance the flag is not set, and the end of the threads reads it.
end-unset_flag :
    end_slot (
      used (record {
        protocol = ipproto_tcp;
        divisions = 1;
        epoptr = some (record { epfd = neg 1; actived = none; pipefdw = some (pos 6) } ∷ []);
      }))
    ≡ fault
unfolding end_slot end_blocks
end-unset_flag = refl

abbrev links : List Ncb
links = record fresh { hld = 8; protocol = ipproto_udp } ∷ fresh ∷ []

tcp_init-uninit_example :
    (g : Globals) × (e : Ended) × (tcp_init init_replies
        (pool_replies true)
        (before gone Queued.unset links 2)
      ≡ done (pos 0, g))
    × (tcp_uninit true g ≡ done e)
    × (e.links ≡ 7 ∷ [])
    × (e.tasks ≡ [])
    × (e.globals.io ≡ record { tcphld = unset; udphld = gone })
    × (e.globals.pools ≡ record { tcphld = Queued.unset; udphld = Queued.unset })
tcp_init-uninit_example =
    tcp_init-uninit init_replies (pool_replies true) gone Queued.unset links 2 granted (pool true)
      refl (λ i. refl) (omega arith) (omega arith)

tcp_init_stuck_example :
    (g g' : Globals) × (pool : Wpool) × (tcp_init init_replies
        (pool_replies false)
        (before gone Queued.unset links 2)
      ≡ done (neg 1, g))
    × (g.io ≡ record { tcphld = unset; udphld = gone })
    × (g.pools.tcphld ≡ Queued.live pool)
    × (pool.thread ≡ false)
    × (tcp_init init_replies (pool_replies true) g ≡ done (pos ealready, g'))
    × (g'.io ≡ record { tcphld = made_slot init_replies ipproto_tcp; udphld = gone })
    × (g'.pools.tcphld ≡ Queued.live pool)
    × (tcp_uninit true g ≡ fault)
    × (tcp_uninit true g' ≡ fault)
tcp_init_stuck_example =
    tcp_init_stuck init_replies (pool_replies false) gone Queued.unset (pool_replies true) links 2
      granted (pool false) refl (λ i. refl) (omega arith) (omega arith)
