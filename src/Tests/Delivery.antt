-- ===== src/Tests/Delivery.antt =====
-- A write that is sent in part, the task that sends the rest, and the peer that reads it in three
-- pieces.
use swnet_linux.Base.{ℕ, ◌≡◌, refl, List, [], ◌∷◌, ◌++◌, map, some, eagain, arith}
use swnet_linux.Base.Int.{pos}
use swnet_linux.Ncb.{Ncb, receivedata}
use swnet_linux.Submit.Stream.{pending}
use swnet_linux.Tcpio.{tcp_rx}
use swnet_linux.Tcpio.Receive.{answers}
use swnet_linux.Flow.Frames.{Agrees}
use swnet_linux.Flow.Delivery.{Builds, writes_delivered}
use swnet_linux.Tests.Samples.{
  alloc, bits, makeerror, small, small_parser, small_parser-Suitable, small_parser-SmallPackets,
  small-IsFramed, small-Holds,
}
use swnet_linux.Tests.Writes.{payload, size_head, headed_link, fresh-IsQueue}
use swnet_linux.Tests.Flows.{rest_sent, write_then_task}

size_head-Agrees : Agrees 2 199 size_head small_parser
size_head-Agrees = record {
  builds = λ n p l. refl;
  head_size = λ n p l. refl;
  reads_back = λ n p l. ground arith;
}

headed_link-Builds : Builds bits 2 size_head headed_link
headed_link-Builds = record { head = refl; template_builder = refl; may_build = refl }

abbrev segments : List (List ℕ)
segments = (3 ∷ []) ∷ (0 ∷ 7 ∷ 8 ∷ []) ∷ (9 ∷ []) ∷ []

writes_delivered_example :
    (peer' : Ncb) × (got others : List (List ℕ)) × (tcp_rx bits alloc small (answers segments)
      ≡ some (pos eagain, peer', []))
    × (peer'.posted ≡ small.posted ++ map receivedata got)
    × (got ++ others ≡ payload ∷ [])
    × (◌≡◌ {A = List ℕ} [] [] → pending rest_sent.link.fifo.nodes ≡ [] → others ≡ [])
writes_delivered_example =
    writes_delivered makeerror bits alloc 2 199 size_head small_parser size_head-Agrees (λ n. refl)
      write_then_task alloc small segments [] fresh-IsQueue refl refl refl headed_link-Builds
      ((_, (refl, refl, omega arith)), _) small_parser-Suitable small_parser-SmallPackets
      small-IsFramed small-Holds refl (omega arith) refl
