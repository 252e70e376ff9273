-- ===== src/Tests/Receive.antt =====
-- Receiving: tests and instances.
use swnet_linux.Base.{ℕ, ◌≡◌, refl, List, [], ◌∷◌, some, eagain, arith}
use swnet_linux.Base.Int.{pos}
use swnet_linux.Buffer.{Buffer}
use swnet_linux.Ncb.{Ncb}
use swnet_linux.Tcpal.{tcp_parse_pkt}
use swnet_linux.Tcpal.Stream.{run, judge}
use swnet_linux.Tcpal.CutHeader.{cut_header_lost}
use swnet_linux.Tcpal.Refine.{Holds, Reads}
use swnet_linux.Tcpal.Refine.Call.{tcp_parse_pkt-Reads}
use swnet_linux.Tcpio.{tcp_rx, parse_loop}
use swnet_linux.Tcpio.Segment.{ReadsAll, parse_loop-ReadsAll}
use swnet_linux.Tcpio.Receive.{answers, stream, Drains, tcp_rx-Drains, tcp_rx_chunking}
use swnet_linux.Tests.Samples.{
  parser, small_parser, bits, alloc, buffer, fresh, cut, small, idle, parser-Suitable,
  small_parser-Suitable, small_parser-SmallPackets, fresh-IsFramed, small-IsFramed, cut-IsFramed,
  link-InPacket, fresh-Holds, small-Holds,
}

-- A packet of two bytes and the first byte of the next.
abbrev bytes : List ℕ
bytes = 2 ∷ 0 ∷ 8 ∷ 9 ∷ 1 ∷ []

run-two : run 2 parser [] bytes ≡ some ((2 ∷ 0 ∷ 8 ∷ 9 ∷ []) ∷ [], 1 ∷ [])
unfolding run judge
run-two = refl

tcp_parse_pkt-Reads_example :
    Reads 2 parser bits fresh [] bytes (tcp_parse_pkt bits alloc fresh bytes)
tcp_parse_pkt-Reads_example =
    tcp_parse_pkt-Reads bits alloc 2 parser fresh [] bytes parser-Suitable fresh-IsFramed
      fresh-Holds (λ t h. absurd (omega arith)) (omega arith) (omega arith)

parse_loop-ReadsAll_example :
    ReadsAll 2 parser bits fresh [] bytes (parse_loop bits alloc 5 fresh bytes)
parse_loop-ReadsAll_example =
    parse_loop-ReadsAll bits alloc 2 parser 5 fresh [] bytes parser-Suitable fresh-IsFramed
      fresh-Holds (λ t h. absurd (omega arith)) (omega arith) (omega arith) (omega arith)

-- The same stream cut in two ways.
abbrev one_cut : List (List ℕ)
one_cut = (2 ∷ 0 ∷ 8 ∷ []) ∷ (9 ∷ 1 ∷ []) ∷ []

abbrev two_cuts : List (List ℕ)
two_cuts = (2 ∷ []) ∷ (0 ∷ 8 ∷ 9 ∷ []) ∷ (1 ∷ []) ∷ []

tcp_rx-Drains_example :
    Drains bits alloc 2 small_parser small []
      (stream one_cut)
      (tcp_rx bits alloc small (answers one_cut))
tcp_rx-Drains_example =
    tcp_rx-Drains bits alloc 2 small_parser small [] one_cut small_parser-Suitable
      small_parser-SmallPackets small-IsFramed small-Holds (omega arith)

tcp_rx_chunking_example :
    (a b : Ncb) × (tcp_rx bits alloc small (answers one_cut) ≡ some (pos eagain, a, []))
    × (tcp_rx bits alloc small (answers two_cuts) ≡ some (pos eagain, b, []))
    × (a.posted ≡ b.posted)
unfolding run judge
tcp_rx_chunking_example =
    tcp_rx_chunking bits alloc 2 small_parser small [] one_cut two_cuts ((2 ∷ 0 ∷ 8 ∷ 9 ∷ []) ∷ [])
      (1 ∷ []) small_parser-Suitable small_parser-SmallPackets small-IsFramed small-Holds
      (omega arith) (omega arith) refl refl

cut_header_lost_example :
    (ncb' : Ncb) × (l : Buffer) × (tcp_parse_pkt bits alloc cut (0 ∷ 3 ∷ 4 ∷ [])
      ≡ some (pos 0, ncb'))
    × (ncb'.tcp.lbdata ≡ some l)
    × (l.bytes ≡ 0 ∷ 3 ∷ 4 ∷ [])
    × (ncb'.tcp.lboffset ≡ 3)
    × (ncb'.tcp.lbsize ≡ 80002)
    × (¬ Holds 2 parser ncb' (200 ∷ 0 ∷ 3 ∷ 4 ∷ []))
cut_header_lost_example =
    cut_header_lost bits alloc 2 parser cut (buffer (200 ∷ [])) (200 ∷ []) (0 ∷ 3 ∷ 4 ∷ []) 80002
      parser-Suitable cut-IsFramed (link-InPacket parser (200 ∷ []) idle refl) (omega arith)
      (omega arith) (omega arith) (omega arith) refl (omega arith)
