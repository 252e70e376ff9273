-- ===== src/Tests/Writes.antt =====
-- Writing to a TCP link and its template: tests and instances.
use swnet_linux.Base.{◌≡◌, refl, List, [], ◌∷◌, none, some, true, eagain, arith, ℕ}
use swnet_linux.Base.Int.{pos, is_neg}
use swnet_linux.Base.Run.{fault, done}
use swnet_linux.Buffer.{Buffer, malloc, memcpy}
use swnet_linux.Ncb.{Ncb, Template, Builder}
use swnet_linux.Fifo.Invariant.{IsQueue}
use swnet_linux.Tcpio.Send.{SendReply, Tx, wrote, send_failed, tcp_established}
use swnet_linux.Tcp.Template.{IsTcp, tcp_settst}
use swnet_linux.Submit.{built, on_caller, serialize, node_of, no_target}
use swnet_linux.Tcp.Write.{make_packet, packet_with, headed_packet, tcp_write}
use swnet_linux.Submit.Stream.{Keeps}
use swnet_linux.Tcp.Write.Call.{IsWritable, tcp_write-Keeps, tcp_write_overreads}
use swnet_linux.Tests.Samples.{alloc, bits, fresh, parser, makeerror}

abbrev pub size_head : Builder
size_head n = (pos 0, n ∷ 0 ∷ [])

abbrev headed : Template
headed = record { cb = 2; builder = some size_head; parser = some parser }

abbrev pub headed_link : Ncb
headed_link = record fresh { tcp = record fresh.tcp { template = headed } }

abbrev pub bare : Ncb
bare = record fresh { tcp = record fresh.tcp { template = record headed { builder = none } } }

abbrev pub payload : List ℕ
payload = 7 ∷ 8 ∷ 9 ∷ []

abbrev pub packet : Buffer
packet = record { cap = 5; bytes = 3 ∷ 0 ∷ 7 ∷ 8 ∷ 9 ∷ [] }

abbrev pub answers : List SendReply
answers = wrote 2 ∷ send_failed eagain ∷ []

headed_link-IsTcp : IsTcp (pos 7) headed_link
headed_link-IsTcp = record { handle = refl; protocol = refl }

pub headed_link-IsWritable : IsWritable (pos 7) headed_link 3
headed_link-IsWritable = record {
  tcp_link = headed_link-IsTcp;
  write_routine = (_, refl);
  read_routine = (_, refl);
  some_data = refl;
  not_too_much = omega arith;
}

bare-IsWritable : IsWritable (pos 7) bare 3
bare-IsWritable = record {
  tcp_link = record { handle = refl; protocol = refl };
  write_routine = (_, refl);
  read_routine = (_, refl);
  some_data = refl;
  not_too_much = omega arith;
}

pub fresh-IsQueue : IsQueue headed_link.fifo
fresh-IsQueue = record { counted = refl; bounded = omega arith; flagged = refl }

pub make_packet-payload :
    make_packet makeerror bits alloc headed_link none payload 3 ≡ done (built packet)
unfolding make_packet packet_with headed_packet serialize malloc memcpy
make_packet-payload = refl

tcp_write-Keeps_example :
    (out : Tx) × (tcp_write makeerror bits alloc
        (some tcp_established)
        true
        none
        (pos 7)
        (some headed_link)
        (some payload)
        (pos 3)
        none
        answers
      ≡ on_caller out)
    × Keeps headed_link (node_of no_target packet 5) out
tcp_write-Keeps_example =
    tcp_write-Keeps makeerror bits alloc none (pos 7) headed_link payload 3 none answers packet
      headed_link-IsWritable fresh-IsQueue make_packet-payload refl (omega arith)

tcp_write_overreads_example :
    tcp_write makeerror bits alloc
      (some tcp_established)
      true
      none
      (pos 7)
      (some bare)
      (some payload)
      (pos 3)
      none
      answers
    ≡ fault
tcp_write_overreads_example =
    tcp_write_overreads makeerror bits alloc none (pos 7) bare payload answers bare-IsWritable refl
      (omega arith) refl refl

abbrev other_template : Template
other_template = record { cb = 4; builder = none; parser = none }

settst-too_large :
    is_neg (tcp_settst (pos 7) (some headed_link) (record headed { cb = 33 })).0 ≡ true
unfolding tcp_settst
settst-too_large = refl
