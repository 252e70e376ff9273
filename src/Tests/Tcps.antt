-- ===== src/Tests/Tcps.antt =====
-- Making a TCP link and its attributes, closing all links, and the log: tests and instances.
use swnet_linux.Base.{
  ℕ, ◌+◌, ◌≤◌, ◌≡◌, refl, List, [], ◌∷◌, none, some, true, arith, length, replicate, take,
}
use swnet_linux.Base.Int.{pos}
use swnet_linux.Base.Run.{done, fault}
use swnet_linux.Ncb.{Ncb, ipproto_tcp, ipproto_udp}
use swnet_linux.Ncb.Uninit.{collect, ncb_uninit, ncb_uninit_closes}
use swnet_linux.Fifo.Invariant.{IsQueue}
use swnet_linux.Tcpal.Refine.{IsFramed, Holds}
use swnet_linux.Tcp.Template.{IsTcp, tcp_settst}
use swnet_linux.Tcp.Create.{tcp_create, granted, tcp_create-IsFramed}
use swnet_linux.Mxx.{nis_call_ecr}
use swnet_linux.Mxx.Log.{nis_call_ecr_bounds}
use swnet_linux.Tests.Samples.{fresh, parser, template}

fresh-IsTcp : IsTcp (pos 7) fresh
fresh-IsTcp = record { handle = refl; protocol = refl }

tcp_create-IsFramed_example :
    (ncb ncb' : Ncb) × (tcp_create (granted 9 7) (some 1) none 80 3 ≡ (pos 7, some ncb, 3 + 1))
    × (tcp_settst (pos 7) (some ncb) (template parser) ≡ (pos 0, some ncb'))
    × IsFramed 2 parser ncb'
    × Holds 2 parser ncb' []
    × IsQueue ncb'.fifo
tcp_create-IsFramed_example =
    tcp_create-IsFramed 1 80 3 9 7 none (template parser) parser (omega arith) (omega arith) refl

-- Two TCP links and one of UDP between them.
abbrev links : List Ncb
links = fresh ∷ record fresh { hld = 8; protocol = ipproto_udp } ∷ record fresh { hld = 9 } ∷ []

ncb_uninit_closes_example :
    ncb_uninit ipproto_tcp true 3 links
    ≡ done (record {
      closed = 7 ∷ 9 ∷ [];
      links = record fresh { hld = 8; protocol = ipproto_udp } ∷ [];
      allocated = true;
      freed = true;
    })
ncb_uninit_closes_example = ncb_uninit_closes ipproto_tcp 3 links (omega arith) (omega arith)

-- With a count that is too small, the second handle is written behind the end.
uninit-overrun : ncb_uninit ipproto_tcp true 1 links ≡ fault
unfolding ncb_uninit collect
uninit-overrun = refl

abbrev text : List ℕ
text = 65 ∷ 66 ∷ []

abbrev log_bytes : List ℕ
log_bytes = replicate 1280 9

nis_call_ecr_bounds_example :
    (length text ≤ 1278 → nis_call_ecr (some 1) log_bytes text ≡ done (some text))
    × (length text ≡ 1279 → nis_call_ecr (some 1) log_bytes text ≡ done (some (take 1278 text)))
    × (1280 ≤ length text → nis_call_ecr (some 1) log_bytes text ≡ fault)
nis_call_ecr_bounds_example = nis_call_ecr_bounds 1 log_bytes text refl (refl, (refl, _)) refl
