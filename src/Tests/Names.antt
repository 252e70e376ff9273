-- ===== src/Tests/Names.antt =====
-- Host names and the thread of a pool: tests.
use swnet_linux.Base.{◌≡◌, refl, [], ◌∷◌, none, some, true, false}
use swnet_linux.Base.Int.{pos, neg}
use swnet_linux.Base.Run.{done}
use swnet_linux.Tcpio.Send.{tcp_tx, tcp_established}
use swnet_linux.Mxx.Names.{Hostent, Resolver, nis_gethost, nis_lgethost, remote_host, first_address}
use swnet_linux.Wpool.{wp_run, wp_get_task}
use swnet_linux.Wpool.Thread.{Round, wp_thread}
use swnet_linux.Tests.Samples.{makeerror}
use swnet_linux.Tests.Flows.{begun}

abbrev local_host : Hostent
local_host = record { h_addrtype = 2; h_addr_list = some (16777343 ∷ []); h_length = 4 }

-- It knows one name, and has none for the address 1.
abbrev resolver : Resolver
resolver = record {
  gethostname = λ n. (pos 0, b'h' ∷ 0 ∷ []);
  gethostbyname = λ name. some local_host;
  inet_aton = λ text. some 1;
  gethostbyaddr = λ addr. none;
}

gethost-name : nis_gethost resolver (some (b'h' ∷ [])) true ≡ done (pos 0, some 2130706433)
unfolding nis_gethost remote_host first_address
gethost-name = refl

gethost-address : nis_gethost resolver (some (b'1' ∷ [])) true ≡ done (neg 1, some 0)
unfolding nis_gethost remote_host first_address
gethost-address = refl

lgethost-name : nis_lgethost resolver (some (9 ∷ 9 ∷ 9 ∷ [])) (pos 3) ≡ some (b'h' ∷ 0 ∷ 9 ∷ [])
unfolding nis_lgethost
lgethost-name = refl

abbrev timed_out : Round
timed_out = record { actived = true; result = pos 0; meanwhile = λ w. w }

abbrev ended : Round
ended = record { actived = false; result = pos 0; meanwhile = λ w. w }

thread-ends :
    wp_thread makeerror 5
      (λ hld. true)
      (tcp_tx (some tcp_established))
      none
      (timed_out ∷ ended ∷ [])
      begun.worker
      0
      0
    ≡ done (some (begun.worker, 0, 1))
unfolding wp_thread wp_run wp_get_task
thread-ends = refl
