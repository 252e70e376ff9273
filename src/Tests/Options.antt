-- ===== src/Tests/Options.antt =====
-- Socket options: tests and instances, with a kernel that stores what it is handed.
use swnet_linux.Base.{ℕ, ◌≡◌, refl, List, [], ◌∷◌, some, if◌then◌else◌, arith}
use swnet_linux.Base.Int.{ℤ, pos, neg}
use swnet_linux.Ncb.Options.{
  Sockets, Linger, ncb_get_linger, ncb_set_linger, ncb_set_iptos, set_opt, sol_socket, so_keepalive,
}
use swnet_linux.Tcp.Options.{
  tcp_get_keepalive, tcp_get_nodelay, tcp_set_keepalive_value, tcp_update_opts,
}
use swnet_linux.Tcp.Options.Values.{Remembers, Accepts, ReadsValues, is_same}
use swnet_linux.Tcp.Options.Keepalive.{
  SetsValues, tcp_set_keepalive_value-Sets, tcp_update_opts-values, ncb_get_linger_other,
}
use swnet_linux.Tests.Samples.{fresh}

-- By level and option; the descriptors share one table.
abbrev Table : Type 0
Table = ℕ → ℕ → List ℤ

abbrev table : Sockets Table
table = record {
  setsockopt = λ s fd level opt value.
      (pos 0, λ level' opt'. if is_same level opt level' opt' then value else s level' opt');
  getsockopt = λ s fd level opt. (pos 0, s level opt);
}

abbrev unset : Table
unset level opt = pos 0 ∷ []

abbrev alive : Table
alive level opt = if is_same level opt sol_socket so_keepalive then pos 1 ∷ [] else pos 0 ∷ []

table-Remembers : Remembers table
table-Remembers = record {
  same = λ s fd level opt v h n. ground arith;
  apart = λ s fd level opt level' opt' value h. ground arith;
}

table-Accepts : Accepts table
table-Accepts s fd level opt v h = refl

tcp_set_keepalive_value-Sets_example :
    SetsValues table fresh
      (pos 30)
      (pos 5)
      (pos 6)
      (tcp_set_keepalive_value table (pos 77 ∷ []) alive (some fresh) (pos 30) (pos 5) (pos 6))
tcp_set_keepalive_value-Sets_example =
    tcp_set_keepalive_value-Sets table table-Remembers alive fresh (pos 30) (pos 5) (pos 6) (pos 77)
      refl

abbrev updated : Table
updated = tcp_update_opts table (pos 77 ∷ []) unset (some fresh)

tcp_update_opts-values_example :
    (tcp_get_keepalive table updated (some fresh) (some (pos 9 ∷ [])) ≡ (pos 0, some (pos 1 ∷ [])))
    × ReadsValues table updated fresh (pos 30) (pos 5) (pos 6)
    × (tcp_get_nodelay table updated (some fresh) (some (pos 9 ∷ [])) ≡ (pos 0, some (pos 1 ∷ [])))
tcp_update_opts-values_example =
    tcp_update_opts-values table table-Remembers unset updated fresh (pos 77) (pos 9) table-Accepts
      refl

abbrev stale_linger : Linger
stale_linger = record { onoff = pos 3; lin = pos 4 }

ncb_get_linger_other_example :
    ncb_get_linger table stale_linger
      (ncb_set_linger table alive (some fresh) (pos 0) (pos 25)).1
      (some fresh)
      (some (pos 0))
      (some (pos 0))
    ≡ (pos 0, some (pos 1), some (pos 4))
ncb_get_linger_other_example =
    ncb_get_linger_other table alive fresh (pos 0) (pos 25) (pos 1) (pos 0) (pos 0) stale_linger
      table-Remembers refl

iptos-zero : (ncb_set_iptos table unset (some fresh) (pos 256)).0 ≡ neg 22
unfolding ncb_set_iptos set_opt
iptos-zero = refl
