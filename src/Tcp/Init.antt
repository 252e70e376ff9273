-- ===== src/Tcp/Init.antt =====
-- tcp.c and udp.c: tcp_init, tcp_uninit, udp_init and udp_uninit.
pub mod Lifetime
use swnet_linux.Base.{
  ℕ, ◌-◌, length, ◌≡◌, refl, ap, ◌∙◌, List, [], ◌∷◌, Option, none, some, Bool, true, false,
  if◌then◌else◌, arith, ealready, inl, inr,
}
use swnet_linux.Base.Int.{ℤ, pos, neg, is_neg, is_zero}
use swnet_linux.Base.Run.{Run, fault, waiting, done, ◌>>=◌}
use swnet_linux.Ncb.{Ncb, ipproto_tcp, ipproto_udp}
use swnet_linux.Ncb.Uninit.{Uninit, ncb_uninit}
use swnet_linux.Io.Init.{
  IoTable, Slot, unset, gone, used, InitReplies, init_slot, io_init, io_uninit, end_slot,
}
use swnet_linux.Wpool.Queued as Queued
use swnet_linux.Wpool.Queued.{Pools}
use swnet_linux.Wpool.Init.{PoolReplies, init_pool, wp_init_pool, wp_init, wp_uninit}

-- The program's globals: the epoll threads, the pools, the list of all links and its count.
pub record Globals : Type 0 where
  pub io : IoTable
  pub pools : Pools
  pub links : List Ncb
  pub nl_count : ℕ

-- tcp_init and udp_init behind io_init: where the pool cannot be made, the epoll threads are ended.
unfoldable pub init_pools : ℕ → PoolReplies → ℤ → Globals → Run (ℤ × Globals)
init_pools protocol p retval g =
    let (wp_ret, pools) = wp_init p protocol g.pools in
    let ended =
      io_uninit protocol g.io >>= (λ e. done (wp_ret, record g { io = e.1; pools = pools })) in
    if is_zero retval
    then if is_neg wp_ret then ended else done (wp_ret, record g { pools = pools })
    else done (retval, g)

unfoldable pub protocol_init : ℕ → InitReplies → PoolReplies → Globals → Run (ℤ × Globals)
unfolding init_pools
protocol_init protocol r p g =
    let (retval, io) = io_init r protocol g.io in
    init_pools protocol p retval (record g { io = io })

unfoldable pub tcp_init : InitReplies → PoolReplies → Globals → Run (ℤ × Globals)
unfolding protocol_init
tcp_init r p g = protocol_init ipproto_tcp r p g

unfoldable pub udp_init : InitReplies → PoolReplies → Globals → Run (ℤ × Globals)
unfolding protocol_init
udp_init r p g = protocol_init ipproto_udp r p g

-- What tcp_uninit and udp_uninit end: the handles of links that are closed, the descriptors, and
-- the tasks that are freed. `memory` tells whether ncb_uninit gets its memory.
pub record Ended : Type 0 where
  pub links : List ℕ
  pub descriptors : List ℤ
  pub tasks : List ℕ
  pub globals : Globals

unfoldable pub protocol_uninit : ℕ → Bool → Globals → Run Ended
protocol_uninit protocol memory g = ncb_uninit protocol memory g.nl_count g.links >>= (λ u.
    io_uninit protocol g.io >>= (λ e. wp_uninit protocol g.pools >>= (λ w. done (record {
      links = u.closed;
      descriptors = e.0;
      tasks = w.0;
      globals = record g {
        io = e.1;
        pools = w.1;
        links = u.links;
        nl_count = g.nl_count - length u.closed;
      };
    }))))

unfoldable pub tcp_uninit : Bool → Globals → Run Ended
unfolding protocol_uninit
tcp_uninit memory g = protocol_uninit ipproto_tcp memory g

unfoldable pub udp_uninit : Bool → Globals → Run Ended
unfolding protocol_uninit
udp_uninit memory g = protocol_uninit ipproto_udp memory g
