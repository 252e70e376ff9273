-- ===== src/Wpool/Queued.antt =====
-- wpool.c: wp_queued, which gives a link's write to the pool of its protocol. The signal that wakes
-- the pool's threads is not modelled.
use swnet_linux.Base.{Bool, ◌==◌, ◌||◌, if◌then◌else◌, enoent, enomem}
use swnet_linux.Base.Int.{ℤ, pos, neg}
use swnet_linux.Ncb.{Ncb, ipproto_tcp, ipproto_udp, eth_p_arp}
use swnet_linux.Wpool.{Wpool, wp_add_task}

-- What the handle of a pool is: not set (-1), of a pool that is gone, or of a live one.
pub data Handle : Type 0 where
  unset stale : Handle
  live : Wpool → Handle

-- `tcphld` and `udphld`
pub record Pools : Type 0 where
  pub tcphld : Handle
  pub udphld : Handle

-- One pool's part of wp_queued: the return code and the pool. `memory` tells whether malloc
-- succeeds.
unfoldable pub queued_at : Handle → Ncb → Bool → ℤ × Handle
queued_at unset ncb memory = (neg enoent, unset)
queued_at stale ncb memory = (neg enoent, stale)
queued_at (live pool) ncb memory =
    if memory then (pos 0, live (wp_add_task pool ncb.hld)) else (neg enomem, live pool)

unfoldable pub wp_queued : Pools → Ncb → Bool → ℤ × Pools
unfolding queued_at
wp_queued pools ncb memory =
    let (tcp_ret, tcphld) = queued_at pools.tcphld ncb memory in
    let (udp_ret, udphld) = queued_at pools.udphld ncb memory in
    if ncb.protocol == ipproto_tcp
    then (tcp_ret, record pools { tcphld = tcphld })
    else if (ncb.protocol == ipproto_udp) || (ncb.protocol == eth_p_arp)
    then (udp_ret, record pools { udphld = udphld })
    else (neg enoent, pools)
