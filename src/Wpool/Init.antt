-- ===== src/Wpool/Init.antt =====
-- wpool.c: the pool of a protocol, wp_init and wp_uninit. That its thread runs is modelled in
-- Wpool; here it is made or not, and joined.
use swnet_linux.Base.{
  ℕ, List, [], Bool, true, ◌==◌, ◌||◌, if◌then◌else◌, enoent, ealready, eprototype,
}
use swnet_linux.Base.Int.{ℤ, pos, neg}
use swnet_linux.Base.Run.{Run, fault, done, ◌>>=◌}
use swnet_linux.Ncb.{ipproto_tcp, ipproto_udp, eth_p_arp}
use swnet_linux.Wpool.{Wpool}
use swnet_linux.Wpool.Queued.{Handle, unset, stale, live, Pools}

-- What the system answers to wp_init: whether objallo gives an object, whether it can be
-- referenced, and whether the thread can be made. That two threads call wp_init at once is not
-- modelled.
pub record PoolReplies : Type 0 where
  pub object : Bool
  pub referenced : Bool
  pub thread : Bool

-- __wp_init: the pool is empty. The pool stays, and is active, where its thread cannot be made.
unfoldable pub wp_init_pool : Bool → ℤ × Wpool
wp_init_pool thread =
    let pool : Wpool = record { tasks = []; task_list_size = 0; actived = true; thread = thread } in
    (if thread then pos 0 else neg 1, pool)

-- wp_init on the handle of the protocol.
unfoldable pub init_pool : PoolReplies → Handle → ℤ × Handle
unfolding wp_init_pool
init_pool r unset =
    let (retval, pool) = wp_init_pool r.thread in
    if r.object
    then if r.referenced then (retval, live pool) else (neg enoent, stale)
    else (neg 1, unset)
init_pool r stale = (pos ealready, stale)
init_pool r (live pool) = (pos ealready, live pool)

unfoldable pub wp_init : PoolReplies → ℕ → Pools → ℤ × Pools
unfolding init_pool
wp_init r protocol pools =
    let (tcp_ret, tcphld) = init_pool r pools.tcphld in
    let (udp_ret, udphld) = init_pool r pools.udphld in
    if protocol == ipproto_tcp
    then (tcp_ret, record pools { tcphld = tcphld })
    else if (protocol == ipproto_udp) || (protocol == eth_p_arp)
    then (udp_ret, record pools { udphld = udphld })
    else (neg eprototype, pools)

-- objclos of a handle, and __wp_uninit: the thread of a pool that is active is joined, which is
-- undefined where it was never created, and the tasks that were not dealt with are freed.
unfoldable pub end_pool : Handle → Run (List ℕ × Handle)
end_pool unset = done ([], unset)
end_pool stale = done ([], stale)
end_pool (live pool) =
    if pool.actived
    then if pool.thread then done (pool.tasks, unset) else fault
    else done ([], unset)

-- wp_uninit: the tasks that were freed, and the handles.
unfoldable pub wp_uninit : ℕ → Pools → Run (List ℕ × Pools)
unfolding end_pool
wp_uninit protocol pools =
    let tcp = end_pool pools.tcphld >>= (λ e. done (e.0, record pools { tcphld = e.1 })) in
    let udp = end_pool pools.udphld >>= (λ e. done (e.0, record pools { udphld = e.1 })) in
    if protocol == ipproto_tcp
    then tcp
    else if (protocol == ipproto_udp) || (protocol == eth_p_arp)
    then udp
    else done ([], pools)
