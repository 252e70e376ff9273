-- ===== src/Tcp/Init/Lifetime.antt =====
-- The beginning and the end of a protocol.
use swnet_linux.Base.{
  ℕ, zero, suc, ◌+◌, ◌-◌, ◌<◌, ◌≤◌, ◌≡◌, refl, List, [], ◌∷◌, some, Bool, true, false, ealready,
  if◌then◌else◌, inl, inr, length, Bool-cases,
}
use swnet_linux.Base.Int.{ℤ, pos, neg, is_neg, is_nonpos}
use swnet_linux.Base.Run.{done, fault}
use swnet_linux.Ncb.{Ncb, ipproto_tcp}
use swnet_linux.Ncb.Uninit.{ncb_uninit_closes, of_protocol, of_others, hlds_of}
use swnet_linux.Io.Init.{
  EpollBlock, ThreadReplies, Slot, unset, InitReplies, start_thread, start_threads, make_pipes,
  io_init, io_uninit, end_blocks, end_slot,
}
use swnet_linux.Io.Init.Bounds.{blocks_of, init_slot_made, made_slot, IsGranted}
use swnet_linux.Wpool.{Wpool}
use swnet_linux.Wpool.Queued as Queued
use swnet_linux.Wpool.Init.{PoolReplies, init_pool, wp_init_pool, wp_init, end_pool, wp_uninit}
use swnet_linux.Tcp.Init.{
  Globals, Ended, tcp_init, tcp_uninit, protocol_init, protocol_uninit, init_pools,
}

-- The flag of every block is set.
AreActive : List EpollBlock → Type 0
AreActive [] = Unit {0}
AreActive (b ∷ bs) = ((a : Bool) × (b.actived ≡ some a)) × AreActive bs

-- Every epoll instance is made.
abbrev pub AreMade : (ℕ → ThreadReplies) → Type 0
AreMade r = (i : ℕ) → is_neg (r i).epoll_create ≡ false

thread_flag :
    (r : ThreadReplies)
    → is_neg r.epoll_create ≡ false
    → (a : Bool) × ((start_thread r).actived ≡ some a)
unfolding start_thread
thread_flag r e = elim (Bool-cases r.thread) [
  | inl works ↦ (true, rw (e, works) refl)
  | inr fails ↦ (false, rw (e, fails) refl)
]

blocks-AreActive :
    (r : ℕ → ThreadReplies) (i j n : ℕ)
    → AreMade r
    → AreActive (make_pipes r j (start_threads r i n))
unfolding make_pipes start_threads AreActive
blocks-AreActive r i j zero m = _
blocks-AreActive r i j (suc n) m = (thread_flag (r i) (m i), blocks-AreActive r (i + 1) (j + 1) n m)

end_blocks_done :
    (bs : List EpollBlock) → AreActive bs → (closed : List ℤ) × (end_blocks bs ≡ done closed)
unfolding end_blocks AreActive
end_blocks_done [] a = ([], refl)
end_blocks_done (b ∷ bs) ((flag, e), a) =
    let (closed, ended) = end_blocks_done bs a in
    elim (Bool-cases (is_nonpos b.epfd)) [
      | inl none_open ↦ (closed, rw (end_blocks, e, none_open) ended)
      | inr is_open ↦ (b.epfd ∷ closed, rw (end_blocks, e, is_open, ended) refl)
    ]

-- The system grants what wp_init asks for, but for the thread.
pub record IsPool (p : PoolReplies) : Type 0 where
  pub object : p.object ≡ true
  pub referenced : p.referenced ≡ true

abbrev pool_with : Bool → Queued.Handle
pool_with thread =
    Queued.live (record { tasks = []; task_list_size = 0; actived = true; thread = thread })

init_pool_made :
    (p : PoolReplies)
    → IsPool p
    → init_pool p Queued.unset ≡ (if p.thread then pos 0 else neg 1, pool_with p.thread)
unfolding init_pool wp_init_pool
init_pool_made p v = rw (v.object, v.referenced) refl

-- Nothing of TCP has begun; of UDP, whatever there is.
abbrev pub before : Slot → Queued.Handle → List Ncb → ℕ → Globals
before udp_io udp_pool links nl_count = record {
  io = record { tcphld = unset; udphld = udp_io };
  pools = record { tcphld = Queued.unset; udphld = udp_pool };
  links = links;
  nl_count = nl_count;
}

module _ (r : InitReplies) (p : PoolReplies) (udp_io : Slot) (udp_pool : Queued.Handle) where
  -- TCP has begun, with a pool that has its thread, or none.
  abbrev pub begun : Bool → List Ncb → ℕ → Globals
  begun thread links nl_count = record (before udp_io udp_pool links nl_count) {
    io = record { tcphld = made_slot r ipproto_tcp; udphld = udp_io };
    pools = record { tcphld = pool_with thread; udphld = udp_pool };
  }

  tcp_init_begins :
      (links : List Ncb) (nl_count : ℕ)
      → IsGranted r
      → IsPool p
      → p.thread ≡ true
      → tcp_init r p (before udp_io udp_pool links nl_count)
        ≡ done (pos 0, begun true links nl_count)
  unfolding tcp_init protocol_init io_init init_pools wp_init
  tcp_init_begins links nl_count g v t =
      rw (init_slot_made r ipproto_tcp g, init_pool_made p v, t) refl

  io_uninit_ends :
      AreMade r.threads
      → (closed : List ℤ) × (io_uninit ipproto_tcp
            (record { tcphld = made_slot r ipproto_tcp; udphld = udp_io })
          ≡ done (closed, record { tcphld = unset; udphld = udp_io }))
  unfolding io_uninit end_slot
  io_uninit_ends m =
      let (closed, ended) =
        end_blocks_done (blocks_of r ipproto_tcp) (blocks-AreActive r.threads 0 0 _ m) in
      (closed, rw ended refl)

  wp_uninit_ends :
      wp_uninit ipproto_tcp (record { tcphld = pool_with true; udphld = udp_pool })
      ≡ done ([], record { tcphld = Queued.unset; udphld = udp_pool })
  unfolding wp_uninit end_pool
  wp_uninit_ends = refl

  abbrev finished : List Ncb → ℕ → List ℤ → Ended
  finished links nl_count closed = record {
    links = hlds_of (of_protocol ipproto_tcp links);
    descriptors = closed;
    tasks = [];
    globals =
        before udp_io udp_pool (of_others ipproto_tcp links)
          (nl_count - length (hlds_of (of_protocol ipproto_tcp links)));
  }

  -- From where nothing of TCP has begun, with the system granting what is asked for, and the count
  -- of links at least the number of links and not 0: tcp_init returns 0, and tcp_uninit after it
  -- ends without a fault, closes exactly the TCP links, in order, frees no task, and leaves the
  -- handles of the epoll threads and of the pools as they were before, those of UDP included.
  pub tcp_init-uninit :
      (links : List Ncb) (nl_count : ℕ)
      → IsGranted r
      → IsPool p
      → p.thread ≡ true
      → AreMade r.threads
      → length links ≤ nl_count
      → 0 < nl_count
      → (g : Globals) × (e : Ended) × (tcp_init r p (before udp_io udp_pool links nl_count)
          ≡ done (pos 0, g))
        × (tcp_uninit true g ≡ done e)
        × (e.links ≡ hlds_of (of_protocol ipproto_tcp links))
        × (e.tasks ≡ [])
        × (e.globals.io ≡ record { tcphld = unset; udphld = udp_io })
        × (e.globals.pools ≡ record { tcphld = Queued.unset; udphld = udp_pool })
  unfolding tcp_uninit protocol_uninit
  tcp_init-uninit links nl_count g v t m counted some_link =
      let (closed, ended) = io_uninit_ends m in
      (
        begun true links nl_count,
        finished links nl_count closed,
        tcp_init_begins links nl_count g v t,
        rw (ncb_uninit_closes ipproto_tcp nl_count links counted some_link, ended, wp_uninit_ends)
            refl,
        refl,
        refl,
        refl,
        refl,
      )

  -- Where the system grants what is asked for, but for the thread of the pool, from where nothing
  -- of TCP has begun, and with the count of links at least the number of links and not 0: tcp_init
  -- returns -1 and ends the epoll threads, but leaves a pool without a thread. A later tcp_init
  -- returns EALREADY, whatever the system answers for a pool, with the epoll threads begun and that
  -- same pool, which has no thread; and tcp_uninit after the one or after both joins a thread that
  -- was never made, which is undefined.
  pub tcp_init_stuck :
      (later : PoolReplies) (links : List Ncb) (nl_count : ℕ)
      → IsGranted r
      → IsPool p
      → p.thread ≡ false
      → AreMade r.threads
      → length links ≤ nl_count
      → 0 < nl_count
      → (g g' : Globals) × (pool : Wpool) × (tcp_init r p (before udp_io udp_pool links nl_count)
          ≡ done (neg 1, g))
        × (g.io ≡ record { tcphld = unset; udphld = udp_io })
        × (g.pools.tcphld ≡ Queued.live pool)
        × (pool.thread ≡ false)
        × (tcp_init r later g ≡ done (pos ealready, g'))
        × (g'.io ≡ record { tcphld = made_slot r ipproto_tcp; udphld = udp_io })
        × (g'.pools.tcphld ≡ Queued.live pool)
        × (tcp_uninit true g ≡ fault)
        × (tcp_uninit true g' ≡ fault)
  unfolding tcp_init protocol_init io_init io_uninit init_pools wp_init init_pool tcp_uninit
      protocol_uninit wp_uninit end_pool end_slot
  tcp_init_stuck later links nl_count g v t m counted some_link =
      let (closed, ended) = io_uninit_ends m in
      (
        record (begun false links nl_count) { io = record { tcphld = unset; udphld = udp_io } },
        begun false links nl_count,
        record { tasks = []; task_list_size = 0; actived = true; thread = false },
        rw (init_slot_made r ipproto_tcp g, init_pool_made p v, t, ended) refl,
        refl,
        refl,
        refl,
        rw (init_slot_made r ipproto_tcp g) refl,
        refl,
        refl,
        rw (ncb_uninit_closes ipproto_tcp nl_count links counted some_link) refl,
        rw (ncb_uninit_closes ipproto_tcp nl_count links counted some_link, ended) refl,
      )
