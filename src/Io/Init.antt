-- ===== src/Io/Init.antt =====
-- io.c: the epoll threads of a protocol, io_init, __io_init, io_uninit and __io_uninit. That a
-- thread runs its loop is not modelled, only that it was made and joined.
pub mod Bounds
use swnet_linux.Base.{
  ℕ, zero, suc, ◌+◌, ◌-◌, ◌/◌, List, [], ◌∷◌, map, Option, none, some, Bool, true, false, ◌==◌,
  ◌||◌, ltb, if◌then◌else◌, length, einval, enoent, enomem, ealready, eprototype,
}
use swnet_linux.Base.Int.{ℤ, pos, negsuc, neg, is_neg, is_nonpos, to_ℕ}
use swnet_linux.Base.Run.{Run, fault, done, ◌>>=◌}
use swnet_linux.Ncb.{ipproto_tcp, ipproto_udp, eth_p_arp}
use swnet_linux.Io.Attach.{Handle, IoHandles, IoObject}
use swnet_linux.Io.Attach as Attach

-- struct epoll_object_block. `actived` and `pipefdw` are none before they are set.
pub record EpollBlock : Type 0 where
  pub epfd : ℤ
  pub actived : Option Bool
  pub pipefdw : Option ℤ

-- struct io_object_block. `epoptr` is none where its allocation failed.
pub record IoBlock : Type 0 where
  pub protocol : ℕ
  pub divisions : ℕ
  pub epoptr : Option (List EpollBlock)

-- What the handle of a protocol is: not set (-1), of an object that is gone, or of a live one.
pub data Slot : Type 0 where
  unset gone : Slot
  used : IoBlock → Slot

-- `tcphld` and `udphld`
pub record IoTable : Type 0 where
  pub tcphld : Slot
  pub udphld : Slot

-- What the system answers for one thread: the descriptor of epoll_create(2), whether the thread can
-- be made, and what pipe_create returns.
pub record ThreadReplies : Type 0 where
  pub epoll_create : ℤ
  pub thread : Bool
  pub pipe : ℤ

-- The first loop of __io_init, on one block: without an epoll instance `actived` is not set.
unfoldable pub start_thread : ThreadReplies → EpollBlock
start_thread r =
    if is_neg r.epoll_create
    then record { epfd = r.epoll_create; actived = none; pipefdw = none }
    else if r.thread
    then record { epfd = r.epoll_create; actived = some true; pipefdw = none }
    else record { epfd = neg 1; actived = some false; pipefdw = none }

-- The first loop, for `n` blocks from index `i` on, and the second, which makes the pipes.
unfoldable pub start_threads : (ℕ → ThreadReplies) → ℕ → ℕ → List EpollBlock
unfolding start_thread
start_threads r i zero = []
start_threads r i (suc n) = start_thread (r i) ∷ start_threads r (i + 1) n

unfoldable pub make_pipes : (ℕ → ThreadReplies) → ℕ → List EpollBlock → List EpollBlock
make_pipes r i [] = []
make_pipes r i (b ∷ bs) = record b { pipefdw = some (r i).pipe } ∷ make_pipes r (i + 1) bs

-- __io_init, for `nprocs` threads.
unfoldable pub io_init_block : Bool → (ℕ → ThreadReplies) → IoBlock → ℕ → ℤ × IoBlock
io_init_block memory r block zero = (neg einval, block)
io_init_block memory r block (suc n) =
    if memory
    then (
      pos 0,
      record block {
        divisions = suc n;
        epoptr = some (make_pipes r 0 (start_threads r 0 (suc n)));
      },
    )
    else (neg enomem, record block { divisions = suc n; epoptr = none })

-- The number of threads: one for each processor, for UDP and ARP for every two, and at least one.
-- `nprocs` is what posix__getnprocs returns.
unfoldable pub threads_of : ℕ → ℤ → ℕ
threads_of protocol (negsuc n) = 1
threads_of protocol (pos n) =
    let wanted = if protocol == ipproto_tcp then n else n / 2 in if wanted == 0 then 1 else wanted

-- What the system answers to io_init: whether objallo gives an object, and whether the object can
-- be referenced. That two threads call io_init at once is not modelled.
pub record InitReplies : Type 0 where
  pub object : Bool
  pub referenced : Bool
  pub nprocs : ℤ
  pub memory : Bool
  pub threads : ℕ → ThreadReplies

-- io_init on the handle of the protocol. The object stays, whatever __io_init returns.
unfoldable pub init_slot : InitReplies → ℕ → Slot → ℤ × Slot
unfolding io_init_block threads_of
init_slot r protocol unset =
    let block : IoBlock = record { protocol = protocol; divisions = 0; epoptr = none } in
    let (retval, block') = io_init_block r.memory r.threads block (threads_of protocol r.nprocs) in
    if r.object
    then if r.referenced then (retval, used block') else (neg enoent, gone)
    else (neg 1, unset)
init_slot r protocol gone = (pos ealready, gone)
init_slot r protocol (used block) = (pos ealready, used block)

unfoldable pub io_init : InitReplies → ℕ → IoTable → ℤ × IoTable
unfolding init_slot
io_init r protocol table =
    let (tcp_ret, tcphld) = init_slot r protocol table.tcphld in
    let (udp_ret, udphld) = init_slot r protocol table.udphld in
    if protocol == ipproto_tcp
    then (tcp_ret, record table { tcphld = tcphld })
    else if (protocol == ipproto_udp) || (protocol == eth_p_arp)
    then (udp_ret, record table { udphld = udphld })
    else (neg eprototype, table)

-- The loop of __io_uninit: the descriptors closed, in order. To read a flag that was never set is
-- undefined.
unfoldable pub end_blocks : List EpollBlock → Run (List ℤ)
end_blocks [] = done []
end_blocks (b ∷ bs) =
    let rest = end_blocks bs in
    elim b.actived [
      | none ↦ fault
      | some a ↦ if is_nonpos b.epfd then rest else rest >>= (λ closed. done (b.epfd ∷ closed))
    ]

-- objclos of a handle. An object whose blocks were not allocated is read through a null pointer.
unfoldable pub end_slot : Slot → Run (List ℤ × Slot)
unfolding end_blocks
end_slot unset = done ([], unset)
end_slot gone = done ([], gone)
end_slot (used block) = elim block.epoptr [
  | none ↦ fault
  | some blocks ↦ end_blocks blocks >>= (λ closed. done (closed, unset))
]

-- io_uninit: unlike io_init it does not know ETH_P_ARP.
unfoldable pub io_uninit : ℕ → IoTable → Run (List ℤ × IoTable)
unfolding end_slot
io_uninit protocol table =
    let tcp = end_slot table.tcphld >>= (λ e. done (e.0, record table { tcphld = e.1 })) in
    let udp = end_slot table.udphld >>= (λ e. done (e.0, record table { udphld = e.1 })) in
    if protocol == ipproto_tcp
    then tcp
    else if protocol == ipproto_udp
    then udp
    else done ([], table)
