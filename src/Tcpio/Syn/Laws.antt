-- ===== src/Tcpio/Syn/Laws.antt =====
-- Accepting until the listening socket has nothing left.
use Prim.Native.Nat.{◌%◌}
use swnet_linux.Base.{
  ℕ, ◌≡◌, refl, sym, ap, ◌∙◌, List, [], ◌∷◌, ◌++◌, none, some, true, false, ◌==◌, eagain,
  append_assoc, append-nil, Bool-cases, inl, inr,
}
use swnet_linux.Base.Int.{ℤ, pos, is_neg}
use swnet_linux.Base.Run.{waiting, done}
use swnet_linux.Ncb.{
  Ncb, AttrBits, has_attr, Event, Routine, tcp_accepted, post_called, ncb_post_accepted,
  ipproto_tcp, tcp_buffer_size,
}
use swnet_linux.Buffer.{malloc}
use swnet_linux.Ncb.Life.{ncb_allocator}
use swnet_linux.Fifo.{fifo_init}
use swnet_linux.Io.{io_modify, registered, epollin}
use swnet_linux.Io.Attach.{
  IoHandles, IoObject, Handle, live, io_attach, io_fcntl, fcntl_nonblock, fcntl_setfl,
  fcntl_cloexec, attach_in, attach_to, io_handle,
}
use swnet_linux.Tcpio.Connect.{Names, named}
use swnet_linux.Tcpio.Syn.{
  Round, accepted, accept_failed, Accepted, tcp_syn, tcp_syn_once, syn_tried, syn_accepted,
  syn_ctrlcode, tcp_syn_dpc, accepted_link, syn_attached, syn_prepared, tcp_listen_state,
}

-- A peer that connects: the descriptor and the handle of its link, and the addresses.
pub record Peer : Type 0 where
  pub fd : ℕ
  pub hld : ℕ
  pub names : Names

-- No call on the peer's link fails.
abbrev pub round_of : Peer → Round
round_of p = record {
  state = some tcp_listen_state;
  reply = accepted (record {
    fd = p.fd;
    hld = some p.hld;
    names = p.names;
    packet_memory = true;
    rx_memory = true;
    attach = record {
      fcntl = record { getfl = none; setfl = none; getfd = none; setfd = none };
      add = none;
    };
    modify = none;
  });
}

-- The rounds for peers that wait, and the answer that none waits any more.
abbrev pub rounds : List Peer → List Round
rounds [] = record { state = some tcp_listen_state; reply = accept_failed eagain } ∷ []
rounds (p ∷ ps) = round_of p ∷ rounds ps

abbrev pub told : List Peer → List Event
told [] = []
told (p ∷ ps) = tcp_accepted p.hld ∷ told ps

-- The link of a peer is open, registered for reading, with the routines of an established link.
pub record IsReady (p : Peer) (a : Accepted) : Type 0 where
  pub hld : a.0.hld ≡ p.hld
  pub is_open : a.1 ≡ false
  pub read_routine : a.0.ncb_read ≡ some Routine.tcp_rx
  pub write_routine : a.0.ncb_write ≡ some Routine.tcp_tx
  pub interest : a.0.interest ≡ some (registered epollin)
  pub parse_offset : a.0.tcp.rx_parse_offset ≡ 0

-- One link for each peer, in order.
pub data AreReady : List Peer → List Accepted → Type 0 where
  no_peers : AreReady [] []
  and_peer :
      {p : Peer} {a : Accepted} {ps : List Peer} {links : List Accepted}
      → IsReady p a
      → AreReady ps links
      → AreReady (p ∷ ps) (a ∷ links)

-- In every round getsockopt(2) tells a state, and it is not LISTEN.
abbrev pub AreElsewhere : List Round → Type 0
AreElsewhere [] = Unit {0}
AreElsewhere (r ∷ rs) =
    ((state : ℕ) × (r.state ≡ some state) × ((state == tcp_listen_state) ≡ false)) × AreElsewhere rs

module _ (makeerror : ℕ → ℤ) (bits : AttrBits) where
  -- While the socket of a listening link is in another state than LISTEN, tcp_syn does not return:
  -- __tcp_syn gives 0 in every round.
  pub tcp_syn_spins :
      (handles : IoHandles) (ncb_server : Ncb) (rs : List Round)
      → AreElsewhere rs
      → tcp_syn makeerror bits handles ncb_server rs ≡ waiting
  unfolding tcp_syn tcp_syn_once
  tcp_syn_spins handles ncb_server [] h = refl
  tcp_syn_spins handles ncb_server (r ∷ rs) ((state, e, n), h) =
      rw (e, n) (rw (tcp_syn_spins handles ncb_server rs h) refl)

  module _ (o : IoObject) (udphld : Handle) (valid : (k : ℕ) → is_neg (o.epfd k) ≡ false) where
    abbrev pub handles : IoHandles
    handles = record { tcphld = live o; udphld = udphld }

    -- The link that a peer gets, before it is attached.
    abbrev prepared : Ncb → Peer → Ncb
    prepared ncb_server p =
        syn_prepared makeerror bits handles ncb_server
          (record (named (accepted_link ncb_server p.fd p.hld) p.names) {
            packet = some (malloc tcp_buffer_size);
          })

    prepared-keeps :
        (ncb_server : Ncb) (p : Peer)
        → let ncb = prepared ncb_server p in
          (ncb.sockfd ≡ pos p.fd)
          × (ncb.protocol ≡ ipproto_tcp)
          × (ncb.hld ≡ p.hld)
          × (ncb.flags.nonblock ≡ false)
          × (ncb.ncb_read ≡ some Routine.tcp_rx)
          × (ncb.ncb_write ≡ some Routine.tcp_tx)
          × (ncb.tcp.rx_parse_offset ≡ 0)
    unfolding syn_prepared ncb_allocator fifo_init accepted_link
    prepared-keeps ncb_server p =
        elim (Bool-cases (has_attr ncb_server.attr bits.update_accept_context)) [
          | inl t ↦ rw t (refl, refl, refl, refl, refl, refl, refl)
          | inr f ↦ rw f (refl, refl, refl, refl, refl, refl, refl)
        ]

    abbrev attached : Ncb → Ncb
    attached ncb = record ncb {
      flags = record { nonblock = true; cloexec = true };
      epfd = o.epfd (ncb.hld % o.divisions);
      interest = some (registered 0);
    }

    attach_granted :
        (ncb : Ncb) (fd : ℕ)
        → ncb.sockfd ≡ pos fd
        → ncb.protocol ≡ ipproto_tcp
        → ncb.flags.nonblock ≡ false
        → io_attach makeerror handles ncb 0 (record {
          fcntl = record { getfl = none; setfl = none; getfd = none; setfd = none };
          add = none;
        })
          ≡ (o.epfd (ncb.hld % o.divisions), attached ncb)
    unfolding io_attach io_fcntl fcntl_nonblock fcntl_setfl fcntl_cloexec attach_in attach_to
        io_handle
    attach_granted ncb fd s p f = rw (s, f) (rw p refl)

    once-IsReady :
        (ncb_server : Ncb) (p : Peer) (callback : ℕ)
        → ncb_server.nis_callback ≡ some callback
        → (a : Accepted) × (tcp_syn_once makeerror bits handles ncb_server (round_of p) ≡ (
          pos 0,
          record ncb_server { posted = ncb_server.posted ++ (tcp_accepted p.hld ∷ []) },
          a ∷ [],
        ))
          × IsReady p a
    unfolding tcp_syn_once syn_tried syn_accepted tcp_syn_dpc syn_attached ncb_post_accepted
        io_modify
    once-IsReady ncb_server p callback h =
        let ncb = prepared ncb_server p in
        let k = prepared-keeps ncb_server p in
        (
          (record (attached ncb) { interest = some (registered epollin) }, false),
          rw (attach_granted ncb p.fd k.0 k.1 k.3) (
              rw (valid (ncb.hld % o.divisions)) (
                rw (post_called ncb_server (tcp_accepted ncb.hld) callback h) (
                  ap
                    (λ i. (
                      pos 0,
                      record ncb_server { posted = ncb_server.posted ++ (tcp_accepted i ∷ []) },
                      (record (attached ncb) { interest = some (registered epollin) }, false) ∷ [],
                    ))
                    k.2))),
          record {
            hld = k.2;
            is_open = refl;
            read_routine = k.4;
            write_routine = k.5;
            interest = refl;
            parse_offset = k.6;
          },
        )

    last_once :
        (ncb_server : Ncb)
        → tcp_syn_once makeerror bits handles ncb_server
            (record { state = some tcp_listen_state; reply = accept_failed eagain })
          ≡ (pos eagain, ncb_server, [])
    unfolding tcp_syn_once syn_tried syn_ctrlcode
    last_once ncb_server = refl

    -- Where the listening socket is in LISTEN and has a callback, TCP's epoll object is live with
    -- valid instances, and no call fails but the accept(2) behind the last peer, with EAGAIN: however
    -- many peers wait, tcp_syn accepts every one of them and then returns EAGAIN; each peer gets an
    -- open link that is registered for reading, in order, and the user is told of each once.
    pub tcp_syn_accepts :
        (ncb_server : Ncb) (ps : List Peer) (callback : ℕ)
        → ncb_server.nis_callback ≡ some callback
        → (server : Ncb) × (links : List Accepted) × (tcp_syn makeerror bits handles ncb_server
              (rounds ps)
            ≡ done (pos eagain, server, links, []))
          × AreReady ps links
          × (server.posted ≡ ncb_server.posted ++ told ps)
    unfolding tcp_syn
    tcp_syn_accepts ncb_server [] callback h = (
      ncb_server,
      [],
      rw (last_once ncb_server) refl,
      no_peers,
      sym (append-nil ncb_server.posted),
    )
    tcp_syn_accepts ncb_server (p ∷ ps) callback h =
        let (a, once, ready) = once-IsReady ncb_server p callback h in
        let server1 : Ncb = record ncb_server {
          posted = ncb_server.posted ++ (tcp_accepted p.hld ∷ []);
        } in
        let (server, links, rest, all, posted) = tcp_syn_accepts server1 ps callback h in
        (
          server,
          a ∷ links,
          rw once (rw rest refl),
          and_peer ready all,
          posted ∙ append_assoc ncb_server.posted (tcp_accepted p.hld ∷ []) (told ps),
        )
