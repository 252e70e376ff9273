-- ===== src/Tcp/Connect.antt =====
-- tcp.c: tcp_connect, tcp_connect2 and tcp_listen. `found` is what objrefr answers for the caller's
-- handle. The options that are set on the socket (Tcp/Options) are no part of the link's record.
pub mod Laws
use swnet_linux.Base.{
  ◌||◌, ℕ, zero, suc, ◌≡◌, refl, ap, ◌∙◌, List, [], ◌∷◌, ◌++◌, Option, none, some, Bool, true,
  false, ◌==◌, leb, if◌then◌else◌, is_some, not, arith, eintr, einprogress, einval, replicate,
}
use swnet_linux.Base.Int.{ℤ, pos, neg, is_neg, to_ℕ}
use swnet_linux.Base.Run.{Run, fault, waiting, done, ◌>>=◌}
use swnet_linux.Ncb.{Ncb, SockAddr, Routine, tcp_connected, post, post_called, ncb_post_connected}
use swnet_linux.Io.{registered, epollin, epollout}
use swnet_linux.Io.Attach.{IoHandles, FcntlReplies, AttachReplies, io_fcntl, io_attach}
use swnet_linux.Tcp.{tcp_refr}
use swnet_linux.Tcpio.Connect.{Names, SoError, named, with_io, tcp_tx_syn}

-- TCP_CLOSE of tcpi_state
abbrev pub tcp_close : ℕ
tcp_close = 7

-- getsockopt(2) tells a state other than `expected`.
abbrev pub is_illegal : ℕ → Option ℕ → Bool
is_illegal expected none = false
is_illegal expected (some state) = if state == expected then false else true

-- The return code, the link, and whether it was closed (objclos).
abbrev pub Linked : Type 0
Linked = ℤ × Ncb × Bool

-- What the caller's handle refers to afterwards, in place of the link.
abbrev pub Ended : Type 0
Ended = ℤ × Option Ncb × Bool

-- Calls `f` on the link that __tcprefr gives.
abbrev pub on_found : ℤ × Option Ncb → Option Ncb → (Ncb → Run Linked) → Run Ended
on_found (retval, none) found f = done (retval, found, false)
on_found (retval, some ncb) found f = f ncb >>= (λ l. done (l.0, some l.1, l.2))

-- The loop around connect(2), until it is not interrupted: what it answers at last.
unfoldable pub connect_loop : List (Option ℕ) → Run (Option ℕ)
connect_loop [] = waiting
connect_loop (none ∷ rs) = done none
connect_loop (some e ∷ rs) =
    let rest = connect_loop rs in if e == eintr then rest else done (some e)

module _ (makeerror : ℕ → ℤ) (handles : IoHandles) where
  -- tcp_connect after a connect(2) that succeeded.
  unfoldable pub connected : Names → AttachReplies → Ncb → Linked
  unfolding ncb_post_connected
  connected names attach ncb =
      let (retval, ncb') = io_attach makeerror handles ncb epollin attach in
      if is_neg retval
      then (retval, ncb', true)
      else (retval, with_io (ncb_post_connected (named ncb' names)), false)

  unfoldable pub connect_done : Names → AttachReplies → Ncb → Option ℕ → Linked
  connect_done names attach ncb none = connected names attach ncb
  connect_done names attach ncb (some e) = (neg 1, ncb, false)

  -- tcp_connect on the link. `replies` is what connect(2) answers.
  unfoldable pub connect_link :
      Option ℕ → Names → AttachReplies → Ncb → List (Option ℕ) → Run Linked
  connect_link state names attach ncb replies =
      if is_illegal tcp_close state
      then done (neg 1, ncb, false)
      else connect_loop replies >>= (λ r. done (connect_done names attach ncb r))

  unfoldable pub tcp_connect :
      ℤ → Option Ncb → Option ℕ → ℕ → Option ℕ → Names → AttachReplies → List (Option ℕ) → Run Ended
  tcp_connect link found ipstr port state names attach replies =
      if is_neg link || not (is_some ipstr) || (port == 0)
      then done (neg einval, found, false)
      else on_found (tcp_refr link found) found (λ ncb. connect_link state names attach ncb replies)

  -- The end of tcp_connect2 with the answer of connect(2). After an immediate success tcp_tx_syn
  -- runs at once, and what it returns is not looked at.
  unfoldable pub connect2_done :
      Names → Option ℕ → List SoError → AttachReplies → Ncb → Option ℕ → Run Linked
  connect2_done names ctl errors attach ncb none =
      tcp_tx_syn makeerror names ctl ncb errors >>= (λ tx. done (pos 0, tx.1, tx.2))
  connect2_done names ctl errors attach ncb (some e) =
      let (retval, ncb') = io_attach makeerror handles ncb epollout attach in
      if e == einprogress then done (retval, ncb', is_neg retval) else done (neg 1, ncb, false)

  -- The link that tcp_connect2 connects: the routine of the handshake and the address of the peer.
  abbrev pub connecting : Ncb → SockAddr → Ncb
  connecting ncb target = record ncb { ncb_write = some Routine.tcp_tx_syn; remot_addr = target }

  -- tcp_connect2 from the test of the socket's state on.
  unfoldable pub connect2_in :
      Option ℕ
      → SockAddr
      → Names
      → Option ℕ
      → List SoError
      → AttachReplies
      → Ncb
      → List (Option ℕ)
      → Run Linked
  connect2_in state target names ctl errors attach ncb replies =
      if is_illegal tcp_close state
      then done (neg 1, ncb, false)
      else if is_some ncb.ncb_write
      then done (neg 1, ncb, false)
      else connect_loop replies >>= connect2_done names ctl errors attach (connecting ncb target)

  -- tcp_connect2 on the link.
  unfoldable pub connect2_link :
      FcntlReplies
      → Option ℕ
      → SockAddr
      → Names
      → Option ℕ
      → List SoError
      → AttachReplies
      → Ncb
      → List (Option ℕ)
      → Run Linked
  connect2_link fcntl state target names ctl errors attach ncb replies =
      let (retval, ncb') = io_fcntl makeerror ncb fcntl in
      if is_neg retval
      then done (neg 1, ncb', false)
      else connect2_in state target names ctl errors attach ncb' replies

  -- `target` is the address of the caller's string, where there is one, and the port.
  unfoldable pub tcp_connect2 :
      ℤ
      → Option Ncb
      → FcntlReplies
      → Option ℕ
      → Option SockAddr
      → Names
      → Option ℕ
      → List SoError
      → AttachReplies
      → List (Option ℕ)
      → Run Ended
  tcp_connect2 link found fcntl state none names ctl errors attach replies =
      done (neg einval, found, false)
  tcp_connect2 link found fcntl state (some target) names ctl errors attach replies =
      if is_neg link || (target.port == 0)
      then done (neg einval, found, false)
      else on_found (tcp_refr link found) found
          (λ ncb. connect2_link fcntl state target names ctl errors attach ncb replies)

  -- tcp_listen behind the call of listen(2): the link gets the routine that accepts.
  unfoldable pub listening : SockAddr → AttachReplies → Ncb → Linked
  listening local attach ncb =
      let ready = record ncb { ncb_read = some Routine.tcp_syn; ncb_write = none } in
      let (retval, ncb') = io_attach makeerror handles ready epollin attach in
      if is_some ncb.ncb_read
      then (neg 1, ncb, false)
      else if is_neg retval
      then (pos 0, ncb', true)
      else (pos 0, record ncb' { local_addr = local }, false)

  -- tcp_listen on the link. `listen` is what listen(2) answers, `local` the address that
  -- getsockname(2) gives.
  unfoldable pub listen_link : Option ℕ → Option ℕ → SockAddr → AttachReplies → Ncb → Linked
  unfolding listening
  listen_link state listen local attach ncb =
      if is_illegal tcp_close state
      then (neg 1, ncb, false)
      else if is_some listen
      then (neg 1, ncb, false)
      else listening local attach ncb

  unfoldable pub tcp_listen :
      ℤ → Option Ncb → ℤ → Option ℕ → Option ℕ → SockAddr → AttachReplies → Run Ended
  tcp_listen link found block state listen local attach =
      if is_neg block
      then done (neg einval, found, false)
      else if leb 0x7fff (to_ℕ block)
      then done (neg einval, found, false)
      else on_found (tcp_refr link found) found
          (λ ncb. done (listen_link state listen local attach ncb))
