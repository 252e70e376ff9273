-- ===== src/Tcp/Connect/Laws.antt =====
-- A blocking connect, and a listening link that could not be attached.
use swnet_linux.Base.{
  ◌==◌, ℕ, zero, suc, ◌≡◌, refl, ap, ◌∙◌, List, [], ◌∷◌, ◌++◌, Option, none, some, true, false,
  eintr, replicate,
}
use swnet_linux.Base.Int.{ℤ, is_neg}
use swnet_linux.Base.Run.{done, ◌>>=◌}
use swnet_linux.Ncb.{Ncb, Routine, tcp_connected, post_called, ncb_post_connected}
use swnet_linux.Io.{registered, epollin}
use swnet_linux.Io.Attach.{IoHandles, FcntlReplies, AttachReplies, io_attach}
use swnet_linux.Io.Attach.Laws.{io_attach_watched, io_attach-AreQuiet}
use swnet_linux.Tcpio.Connect.{Names, named, with_io}
use swnet_linux.Tcp.Template.{IsTcp, refr_tcp}
use swnet_linux.Tcp.Connect.{
  tcp_close, connect_loop, connected, connect_done, connect_link, tcp_connect,
}

connect_loop_interrupted :
    (n : ℕ) (rs : List (Option ℕ)) → connect_loop (replicate n (some eintr) ++ rs) ≡ connect_loop rs
unfolding connect_loop
connect_loop_interrupted zero rs = refl
connect_loop_interrupted (suc n) rs = connect_loop_interrupted n rs

module _ (makeerror : ℕ → ℤ) (negative : (e : ℕ) → is_neg (makeerror e) ≡ true)
    (handles : IoHandles) where
  -- The answers to an attaching of which epoll_ctl(2) succeeds.
  abbrev pub added : FcntlReplies → AttachReplies
  added fcntl = record { fcntl = fcntl; add = none }

  -- However often connect(2) is interrupted: once it succeeds and the socket can be attached,
  -- tcp_connect returns the epoll instance, and a link with a callback is registered for reading,
  -- does not block, has the routines of an established link, and the user is told once.
  pub tcp_connect_ready :
      (link : ℤ) (ip port : ℕ) (names : Names) (fcntl : FcntlReplies) (ncb : Ncb) (callback n : ℕ)
      (rs : List (Option ℕ))
      → IsTcp link ncb
      → (port == 0) ≡ false
      → ncb.nis_callback ≡ some callback
      → is_neg (io_attach makeerror handles ncb epollin (added fcntl)).0 ≡ false
      → (ncb' : Ncb) × (tcp_connect makeerror handles link
            (some ncb)
            (some ip)
            port
            (some tcp_close)
            names
            (added fcntl)
            (replicate n (some eintr) ++ (none ∷ rs))
          ≡ done ((io_attach makeerror handles ncb epollin (added fcntl)).0, some ncb', false))
        × (ncb'.interest ≡ some (registered epollin))
        × (ncb'.flags.nonblock ≡ true)
        × (ncb'.ncb_read ≡ some Routine.tcp_rx)
        × (ncb'.ncb_write ≡ some Routine.tcp_tx)
        × (ncb'.posted ≡ ncb.posted ++ (tcp_connected ∷ []))
  unfolding tcp_connect connect_link connect_done connected connect_loop ncb_post_connected
  tcp_connect_ready link ip port names fcntl ncb callback n rs v p c ok =
      let at = io_attach makeerror handles ncb epollin (added fcntl) in
      let w = io_attach_watched makeerror negative handles ncb epollin fcntl ok in
      let q = io_attach-AreQuiet makeerror handles ncb epollin (added fcntl) in
      (
        with_io (record (named at.1 names) { posted = at.1.posted ++ (tcp_connected ∷ []) }),
        rw (v.handle, p) (rw (refr_tcp link ncb v) refl)
            ∙ ap
                (λ r.
                  r
                  >>= (λ a. done (connect_done makeerror handles names (added fcntl) ncb a))
                  >>= (λ l. done (l.0, some l.1, l.2)))
                (connect_loop_interrupted n (none ∷ rs))
            ∙ rw ok (
                ap (λ k. done (at.0, some (with_io k), false))
                  (post_called (named at.1 names) tcp_connected callback (q.0 ∙ c))),
        w.0,
        w.2,
        refl,
        refl,
        ap (λ l. l ++ (tcp_connected ∷ [])) q.1,
      )
