-- ===== src/Tcpio/Connect.antt =====
-- tcpio.c: the end of an asynchronous connect, __tcp_check_syn_result, tcp_tx_syn and tcp_rx_syn.
use swnet_linux.Base.{
  ℕ, zero, suc, ◌≡◌, refl, ap, ◌∙◌, List, [], ◌∷◌, ◌++◌, Option, none, some, Bool, true, false,
  ◌==◌, ◌||◌, if◌then◌else◌, replicate, eintr, eagain, eisconn, ealready,
}
use swnet_linux.Base.Int.{ℤ, pos, neg, is_neg, is_zero}
use swnet_linux.Base.Run.{Run, waiting, done}
use swnet_linux.Ncb.{Ncb, SockAddr, Routine, tcp_connected, post, post_called, ncb_post_connected}
use swnet_linux.Io.{io_modify, registered, epollin}

-- What getsockopt(2) answers for SO_ERROR: the error of the socket (0 for none), or a failure.
pub data SoError : Type 0 where
  reported : ℕ → SoError
  query_failed : ℕ → SoError

-- What getpeername(2) and getsockname(2) give.
pub record Names : Type 0 where
  pub remot : SockAddr
  pub local : SockAddr

abbrev pub error_of : SoError → ℕ
error_of (reported e) = e
error_of (query_failed errno) = errno

-- __tcp_check_syn_result: the return code, and `*err`
unfoldable pub tcp_check_syn_result : SoError → ℤ × ℕ
tcp_check_syn_result r = (if error_of r == 0 then pos 0 else neg 1, error_of r)

-- tcp_rx_syn
unfoldable pub tcp_rx_syn : SoError → ℤ
tcp_rx_syn (reported e) = if e == 0 then pos 0 else neg 1
tcp_rx_syn (query_failed errno) = neg 1

abbrev pub named : Ncb → Names → Ncb
named ncb names = record ncb { remot_addr = names.remot; local_addr = names.local }

-- The link with the routines of an established one.
abbrev pub with_io : Ncb → Ncb
with_io ncb = record ncb { ncb_read = some Routine.tcp_rx; ncb_write = some Routine.tcp_tx }

module _ (makeerror : ℕ → ℤ) where
  -- The socket has no error: the return code, the link, and whether it was closed (objclos).
  unfoldable pub syn_completed : Names → Option ℕ → Ncb → ℤ × Ncb × Bool
  unfolding ncb_post_connected
  syn_completed names ctl ncb =
      let (retval, ncb') = io_modify makeerror (named ncb names) epollin ctl in
      if is_neg retval
      then (neg 1, ncb', true)
      else (pos 0, ncb_post_connected (with_io ncb'), false)

  -- The return code for an error other than EINTR.
  unfoldable pub syn_failed : ℕ → ℤ
  syn_failed e =
      if (e == eisconn) || (e == ealready) then pos 0 else if e == eagain then neg eagain else neg 1

  -- tcp_tx_syn. The last part of the result are the answers that are left.
  unfoldable pub tcp_tx_syn :
      Names → Option ℕ → Ncb → List SoError → Run (ℤ × Ncb × Bool × List SoError)
  unfolding tcp_check_syn_result syn_completed syn_failed
  tcp_tx_syn names ctl ncb [] = waiting
  tcp_tx_syn names ctl ncb (r ∷ rs) =
      let rest = tcp_tx_syn names ctl ncb rs in
      let (retval, e) = tcp_check_syn_result r in
      let (ok, ncb', shut) = syn_completed names ctl ncb in
      if is_zero retval
      then done (ok, ncb', shut, rs)
      else if e == eintr
      then rest
      else done (syn_failed e, ncb, false, rs)

  tx_syn_interrupted :
      (names : Names) (ctl : Option ℕ) (ncb : Ncb) (n : ℕ) (rs : List SoError)
      → tcp_tx_syn names ctl ncb (replicate n (reported eintr) ++ rs) ≡ tcp_tx_syn names ctl ncb rs
  unfolding tcp_tx_syn tcp_check_syn_result
  tx_syn_interrupted names ctl ncb zero rs = refl
  tx_syn_interrupted names ctl ncb (suc n) rs = tx_syn_interrupted names ctl ncb n rs

  -- However often it is interrupted before, an asynchronous connect that succeeds makes a link with
  -- a callback ready: tcp_tx_syn returns 0, the link is registered for reading, has the routines of
  -- an established link, and the user is told once.
  pub tcp_tx_syn_connected :
      (names : Names) (ncb : Ncb) (callback n : ℕ) (rs : List SoError)
      → ncb.nis_callback ≡ some callback
      → (ncb' : Ncb) × (tcp_tx_syn names none ncb
            (replicate n (reported eintr) ++ (reported 0 ∷ rs))
          ≡ done (pos 0, ncb', false, rs))
        × (ncb'.ncb_read ≡ some Routine.tcp_rx)
        × (ncb'.ncb_write ≡ some Routine.tcp_tx)
        × (ncb'.interest ≡ some (registered epollin))
        × (ncb'.remot_addr ≡ names.remot)
        × (ncb'.posted ≡ ncb.posted ++ (tcp_connected ∷ []))
  unfolding tcp_tx_syn tcp_check_syn_result syn_completed ncb_post_connected post io_modify
  tcp_tx_syn_connected names ncb callback n rs h = (
    record (with_io (named ncb names)) {
      interest = some (registered epollin);
      posted = ncb.posted ++ (tcp_connected ∷ []);
    },
    tx_syn_interrupted names none ncb n (reported 0 ∷ rs)
        ∙ ap (λ k. done (pos 0, k, false, rs))
            (post_called
              (record (with_io (named ncb names)) { interest = some (registered epollin) })
              tcp_connected callback h),
    refl,
    refl,
    refl,
    refl,
    refl,
  )
