-- ===== src/Tcpio/Receive.antt =====
-- tcp_rx drains the socket: what the user gets depends on the bytes of the stream alone.
use swnet_linux.Base.{
  ℕ, ◌≤◌, ◌<◌, ◌≡◌, refl, sym, ap, ◌∙◌, List, [], ◌∷◌, ◌++◌, Option, none, some, Bool, length,
  append-nil, eagain, arith,
}
use swnet_linux.Base.Int.{ℤ, pos, neg}
use swnet_linux.Ncb.{Ncb, Parser, AttrBits, tcp_buffer_size}
use swnet_linux.Tcpal.{Outcome}
use swnet_linux.Tcpal.Stream.{run, prefix}
use swnet_linux.Tcpal.Refine.{Same, deliveries, IsFramed, Holds}
use swnet_linux.Tcpal.Stream.{frame_total}
use swnet_linux.Tcpal.Refine.Parse.{Same-trans, Same-refl}
use swnet_linux.Tcpal.Refine.Call.{Suitable}
use swnet_linux.Tcpio.Segment.{
  ReadsAll, refused_all, read_all, parse_loop-ReadsAll, IsFramed-Same, run-bad, run-split,
  posted-then,
}
use swnet_linux.Tcpio.{RecvReply, received, recv_failed, tcp_rx_once, tcp_rx}

-- recv(2) delivers these segments, and then has no more data.
abbrev pub answers : List (List ℕ) → List RecvReply
answers [] = recv_failed eagain ∷ []
answers (s ∷ ss) = received s ∷ answers ss

abbrev pub stream : List (List ℕ) → List ℕ
stream [] = []
stream (s ∷ ss) = s ++ stream ss

-- recv(2) returns at least one byte and at most the length of the buffer that it is given.
abbrev pub AreSegments : List (List ℕ) → Type 0
AreSegments [] = Unit {0}
AreSegments (s ∷ ss) = (0 < length s) × (length s ≤ tcp_buffer_size) × AreSegments ss

-- No packet that the protocol's parser accepts is larger than the receive buffer.
abbrev pub SmallPackets : ℕ → Parser → Type 0
SmallPackets cb parser =
    (head : List ℕ) (t : ℕ) → frame_total cb parser head ≡ some t → t ≤ tcp_buffer_size

module _ (bits : AttrBits) (alloc : ℕ → Bool) (cb : ℕ) (parser : Parser) where
  -- What tcp_rx gives on a socket with these bytes: the stream is bad and the link fails, or all is
  -- read and delivered.
  pub data Drains (ncb : Ncb) (p bytes : List ℕ) (out : Option (ℤ × Ncb × List RecvReply))
      : Type 0 where
    failed :
        (ncb' : Ncb) (rest : List RecvReply)
        → run cb parser p bytes ≡ none
        → out ≡ some (neg 1, ncb', rest)
        → Drains ncb p bytes out
    drained :
        (ncb' : Ncb) (packets : List (List ℕ)) (p' : List ℕ)
        → run cb parser p bytes ≡ some (packets, p')
        → out ≡ some (pos eagain, ncb', [])
        → Holds cb parser ncb' p'
        → Same ncb ncb'
        → ncb'.posted ≡ ncb.posted ++ deliveries bits ncb.attr cb packets
        → Drains ncb p bytes out

  Drains-then :
      (ncb ncb1 : Ncb) (p xs ys p1 : List ℕ) (fs : List (List ℕ))
      (out : Option (ℤ × Ncb × List RecvReply))
      → run cb parser p xs ≡ some (fs, p1)
      → Same ncb ncb1
      → ncb1.posted ≡ ncb.posted ++ deliveries bits ncb.attr cb fs
      → Drains ncb1 p1 ys out
      → Drains ncb p (xs ++ ys) out
  Drains-then ncb ncb1 p xs ys p1 fs out r sm po (failed ncb' rest e o) =
      failed ncb' rest (run-split bits cb parser p xs ys p1 fs r ∙ ap (prefix fs) e) o
  Drains-then ncb ncb1 p xs ys p1 fs out r sm po (drained ncb' gs p' e o h sm' po') =
      drained ncb' (fs ++ gs) p' (run-split bits cb parser p xs ys p1 fs r ∙ ap (prefix fs) e) o h
        (Same-trans sm sm') (posted-then bits cb parser ncb ncb1 ncb' fs gs sm po po')

  -- With memory, a template of 1 to 32 bytes whose parser reads the header only, and packets no larger
  -- than the receive buffer, on a link with this template and a callback that holds the pending
  -- bytes: however recv(2) cut the stream, tcp_rx returns -1 exactly where the stream is bad, with
  -- the rest of it unread, and otherwise EAGAIN, with the whole stream read, all its complete
  -- packets delivered in order and the rest held.
  pub tcp_rx-Drains :
      (ncb : Ncb) (p : List ℕ) (segments : List (List ℕ))
      → Suitable alloc cb parser
      → SmallPackets cb parser
      → IsFramed cb parser ncb
      → Holds cb parser ncb p
      → AreSegments segments
      → Drains ncb p (stream segments) (tcp_rx bits alloc ncb (answers segments))
  unfolding tcp_rx tcp_rx_once run
  tcp_rx-Drains ncb p [] s small f h a =
      drained ncb [] p refl refl h (Same-refl ncb) (sym (append-nil ncb.posted))
  tcp_rx-Drains ncb p (x ∷ xs) s small f h (n, fits, a) =
      step (tcp_rx_once bits alloc ncb (received x)) refl
        (parse_loop-ReadsAll bits alloc cb parser (length x) ncb p x s f h
          (λ t _ _ _ e. small _ t e) n (omega arith) fits)
        (λ ncb1 p1 f1 h1. tcp_rx-Drains ncb1 p1 xs s small f1 h1 a)
    where
      step :
          (out : Outcome)
          → tcp_rx_once bits alloc ncb (received x) ≡ out
          → ReadsAll cb parser bits ncb p x out
          → ((ncb1 : Ncb) (p1 : List ℕ)
              → IsFramed cb parser ncb1
              → Holds cb parser ncb1 p1
              → Drains ncb1 p1 (stream xs) (tcp_rx bits alloc ncb1 (answers xs)))
          → Drains ncb p (x ++ stream xs) (tcp_rx bits alloc ncb (received x ∷ answers xs))
      step out e (refused_all ncb' o r) ih =
          failed ncb' (answers xs) (run-bad bits cb parser p x (stream xs) r)
            (rw (e ∙ o, tcp_rx) refl)
      step out e (read_all ncb' fs p' o r h' sm po) ih =
          rw (e ∙ o, tcp_rx)
            (Drains-then ncb ncb' p x (stream xs) p' fs (tcp_rx bits alloc ncb' (answers xs)) r sm
              po (ih ncb' p' (IsFramed-Same cb parser sm f) h'))

  pub Drains-good :
      (ncb : Ncb) (p bytes p' : List ℕ) (packets : List (List ℕ))
      (out : Option (ℤ × Ncb × List RecvReply))
      → run cb parser p bytes ≡ some (packets, p')
      → Drains ncb p bytes out
      → (a : Ncb) × (out ≡ some (pos eagain, a, []))
        × (a.posted ≡ ncb.posted ++ deliveries bits ncb.attr cb packets)
  Drains-good ncb p bytes p' packets out r (failed ncb' rest e o) = cc
  Drains-good ncb p bytes p' packets out r (drained a fs q e o h sm po) =
      (a, o, po ∙ ap (λ l. ncb.posted ++ deliveries bits ncb.attr cb l) (cc))

  -- With memory, a template of 1 to 32 bytes whose parser reads the header only, and packets no larger
  -- than the receive buffer, on a link with this template and a callback: however recv(2) cuts the
  -- same good stream, tcp_rx reads all of it, returns EAGAIN and hands the user the same packets.
  pub tcp_rx_chunking :
      (ncb : Ncb) (p : List ℕ) (segments segments' : List (List ℕ)) (packets : List (List ℕ))
      (p' : List ℕ)
      → Suitable alloc cb parser
      → SmallPackets cb parser
      → IsFramed cb parser ncb
      → Holds cb parser ncb p
      → AreSegments segments
      → AreSegments segments'
      → stream segments ≡ stream segments'
      → run cb parser p (stream segments) ≡ some (packets, p')
      → (a b : Ncb) × (tcp_rx bits alloc ncb (answers segments) ≡ some (pos eagain, a, []))
        × (tcp_rx bits alloc ncb (answers segments') ≡ some (pos eagain, b, []))
        × (a.posted ≡ b.posted)
  tcp_rx_chunking ncb p ss ss' fs p' s small f h a a' same r =
      let (n, e, po) =
        Drains-good ncb p (stream ss) p' fs (tcp_rx bits alloc ncb (answers ss)) r
          (tcp_rx-Drains ncb p ss s small f h a) in
      let (n', e', po') =
        Drains-good ncb p (stream ss') p' fs (tcp_rx bits alloc ncb (answers ss')) (rw (← same) r)
          (tcp_rx-Drains ncb p ss' s small f h a') in
      (n, n', e, e', po ∙ sym po')
