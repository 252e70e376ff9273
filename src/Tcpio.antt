-- ===== src/Tcpio.antt =====
-- The receiving half of tcpio.c: __tcp_rx and tcp_rx. What recv(2) answers is given as a list, one
-- entry for each call; a run that has used its answers up has not returned yet.
pub mod Send
pub mod Syn
pub mod Connect
pub mod Segment
pub mod Receive
use swnet_linux.Base.{
  ℕ, zero, suc, ◌-◌, List, [], ◌∷◌, Option, none, some, ◌==◌, if◌then◌else◌, Bool, length, drop,
  eintr, eagain, econnreset,
}
use swnet_linux.Base.Int.{ℤ, pos, negsuc, neg}
use swnet_linux.Ncb.{Ncb, AttrBits}
use swnet_linux.Tcpal.{Outcome, tcp_parse_pkt}

-- What recv(2) answers: bytes, the end of the stream (0), or -1 with an errno.
pub data RecvReply : Type 0 where
  received : List ℕ → RecvReply
  shut_down : RecvReply
  recv_failed : ℕ → RecvReply

module _ (bits : AttrBits) (alloc : ℕ → Bool) where
  -- The do-while loop of __tcp_rx: parse, advance by what was consumed, until nothing is left. The
  -- first argument bounds the rounds.
  unfoldable pub parse_loop : ℕ → Ncb → List ℕ → Outcome
  parse_loop zero ncb bytes = none
  parse_loop (suc fuel) ncb bytes = elim (tcp_parse_pkt bits alloc ncb bytes) [
    | none ↦ none
    | some (pos zero, ncb') ↦ some (pos 0, ncb')
    | some (pos (suc overplus), ncb') ↦
        parse_loop fuel ncb' (drop (length bytes - suc overplus) bytes)
    | some (negsuc n, ncb') ↦ some (neg 1, ncb')
  ]

  -- __tcp_rx, with the answer of its recv(2). As many rounds as bytes are enough.
  unfoldable pub tcp_rx_once : Ncb → RecvReply → Outcome
  tcp_rx_once ncb (received bytes) = parse_loop (length bytes) ncb bytes
  tcp_rx_once ncb shut_down = some (neg econnreset, ncb)
  tcp_rx_once ncb (recv_failed e) =
      if e == eintr
      then some (pos 0, ncb)
      else if e == eagain
      then some (pos eagain, ncb)
      else some (neg 1, ncb)

  -- tcp_rx: read until __tcp_rx returns something but 0. Gives the answers that are left too.
  unfoldable pub tcp_rx : Ncb → List RecvReply → Option (ℤ × Ncb × List RecvReply)
  tcp_rx ncb [] = none
  tcp_rx ncb (r ∷ rs) = elim (tcp_rx_once ncb r) [
    | none ↦ none
    | some (pos zero, ncb') ↦ tcp_rx ncb' rs
    | some (pos (suc n), ncb') ↦ some (pos (suc n), ncb', rs)
    | some (negsuc n, ncb') ↦ some (negsuc n, ncb', rs)
  ]
