-- ===== src/Udp.antt =====
-- udp.c: the interface to UDP links. `found` is what objrefr answers for the caller's handle. The
-- window sizes and the linger option that __udp_update_opts sets on the socket (Udp/Options) are no
-- part of a link's record; it fails for no link.
pub mod Write
pub mod Group
pub mod Create
pub mod Options
use swnet_linux.Base.{
  ℕ, List, Option, none, some, Bool, true, false, ◌==◌, if◌then◌else◌, einval, enoent, eprototype,
  swap16, swap32,
}
use swnet_linux.Base.Int.{ℤ, pos, neg, is_neg}
use swnet_linux.Base.Run.{Run, done}
use swnet_linux.Ncb.{Ncb, has_attr, ipproto_udp}
use swnet_linux.Io.{io_close}
use swnet_linux.Io.Attach.{IoHandles}
use swnet_linux.Pipe.{pipe_write_message}

-- What nisdef.h defines, which is not part of the repository: MAX_UDP_UNIT, UDP_FLAG_BROADCAST,
-- UDP_FLAG_MULTICAST and LINKATTR_UDP_BAORDCAST.
pub record UdpLimits : Type 0 where
  pub max_udp_unit : ℕ
  pub flag_broadcast : ℕ
  pub flag_multicast : ℕ
  pub attr_broadcast : ℕ

-- __udprefr. The reference is given back where the link is not a UDP link.
unfoldable pub udp_refr : ℤ → Option Ncb → ℤ × Option Ncb
udp_refr hld found = if is_neg hld then (neg einval, none) else elim found [
  | none ↦ (neg enoent, none)
  | some ncb ↦ if ncb.protocol == ipproto_udp then (pos 0, some ncb) else (neg eprototype, none)
]

-- udp_destroy: the socket of the link is closed,
-- where there is a link. `ctl` is the answer to the epoll_ctl(2) of io_close.
unfoldable pub udp_destroy : Option Ncb → Option ℕ → Option Ncb
udp_destroy none ctl = none
udp_destroy (some ncb) ctl = some (io_close ncb ctl)

-- udp_getaddr: the return code, and the address and port in the byte order of the host.
unfoldable pub udp_getaddr : ℤ → Option Ncb → ℤ × Option (ℕ × ℕ)
udp_getaddr link found = elim (udp_refr link found).1 [
  | none ↦ ((udp_refr link found).0, none)
  | some ncb ↦ (pos 0, some (swap32 ncb.local_addr.addr, swap16 ncb.local_addr.port))
]

-- udp_set_boardcast, with what setsockopt(2) answers.
unfoldable pub udp_set_boardcast : Option Ncb → ℤ → ℤ
udp_set_boardcast none answer = neg einval
udp_set_boardcast (some ncb) answer = answer

-- udp_setattr_r: the attributes are replaced, and whether the socket is allowed to broadcast
-- follows. `setsockopt` answers for the value that the option is set to.
unfoldable pub udp_setattr_r : UdpLimits → (Bool → ℤ) → Ncb → ℕ → ℤ × Ncb
unfolding udp_set_boardcast
udp_setattr_r limits setsockopt ncb attr =
    let ncb' : Ncb = record ncb { attr = attr } in
    (udp_set_boardcast (some ncb') (setsockopt (has_attr attr limits.attr_broadcast)), ncb')

module _ (makeerror : ℕ → ℤ) (handles : IoHandles) (alloc : ℕ → Bool) (stale : List ℕ)
    (written : ℤ) where
  -- udp_awaken; the arguments of the section are those of pipe_write_message.
  unfoldable pub udp_awaken : ℤ → Option Ncb → List ℕ → ℤ → Run (ℤ × Option (List ℕ))
  udp_awaken link found pipedata cb = elim (udp_refr link found).1 [
    | none ↦ done ((udp_refr link found).0, none)
    | some ncb ↦ pipe_write_message makeerror handles alloc stale written ncb pipedata cb
  ]
