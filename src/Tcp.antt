-- ===== src/Tcp.antt =====
-- tcp.c: the interface to TCP links. `found` is what objrefr answers for the caller's handle.
pub mod Options
pub mod Template
pub mod Connect
pub mod Write
pub mod Attr
pub mod Create
pub mod Init
use swnet_linux.Base.{ℕ, Option, none, some, Bool, ◌==◌, if◌then◌else◌, einval, enoent, eprototype}
use swnet_linux.Base.Int.{ℤ, pos, neg, is_neg}
use swnet_linux.Ncb.{Ncb, ipproto_tcp}

-- __tcprefr. The reference is given back where the link is not a TCP link.
unfoldable pub tcp_refr : ℤ → Option Ncb → ℤ × Option Ncb
tcp_refr hld found = if is_neg hld then (neg einval, none) else elim found [
  | none ↦ (neg enoent, none)
  | some ncb ↦ if ncb.protocol == ipproto_tcp then (pos 0, some ncb) else (neg eprototype, none)
]
