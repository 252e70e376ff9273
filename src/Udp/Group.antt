-- ===== src/Udp/Group.antt =====
-- udp.c: joining and leaving a multicast group. The answers of setsockopt(2) are arguments.
use swnet_linux.Base.{ℕ, Option, none, some, Bool, ◌==◌, ◌||◌, if◌then◌else◌, is_some, einval}
use swnet_linux.Base.Int.{ℤ, neg, is_neg}
use swnet_linux.Ncb.{Ncb, GroupRequest, has_attr}
use swnet_linux.Udp.{UdpLimits, udp_refr}

-- What setsockopt(2) answers for IP_MULTICAST_LOOP, and for the membership.
pub record GroupReplies : Type 0 where
  pub loop : ℤ
  pub membership : ℤ

-- The return code, the link where there is one, and the request that the kernel was handed.
abbrev pub Grouped : Type 0
Grouped = ℤ × Option Ncb × Option GroupRequest

abbrev request : Ncb → ℕ → GroupRequest
request ncb ip = record { multiaddr = ip; interface_addr = ncb.local_addr.addr }

-- udp_joingrp from the allocation on. `memory` tells whether the allocation of the request
-- succeeds, which is made for the first group of the link only.
unfoldable pub add_membership : Bool → GroupReplies → Ncb → ℕ → Grouped
add_membership memory r ncb ip =
    if is_some ncb.mreq || memory
    then (r.membership, some (record ncb { mreq = some (request ncb ip) }), some (request ncb ip))
    else (r.loop, some ncb, none)

unfoldable pub join_link : UdpLimits → Bool → GroupReplies → Ncb → ℕ → Grouped
unfolding add_membership
join_link limits memory r ncb ip =
    if has_attr ncb.attr limits.flag_multicast
    then if is_neg r.loop then (r.loop, some ncb, none) else add_membership memory r ncb ip
    else (neg 1, some ncb, none)

-- udp_joingrp. `ipstr` is the address that inet_addr(3) reads from the string, where there is one.
unfoldable pub udp_joingrp :
    UdpLimits → Bool → GroupReplies → ℤ → Option Ncb → Option ℕ → ℕ → Grouped
unfolding join_link
udp_joingrp limits memory r link found none port = (neg einval, found, none)
udp_joingrp limits memory r link found (some ip) port =
    if is_neg link || (port == 0) then (neg einval, found, none) else elim (udp_refr link found).1 [
      | none ↦ ((udp_refr link found).0, found, none)
      | some ncb ↦ join_link limits memory r ncb ip
    ]

-- udp_dropgrp where the link has joined a group: the request is not taken off the link.
unfoldable pub drop_membership : GroupReplies → Ncb → Option GroupRequest → Grouped
drop_membership r ncb none = (neg 1, some ncb, none)
drop_membership r ncb (some joined) =
    if is_neg r.loop then (r.loop, some ncb, none) else (r.membership, some ncb, some joined)

unfoldable pub udp_dropgrp : UdpLimits → GroupReplies → ℤ → Option Ncb → Grouped
unfolding drop_membership
udp_dropgrp limits r link found = elim (udp_refr link found).1 [
  | none ↦ ((udp_refr link found).0, found, none)
  | some ncb ↦
      if has_attr ncb.attr limits.flag_multicast
      then drop_membership r ncb ncb.mreq
      else (neg 1, some ncb, none)
]
