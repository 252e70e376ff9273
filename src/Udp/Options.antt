-- ===== src/Udp/Options.antt =====
-- udp.c: the socket options of a UDP link.
use swnet_linux.Base.{ℕ, List, Option, none, some, length, einval}
use swnet_linux.Base.Int.{ℤ, pos, neg}
use swnet_linux.Ncb.{Ncb}
use swnet_linux.Ncb.Options.{
  Sockets, overwritten, get_opt, ncb_set_window_size, ncb_set_linger, sol_socket, so_rcvbuf,
  so_sndbuf,
}
use swnet_linux.Udp.{udp_refr}

abbrev pub so_broadcast : ℕ
so_broadcast = 6

module _ {S : Type 0} (k : Sockets S) where
  -- __udp_update_opts. What the three calls return is not looked at.
  unfoldable pub udp_update_opts : S → Option Ncb → ℤ × S
  unfolding ncb_set_window_size ncb_set_linger
  udp_update_opts s none = (neg einval, s)
  udp_update_opts s (some ncb) =
      let s1 = (ncb_set_window_size k s (some ncb) so_rcvbuf (pos 0xFFFF)).1 in
      let s2 = (ncb_set_window_size k s1 (some ncb) so_sndbuf (pos 0xFFFF)).1 in
      (pos 0, (ncb_set_linger k s2 (some ncb) (pos 0) (pos 1)).1)

  -- The value is the first `len` bytes at `val`.
  unfoldable pub udp_setopt : S → ℤ → Option Ncb → ℕ → ℕ → List ℤ → ℤ × S
  udp_setopt s link found level opt val = elim (udp_refr link found).1 [
    | none ↦ ((udp_refr link found).0, s)
    | some ncb ↦ k.setsockopt s ncb.sockfd level opt val
  ]

  -- With what is at `val` afterwards, and `*len`.
  unfoldable pub udp_getopt : S → ℤ → Option Ncb → ℕ → ℕ → List ℤ → ℤ × List ℤ × ℕ
  udp_getopt s link found level opt val = elim (udp_refr link found).1 [
    | none ↦ ((udp_refr link found).0, val, length val)
    | some ncb ↦
        let (r, bytes) = k.getsockopt s ncb.sockfd level opt in
        (r, overwritten val bytes, length bytes)
  ]

  unfoldable pub udp_get_boardcast : S → Option Ncb → Option (List ℤ) → ℤ × Option (List ℤ)
  unfolding get_opt
  udp_get_boardcast s ncb enabled = get_opt k s ncb sol_socket so_broadcast enabled

-- The atomic exchange puts the attributes into `*attr`, and gives what was there.
unfoldable pub udp_getattr_r : Ncb → ℕ → ℕ × ℕ
udp_getattr_r ncb attr = (attr, ncb.attr)
