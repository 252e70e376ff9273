-- ===== src/Tcp/Options.antt =====
-- tcp.c: the socket options of a TCP link, from tcp_setopt to tcp_get_keepalive_value, and
-- tcp_update_opts.
pub mod Values
pub mod Keepalive
use swnet_linux.Base.{
  ℕ, List, [], ◌∷◌, Option, none, some, Bool, true, false, not, if◌then◌else◌, length, einval,
}
use swnet_linux.Base.Int.{ℤ, pos, neg, is_neg, is_nonpos, is_zero}
use swnet_linux.Ncb.{Ncb, ipproto_tcp}
use swnet_linux.Ncb.Options.{Sockets, overwritten, set_opt, get_opt, sol_socket, so_keepalive}
use swnet_linux.Tcp.{tcp_refr}

abbrev pub tcp_nodelay : ℕ
tcp_nodelay = 1

abbrev pub tcp_maxseg : ℕ
tcp_maxseg = 2

abbrev pub tcp_cork : ℕ
tcp_cork = 3

abbrev pub tcp_keepidle : ℕ
tcp_keepidle = 4

abbrev pub tcp_keepintvl : ℕ
tcp_keepintvl = 5

abbrev pub tcp_keepcnt : ℕ
tcp_keepcnt = 6

abbrev pub tcp_info : ℕ
tcp_info = 11

-- `enabled != 0`
abbrev pub is_set : List ℤ → Bool
is_set [] = false
is_set (x ∷ xs) = not (is_zero x)

module _ {S : Type 0} (k : Sockets S) where
  -- The value is the first `len` bytes at `val`.
  unfoldable pub tcp_setopt : S → ℤ → Option Ncb → ℕ → ℕ → List ℤ → ℤ × S
  tcp_setopt s link found level opt val = elim (tcp_refr link found).1 [
    | none ↦ ((tcp_refr link found).0, s)
    | some ncb ↦ k.setsockopt s ncb.sockfd level opt val
  ]

  -- With what is at `val` afterwards, and `*len`.
  unfoldable pub tcp_getopt : S → ℤ → Option Ncb → ℕ → ℕ → List ℤ → ℤ × List ℤ × ℕ
  tcp_getopt s link found level opt val = elim (tcp_refr link found).1 [
    | none ↦ ((tcp_refr link found).0, val, length val)
    | some ncb ↦
        let (r, bytes) = k.getsockopt s ncb.sockfd level opt in
        (r, overwritten val bytes, length bytes)
  ]

  unfoldable pub tcp_save_info : S → Option Ncb → Option (List ℤ) → ℤ × Option (List ℤ)
  unfolding get_opt
  tcp_save_info s ncb ktcp = get_opt k s ncb ipproto_tcp tcp_info ktcp

  unfoldable pub tcp_setmss : S → Option Ncb → ℤ → ℤ × S
  unfolding set_opt
  tcp_setmss s ncb mss =
      if is_nonpos mss then (neg einval, s) else set_opt k s ncb ipproto_tcp tcp_maxseg (mss ∷ [])

  -- `mss` is the field of that name of the link.
  unfoldable pub tcp_getmss : S → Option Ncb → List ℤ → ℤ × Option (List ℤ)
  unfolding get_opt
  tcp_getmss s ncb mss = get_opt k s ncb ipproto_tcp tcp_maxseg (some mss)

  unfoldable pub tcp_set_nodelay : S → Option Ncb → ℤ → ℤ × S
  unfolding set_opt
  tcp_set_nodelay s ncb set = set_opt k s ncb ipproto_tcp tcp_nodelay (set ∷ [])

  unfoldable pub tcp_get_nodelay : S → Option Ncb → Option (List ℤ) → ℤ × Option (List ℤ)
  unfolding get_opt
  tcp_get_nodelay s ncb set = get_opt k s ncb ipproto_tcp tcp_nodelay set

  unfoldable pub tcp_set_cork : S → Option Ncb → ℤ → ℤ × S
  unfolding set_opt
  tcp_set_cork s ncb set = set_opt k s ncb ipproto_tcp tcp_cork (set ∷ [])

  unfoldable pub tcp_get_cork : S → Option Ncb → Option (List ℤ) → ℤ × Option (List ℤ)
  unfolding get_opt
  tcp_get_cork s ncb set = get_opt k s ncb ipproto_tcp tcp_cork set

  unfoldable pub tcp_set_keepalive : S → Option Ncb → ℤ → ℤ × S
  unfolding set_opt
  tcp_set_keepalive s ncb enable = set_opt k s ncb sol_socket so_keepalive (enable ∷ [])

  unfoldable pub tcp_get_keepalive : S → Option Ncb → Option (List ℤ) → ℤ × Option (List ℤ)
  unfolding get_opt
  tcp_get_keepalive s ncb enabled = get_opt k s ncb sol_socket so_keepalive enabled

  -- The do-while block of tcp_set_keepalive_value: the options one after the other, until one is
  -- refused.
  unfoldable pub set_in_turn : S → ℤ → List (ℕ × ℤ) → ℤ × S
  set_in_turn s fd [] = (pos 0, s)
  set_in_turn s fd ((opt, v) ∷ rest) =
      let (r, s') = k.setsockopt s fd ipproto_tcp opt (v ∷ []) in
      elim (is_neg r) [ true ↦ (neg 1, s') | false ↦ set_in_turn s' fd rest ]

  -- Whether tcp_get_keepalive succeeds and finds the switch set. `stale` is what the local variable
  -- `enabled` holds before.
  unfoldable pub keepalive_on : List ℤ → S → Ncb → Bool
  unfolding tcp_get_keepalive get_opt
  keepalive_on stale s ncb =
      let (r, enabled) = tcp_get_keepalive s (some ncb) (some stale) in
      if is_neg r then false else elim enabled [ none ↦ false | some var ↦ is_set var ]

  -- On a null link tcp_get_keepalive gives -EINVAL.
  unfoldable pub tcp_set_keepalive_value : List ℤ → S → Option Ncb → ℤ → ℤ → ℤ → ℤ × S
  unfolding set_in_turn keepalive_on
  tcp_set_keepalive_value stale s none idle interval probes = (neg 1, s)
  tcp_set_keepalive_value stale s (some ncb) idle interval probes =
      if keepalive_on stale s ncb
      then set_in_turn s ncb.sockfd
          ((tcp_keepidle, idle) ∷ (tcp_keepintvl, interval) ∷ (tcp_keepcnt, probes) ∷ [])
      else (neg 1, s)

  -- The do-while block of tcp_get_keepalive_value. A null pointer is passed over.
  unfoldable pub get_in_turn : S → ℤ → List (ℕ × Option (List ℤ)) → ℤ × List (Option (List ℤ))
  get_in_turn s fd [] = (pos 0, [])
  get_in_turn s fd ((opt, none) ∷ rest) = let (r, vars) = get_in_turn s fd rest in (r, none ∷ vars)
  get_in_turn s fd ((opt, some old) ∷ rest) =
      let (r, fields) = k.getsockopt s fd ipproto_tcp opt in
      let (r', vars) = get_in_turn s fd rest in
      if is_neg r
      then (neg 1, some (overwritten old fields) ∷ kept rest)
      else (r', some (overwritten old fields) ∷ vars)
    where
      kept : List (ℕ × Option (List ℤ)) → List (Option (List ℤ))
      kept [] = []
      kept ((opt', var) ∷ more) = var ∷ kept more

  unfoldable pub tcp_get_keepalive_value :
      List ℤ
      → S
      → Option Ncb
      → Option (List ℤ)
      → Option (List ℤ)
      → Option (List ℤ)
      → ℤ × List (Option (List ℤ))
  unfolding get_in_turn keepalive_on
  tcp_get_keepalive_value stale s none idle interval probes = (neg 1, idle ∷ interval ∷ probes ∷ [])
  tcp_get_keepalive_value stale s (some ncb) idle interval probes =
      if keepalive_on stale s ncb
      then get_in_turn s ncb.sockfd
          ((tcp_keepidle, idle) ∷ (tcp_keepintvl, interval) ∷ (tcp_keepcnt, probes) ∷ [])
      else (neg 1, idle ∷ interval ∷ probes ∷ [])

  -- The return values are not looked at.
  unfoldable pub tcp_update_opts : List ℤ → S → Option Ncb → S
  unfolding tcp_set_keepalive tcp_set_keepalive_value tcp_set_nodelay
  tcp_update_opts stale s none = s
  tcp_update_opts stale s (some ncb) =
      let s1 = (tcp_set_keepalive s (some ncb) (pos 1)).1 in
      let s2 = (tcp_set_keepalive_value stale s1 (some ncb) (pos 30) (pos 5) (pos 6)).1 in
      (tcp_set_nodelay s2 (some ncb) (pos 1)).1
