-- ===== src/Ncb/Options.antt =====
-- The socket options that ncb.c sets and reads (ncb.h declares the functions). A value that is
-- handed to the kernel or comes from it is the list of the fields of its C type, in order: one for
-- an int or an unsigned char, two for struct timeval and struct linger. The fields of ncb_t that
-- only these functions touch stand beside the link.
use swnet_linux.Base.{
  ℕ, ◌-◌, ◌%◌, List, [], ◌∷◌, ◌++◌, Option, none, some, ◌==◌, if◌then◌else◌, length, take, drop,
  einval,
}
use swnet_linux.Base.Int.{ℤ, pos, negsuc, neg, is_neg}
use swnet_linux.Ncb.{Ncb}

-- setsockopt(2) and getsockopt(2) on a state of the kernel's sockets: by descriptor, level and
-- option. getsockopt gives the fields that it writes.
pub record Sockets (S : Type 0) : Type 0 where
  pub setsockopt : S → ℤ → ℕ → ℕ → List ℤ → ℤ × S
  pub getsockopt : S → ℤ → ℕ → ℕ → ℤ × List ℤ

abbrev pub sol_socket : ℕ
sol_socket = 1

abbrev pub sol_ip : ℕ
sol_ip = 0

abbrev pub ip_tos : ℕ
ip_tos = 1

abbrev pub so_sndbuf : ℕ
so_sndbuf = 7

abbrev pub so_rcvbuf : ℕ
so_rcvbuf = 8

abbrev pub so_keepalive : ℕ
so_keepalive = 9

abbrev pub so_linger : ℕ
so_linger = 13

abbrev pub so_rcvtimeo : ℕ
so_rcvtimeo = 20

abbrev pub so_sndtimeo : ℕ
so_sndtimeo = 21

-- A variable of the caller after the kernel has written some of its fields.
abbrev pub overwritten : List ℤ → List ℤ → List ℤ
overwritten old fields = take (length old) (fields ++ drop (length fields) old)

-- struct linger
pub record Linger : Type 0 where
  pub onoff : ℤ
  pub lin : ℤ

abbrev pub read_linger : Linger → List ℤ → Linger
read_linger lgr [] = lgr
read_linger lgr (a ∷ []) = record lgr { onoff = a }
read_linger lgr (a ∷ b ∷ rest) = record { onoff = a; lin = b }

-- `(unsigned char)tos`
abbrev pub to_byte : ℤ → ℕ
to_byte (pos n) = n % 256
to_byte (negsuc n) = 255 - n % 256

-- ncb_t's rcvtimeo, sndtimeo and iptos.
pub record OptFields : Type 0 where
  pub rcvtimeo : List ℤ
  pub sndtimeo : List ℤ
  pub iptos : List ℤ

-- Stores `*p = v` where `p` is not null.
abbrev pub stored : Option ℤ → ℤ → Option ℤ
stored none v = none
stored (some old) v = some v

module _ {S : Type 0} (k : Sockets S) where
  -- A call of setsockopt for a link that is not null.
  unfoldable pub set_opt : S → Option Ncb → ℕ → ℕ → List ℤ → ℤ × S
  set_opt s none level opt value = (neg einval, s)
  set_opt s (some ncb) level opt value = k.setsockopt s ncb.sockfd level opt value

  -- A call of getsockopt into a variable, where neither it nor the link is null.
  unfoldable pub get_opt : S → Option Ncb → ℕ → ℕ → Option (List ℤ) → ℤ × Option (List ℤ)
  get_opt s none level opt var = (neg einval, var)
  get_opt s (some ncb) level opt none = (neg einval, none)
  get_opt s (some ncb) level opt (some old) =
      let (r, fields) = k.getsockopt s ncb.sockfd level opt in (r, some (overwritten old fields))

  unfoldable pub ncb_set_rcvtimeo : S → Option Ncb → Option (List ℤ) → ℤ × S
  unfolding set_opt
  ncb_set_rcvtimeo s ncb none = (neg einval, s)
  ncb_set_rcvtimeo s ncb (some timeo) = set_opt s ncb sol_socket so_rcvtimeo timeo

  unfoldable pub ncb_get_rcvtimeo : S → Option Ncb → OptFields → ℤ × OptFields
  ncb_get_rcvtimeo s none f = (neg einval, f)
  ncb_get_rcvtimeo s (some ncb) f =
      let (r, fields) = k.getsockopt s ncb.sockfd sol_socket so_rcvtimeo in
      (r, record f { rcvtimeo = overwritten f.rcvtimeo fields })

  unfoldable pub ncb_set_sndtimeo : S → Option Ncb → Option (List ℤ) → ℤ × S
  unfolding set_opt
  ncb_set_sndtimeo s ncb none = (neg einval, s)
  ncb_set_sndtimeo s ncb (some timeo) = set_opt s ncb sol_socket so_sndtimeo timeo

  unfoldable pub ncb_get_sndtimeo : S → Option Ncb → OptFields → ℤ × OptFields
  ncb_get_sndtimeo s none f = (neg einval, f)
  ncb_get_sndtimeo s (some ncb) f =
      let (r, fields) = k.getsockopt s ncb.sockfd sol_socket so_sndtimeo in
      (r, record f { sndtimeo = overwritten f.sndtimeo fields })

  unfoldable pub ncb_set_iptos : S → Option Ncb → ℤ → ℤ × S
  unfolding set_opt
  ncb_set_iptos s ncb tos =
      if to_byte tos == 0
      then (neg einval, s)
      else set_opt s ncb sol_ip ip_tos (pos (to_byte tos) ∷ [])

  unfoldable pub ncb_get_iptos : S → Option Ncb → OptFields → ℤ × OptFields
  ncb_get_iptos s none f = (neg einval, f)
  ncb_get_iptos s (some ncb) f =
      let (r, fields) = k.getsockopt s ncb.sockfd sol_ip ip_tos in
      (r, record f { iptos = overwritten f.iptos fields })

  unfoldable pub ncb_set_window_size : S → Option Ncb → ℕ → ℤ → ℤ × S
  unfolding set_opt
  ncb_set_window_size s ncb dir size = set_opt s ncb sol_socket dir (size ∷ [])

  unfoldable pub ncb_get_window_size : S → Option Ncb → ℕ → Option (List ℤ) → ℤ × Option (List ℤ)
  unfolding get_opt
  ncb_get_window_size s ncb dir size = get_opt s ncb sol_socket dir size

  unfoldable pub ncb_set_linger : S → Option Ncb → ℤ → ℤ → ℤ × S
  unfolding set_opt
  ncb_set_linger s ncb onoff lin = set_opt s ncb sol_socket so_linger (onoff ∷ lin ∷ [])

  -- ncb_get_linger asks for SO_KEEPALIVE. `lgr` is what its local variable holds before the call.
  unfoldable pub ncb_get_linger :
      Linger → S → Option Ncb → Option ℤ → Option ℤ → ℤ × Option ℤ × Option ℤ
  ncb_get_linger lgr s none onoff lin = (neg einval, onoff, lin)
  ncb_get_linger lgr s (some ncb) onoff lin =
      let (r, fields) = k.getsockopt s ncb.sockfd sol_socket so_keepalive in
      if is_neg r then (neg 1, onoff, lin) else (
        pos 0,
        stored onoff (read_linger lgr fields).onoff,
        stored lin (read_linger lgr fields).lin,
      )
