-- ===== src/Mxx/Names.antt =====
-- mxx.c: the names of hosts, nis_lgethost and nis_gethost. gethostname(2), gethostbyname_r(3),
-- inet_aton(3) and gethostbyaddr_r(3) are parameters.
use swnet_linux.Base.{
  ℕ, List, [], ◌∷◌, ◌++◌, Option, none, some, Bool, true, false, ◌==◌, ◌&&◌, ◌||◌, leb, ltb,
  if◌then◌else◌, length, take, drop, einval, enoent, swap32,
}
use swnet_linux.Base.Int.{ℤ, pos, neg, is_nonpos}
use swnet_linux.Base.Run.{Run, fault, done, ◌>>=◌}
use swnet_linux.Mxx.Interfaces.{af_inet}

-- EPROTONOSUPPORT
abbrev pub eprotonosupport : ℕ
eprotonosupport = 93

-- What of struct hostent is read: the addresses as they stand in memory, their list ending with
-- none.
pub record Hostent : Type 0 where
  pub h_addrtype : ℕ
  pub h_addr_list : Option (List ℕ)
  pub h_length : ℕ

pub record Resolver : Type 0 where
  pub gethostname : ℕ → ℤ × List ℕ
  pub gethostbyname : List ℕ → Option Hostent
  pub inet_aton : List ℕ → Option ℕ
  pub gethostbyaddr : ℕ → Option Hostent

-- nis_lgethost: what is at `name` afterwards, where it is not null. `cb` is the size of the memory.
unfoldable pub nis_lgethost : Resolver → Option (List ℕ) → ℤ → Option (List ℕ)
nis_lgethost r none cb = none
nis_lgethost r (some name) cb =
    if is_nonpos cb
    then some name
    else let text = (r.gethostname (length name)).1 in
      some (take (length name) (text ++ drop (length text) name))

-- isalpha(3) in the C locale
abbrev pub is_alpha : ℕ → Bool
is_alpha c = (leb b'A' c && leb c b'Z') || (leb b'a' c && leb c b'z')

-- A text that begins with a letter is a name; another has to be an address, which is looked up too.
unfoldable pub remote_host : Resolver → List ℕ → Option Hostent
remote_host r [] = elim (r.inet_aton []) [ none ↦ none | some addr ↦ r.gethostbyaddr addr ]
remote_host r (c ∷ cs) =
    if is_alpha c
    then r.gethostbyname (c ∷ cs)
    else elim (r.inet_aton (c ∷ cs)) [ none ↦ none | some addr ↦ r.gethostbyaddr addr ]

-- The address in the byte order of the host; to read behind an empty list is undefined.
unfoldable pub first_address : Hostent → Run (ℤ × ℕ)
first_address h = elim h.h_addr_list [
  | none ↦ done (neg enoent, 0)
  | some [] ↦ if ltb h.h_length 4 then done (neg 1, 0) else fault
  | some (addr ∷ more) ↦ if ltb h.h_length 4 then done (neg 1, 0) else done (pos 0, swap32 addr)
]

-- nis_gethost: the return code, and `*ipv4` where it is set. `wanted` tells whether `ipv4` is not
-- null.
unfoldable pub nis_gethost : Resolver → Option (List ℕ) → Bool → Run (ℤ × Option ℕ)
unfolding remote_host first_address
nis_gethost r none wanted = done (neg einval, none)
nis_gethost r (some name) false = done (neg einval, none)
nis_gethost r (some name) true = elim (remote_host r name) [
  | none ↦ done (neg 1, some 0)
  | some h ↦
      if h.h_addrtype == af_inet
      then first_address h >>= (λ found. done (found.0, some found.1))
      else done (neg eprotonosupport, some 0)
]
