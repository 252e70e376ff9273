-- ===== src/Tcp/Options/Values.antt =====
-- A kernel that gives back what it is set to, and the keepalive values of a link with it.
use swnet_linux.Base.{
  ℕ, ◌≡◌, refl, ◌∙◌, List, [], ◌∷◌, some, Bool, true, false, ◌==◌, ◌&&◌, ◌||◌, if◌then◌else◌,
}
use swnet_linux.Base.Int.{ℤ, pos, neg, is_neg, int_eq}
use swnet_linux.Ncb.{Ncb, ipproto_tcp}
use swnet_linux.Ncb.Options.{Sockets, get_opt, sol_socket, so_keepalive}
use swnet_linux.Tcp.Options.{
  tcp_nodelay, tcp_keepidle, tcp_keepintvl, tcp_keepcnt, keepalive_on, set_in_turn, get_in_turn,
  tcp_get_keepalive, tcp_set_keepalive_value, tcp_get_keepalive_value,
}

-- The values that the kernel gives back as they were set: the switches where they are set to 1, and
-- the three numbers.
abbrev pub is_kept : ℕ → ℕ → ℤ → Bool
is_kept level opt v =
    if level == sol_socket
    then (opt == so_keepalive) && int_eq v (pos 1)
    else (level == ipproto_tcp)
      && (((opt == tcp_nodelay) && int_eq v (pos 1))
          || (opt == tcp_keepidle)
          || (opt == tcp_keepintvl)
          || (opt == tcp_keepcnt))

abbrev pub is_same : ℕ → ℕ → ℕ → ℕ → Bool
is_same level opt level' opt' = (level == level') && (opt == opt')

module _ {S : Type 0} (k : Sockets S) where
  -- getsockopt(2) gives back what setsockopt(2) has taken, and what is set of one option leaves the
  -- others alone.
  pub record Remembers : Type 0 where
    pub same :
        (s : S) (fd : ℤ) (level opt : ℕ) (v : ℤ)
        → is_kept level opt v ≡ true
        → is_neg (k.setsockopt s fd level opt (v ∷ [])).0 ≡ false
        → k.getsockopt (k.setsockopt s fd level opt (v ∷ [])).1 fd level opt ≡ (pos 0, v ∷ [])
    pub apart :
        (s : S) (fd : ℤ) (level opt level' opt' : ℕ) (value : List ℤ)
        → is_same level opt level' opt' ≡ false
        → k.getsockopt (k.setsockopt s fd level opt value).1 fd level' opt'
          ≡ k.getsockopt s fd level' opt'

  -- The kernel refuses none of the options.
  abbrev pub Accepts : Type 0
  Accepts =
      (s : S) (fd : ℤ) (level opt : ℕ) (v : ℤ)
      → is_kept level opt v ≡ true
      → is_neg (k.setsockopt s fd level opt (v ∷ [])).0 ≡ false

  pub on_reads :
      (s : S) (ncb : Ncb) (old : ℤ)
      → k.getsockopt s ncb.sockfd sol_socket so_keepalive ≡ (pos 0, pos 1 ∷ [])
      → keepalive_on k (old ∷ []) s ncb ≡ true
  unfolding keepalive_on tcp_get_keepalive get_opt
  on_reads s ncb old e = rw e refl

  -- The kernel holds these values, with keepalive on.
  pub record IsValued (s : S) (fd idle interval probes : ℤ) : Type 0 where
    pub on : k.getsockopt s fd sol_socket so_keepalive ≡ (pos 0, pos 1 ∷ [])
    pub idle_time : k.getsockopt s fd ipproto_tcp tcp_keepidle ≡ (pos 0, idle ∷ [])
    pub interval_time : k.getsockopt s fd ipproto_tcp tcp_keepintvl ≡ (pos 0, interval ∷ [])
    pub probe_count : k.getsockopt s fd ipproto_tcp tcp_keepcnt ≡ (pos 0, probes ∷ [])

  -- tcp_get_keepalive_value finds them.
  abbrev pub ReadsValues : S → Ncb → ℤ → ℤ → ℤ → Type 0
  ReadsValues s ncb idle interval probes =
      (old a b c : ℤ)
      → tcp_get_keepalive_value k (old ∷ []) s (some ncb) (some (a ∷ [])) (some (b ∷ []))
          (some (c ∷ []))
        ≡ (pos 0, some (idle ∷ []) ∷ some (interval ∷ []) ∷ some (probes ∷ []) ∷ [])

  pub IsValued-reads :
      (s : S) (ncb : Ncb) (idle interval probes : ℤ)
      → IsValued s ncb.sockfd idle interval probes
      → ReadsValues s ncb idle interval probes
  unfolding tcp_get_keepalive_value get_in_turn
  IsValued-reads s ncb idle interval probes v old a b c =
      rw (on_reads s ncb old v.on, v.idle_time, v.interval_time, v.probe_count) refl

  abbrev pub out1 : S → ℤ → ℤ → ℤ × S
  out1 s fd idle = k.setsockopt s fd ipproto_tcp tcp_keepidle (idle ∷ [])

  abbrev pub out2 : S → ℤ → ℤ → ℤ → ℤ × S
  out2 s fd idle interval =
      k.setsockopt (out1 s fd idle).1 fd ipproto_tcp tcp_keepintvl (interval ∷ [])

  abbrev pub out3 : S → ℤ → ℤ → ℤ → ℤ → ℤ × S
  out3 s fd idle interval probes =
      k.setsockopt (out2 s fd idle interval).1 fd ipproto_tcp tcp_keepcnt (probes ∷ [])

  pub turn_taken :
      (s : S) (fd : ℤ) (opt : ℕ) (v : ℤ) (rest : List (ℕ × ℤ))
      → is_neg (k.setsockopt s fd ipproto_tcp opt (v ∷ [])).0 ≡ false
      → set_in_turn k s fd ((opt, v) ∷ rest)
        ≡ set_in_turn k (k.setsockopt s fd ipproto_tcp opt (v ∷ [])).1 fd rest
  unfolding set_in_turn
  turn_taken s fd opt v rest e = rw (e, set_in_turn) refl

  pub turn_refused :
      (s : S) (fd : ℤ) (opt : ℕ) (v : ℤ) (rest : List (ℕ × ℤ))
      → is_neg (k.setsockopt s fd ipproto_tcp opt (v ∷ [])).0 ≡ true
      → set_in_turn k s fd ((opt, v) ∷ rest)
        ≡ (neg 1, (k.setsockopt s fd ipproto_tcp opt (v ∷ [])).1)
  unfolding set_in_turn
  turn_refused s fd opt v rest e = rw (e, set_in_turn) refl

  module _ (m : Remembers) where
    pub set-IsValued :
        (s : S) (fd idle interval probes : ℤ)
        → k.getsockopt s fd sol_socket so_keepalive ≡ (pos 0, pos 1 ∷ [])
        → is_neg (out1 s fd idle).0 ≡ false
        → is_neg (out2 s fd idle interval).0 ≡ false
        → is_neg (out3 s fd idle interval probes).0 ≡ false
        → IsValued (out3 s fd idle interval probes).1 fd idle interval probes
    set-IsValued s fd idle interval probes on n1 n2 n3 =
        let s1 = (out1 s fd idle).1 in
        let s2 = (out2 s fd idle interval).1 in
        let after2 = λ (level opt : ℕ) (h : is_same ipproto_tcp tcp_keepintvl level opt ≡ false).
          m.apart s1 fd ipproto_tcp tcp_keepintvl level opt (interval ∷ []) h in
        let after3 = λ (level opt : ℕ) (h : is_same ipproto_tcp tcp_keepcnt level opt ≡ false).
          m.apart s2 fd ipproto_tcp tcp_keepcnt level opt (probes ∷ []) h in
        record {
          on =
              after3 sol_socket so_keepalive refl
              ∙ after2 sol_socket so_keepalive refl
              ∙ m.apart s fd ipproto_tcp tcp_keepidle sol_socket so_keepalive (idle ∷ []) refl
              ∙ on;
          idle_time =
              after3 ipproto_tcp tcp_keepidle refl
              ∙ after2 ipproto_tcp tcp_keepidle refl
              ∙ m.same s fd ipproto_tcp tcp_keepidle idle refl n1;
          interval_time =
              after3 ipproto_tcp tcp_keepintvl refl
              ∙ m.same s1 fd ipproto_tcp tcp_keepintvl interval refl n2;
          probe_count = m.same s2 fd ipproto_tcp tcp_keepcnt probes refl n3;
        }

    pub in_turn :
        (s : S) (ncb : Ncb) (idle interval probes old : ℤ)
        → k.getsockopt s ncb.sockfd sol_socket so_keepalive ≡ (pos 0, pos 1 ∷ [])
        → tcp_set_keepalive_value k (old ∷ []) s (some ncb) idle interval probes
          ≡ set_in_turn k s ncb.sockfd
              ((tcp_keepidle, idle) ∷ (tcp_keepintvl, interval) ∷ (tcp_keepcnt, probes) ∷ [])
    unfolding tcp_set_keepalive_value
    in_turn s ncb idle interval probes old on = rw (on_reads s ncb old on) refl

    pub set_values :
        (s : S) (ncb : Ncb) (idle interval probes old : ℤ)
        → k.getsockopt s ncb.sockfd sol_socket so_keepalive ≡ (pos 0, pos 1 ∷ [])
        → is_neg (out1 s ncb.sockfd idle).0 ≡ false
        → is_neg (out2 s ncb.sockfd idle interval).0 ≡ false
        → is_neg (out3 s ncb.sockfd idle interval probes).0 ≡ false
        → tcp_set_keepalive_value k (old ∷ []) s (some ncb) idle interval probes
          ≡ (pos 0, (out3 s ncb.sockfd idle interval probes).1)
    unfolding set_in_turn
    set_values s ncb idle interval probes old on n1 n2 n3 =
        in_turn s ncb idle interval probes old on
        ∙ turn_taken s ncb.sockfd tcp_keepidle idle
            ((tcp_keepintvl, interval) ∷ (tcp_keepcnt, probes) ∷ []) n1
        ∙ turn_taken (out1 s ncb.sockfd idle).1 ncb.sockfd tcp_keepintvl interval
            ((tcp_keepcnt, probes) ∷ []) n2
        ∙ turn_taken (out2 s ncb.sockfd idle interval).1 ncb.sockfd tcp_keepcnt probes [] n3
