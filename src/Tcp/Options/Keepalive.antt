-- ===== src/Tcp/Options/Keepalive.antt =====
-- What the keepalive options of a link come to.
use swnet_linux.Base.{ℕ, ◌≡◌, refl, sym, ap, ◌∙◌, [], ◌∷◌, some, true, false, Bool-cases, inl, inr}
use swnet_linux.Base.Int.{ℤ, pos, neg, is_neg}
use swnet_linux.Ncb.{Ncb, ipproto_tcp}
use swnet_linux.Ncb.Options.{
  Sockets, Linger, set_opt, get_opt, ncb_set_linger, ncb_get_linger, sol_socket, so_keepalive,
  so_linger,
}
use swnet_linux.Tcp.Options.{
  tcp_nodelay, tcp_keepidle, tcp_keepintvl, tcp_keepcnt, tcp_set_keepalive, tcp_get_keepalive,
  tcp_set_nodelay, tcp_get_nodelay, tcp_set_keepalive_value, tcp_update_opts,
}
use swnet_linux.Tcp.Options.Values.{
  Remembers, Accepts, IsValued, ReadsValues, IsValued-reads, turn_taken, turn_refused, is_same,
  out1, out2, out3, set-IsValued, in_turn, set_values,
}

module _ {S : Type 0} (k : Sockets S) where
  -- What a run of tcp_set_keepalive_value may give.
  pub data SetsValues (ncb : Ncb) (idle interval probes : ℤ) (out : ℤ × S) : Type 0 where
    set :
        (s' : S)
        → out ≡ (pos 0, s')
        → ReadsValues k s' ncb idle interval probes
        → SetsValues ncb idle interval probes out
    refused :
        (s s' : S) (opt : ℕ) (v : ℤ)
        → out ≡ (neg 1, s')
        → is_neg (k.setsockopt s ncb.sockfd ipproto_tcp opt (v ∷ [])).0 ≡ true
        → SetsValues ncb idle interval probes out

  module _ (m : Remembers k) where
    -- On a link whose keepalive is on, tcp_set_keepalive_value returns 0 and
    -- tcp_get_keepalive_value then returns 0 with the same three values; or the kernel has refused
    -- an option and it returns -1.
    pub tcp_set_keepalive_value-Sets :
        (s : S) (ncb : Ncb) (idle interval probes old : ℤ)
        → k.getsockopt s ncb.sockfd sol_socket so_keepalive ≡ (pos 0, pos 1 ∷ [])
        → SetsValues ncb idle interval probes
            (tcp_set_keepalive_value k (old ∷ []) s (some ncb) idle interval probes)
    tcp_set_keepalive_value-Sets s ncb idle interval probes old on =
        let fd = ncb.sockfd in
        let o = in_turn k m s ncb idle interval probes old on in
        elim (Bool-cases (is_neg (out1 k s fd idle).0)) [
          | inl b1 ↦
              refused s (out1 k s fd idle).1 tcp_keepidle idle
                (o
                  ∙ turn_refused k s fd tcp_keepidle idle
                      ((tcp_keepintvl, interval) ∷ (tcp_keepcnt, probes) ∷ []) b1)
                b1
          | inr a1 ↦ elim (Bool-cases (is_neg (out2 k s fd idle interval).0)) [
            | inl b2 ↦
                refused (out1 k s fd idle).1 (out2 k s fd idle interval).1 tcp_keepintvl interval
                  (o
                    ∙ turn_taken k s fd tcp_keepidle idle
                        ((tcp_keepintvl, interval) ∷ (tcp_keepcnt, probes) ∷ []) a1
                    ∙ turn_refused k (out1 k s fd idle).1 fd tcp_keepintvl interval
                        ((tcp_keepcnt, probes) ∷ []) b2)
                  b2
            | inr a2 ↦ elim (Bool-cases (is_neg (out3 k s fd idle interval probes).0)) [
              | inl b3 ↦
                  refused (out2 k s fd idle interval).1 (out3 k s fd idle interval probes).1
                    tcp_keepcnt probes
                    (o
                      ∙ turn_taken k s fd tcp_keepidle idle
                          ((tcp_keepintvl, interval) ∷ (tcp_keepcnt, probes) ∷ []) a1
                      ∙ turn_taken k (out1 k s fd idle).1 fd tcp_keepintvl interval
                          ((tcp_keepcnt, probes) ∷ []) a2
                      ∙ turn_refused k (out2 k s fd idle interval).1 fd tcp_keepcnt probes [] b3)
                    b3
              | inr a3 ↦
                  set (out3 k s fd idle interval probes).1
                    (set_values k m s ncb idle interval probes old on a1 a2 a3)
                    (IsValued-reads k _ ncb idle interval probes
                      (set-IsValued k m s fd idle interval probes on a1 a2 a3))
            ]
          ]
        ]

    abbrev begun : S → ℤ → S
    begun s fd = (k.setsockopt s fd sol_socket so_keepalive (pos 1 ∷ [])).1

    abbrev valued : S → ℤ → S
    valued s fd = (out3 k (begun s fd) fd (pos 30) (pos 5) (pos 6)).1

    begun_on :
        (s : S) (fd : ℤ)
        → Accepts k
        → k.getsockopt (begun s fd) fd sol_socket so_keepalive ≡ (pos 0, pos 1 ∷ [])
    begun_on s fd ok = m.same s fd sol_socket so_keepalive (pos 1) refl (ok s fd _ _ _ refl)

    update_opts_is :
        (s : S) (ncb : Ncb) (old : ℤ)
        → Accepts k
        → tcp_update_opts k (old ∷ []) s (some ncb)
          ≡ (k.setsockopt (valued s ncb.sockfd) ncb.sockfd ipproto_tcp tcp_nodelay (pos 1 ∷ [])).1
    unfolding tcp_update_opts tcp_set_keepalive tcp_set_nodelay set_opt
    update_opts_is s ncb old ok =
        ap (λ out. (tcp_set_nodelay k out.1 (some ncb) (pos 1)).1)
          (set_values k m (begun s ncb.sockfd) ncb (pos 30) (pos 5) (pos 6) old
            (begun_on s ncb.sockfd ok) (ok _ ncb.sockfd _ _ _ refl) (ok _ ncb.sockfd _ _ _ refl)
            (ok _ ncb.sockfd _ _ _ refl))

    update_opts-IsValued :
        (s : S) (fd : ℤ)
        → Accepts k
        → IsValued k
            (k.setsockopt (valued s fd) fd ipproto_tcp tcp_nodelay (pos 1 ∷ [])).1
            fd
            (pos 30)
            (pos 5)
            (pos 6)
    update_opts-IsValued s fd ok =
        let v : IsValued k (valued s fd) fd (pos 30) (pos 5) (pos 6) =
          set-IsValued k m (begun s fd) fd (pos 30) (pos 5) (pos 6) (begun_on s fd ok)
            (ok _ fd _ _ _ refl) (ok _ fd _ _ _ refl) (ok _ fd _ _ _ refl) in
        let after = λ (level opt : ℕ) (h : is_same ipproto_tcp tcp_nodelay level opt ≡ false).
          m.apart (valued s fd) fd ipproto_tcp tcp_nodelay level opt (pos 1 ∷ []) h in
        record {
          on = after sol_socket so_keepalive refl ∙ v.on;
          idle_time = after ipproto_tcp tcp_keepidle refl ∙ v.idle_time;
          interval_time = after ipproto_tcp tcp_keepintvl refl ∙ v.interval_time;
          probe_count = after ipproto_tcp tcp_keepcnt refl ∙ v.probe_count;
        }

    -- With a kernel that refuses none of the options: whatever was set before, tcp_update_opts
    -- leaves a link with keepalive on, probed after 30 idle seconds every 5 seconds at most 6
    -- times, and with TCP_NODELAY.
    pub tcp_update_opts-values :
        (s s' : S) (ncb : Ncb) (old x : ℤ)
        → Accepts k
        → tcp_update_opts k (old ∷ []) s (some ncb) ≡ s'
        → (tcp_get_keepalive k s' (some ncb) (some (x ∷ [])) ≡ (pos 0, some (pos 1 ∷ [])))
          × ReadsValues k s' ncb (pos 30) (pos 5) (pos 6)
          × (tcp_get_nodelay k s' (some ncb) (some (x ∷ [])) ≡ (pos 0, some (pos 1 ∷ [])))
    unfolding tcp_get_keepalive tcp_get_nodelay get_opt
    tcp_update_opts-values s s' ncb old x ok e =
        let fd = ncb.sockfd in
        let v = update_opts-IsValued s fd ok in
        rw (sym e ∙ update_opts_is s ncb old ok) (
          rw (v.on) refl,
          IsValued-reads k _ ncb (pos 30) (pos 5) (pos 6) v,
          rw (m.same (valued s fd) fd ipproto_tcp tcp_nodelay (pos 1) refl (ok _ fd _ _ _ refl))
              refl,
        )

  -- ncb_get_linger reads SO_KEEPALIVE: after ncb_set_linger it gives the keepalive switch for
  -- `onoff`, and for `lin` what its local variable held before, whatever was set.
  pub ncb_get_linger_other :
      (s : S) (ncb : Ncb) (onoff lin v a b : ℤ) (lgr : Linger)
      → Remembers k
      → k.getsockopt s ncb.sockfd sol_socket so_keepalive ≡ (pos 0, v ∷ [])
      → ncb_get_linger k lgr
          (ncb_set_linger k s (some ncb) onoff lin).1
          (some ncb)
          (some a)
          (some b)
        ≡ (pos 0, some v, some lgr.lin)
  unfolding ncb_get_linger ncb_set_linger set_opt
  ncb_get_linger_other s ncb onoff lin v a b lgr m e =
      rw
        (
          m.apart s ncb.sockfd sol_socket so_linger sol_socket so_keepalive (onoff ∷ lin ∷ []) refl,
          e,
        )
        refl
