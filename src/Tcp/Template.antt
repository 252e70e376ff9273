-- ===== src/Tcp/Template.antt =====
-- tcp.c: setting and getting the template of a link, tcp_settst, tcp_settst_r, tcp_gettst and
-- tcp_gettst_r.
use swnet_linux.Base.{
  ◌≡◌, refl, ap, Option, none, some, true, false, ◌==◌, ltb, ge→ltb, if◌then◌else◌, einval, arith,
  ◌≤◌,
}
use swnet_linux.Base.Int.{ℤ, pos, neg, is_neg}
use swnet_linux.Ncb.{Ncb, Template, tcp_maximum_template_size, ipproto_tcp}
use swnet_linux.Tcp.{tcp_refr}

-- The return code, and the link where there is one.
abbrev pub Called : Type 0
Called = ℤ × Option Ncb

-- Calls `f` on the link that __tcprefr gives.
abbrev pub on_link : ℤ × Option Ncb → Option Ncb → (Ncb → Ncb) → Called
on_link (retval, none) found f = (retval, found)
on_link (retval, some ncb) found f = (retval, some (f ncb))

unfoldable pub tcp_settst : ℤ → Option Ncb → Template → Called
tcp_settst link found tst =
    if ltb tcp_maximum_template_size tst.cb
    then (neg einval, found)
    else on_link (tcp_refr link found) found
        (λ ncb. record ncb { tcp = record ncb.tcp { template = tst } })

-- The template before is kept in `prtemplate`.
unfoldable pub tcp_settst_r : ℤ → Option Ncb → Template → Called
tcp_settst_r link found tst =
    if ltb tcp_maximum_template_size tst.cb
    then (neg einval, found)
    else on_link (tcp_refr link found) found (λ ncb. record ncb {
      tcp = record ncb.tcp { template = tst; prtemplate = ncb.tcp.template };
    })

-- The return code, and what `*tst` is afterwards.
unfoldable pub tcp_gettst : ℤ → Option Ncb → Template → ℤ × Template
tcp_gettst link found tst = elim (tcp_refr link found).1 [
  | none ↦ ((tcp_refr link found).0, tst)
  | some ncb ↦ ((tcp_refr link found).0, ncb.tcp.template)
]

-- The return code, `*tst` and `*previous` afterwards.
unfoldable pub tcp_gettst_r : ℤ → Option Ncb → Template → Template → ℤ × Template × Template
tcp_gettst_r link found tst previous = elim (tcp_refr link found).1 [
  | none ↦ ((tcp_refr link found).0, tst, previous)
  | some ncb ↦ ((tcp_refr link found).0, ncb.tcp.template, tst)
]

-- The handle refers to a TCP link.
pub record IsTcp (link : ℤ) (ncb : Ncb) : Type 0 where
  pub handle : is_neg link ≡ false
  pub protocol : (ncb.protocol == ipproto_tcp) ≡ true

pub refr_tcp :
    (link : ℤ) (ncb : Ncb) → IsTcp link ncb → tcp_refr link (some ncb) ≡ (pos 0, some ncb)
unfolding tcp_refr
refr_tcp link ncb v = rw (v.handle, v.protocol) refl

gettst_tcp :
    (link : ℤ) (ncb : Ncb) (old : Template)
    → IsTcp link ncb
    → tcp_gettst link (some ncb) old ≡ (pos 0, ncb.tcp.template)
unfolding tcp_gettst
gettst_tcp link ncb old v =
    rw (tcp_gettst, refr_tcp link ncb v) (ap (λ r. (r.0, ncb.tcp.template)) (refr_tcp link ncb v))

-- A template of at most 32 bytes that is set on a TCP link is the one that is got from it. It is
-- exchanged for the one before: setting `prtemplate` again gives the link its first template back.
pub tcp_settst_r-restores :
    (link : ℤ) (ncb : Ncb) (tst old : Template)
    → IsTcp link ncb
    → tst.cb ≤ tcp_maximum_template_size
    → ncb.tcp.template.cb ≤ tcp_maximum_template_size
    → (ncb' ncb'' : Ncb) × (tcp_settst_r link (some ncb) tst ≡ (pos 0, some ncb'))
      × (tcp_gettst link (some ncb') old ≡ (pos 0, tst))
      × (tcp_settst_r link (some ncb') ncb'.tcp.prtemplate ≡ (pos 0, some ncb''))
      × (tcp_gettst link (some ncb'') old ≡ (pos 0, ncb.tcp.template))
unfolding tcp_settst_r tcp_gettst
tcp_settst_r-restores link ncb tst old v small small' =
    let set : Ncb → Template → Ncb =
      λ n. λ t. record n { tcp = record n.tcp { template = t; prtemplate = n.tcp.template } } in
    let ncb' = set ncb tst in
    let ncb'' = set ncb' ncb.tcp.template in
    let v' : IsTcp link ncb' = record { handle = v.handle; protocol = v.protocol } in
    let v'' : IsTcp link ncb'' = record { handle = v.handle; protocol = v.protocol } in
    (
      ncb',
      ncb'',
      rw (ge→ltb tcp_maximum_template_size tst.cb small) (rw (refr_tcp link ncb v) refl),
      gettst_tcp link ncb' old v',
      rw (ge→ltb tcp_maximum_template_size ncb.tcp.template.cb small')
          (rw (refr_tcp link ncb' v') refl),
      gettst_tcp link ncb'' old v'',
    )

-- Where tcp_settst reports an error, the link's template is as it was.
pub tcp_settst_refused :
    (link : ℤ) (found : Option Ncb) (tst : Template)
    → is_neg (tcp_settst link found tst).0 ≡ true
    → (tcp_settst link found tst).1 ≡ found
unfolding tcp_settst tcp_refr
tcp_settst_refused link none tst h = ground arith
tcp_settst_refused link (some ncb) tst h = ground arith
