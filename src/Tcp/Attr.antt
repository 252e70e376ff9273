-- ===== src/Tcp/Attr.antt =====
-- tcp.c: the attributes of a link, tcp_setattr, tcp_getattr, tcp_setattr_r and tcp_getattr_r.
use Prim.Native.Nat.{bit_and, bit_or}
use swnet_linux.Base.{
  ℕ, ◌≡◌, ◌≢◌, refl, sym, ap, ◌∙◌, Option, none, some, Bool, true, false, not, ◌==◌, ◌||◌,
  if◌then◌else◌, einval, bit_clear, and-or, and-clear, and-or_other, and-clear_other, arith,
}
use swnet_linux.Base.Int.{ℤ, pos, neg, is_nonpos}
use swnet_linux.Ncb.{Ncb, AttrBits, has_attr}
use swnet_linux.Tcp.{tcp_refr}
use swnet_linux.Tcp.Template.{Called, IsTcp, refr_tcp}

-- The cases of the switch.
abbrev pub is_tcp_attr : AttrBits → ℕ → Bool
is_tcp_attr bits attr =
    (attr == bits.fully_receive) || (attr == bits.no_build) || (attr == bits.update_accept_context)

-- `enable > 0` sets the bit, anything else clears it.
unfoldable pub with_attr : ℕ → Bool → Ncb → Ncb
with_attr attr enable ncb = record ncb {
  attr = if enable then bit_or ncb.attr attr else bit_clear ncb.attr attr;
}

unfoldable pub tcp_setattr : AttrBits → ℤ → Option Ncb → ℕ → ℤ → Called
unfolding with_attr
tcp_setattr bits link found attr enable = elim (tcp_refr link found).1 [
  | none ↦ ((tcp_refr link found).0, found)
  | some ncb ↦
      if is_tcp_attr bits attr
      then (pos 0, some (with_attr attr (not (is_nonpos enable)) ncb))
      else (neg einval, some ncb)
]

-- The return code, and `*enabled` where it is set.
unfoldable pub tcp_getattr : ℤ → Option Ncb → ℕ → ℤ × Option Bool
tcp_getattr link found attr = elim (tcp_refr link found).1 [
  | none ↦ ((tcp_refr link found).0, none)
  | some ncb ↦ (pos 0, some (has_attr ncb.attr attr))
]

unfoldable pub tcp_setattr_r : Ncb → ℕ → Ncb
tcp_setattr_r ncb attr = record ncb { attr = attr }

-- The atomic exchange puts the attributes into `*attr`; what it returns is what `*attr` was.
unfoldable pub tcp_getattr_r : Ncb → ℕ → ℕ × ℕ
tcp_getattr_r ncb attr = (attr, ncb.attr)

with-has :
    (ncb : Ncb) (attr : ℕ) (enable : Bool)
    → attr ≢ 0
    → has_attr (with_attr attr enable ncb).attr attr ≡ enable
unfolding with_attr
with-has ncb attr true n = ground (arith, and-or ncb.attr attr, n)
with-has ncb attr false n = ap (λ k. not (k == 0)) (and-clear ncb.attr attr)

with-other :
    (ncb : Ncb) (attr other : ℕ) (enable : Bool)
    → bit_and attr other ≡ 0
    → has_attr (with_attr attr enable ncb).attr other ≡ has_attr ncb.attr other
unfolding with_attr
with-other ncb attr other true d = ap (λ k. not (k == 0)) (and-or_other ncb.attr attr other d)
with-other ncb attr other false d = ap (λ k. not (k == 0)) (and-clear_other ncb.attr attr other d)

getattr_tcp :
    (link : ℤ) (ncb : Ncb) (attr : ℕ)
    → IsTcp link ncb
    → tcp_getattr link (some ncb) attr ≡ (pos 0, some (has_attr ncb.attr attr))
unfolding tcp_getattr
getattr_tcp link ncb attr v = rw (tcp_getattr, refr_tcp link ncb v) refl

IsTcp-with :
    (link : ℤ) (ncb : Ncb) (attr : ℕ) (enable : Bool)
    → IsTcp link ncb
    → IsTcp link (with_attr attr enable ncb)
unfolding with_attr
IsTcp-with link ncb attr enable v = record { handle = v.handle; protocol = v.protocol }

-- On a TCP link, with one of the three attributes and its bit not 0: tcp_setattr succeeds,
-- tcp_getattr then tells that the attribute is enabled if and only if it was set with a positive
-- number, and of every attribute that shares no bit with it tcp_getattr tells what it told before.
pub tcp_setattr-getattr :
    (bits : AttrBits) (link : ℤ) (ncb : Ncb) (attr : ℕ) (enable : ℤ)
    → IsTcp link ncb
    → is_tcp_attr bits attr ≡ true
    → attr ≢ 0
    → (ncb' : Ncb) × (tcp_setattr bits link (some ncb) attr enable ≡ (pos 0, some ncb'))
      × (tcp_getattr link (some ncb') attr ≡ (pos 0, some (not (is_nonpos enable))))
      × ((other : ℕ)
          → bit_and attr other ≡ 0
          → tcp_getattr link (some ncb') other ≡ tcp_getattr link (some ncb) other)
unfolding tcp_setattr
tcp_setattr-getattr bits link ncb attr enable v a n =
    let ncb' = with_attr attr (not (is_nonpos enable)) ncb in
    let v' : IsTcp link ncb' = IsTcp-with link ncb attr (not (is_nonpos enable)) v in
    (
      ncb',
      rw (tcp_setattr, refr_tcp link ncb v, a) refl,
      getattr_tcp link ncb' attr v'
          ∙ ap (λ b. (pos 0, some b)) (with-has ncb attr (not (is_nonpos enable)) n),
      λ other d.
          getattr_tcp link ncb' other v'
          ∙ ap (λ b. (pos 0, some b)) (with-other ncb attr other (not (is_nonpos enable)) d)
          ∙ sym (getattr_tcp link ncb other v),
    )
