-- ===== src/Mxx.antt =====
-- mxx.c: the library's log, the control of a link, and the interfaces of the machine.
pub mod Log
pub mod Interfaces
pub mod Names
use swnet_linux.Base.{
  ℕ, zero, suc, ◌+◌, ◌*◌, ◌-◌, List, [], ◌∷◌, ◌++◌, Option, none, some, Bool, true, false, ◌==◌,
  ltb, if◌then◌else◌, is_some, length, take, drop, einval, enoent, eagain,
}
use swnet_linux.Base.Int.{ℤ, pos, neg, is_neg, is_nonpos, to_ℕ}
use swnet_linux.Base.Run.{Run, fault, done, ◌>>=◌}
use swnet_linux.Ncb.{Ncb, Template, ipproto_tcp, ipproto_udp}
use swnet_linux.Tcp.Attr.{tcp_setattr_r, tcp_getattr_r}
use swnet_linux.Tcp.Template.{tcp_settst_r, tcp_gettst}
use swnet_linux.Udp.{UdpLimits, udp_setattr_r}

-- nis_getver
abbrev pub version : ℕ × ℕ × ℕ
version = (9, 7, 6)

unfoldable pub nis_getver : Bool → ℤ × Option (ℕ × ℕ × ℕ)
nis_getver false = (neg 1, none)
nis_getver true = (pos 0, some version)

-- nis_checr: the callback before, and `current_ecr` afterwards.
unfoldable pub nis_checr : Option ℕ → Option ℕ → Option ℕ × Option ℕ
nis_checr current none = (none, none)
nis_checr current (some ecr) = (current, some ecr)

-- sizeof(logstr)
abbrev pub log_size : ℕ
log_size = 1280

-- vsnprintf(3) into `size` bytes of a buffer: what fits of the message, and the byte that ends it.
unfoldable pub store_formatted : List ℕ → ℕ → List ℕ → List ℕ
store_formatted buffer size message =
    let kept = take (size - 1) message in kept ++ (0 ∷ drop (length kept + 1) buffer)

-- A store at an index of a buffer; behind its end it is undefined.
unfoldable pub store_byte : List ℕ → ℕ → ℕ → Run (List ℕ)
store_byte [] i x = fault
store_byte (b ∷ bs) zero x = done (x ∷ bs)
store_byte (b ∷ bs) (suc i) x = store_byte bs i x >>= (λ rest. done (b ∷ rest))

-- The string that stands in a buffer, up to its first 0.
unfoldable pub c_string : List ℕ → Run (List ℕ)
c_string [] = fault
c_string (b ∷ bs) =
    let rest = c_string bs in if b == 0 then done [] else rest >>= (λ s. done (b ∷ s))

-- nis_call_ecr, and the string that its callback gets, where one is called. `message` is the
-- formatted string, whose whole length vsnprintf returns; `stale` are the bytes of `logstr` before.
unfoldable pub nis_call_ecr : Option ℕ → List ℕ → List ℕ → Run (Option (List ℕ))
unfolding store_formatted store_byte c_string
nis_call_ecr none stale message = done none
nis_call_ecr (some ecr) stale message =
    if length message == 0
    then done none
    else store_byte (store_formatted stale (log_size - 1) message) (length message) 0
      >>= (λ logstr. c_string logstr >>= (λ text. done (some text)))

-- The commands of nis_cntl, which nisdef.h numbers, with the argument of each.
pub data Command : Type 0 where
  set_attr : ℕ → Command
  get_attr : Command
  set_ctx : Option ℕ → Command
  get_ctx : Command
  set_tst : Template → Command
  get_tst : Template → Command
  unknown : Command

-- The return code, the link, what is stored at the caller's pointer (a context or a template), and
-- whether the reference to the link is given back.
pub data Stored : Type 0 where
  nothing : Stored
  context : Option ℕ → Stored
  template : Template → Stored

pub record Controlled : Type 0 where
  pub retval : ℤ
  pub ncb : Ncb
  pub stored : Stored
  pub given_back : Bool

abbrev controlled : ℤ → Ncb → Controlled
controlled retval ncb = record { retval = retval; ncb = ncb; stored = nothing; given_back = true }

unfoldable pub cntl_setattr : UdpLimits → (Bool → ℤ) → Ncb → ℕ → Ncb
cntl_setattr limits setsockopt ncb attr =
    if ncb.protocol == ipproto_tcp
    then tcp_setattr_r ncb attr
    else if ncb.protocol == ipproto_udp
    then (udp_setattr_r limits setsockopt ncb attr).1
    else ncb

-- The attributes become the return code. For UDP, udp_getattr_r does what tcp_getattr_r does.
unfoldable pub cntl_getattr : Ncb → ℤ
cntl_getattr ncb =
    if ncb.protocol == ipproto_tcp
    then pos (tcp_getattr_r ncb 0).1
    else if ncb.protocol == ipproto_udp
    then pos (tcp_getattr_r ncb 0).1
    else pos 0

-- nis_cntl on the link. `garbage` is what the local variable `context` holds before it is set,
-- which NI_GETCTX stores in the link. The template commands look the link up again by its handle.
unfoldable pub cntl_link : UdpLimits → (Bool → ℤ) → Option ℕ → ℤ → Ncb → Command → Controlled
unfolding cntl_setattr cntl_getattr
cntl_link limits setsockopt garbage link ncb (set_attr attr) =
    controlled (pos 0) (cntl_setattr limits setsockopt ncb attr)
cntl_link limits setsockopt garbage link ncb get_attr = controlled (cntl_getattr ncb) ncb
cntl_link limits setsockopt garbage link ncb (set_ctx c) =
    controlled (pos 0) (record ncb { context = c; prcontext = ncb.context })
cntl_link limits setsockopt garbage link ncb get_ctx =
    record (controlled (pos 0) (record ncb { prcontext = garbage })) {
      stored = context ncb.context;
    }
cntl_link limits setsockopt garbage link ncb (set_tst tst) =
    let (retval, found) = tcp_settst_r link (some ncb) tst in
    controlled retval (elim found [ none ↦ ncb | some ncb' ↦ ncb' ])
cntl_link limits setsockopt garbage link ncb (get_tst tst) =
    let (retval, tst') = tcp_gettst link (some ncb) tst in
    record (controlled retval ncb) { stored = template tst' }
cntl_link limits setsockopt garbage link ncb unknown = record (controlled (neg einval) ncb) {
  given_back = false;
}

-- nis_cntl: none for the link stands for a handle of no link.
unfoldable pub nis_cntl :
    UdpLimits → (Bool → ℤ) → Option ℕ → ℤ → Option Ncb → Command → ℤ × Option Controlled
unfolding cntl_link
nis_cntl limits setsockopt garbage link none cmd = (neg enoent, none)
nis_cntl limits setsockopt garbage link (some ncb) cmd =
    let c = cntl_link limits setsockopt garbage link ncb cmd in (c.retval, some c)
