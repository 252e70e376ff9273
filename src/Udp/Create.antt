-- ===== src/Udp/Create.antt =====
-- udp.c: udp_create.
pub mod Outcomes
use Prim.Native.Nat.{bit_or}
use swnet_linux.Base.{
  ℕ, ◌+◌, ◌-◌, ◌≡◌, refl, ap, ◌∙◌, Option, none, some, Bool, true, false, if◌then◌else◌,
}
use swnet_linux.Base.Int.{ℤ, pos, neg, is_neg}
use swnet_linux.Buffer.{malloc}
use swnet_linux.Ncb.{Ncb, SockAddr, Routine, has_attr, ipproto_udp}
use swnet_linux.Ncb.Life.{ncb_allocator, ncb_deconstruct}
use swnet_linux.Io.{epollin, registered}
use swnet_linux.Io.Attach.{IoHandles, AttachReplies, io_attach}
use swnet_linux.Udp.{UdpLimits, udp_set_boardcast}

-- The answers of the system, each to a call that is made only where the code reaches it: the
-- descriptor, whether bind(2) succeeds, the handle, whether the allocation of the packet succeeds,
-- what setsockopt(2) answers for SO_BROADCAST, the address that getsockname(2) gives, the answers
-- to io_attach, and that to the io_close of a link that is given up.
pub record UdpReplies : Type 0 where
  pub fd : Option ℕ
  pub bound : Bool
  pub hld : Option ℕ
  pub memory : Bool
  pub broadcast : ℤ
  pub local_addr : SockAddr
  pub attach : AttachReplies
  pub ctl : Option ℕ

-- What a step of the creation has come to: it goes on, or the link is given up.
pub data Stage : Type 0 where
  ready : Ncb → Stage
  given_up : Ncb → Stage

module _ (makeerror : ℕ → ℤ) (handles : IoHandles) (limits : UdpLimits) (r : UdpReplies) where
  unfoldable pub set_flag : Ncb → ℕ → Stage
  unfolding udp_set_boardcast
  set_flag ncb flag =
      if has_attr flag limits.flag_broadcast
      then if is_neg (udp_set_boardcast (some ncb) r.broadcast)
        then given_up ncb
        else ready (record ncb { attr = bit_or ncb.attr limits.flag_broadcast })
      else if has_attr flag limits.flag_multicast
      then ready (record ncb { attr = bit_or ncb.attr limits.flag_multicast })
      else ready ncb

  -- From the local address on.
  unfoldable pub start : Stage → Stage
  start (given_up ncb) = given_up ncb
  start (ready ncb) =
      let (retval, ncb') =
        io_attach makeerror handles
          (record ncb {
            local_addr = r.local_addr;
            ncb_read = some Routine.udp_rx;
            ncb_write = some Routine.udp_tx;
          })
          epollin r.attach in
      if is_neg retval then given_up ncb' else ready ncb'

  unfoldable pub udp_setup : Ncb → ℕ → Stage
  unfolding set_flag start
  udp_setup ncb flag =
      if r.memory
      then start (set_flag (record ncb { packet = some (malloc limits.max_udp_unit) }) flag)
      else given_up ncb

  -- The return code, the link, and the count of links. A link that is given up ends as its last
  -- reference goes.
  unfoldable pub finish : ℕ → ℕ → Stage → ℤ × Option Ncb × ℕ
  finish hld count (ready ncb) = (pos hld, some ncb, count)
  finish hld count (given_up ncb) =
      let (ncb', count') = ncb_deconstruct ncb count r.ctl in (neg 1, some ncb', count')

  -- The link as objallo(3) and the first assignments leave it.
  abbrev pub udp_fresh : Option ℕ → ℕ → ℕ → Ncb
  udp_fresh callback fd hld = record (ncb_allocator 0).1 {
    nis_callback = callback;
    sockfd = pos fd;
    hld = hld;
    protocol = ipproto_udp;
  }

  unfoldable pub udp_create_at : Option ℕ → ℕ → ℕ → ℕ → ℕ → ℤ × Option Ncb × ℕ
  unfolding finish udp_setup
  udp_create_at callback flag nl_count fd hld =
      finish hld (ncb_allocator nl_count).2 (udp_setup (udp_fresh callback fd hld) flag)

  unfoldable pub udp_bound : Option ℕ → ℕ → ℕ → ℕ → Option ℕ → ℤ × Option Ncb × ℕ
  unfolding udp_create_at
  udp_bound callback flag nl_count fd none = (neg 1, none, nl_count)
  udp_bound callback flag nl_count fd (some hld) = udp_create_at callback flag nl_count fd hld

  unfoldable pub udp_opened : Option ℕ → ℕ → ℕ → Option ℕ → ℤ × Option Ncb × ℕ
  unfolding udp_bound
  udp_opened callback flag nl_count none = (neg 1, none, nl_count)
  udp_opened callback flag nl_count (some fd) =
      if r.bound then udp_bound callback flag nl_count fd r.hld else (neg 1, none, nl_count)

  -- udp_create
  unfoldable pub udp_create : Option ℕ → ℕ → ℕ → ℤ × Option Ncb × ℕ
  unfolding udp_opened
  udp_create callback flag nl_count = udp_opened callback flag nl_count r.fd
