-- ===== src/Ncb.antt =====
-- ncb.h, fifo.h and the constants of tcp.h: the control block of one link. A pointer to memory of
-- the block's own is a value here, an optional pointer an `Option`. The parts of its union, `tcp`,
-- `mreq` (for UDP) and `arp`, stand beside each other, as a link uses that of its protocol. Three
-- fields are not in the C structure: `posted` is the list of events handed to the user's callback
-- so far, oldest first, `interest` the event mask that the epoll instance holds for the socket, and
-- `flags` the flags of the descriptor.
pub mod Life
pub mod Uninit
pub mod Options
use Prim.Native.Nat.{bit_and}
use swnet_linux.Base.{
  ◌≡◌, ap, ℕ, List, [], ◌++◌, ◌∷◌, Option, none, some, Bool, not, ◌==◌, if◌then◌else◌, is_some,
}
use swnet_linux.Base.Int.{ℤ}
use swnet_linux.Buffer.{Buffer}

abbrev pub tcp_buffer_size : ℕ
tcp_buffer_size = 0x11000

abbrev pub tcp_maximum_packet_size : ℕ
tcp_maximum_packet_size = 52428800

abbrev pub tcp_maximum_template_size : ℕ
tcp_maximum_template_size = 32

abbrev pub ipproto_tcp : ℕ
ipproto_tcp = 6

abbrev pub ipproto_udp : ℕ
ipproto_udp = 17

abbrev pub eth_p_arp : ℕ
eth_p_arp = 0x0806

-- The parser of a user's template: given the bytes received so far it returns its status and the
-- size of the user data that it stores through its last argument.
abbrev pub Parser : Type 0
Parser = List ℕ → ℤ × ℤ

-- The builder: its status, and the header that it writes for a payload of the given size.
abbrev pub Builder : Type 0
Builder = ℕ → ℤ × List ℕ

pub record Template : Type 0 where
  pub cb : ℕ
  pub builder : Option Builder
  pub parser : Option Parser

-- The LINKATTR bits that nisdef.h defines; that header is not part of the repository.
pub record AttrBits : Type 0 where
  pub fully_receive : ℕ
  pub no_build : ℕ
  pub update_accept_context : ℕ

-- `attr & bit`
abbrev pub has_attr : ℕ → ℕ → Bool
has_attr attr bit = not (bit_and attr bit == 0)

-- The address and the port of a socket, as they stand in memory. The target of an ARP node has no
-- port; its `addr` is the index of the interface.
pub record SockAddr : Type 0 where
  pub addr : ℕ
  pub port : ℕ

pub record Node : Type 0 where
  pub bytes : List ℕ
  pub wcb : ℕ
  pub offset : ℕ
  pub target : SockAddr

pub record Fifo : Type 0 where
  pub blocking : ℕ
  pub size : ℕ
  pub nodes : List Node

-- The routines that `ncb_read` and `ncb_write` point to.
pub data Routine : Type 0 where
  tcp_syn tcp_rx tcp_tx tcp_tx_syn udp_rx udp_tx arp_rx arp_tx pipe_rx pipe_tx : Routine

-- struct Address_Resolution_Protocol of arp.h
pub record ArpPacket : Type 0 where
  pub hardware_type : ℕ
  pub protocol_type : ℕ
  pub hardware_size : ℕ
  pub protocol_size : ℕ
  pub op_code : ℕ
  pub sender_mac : List ℕ
  pub sender_ip : ℕ
  pub target_mac : List ℕ
  pub target_ip : ℕ

pub data Event : Type 0 where
  receivedata : List ℕ → Event
  datagram : List ℕ → SockAddr → Event
  pipedata : List ℕ → Event
  arp_reply : ArpPacket → Event
  tcp_accepted : ℕ → Event
  tcp_connected : Event
  pre_close : Option ℕ → Event
  closed : Event

pub record TcpPart : Type 0 where
  pub rx_parse_offset : ℕ
  pub rx_buffer : Option Buffer
  pub lbdata : Option Buffer
  pub lboffset : ℕ
  pub lbsize : ℕ
  pub template : Template
  pub prtemplate : Template

-- struct ip_mreq
pub record GroupRequest : Type 0 where
  pub multiaddr : ℕ
  pub interface_addr : ℕ

pub record ArpPart : Type 0 where
  pub source : ℕ
  pub ifindex : ℕ
  pub source_phyaddr : List ℕ

-- The two flags of the socket's descriptor that the code looks at: O_NONBLOCK and FD_CLOEXEC.
pub record FdFlags : Type 0 where
  pub nonblock : Bool
  pub cloexec : Bool

pub record Ncb : Type 0 where
  pub hld : ℕ
  pub sockfd : ℤ
  pub epfd : ℤ
  pub protocol : ℕ
  pub packet : Option Buffer
  pub fifo : Fifo
  pub remot_addr : SockAddr
  pub local_addr : SockAddr
  pub nis_callback : Option ℕ
  pub ncb_read : Option Routine
  pub ncb_write : Option Routine
  pub attr : ℕ
  pub context : Option ℕ
  pub prcontext : Option ℕ
  pub tcp : TcpPart
  pub mreq : Option GroupRequest
  pub arp : ArpPart
  pub flags : FdFlags
  pub interest : Option ℕ
  pub posted : List Event

-- Calls `ncb->nis_callback` with an event if one is set.
unfoldable pub post : Ncb → Event → Ncb
post ncb e =
    if is_some ncb.nis_callback then record ncb { posted = ncb.posted ++ (e ∷ []) } else ncb

-- Where a callback is set, the event is handed to it.
pub post_called :
    (ncb : Ncb) (e : Event) (callback : ℕ)
    → ncb.nis_callback ≡ some callback
    → post ncb e ≡ record ncb { posted = ncb.posted ++ (e ∷ []) }
unfolding post
post_called ncb e callback h =
    ap (λ c. if is_some c then record ncb { posted = ncb.posted ++ (e ∷ []) } else ncb) h

unfoldable pub ncb_post_preclose : Ncb → Ncb
unfolding post
ncb_post_preclose ncb = post ncb (pre_close ncb.context)

unfoldable pub ncb_post_closed : Ncb → Ncb
unfolding post
ncb_post_closed ncb = post ncb closed

unfoldable pub ncb_post_pipedata : Ncb → List ℕ → Ncb
unfolding post
ncb_post_pipedata ncb data' = post ncb (pipedata data')

-- On the listening link, with the handle of the new one.
unfoldable pub ncb_post_accepted : Ncb → ℕ → Ncb
unfolding post
ncb_post_accepted ncb link = post ncb (tcp_accepted link)

unfoldable pub ncb_post_connected : Ncb → Ncb
unfolding post
ncb_post_connected ncb = post ncb tcp_connected

unfoldable pub ncb_post_recvdata : Ncb → List ℕ → Ncb
unfolding post
ncb_post_recvdata ncb data' = post ncb (receivedata data')

-- ncb_lb_marked
abbrev pub ncb_lb_marked : Ncb → Bool
ncb_lb_marked ncb = lb_marked ncb.tcp.lbdata ncb.tcp.lbsize
  where
    lb_marked : Option Buffer → ℕ → Bool
    lb_marked none n = Bool.false
    lb_marked (some b) n = not (n == 0)
