-- ===== src/Tcp/Create.antt =====
-- tcp.c: making and destroying a TCP link, tcp_getaddr and tcp_awaken. The linger option that
-- tcp_create sets on the socket (Ncb/Options) is no part of the link's record.
use swnet_linux.Base.{
  ℕ, ◌+◌, ◌<◌, ◌≤◌, ◌≡◌, refl, List, [], Option, none, some, Bool, true, if◌then◌else◌, einval,
  enomem, swap16, swap32, arith, ge→ltb,
}
use swnet_linux.Base.Int.{ℤ, pos, neg}
use swnet_linux.Base.Run.{Run, done}
use swnet_linux.Buffer.{malloc}
use swnet_linux.Ncb.{
  Ncb, SockAddr, Template, Parser, tcp_buffer_size, ipproto_tcp, tcp_maximum_template_size,
}
use swnet_linux.Ncb.Life.{ncb_allocator, ncb_deconstruct}
use swnet_linux.Io.{io_close}
use swnet_linux.Io.Attach.{IoHandles}
use swnet_linux.Pipe.{pipe_write_message}
use swnet_linux.Fifo.{fifo_init}
use swnet_linux.Fifo.Invariant.{IsQueue}
use swnet_linux.Tcpal.Refine.{IsFramed, Holds, header}
use swnet_linux.Tcp.{tcp_refr}
use swnet_linux.Tcp.Template.{tcp_settst}

-- The answers of the system, each to a call that is made only where the code reaches it: the
-- descriptor, whether bind(2) succeeds, the handle, whether the allocations of the packet and of
-- the receive buffer succeed, and the answer to the io_close of a link that is given up.
pub record TcpReplies : Type 0 where
  pub fd : Option ℕ
  pub bound : Bool
  pub hld : Option ℕ
  pub packet_memory : Bool
  pub rx_memory : Bool
  pub ctl : Option ℕ

-- The link is given up: it ends as its last reference goes.
unfoldable pub out_of_memory : TcpReplies → Ncb → ℕ → ℤ × Option Ncb × ℕ
out_of_memory r ncb count =
    let (ncb', count') = ncb_deconstruct ncb count r.ctl in (neg enomem, some ncb', count')

-- The link with its buffers, where there is memory for them.
unfoldable pub tcp_buffers : TcpReplies → Ncb → ℕ → ℤ × Option Ncb × ℕ
unfolding out_of_memory
tcp_buffers r ncb count =
    let packed : Ncb = record ncb {
      packet = some (malloc tcp_buffer_size);
      tcp = record ncb.tcp { rx_parse_offset = 0 };
    } in
    if r.packet_memory
    then if r.rx_memory
      then (
        pos ncb.hld,
        some (record packed {
          tcp = record packed.tcp { rx_buffer = some (malloc tcp_buffer_size) };
        }),
        count,
      )
      else out_of_memory r packed count
    else out_of_memory r ncb count

unfoldable pub tcp_bound : TcpReplies → Option ℕ → SockAddr → ℕ → ℕ → Option ℕ → ℤ × Option Ncb × ℕ
unfolding tcp_buffers
tcp_bound r callback local nl_count fd none = (neg 1, none, nl_count)
tcp_bound r callback local nl_count fd (some hld) =
    tcp_buffers r
      (record (ncb_allocator nl_count).1 {
        hld = hld;
        sockfd = pos fd;
        protocol = ipproto_tcp;
        nis_callback = callback;
        local_addr = local;
      })
      (ncb_allocator nl_count).2

unfoldable pub tcp_opened : TcpReplies → Option ℕ → SockAddr → ℕ → Option ℕ → ℤ × Option Ncb × ℕ
unfolding tcp_bound
tcp_opened r callback local nl_count none = (neg 1, none, nl_count)
tcp_opened r callback local nl_count (some fd) =
    if r.bound then tcp_bound r callback local nl_count fd r.hld else (neg 1, none, nl_count)

-- tcp_create: the return code, the link, and the count of links. `ipstr` is the address that
-- inet_addr(3) reads from the string, where there is one; INADDR_ANY is 0.
unfoldable pub tcp_create : TcpReplies → Option ℕ → Option ℕ → ℕ → ℕ → ℤ × Option Ncb × ℕ
unfolding tcp_opened
tcp_create r callback ipstr port nl_count =
    tcp_opened r callback
      (record { addr = elim ipstr [ none ↦ 0 | some ip ↦ ip ]; port = swap16 port }) nl_count r.fd

-- tcp_destroy: the socket of the link is closed, where there is a link. `ctl` is the answer to the
-- epoll_ctl(2) of io_close.
unfoldable pub tcp_destroy : Option Ncb → Option ℕ → Option Ncb
tcp_destroy none ctl = none
tcp_destroy (some ncb) ctl = some (io_close ncb ctl)

-- The two kinds of address that tcp_getaddr knows, LINK_ADDR_LOCAL and LINK_ADDR_REMOTE, and any
-- other.
pub data AddrType : Type 0 where
  link_addr_local link_addr_remote unknown : AddrType

abbrev host_order : SockAddr → ℕ × ℕ
host_order a = (swap32 a.addr, swap16 a.port)

abbrev addr_of : AddrType → Ncb → ℤ × Option (ℕ × ℕ)
addr_of link_addr_local ncb = (pos 0, some (host_order ncb.local_addr))
addr_of link_addr_remote ncb = (pos 0, some (host_order ncb.remot_addr))
addr_of unknown ncb = (neg einval, none)

-- tcp_getaddr: the return code, and the address and port in the byte order of the host.
unfoldable pub tcp_getaddr : ℤ → Option Ncb → AddrType → ℤ × Option (ℕ × ℕ)
tcp_getaddr link found type = elim (tcp_refr link found).1 [
  | none ↦ ((tcp_refr link found).0, none)
  | some ncb ↦ addr_of type ncb
]

module _ (makeerror : ℕ → ℤ) (handles : IoHandles) (alloc : ℕ → Bool) (stale : List ℕ)
    (written : ℤ) where
  -- tcp_awaken; the arguments of the section are those of pipe_write_message.
  unfoldable pub tcp_awaken : ℤ → Option Ncb → List ℕ → ℤ → Run (ℤ × Option (List ℕ))
  tcp_awaken link found pipedata cb = elim (tcp_refr link found).1 [
    | none ↦ done ((tcp_refr link found).0, none)
    | some ncb ↦ pipe_write_message makeerror handles alloc stale written ncb pipedata cb
  ]

abbrev pub granted : ℕ → ℕ → TcpReplies
granted fd hld = record {
  fd = some fd;
  bound = true;
  hld = some hld;
  packet_memory = true;
  rx_memory = true;
  ctl = none;
}

-- The link that tcp_create gives.
abbrev pub created : ℕ → ℕ → ℕ → SockAddr → Ncb
created callback fd hld local =
    let ncb = (ncb_allocator 0).1 in
    record ncb {
      hld = hld;
      sockfd = pos fd;
      protocol = ipproto_tcp;
      nis_callback = some callback;
      local_addr = local;
      packet = some (malloc tcp_buffer_size);
      tcp = record ncb.tcp { rx_parse_offset = 0; rx_buffer = some (malloc tcp_buffer_size) };
    }

settst_created :
    (callback fd hld : ℕ) (local : SockAddr) (tst : Template)
    → tst.cb ≤ tcp_maximum_template_size
    → tcp_settst (pos hld) (some (created callback fd hld local)) tst ≡ (
      pos 0,
      some (record (created callback fd hld local) {
        tcp = record (created callback fd hld local).tcp { template = tst };
      }),
    )
unfolding tcp_settst tcp_refr
settst_created callback fd hld local tst small = rw (ge→ltb 32 tst.cb small) refl

-- Where the system grants what it asks for, tcp_create gives a link and counts it, and a template
-- of 1 to 32 bytes can then be set on it. The link then stands where the receiving of a stream
-- begins: framed by that template, with nothing of a packet at hand, and with an empty queue.
pub tcp_create-IsFramed :
    (callback port nl_count fd hld : ℕ) (ipstr : Option ℕ) (tst : Template) (parser : Parser)
    → 0 < tst.cb
    → tst.cb ≤ tcp_maximum_template_size
    → tst.parser ≡ some parser
    → (ncb ncb' : Ncb) × (tcp_create (granted fd hld) (some callback) ipstr port nl_count
        ≡ (pos hld, some ncb, nl_count + 1))
      × (tcp_settst (pos hld) (some ncb) tst ≡ (pos 0, some ncb'))
      × IsFramed tst.cb parser ncb'
      × Holds tst.cb parser ncb' []
      × IsQueue ncb'.fifo
unfolding tcp_create tcp_opened tcp_bound tcp_buffers ncb_allocator fifo_init malloc
tcp_create-IsFramed callback port nl_count fd hld ipstr tst parser h small p =
    let local : SockAddr = record {
      addr = elim ipstr [ none ↦ 0 | some ip ↦ ip ];
      port = swap16 port;
    } in
    let ncb = created callback fd hld local in
    let ncb' : Ncb = record ncb { tcp = record ncb.tcp { template = tst } } in
    (
      ncb,
      ncb',
      refl,
      settst_created callback fd hld local tst small,
      record { template_cb = refl; template_parser = p; callback = refl },
      header (malloc tcp_buffer_size)
          (record { packet = refl; cap = refl; no_block = refl; offset = refl; begins = refl }) h,
      record { counted = refl; bounded = omega arith; flagged = refl },
    )
