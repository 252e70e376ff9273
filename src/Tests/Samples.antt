-- ===== src/Tests/Samples.antt =====
-- A link with a template of two bytes, and values to try the definitions on.
use swnet_linux.Base.{
  ℕ, ◌≡◌, refl, List, [], ◌∷◌, none, some, Bool, true, ltb, if◌then◌else◌, length, take, arith,
}
use swnet_linux.Base.Int.{ℤ, pos, neg}
use swnet_linux.Buffer.{Buffer}
use swnet_linux.Ncb.{
  Ncb, Parser, Template, AttrBits, SockAddr, Node, Fifo, Routine, tcp_buffer_size, ipproto_tcp,
}
use swnet_linux.Tcpal.Refine.{InPacket, IsFramed, Holds, header, ReadsHeader}
use swnet_linux.Tcpal.Refine.Call.{Suitable}
use swnet_linux.Tcpio.Receive.{SmallPackets}

-- The first byte of a header is the size of the user data; 200 stands for 80000.
abbrev pub size_of : ℕ → ℤ × ℤ
size_of x = if ltb x 200 then (pos 0, pos x) else (pos 0, pos 80000)

abbrev pub parser : Parser
parser [] = (neg 1, pos 0)
parser (x ∷ xs) = size_of x

-- The same without large packets.
abbrev pub small_parser : Parser
small_parser [] = (neg 1, pos 0)
small_parser (x ∷ xs) = if ltb x 200 then (pos 0, pos x) else (neg 1, pos 0)

abbrev pub bits : AttrBits
bits = record { fully_receive = 1; no_build = 2; update_accept_context = 4 }

abbrev pub alloc : ℕ → Bool
alloc n = true

abbrev pub nowhere : SockAddr
nowhere = record { addr = 0; port = 0 }

abbrev pub template : Parser → Template
template p = record { cb = 2; builder = none; parser = some p }

abbrev pub buffer : List ℕ → Buffer
buffer bytes = record { cap = tcp_buffer_size; bytes = bytes }

-- A connected link that holds `p` as a part of a header, and these nodes to send.
abbrev pub link : Parser → List ℕ → Fifo → Ncb
link parser' p fifo = record {
  hld = 7;
  sockfd = pos 9;
  epfd = pos 5;
  protocol = ipproto_tcp;
  packet = some (buffer p);
  fifo = fifo;
  remot_addr = nowhere;
  local_addr = nowhere;
  nis_callback = some 1;
  ncb_read = some Routine.tcp_rx;
  ncb_write = some Routine.tcp_tx;
  attr = 0;
  context = none;
  prcontext = none;
  tcp = record {
    rx_parse_offset = length p;
    rx_buffer = some (buffer []);
    lbdata = none;
    lboffset = 0;
    lbsize = 0;
    template = template parser';
    prtemplate = template parser';
  };
  mreq = none;
  arp = record { source = 0; ifindex = 0; source_phyaddr = [] };
  flags = record { nonblock = Bool.true; cloexec = Bool.true };
  interest = some 1;
  posted = [];
}

abbrev pub idle : Fifo
idle = record { blocking = 0; size = 0; nodes = [] }

abbrev pub fresh : Ncb
fresh = link parser [] idle

-- One byte of the header 200, 0 has come.
abbrev pub cut : Ncb
cut = link parser (200 ∷ []) idle

abbrev pub small : Ncb
small = link small_parser [] idle

parser-ReadsHeader : ReadsHeader 2 parser
parser-ReadsHeader [] h = refl
parser-ReadsHeader (x ∷ xs) h = refl

small_parser-ReadsHeader : ReadsHeader 2 small_parser
small_parser-ReadsHeader [] h = refl
small_parser-ReadsHeader (x ∷ xs) h = refl

pub parser-Suitable : Suitable alloc 2 parser
parser-Suitable = record {
  some_header = omega arith;
  small_header = omega arith;
  reads_header = parser-ReadsHeader;
  memory = λ n. refl;
}

pub small_parser-Suitable : Suitable alloc 2 small_parser
small_parser-Suitable = record {
  some_header = omega arith;
  small_header = omega arith;
  reads_header = small_parser-ReadsHeader;
  memory = λ n. refl;
}

pub small_parser-SmallPackets : SmallPackets 2 small_parser
small_parser-SmallPackets [] t e = cc
small_parser-SmallPackets (x ∷ xs) t e = ground arith

pub fresh-IsFramed : IsFramed 2 parser fresh
fresh-IsFramed = record { template_cb = refl; template_parser = refl; callback = refl }

pub small-IsFramed : IsFramed 2 small_parser small
small-IsFramed = record { template_cb = refl; template_parser = refl; callback = refl }

pub cut-IsFramed : IsFramed 2 parser cut
cut-IsFramed = record { template_cb = refl; template_parser = refl; callback = refl }

pub link-InPacket :
    (q : Parser) (p : List ℕ) (f : Fifo)
    → take (length p) p ≡ p
    → InPacket (link q p f) (buffer p) p
link-InPacket q p f h = record {
  packet = refl;
  cap = refl;
  no_block = refl;
  offset = refl;
  begins = h;
}

pub fresh-Holds : Holds 2 parser fresh []
fresh-Holds = header (buffer []) (link-InPacket parser [] idle refl) (omega arith)

pub small-Holds : Holds 2 small_parser small []
small-Holds = header (buffer []) (link-InPacket small_parser [] idle refl) (omega arith)

-- Three bytes to send, the first of them sent.
abbrev pub node : Node
node = record { bytes = 1 ∷ 2 ∷ 3 ∷ []; wcb = 3; offset = 1; target = nowhere }

abbrev pub other : Node
other = record { bytes = 4 ∷ 5 ∷ []; wcb = 2; offset = 0; target = nowhere }

abbrev pub makeerror : ℕ → ℤ
makeerror e = neg e
