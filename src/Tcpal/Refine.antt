-- ===== src/Tcpal/Refine.antt =====
-- How a control block represents the bytes of the packet under way, and what one call of
-- tcp_parse_pkt has to do for it to read the stream.
pub mod Steps
pub mod Parse
pub mod Whole
pub mod Block
pub mod Call
use swnet_linux.Base.{
  ℕ, ◌+◌, ◌-◌, ◌≤◌, ◌<◌, ◌≡◌, List, [], ◌++◌, map, Option, none, some, ◌⊎◌, if◌then◌else◌, is_some,
  true, length, take, drop,
}
use swnet_linux.Base.Int.{pos, neg}
use swnet_linux.Buffer.{Buffer}
use swnet_linux.Buffer.Laws.{Begins}
use swnet_linux.Ncb.{Ncb, Parser, AttrBits, has_attr, tcp_buffer_size, Event, receivedata}
use swnet_linux.Tcpal.{Outcome}
use swnet_linux.Tcpal.Stream.{run, frame_total}
use swnet_linux.Tcpal.Stream.Reads.{Announced}

-- The packet buffer holds `p`.
pub record InPacket (ncb : Ncb) (b : Buffer) (p : List ℕ) : Type 0 where
  pub packet : ncb.packet ≡ some b
  pub cap : b.cap ≡ tcp_buffer_size
  pub no_block : ncb.tcp.lbdata ≡ none
  pub offset : ncb.tcp.rx_parse_offset ≡ length p
  pub begins : Begins b p

-- A large block of `t` bytes holds `p`, and the packet buffer is idle.
pub record InBlock (ncb : Ncb) (b l : Buffer) (p : List ℕ) (t : ℕ) : Type 0 where
  pub packet : ncb.packet ≡ some b
  pub cap : b.cap ≡ tcp_buffer_size
  pub block : ncb.tcp.lbdata ≡ some l
  pub block_bytes : l.bytes ≡ p
  pub block_cap : l.cap ≡ t
  pub lbsize : ncb.tcp.lbsize ≡ t
  pub lboffset : ncb.tcp.lboffset ≡ length p
  pub offset : ncb.tcp.rx_parse_offset ≡ 0

-- What the user gets of a packet: all of it, or what stands behind the head of `cb` bytes.
abbrev pub user_bytes : AttrBits → ℕ → ℕ → List ℕ → List ℕ
user_bytes bits attr cb packet = if has_attr attr bits.fully_receive then packet else drop cb packet

abbrev pub deliveries : AttrBits → ℕ → ℕ → List (List ℕ) → List Event
deliveries bits attr cb = map (λ packet. receivedata (user_bytes bits attr cb packet))

-- The fields that receiving leaves alone.
pub record Same (ncb ncb' : Ncb) : Type 0 where
  pub template : ncb'.tcp.template ≡ ncb.tcp.template
  pub attr : ncb'.attr ≡ ncb.attr
  pub callback : ncb'.nis_callback ≡ ncb.nis_callback
  pub fifo : ncb'.fifo ≡ ncb.fifo

module _ (cb : ℕ) (parser : Parser) where
  -- A link with this template and a callback.
  pub record IsFramed (ncb : Ncb) : Type 0 where
    pub template_cb : ncb.tcp.template.cb ≡ cb
    pub template_parser : ncb.tcp.template.parser ≡ some parser
    pub callback : is_some ncb.nis_callback ≡ true

  pub data Holds (ncb : Ncb) (p : List ℕ) : Type 0 where
    header : (b : Buffer) → InPacket ncb b p → length p < cb → Holds ncb p
    body :
        (b : Buffer) (t : ℕ)
        → InPacket ncb b p
        → Announced cb parser p t
        → length p < t
        → t ≤ tcp_buffer_size
        → Holds ncb p
    block :
        (b l : Buffer) (t : ℕ)
        → InBlock ncb b l p t
        → Announced cb parser p t
        → length p < t
        → tcp_buffer_size < t
        → Holds ncb p

  -- The parser looks at the header only.
  abbrev pub ReadsHeader : Type 0
  ReadsHeader = (q : List ℕ) → cb ≤ length q → parser q ≡ parser (take cb q)

  -- No header of a packet beyond the receive buffer is cut: one that is pending in part
  -- announces, with the bytes at hand, a packet that fits.
  abbrev pub NoCutLargeHeader : List ℕ → List ℕ → Type 0
  NoCutLargeHeader p bytes =
      (t : ℕ)
      → 0 < length p
      → length p < cb
      → cb ≤ length p + length bytes
      → frame_total cb parser (take cb (p ++ bytes)) ≡ some t
      → t ≤ tcp_buffer_size

  -- What a call on `bytes` may give where `p` is pending: the refusal of a stream that is bad, or
  -- a reading of all but the last `k` bytes, its packets delivered and its pending bytes held.
  pub data Reads (bits : AttrBits) (ncb : Ncb) (p bytes : List ℕ) (out : Outcome) : Type 0 where
    refused :
        (ncb' : Ncb)
        → out ≡ some (neg 1, ncb')
        → run cb parser p bytes ≡ none
        → Reads bits ncb p bytes out
    advanced :
        (k : ℕ) (ncb' : Ncb) (packets : List (List ℕ)) (p' : List ℕ)
        → out ≡ some (pos k, ncb')
        → k < length bytes
        → run cb parser p (take (length bytes - k) bytes) ≡ some (packets, p')
        → Holds ncb' p'
        → Same ncb ncb'
        → ncb'.posted ≡ ncb.posted ++ deliveries bits ncb.attr cb packets
        → (k ≡ 0) ⊎ (p' ≡ [])
        → Reads bits ncb p bytes out
