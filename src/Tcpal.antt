-- ===== src/Tcpal.antt =====
-- tcpal.c: cutting the byte stream of a TCP link into packets by the user's template. A result is
-- the return code and the new control block; `none` is undefined behaviour of a memory access.
pub mod Stream
pub mod Refine
pub mod CutHeader
use swnet_linux.Base.{
  ℕ, ◌+◌, ◌-◌, Bool, List, Option, none, some, ◌==◌, ltb, leb, ◌||◌, if◌then◌else◌, length, drop,
}
use swnet_linux.Base.Int.{ℤ, pos, neg, is_neg, is_nonpos, to_ℕ}
use swnet_linux.Buffer.{Buffer, malloc, memcpy, read}
use swnet_linux.Ncb.{
  Ncb, Parser, AttrBits, has_attr, tcp_buffer_size, tcp_maximum_packet_size, ncb_lb_marked,
  ncb_post_recvdata,
}

abbrev pub Outcome : Type 0
Outcome = Option (ℤ × Ncb)

-- A `size_t` argument computed as the `int` difference `a - b`: negative, it is out of all bounds.
abbrev pub sub_size : ℕ → ℕ → Option ℕ
sub_size a b = if ltb a b then none else some (a - b)

-- No template: the whole data is given to the user.
unfoldable pub parse_plain : Ncb → List ℕ → Outcome
parse_plain ncb bytes =
    let ncb' = ncb_post_recvdata ncb bytes in
    some (pos 0, record ncb' { tcp = record ncb'.tcp { rx_parse_offset = 0 } })

-- The packet of `total` bytes does not fit the receive buffer: a block of its own takes it.
-- `alloc n` tells whether malloc(n) succeeds.
unfoldable pub start_lb : (ℕ → Bool) → Ncb → List ℕ → ℕ → Outcome
start_lb alloc ncb bytes total =
    if alloc total
    then elim (memcpy (malloc total) 0 bytes (length bytes)) [
      | none ↦ none
      | some b ↦ some (
        pos 0,
        record ncb {
          tcp = record ncb.tcp {
            lbdata = some b;
            lbsize = total;
            lboffset = length bytes;
            rx_parse_offset = 0;
          };
        },
      )
    ]
    else some (neg 1, record ncb { tcp = record ncb.tcp { lbdata = none } })

-- The data is kept as a further part of the packet.
unfoldable pub keep_part : Ncb → Buffer → List ℕ → Outcome
keep_part ncb packet cpbuff = elim (memcpy packet ncb.tcp.rx_parse_offset cpbuff (length cpbuff)) [
  | none ↦ none
  | some b ↦ some (
    pos 0,
    record ncb {
      packet = some b;
      tcp = record ncb.tcp { rx_parse_offset = ncb.tcp.rx_parse_offset + length cpbuff };
    },
  )
]

module _ (bits : AttrBits) where
  -- Hands the `total` bytes at `buf` to the user, with the head of `cb` bytes or without it.
  unfoldable pub deliver : Ncb → Buffer → ℕ → Option Ncb
  deliver ncb buf total =
      if has_attr ncb.attr bits.fully_receive
      then elim (read buf 0 total) [ none ↦ none | some d ↦ some (ncb_post_recvdata ncb d) ]
      else elim (sub_size total ncb.tcp.template.cb) [
        | none ↦ none
        | some n ↦ elim (read buf ncb.tcp.template.cb n) [
          | none ↦ none
          | some d ↦ some (ncb_post_recvdata ncb d)
        ]
      ]

  -- The large block is complete: deliver it, free it, and return what is left of the data.
  unfoldable pub complete_lb : Ncb → Buffer → ℕ → ℕ → Outcome
  complete_lb ncb block overplus cpcb = elim (deliver ncb block ncb.tcp.lbsize) [
    | none ↦ none
    | some ncb' ↦ some (
      pos (cpcb - overplus),
      record ncb' { tcp = record ncb'.tcp { lbdata = none; lboffset = 0; lbsize = 0 } },
    )
  ]

  -- __tcp_parse_marked_lb, with the block that `lbdata` points to
  unfoldable pub parse_marked_lb : Ncb → Buffer → List ℕ → Outcome
  parse_marked_lb ncb lbdata cpbuff =
      let cpcb = length cpbuff in
      if ltb (cpcb + ncb.tcp.lboffset) ncb.tcp.lbsize
      then elim (memcpy lbdata ncb.tcp.lboffset cpbuff cpcb) [
        | none ↦ none
        | some b ↦ some (
          pos 0,
          record ncb {
            tcp = record ncb.tcp { lbdata = some b; lboffset = ncb.tcp.lboffset + cpcb };
          },
        )
      ]
      else elim (sub_size ncb.tcp.lbsize ncb.tcp.lboffset) [
        | none ↦ none
        | some overplus ↦ elim (memcpy lbdata ncb.tcp.lboffset cpbuff overplus) [
          | none ↦ none
          | some b ↦ complete_lb ncb b overplus cpcb
        ]
      ]

  -- The data completes the packet of `total` bytes.
  unfoldable pub complete_packet : Ncb → Buffer → List ℕ → ℕ → Outcome
  complete_packet ncb packet cpbuff total = elim (sub_size total ncb.tcp.rx_parse_offset) [
    | none ↦ none
    | some need ↦ elim (memcpy packet ncb.tcp.rx_parse_offset cpbuff need) [
      | none ↦ none
      | some b ↦ elim (deliver (record ncb { packet = some b }) b total) [
        | none ↦ none
        | some ncb' ↦ some (
          pos (length cpbuff - need),
          record ncb' { tcp = record ncb'.tcp { rx_parse_offset = 0 } },
        )
      ]
    ]
  ]

  -- With the size of the whole packet known: start a large block, complete the packet or keep on.
  unfoldable pub place : (ℕ → Bool) → Ncb → Buffer → List ℕ → List ℕ → ℕ → Outcome
  place alloc ncb packet bytes cpbuff total =
      if ltb tcp_buffer_size total
      then start_lb alloc ncb bytes total
      else if leb total (ncb.tcp.rx_parse_offset + length cpbuff)
      then complete_packet ncb packet cpbuff total
      else keep_part ncb packet cpbuff

  -- From the parser's size of the user data on.
  unfoldable pub take_sized : (ℕ → Bool) → Ncb → Buffer → List ℕ → List ℕ → ℤ → Outcome
  take_sized alloc ncb packet bytes cpbuff user_data_size =
      if is_nonpos user_data_size || ltb tcp_maximum_packet_size (to_ℕ user_data_size)
      then some (neg 1, ncb)
      else place alloc ncb packet bytes cpbuff (to_ℕ user_data_size + ncb.tcp.template.cb)

  -- The header is complete: ask the template's parser. `bytes` is the data of the call, `cpbuff`
  -- what is left of it behind the header.
  unfoldable pub interpret : (ℕ → Bool) → Parser → Ncb → Buffer → List ℕ → List ℕ → Outcome
  interpret alloc parser ncb packet bytes cpbuff = elim (read packet 0 ncb.tcp.rx_parse_offset) [
    | none ↦ none
    | some head ↦
        let (status, user_data_size) = parser head in
        if is_neg status
        then some (neg 1, ncb)
        else take_sized alloc ncb packet bytes cpbuff user_data_size
  ]

  -- The part of tcp_parse_pkt behind the test for a large block.
  unfoldable pub parse_small : (ℕ → Bool) → Parser → Ncb → Buffer → List ℕ → Outcome
  parse_small alloc parser ncb packet bytes =
      let cb = ncb.tcp.template.cb in
      let offset = ncb.tcp.rx_parse_offset in
      if ltb (offset + length bytes) cb
      then keep_part ncb packet bytes
      else if ltb offset cb
      then elim (memcpy packet offset bytes (cb - offset)) [
        | none ↦ none
        | some b ↦
            interpret alloc parser
              (record ncb { packet = some b; tcp = record ncb.tcp { rx_parse_offset = cb } }) b
              bytes (drop (cb - offset) bytes)
      ]
      else interpret alloc parser ncb packet bytes bytes

  -- tcp_parse_pkt behind the test for a template. A link that was created has a packet buffer.
  unfoldable pub parse_framed : (ℕ → Bool) → Parser → Ncb → List ℕ → Outcome
  parse_framed alloc parser ncb bytes =
      if ncb_lb_marked ncb
      then elim ncb.tcp.lbdata [ none ↦ none | some lbdata ↦ parse_marked_lb ncb lbdata bytes ]
      else elim ncb.packet [ none ↦ none | some packet ↦ parse_small alloc parser ncb packet bytes ]

  -- tcp_parse_pkt
  unfoldable pub tcp_parse_pkt : (ℕ → Bool) → Ncb → List ℕ → Outcome
  tcp_parse_pkt alloc ncb bytes =
      if length bytes == 0
      then some (neg 1, ncb)
      else if ncb.tcp.template.cb == 0
      then parse_plain ncb bytes
      else elim ncb.tcp.template.parser [
        | none ↦ parse_plain ncb bytes
        | some parser ↦ parse_framed alloc parser ncb bytes
      ]
