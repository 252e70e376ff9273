-- ===== src/Tcpal/Refine/Steps.antt =====
-- The parts of tcp_parse_pkt, each on a control block that holds a packet's bytes.
use swnet_linux.Base.{
  ℕ, ◌+◌, ◌-◌, ◌≤◌, ◌<◌, ◌≡◌, refl, ◌∙◌, List, [], ◌∷◌, ◌++◌, none, some, Bool, is_some, true,
  length, take, arith, take-length, length-append, length-take,
}
use swnet_linux.Base.Int.{pos, neg}
use swnet_linux.Buffer.{Buffer}
use swnet_linux.Buffer.Laws.{Begins, memcpy-Begins, memcpy-malloc, read-Begins}
use swnet_linux.Ncb.{Ncb, Parser, AttrBits, tcp_buffer_size, receivedata, post, ncb_post_recvdata}
use swnet_linux.Tcpal.{deliver, keep_part, complete_packet, start_lb, place, take_sized, interpret}
use swnet_linux.Tcpal.Stream.{frame_total}
use swnet_linux.Tcpal.Refine.{InPacket, InBlock, Same, user_bytes}

-- What a copy to the packet buffer leaves of the control block.
pub InPacket-copied :
    (ncb : Ncb) (b b' : Buffer) (p q : List ℕ)
    → InPacket ncb b p
    → b'.cap ≡ b.cap
    → Begins b' q
    → InPacket
        (record ncb { packet = some b'; tcp = record ncb.tcp { rx_parse_offset = length q } })
        b'
        q
InPacket-copied ncb b b' p q i c g = record {
  packet = refl;
  cap = c ∙ i.cap;
  no_block = i.no_block;
  offset = refl;
  begins = g;
}

-- keep_part appends to the packet buffer.
pub keep_part_lem :
    (ncb : Ncb) (b : Buffer) (p xs : List ℕ)
    → InPacket ncb b p
    → length p + length xs ≤ tcp_buffer_size
    → (ncb' : Ncb) × (keep_part ncb b xs ≡ some (pos 0, ncb'))
      × (b' : Buffer) × InPacket ncb' b' (p ++ xs)
      × Same ncb ncb'
      × (ncb'.posted ≡ ncb.posted)
unfolding keep_part
keep_part_lem ncb b p xs i h =
    let (b', e, c, g) =
      memcpy-Begins b p xs (length xs) i.begins (omega arith) (omega (arith, i.cap)) in
    let g' : Begins b' (p ++ xs) = rw (take-length (length xs) xs (omega arith)) at g in
    (
      record ncb { packet = some b'; tcp = record ncb.tcp { rx_parse_offset = length (p ++ xs) } },
      ground (arith, length-append p xs),
      b',
      InPacket-copied ncb b b' p (p ++ xs) i c g',
      record { template = refl; attr = refl; callback = refl; fifo = refl },
      refl,
    )

-- deliver hands over a packet that the buffer holds.
pub deliver_lem :
    (bits : AttrBits) (ncb : Ncb) (b : Buffer) (p : List ℕ) (cb total : ℕ)
    → Begins b p
    → length p ≡ total
    → cb ≤ total
    → ncb.tcp.template.cb ≡ cb
    → is_some ncb.nis_callback ≡ true
    → deliver bits ncb b total
      ≡ some
          (record ncb { posted = ncb.posted ++ (receivedata (user_bytes bits ncb.attr cb p) ∷ []) })
unfolding deliver ncb_post_recvdata post
deliver_lem bits ncb b p cb total g l h e c =
    ground (arith, read-Begins b p 0 total g, read-Begins b p cb (total - cb) g)

-- complete_packet delivers the packet and reports what is left.
pub complete_packet_lem :
    (bits : AttrBits) (ncb : Ncb) (b : Buffer) (p xs : List ℕ) (cb total : ℕ)
    → InPacket ncb b p
    → length p < total
    → total ≤ length p + length xs
    → total ≤ tcp_buffer_size
    → cb ≤ total
    → ncb.tcp.template.cb ≡ cb
    → is_some ncb.nis_callback ≡ true
    → (ncb' : Ncb) × (complete_packet bits ncb b xs total
        ≡ some (pos (length p + length xs - total), ncb'))
      × (b' : Buffer) × InPacket ncb' b' []
      × Same ncb ncb'
      × (ncb'.posted
          ≡ ncb.posted
            ++ (receivedata (user_bytes bits ncb.attr cb (p ++ take (total - length p) xs)) ∷ []))
unfolding complete_packet
complete_packet_lem bits ncb b p xs cb total i h1 h2 h3 h4 e c =
    let (b', m, k, g) =
      memcpy-Begins b p xs (total - length p) i.begins (omega arith) (omega (arith, i.cap)) in
    let q : List ℕ = p ++ take (total - length p) xs in
    let d =
      deliver_lem bits (record ncb { packet = some b' }) b' q cb total g
        (omega
          (arith, length-append p (take (total - length p) xs), length-take (total - length p) xs))
        h4 e c in
    (
      record ncb {
        packet = some b';
        tcp = record ncb.tcp { rx_parse_offset = 0 };
        posted = ncb.posted ++ (receivedata (user_bytes bits ncb.attr cb q) ∷ []);
      },
      ground arith,
      b',
      record {
        packet = refl;
        cap = k ∙ i.cap;
        no_block = i.no_block;
        offset = refl;
        begins = refl;
      },
      record { template = refl; attr = refl; callback = refl; fifo = refl },
      refl,
    )

-- start_lb puts the whole data of the call into a block of its own.
pub start_lb_lem :
    (alloc : ℕ → Bool) (ncb : Ncb) (b : Buffer) (p xs : List ℕ) (total : ℕ)
    → alloc total ≡ true
    → InPacket ncb b p
    → length xs ≤ total
    → (ncb' : Ncb) × (start_lb alloc ncb xs total ≡ some (pos 0, ncb'))
      × (l : Buffer) × InBlock ncb' b l xs total
      × Same ncb ncb'
      × (ncb'.posted ≡ ncb.posted)
unfolding start_lb
start_lb_lem alloc ncb b p xs total a i h =
    let (l, m, c, g) = memcpy-malloc total xs h in
    (
      record ncb {
        tcp = record ncb.tcp {
          lbdata = some l;
          lbsize = total;
          lboffset = length xs;
          rx_parse_offset = 0;
        };
      },
      ground arith,
      l,
      record {
        packet = i.packet;
        cap = i.cap;
        block = refl;
        block_bytes = g;
        block_cap = c;
        lbsize = refl;
        lboffset = refl;
        offset = refl;
      },
      record { template = refl; attr = refl; callback = refl; fifo = refl },
      refl,
    )

-- The header is complete in the packet buffer: what interpret does is told by the total that the
-- header announces.
pub interpret-refused :
    (bits : AttrBits) (alloc : ℕ → Bool) (cb : ℕ) (parser : Parser) (ncb : Ncb) (b : Buffer)
    (q bytes cpbuff : List ℕ)
    → InPacket ncb b q
    → frame_total cb parser q ≡ none
    → interpret bits alloc parser ncb b bytes cpbuff ≡ some (neg 1, ncb)
unfolding interpret take_sized
interpret-refused bits alloc cb parser ncb b q bytes cpbuff i f =
    ground (arith, read-Begins b q 0 (length q) i.begins)

pub interpret-placed :
    (bits : AttrBits) (alloc : ℕ → Bool) (cb : ℕ) (parser : Parser) (ncb : Ncb) (b : Buffer)
    (q bytes cpbuff : List ℕ) (total : ℕ)
    → InPacket ncb b q
    → ncb.tcp.template.cb ≡ cb
    → frame_total cb parser q ≡ some total
    → interpret bits alloc parser ncb b bytes cpbuff ≡ place bits alloc ncb b bytes cpbuff total
unfolding interpret take_sized
interpret-placed bits alloc cb parser ncb b q bytes cpbuff total i t f =
    ground (arith, read-Begins b q 0 (length q) i.begins)
