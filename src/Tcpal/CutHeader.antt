-- ===== src/Tcpal/CutHeader.antt =====
-- What tcp_parse_pkt does where a segment ends inside the header of a packet that needs a large
-- block: the block is filled from the start of the next data.
use swnet_linux.Base.{
  ℕ, ◌+◌, ◌-◌, ◌≤◌, ◌<◌, ◌≡◌, refl, sym, ap, ◌∙◌, List, ◌++◌, some, Bool, length, take, drop, arith,
  length-append, length-take, lt→ltb, take-append,
}
use swnet_linux.Base.Int.{pos}
use swnet_linux.Buffer.{Buffer}
use swnet_linux.Buffer.Laws.{memcpy-Begins}
use swnet_linux.Ncb.{Ncb, Parser, AttrBits, tcp_buffer_size}
use swnet_linux.Tcpal.{start_lb, place, tcp_parse_pkt}
use swnet_linux.Tcpal.Stream.{frame_total}
use swnet_linux.Tcpal.Refine.{InPacket, IsFramed, Holds, header, body, block}
use swnet_linux.Tcpal.Refine.Steps.{start_lb_lem, interpret-placed}
use swnet_linux.Tcpal.Refine.Whole.{parse_small-header}
use swnet_linux.Tcpal.Refine.Call.{Suitable, parse_pkt-small}

place-block :
    (bits : AttrBits) (alloc : ℕ → Bool) (ncb : Ncb) (b : Buffer) (bytes cpbuff : List ℕ) (t : ℕ)
    → tcp_buffer_size < t
    → place bits alloc ncb b bytes cpbuff t ≡ start_lb alloc ncb bytes t
unfolding place
place-block bits alloc ncb b bytes cpbuff t h = rw (lt→ltb tcp_buffer_size t h) refl

module _ (bits : AttrBits) (alloc : ℕ → Bool) (cb : ℕ) (parser : Parser) where
  -- A block holds as many bytes as its offset says, where a link holds pending bytes.
  Holds-offset :
      (ncb : Ncb) (l : Buffer) (p : List ℕ)
      → Holds cb parser ncb p
      → ncb.tcp.lbdata ≡ some l
      → ncb.tcp.lboffset ≡ length p
  Holds-offset ncb l p (header b i h) e = cc (i.no_block)
  Holds-offset ncb l p (body b t i a h s) e = cc (i.no_block)
  Holds-offset ncb l p (block b l' t i a h s) e = i.lboffset

  -- With memory for large blocks and a template of 1 to 32 bytes whose parser reads the header only,
  -- whenever a part of a header is pending, and the next data completes it to the header of an
  -- acceptable packet that is larger than the receive buffer, tcp_parse_pkt returns 0 with a large
  -- block that holds the new data alone: the pending bytes are lost, the offset is short by their
  -- number, and the link does not hold the bytes received so far.
  pub cut_header_lost :
      (ncb : Ncb) (b : Buffer) (p bytes : List ℕ) (t : ℕ)
      → Suitable alloc cb parser
      → IsFramed cb parser ncb
      → InPacket ncb b p
      → 0 < length p
      → length p < cb
      → cb ≤ length p + length bytes
      → length bytes ≤ tcp_buffer_size
      → frame_total cb parser (take cb (p ++ bytes)) ≡ some t
      → tcp_buffer_size < t
      → (ncb' : Ncb) × (l : Buffer) × (tcp_parse_pkt bits alloc ncb bytes ≡ some (pos 0, ncb'))
        × (ncb'.tcp.lbdata ≡ some l)
        × (l.bytes ≡ bytes)
        × (ncb'.tcp.lboffset ≡ length bytes)
        × (ncb'.tcp.lbsize ≡ t)
        × (¬ Holds cb parser ncb' (p ++ bytes))
  cut_header_lost ncb b p bytes t s f i h0 h1 h2 fits ok big =
      let u = cb - length p in
      let (b', m, k, g) =
        memcpy-Begins b p bytes u i.begins (omega arith) (omega (arith, i.cap, s.small_header)) in
      let q : List ℕ = p ++ take u bytes in
      let lq : length q ≡ cb = omega (arith, length-append p (take u bytes), length-take u bytes) in
      let ncb1 : Ncb = record ncb {
        packet = some b';
        tcp = record ncb.tcp { rx_parse_offset = cb };
      } in
      let i1 : InPacket ncb1 b' q = record {
        packet = refl;
        cap = k ∙ i.cap;
        no_block = i.no_block;
        offset = sym lq;
        begins = g;
      } in
      let at_q : take cb (p ++ bytes) ≡ q =
        ap (λ n. take n (p ++ bytes)) (shift (length p) h1) ∙ take-append p bytes u in
      let (ncb', e, l, j, sm, po) =
        start_lb_lem alloc ncb1 b' q bytes t (s.memory t) i1 (omega arith) in
      (
        ncb',
        l,
        parse_pkt-small bits alloc cb parser ncb b bytes f s.some_header (omega arith) i.no_block
              i.packet
            ∙ parse_small-header bits alloc cb parser ncb b b' bytes (length p) f.template_cb
                i.offset h1 h2 m
            ∙ interpret-placed bits alloc cb parser ncb1 b' q bytes (drop u bytes) t i1
                f.template_cb (rw at_q at ok)
            ∙ place-block bits alloc ncb1 b' bytes (drop u bytes) t big
            ∙ e,
        j.block,
        j.block_bytes,
        j.lboffset,
        j.lbsize,
        λ held. omega (
          arith,
          Holds-offset ncb' l (p ++ bytes) held j.block,
          j.lboffset,
          length-append p bytes,
        ),
      )
    where
      shift : (n : ℕ) → n < cb → cb ≡ n + (cb - n)
      shift n h = omega arith
