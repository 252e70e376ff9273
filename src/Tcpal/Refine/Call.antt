-- ===== src/Tcpal/Refine/Call.antt =====
-- tcp_parse_pkt and the loop over a received segment read the stream.
use swnet_linux.Base.{
  ℕ, ◌+◌, ◌≤◌, ◌<◌, ◌≡◌, List, none, some, inl, inr, Bool, true, length, arith, le_or_lt,
}
use swnet_linux.Buffer.{Buffer}
use swnet_linux.Ncb.{Ncb, Parser, AttrBits, tcp_buffer_size, tcp_maximum_template_size}
use swnet_linux.Tcpal.{parse_small, parse_marked_lb, parse_framed, tcp_parse_pkt}
use swnet_linux.Tcpal.Refine.{
  IsFramed, Holds, header, body, block, ReadsHeader, NoCutLargeHeader, Reads,
}
use swnet_linux.Tcpal.Refine.Whole.{small-header_part, small-body, small-header}
use swnet_linux.Tcpal.Refine.Block.{marked-part, marked_complete}

-- What the calls of tcp_parse_pkt on one link rely on: a template of at most 32 bytes whose parser
-- looks at the header only, and memory for large blocks.
pub record Suitable (alloc : ℕ → Bool) (cb : ℕ) (parser : Parser) : Type 0 where
  pub some_header : 0 < cb
  pub small_header : cb ≤ tcp_maximum_template_size
  pub reads_header : ReadsHeader cb parser
  pub memory : (n : ℕ) → alloc n ≡ true

module _ (bits : AttrBits) (alloc : ℕ → Bool) (cb : ℕ) (parser : Parser) where
  pub parse_pkt-small :
      (ncb : Ncb) (b : Buffer) (bytes : List ℕ)
      → IsFramed cb parser ncb
      → 0 < cb
      → 0 < length bytes
      → ncb.tcp.lbdata ≡ none
      → ncb.packet ≡ some b
      → tcp_parse_pkt bits alloc ncb bytes ≡ parse_small bits alloc parser ncb b bytes
  unfolding tcp_parse_pkt parse_framed
  parse_pkt-small ncb b bytes f c n e p = ground (arith, f.template_cb, f.template_parser)

  parse_pkt-marked :
      (ncb : Ncb) (l : Buffer) (bytes : List ℕ)
      → IsFramed cb parser ncb
      → 0 < cb
      → 0 < length bytes
      → ncb.tcp.lbdata ≡ some l
      → 0 < ncb.tcp.lbsize
      → tcp_parse_pkt bits alloc ncb bytes ≡ parse_marked_lb bits ncb l bytes
  unfolding tcp_parse_pkt parse_framed
  parse_pkt-marked ncb l bytes f c n e p = ground (arith, f.template_cb, f.template_parser)

  -- With memory for large blocks and a template of 1 to 32 bytes whose parser reads the header
  -- only, on every control block with this template and a callback that holds the pending bytes
  -- `p`, and for every data of one byte to a receive buffer that does not cut the header of a large
  -- packet, tcp_parse_pkt is defined (no access outside a buffer), and gives a reading of the
  -- stream: it fails only where the stream is bad, and otherwise delivers the packets that end in
  -- what it consumed, and holds what is pending.
  pub tcp_parse_pkt-Reads :
      (ncb : Ncb) (p bytes : List ℕ)
      → Suitable alloc cb parser
      → IsFramed cb parser ncb
      → Holds cb parser ncb p
      → NoCutLargeHeader cb parser p bytes
      → 0 < length bytes
      → length bytes ≤ tcp_buffer_size
      → Reads cb parser bits ncb p bytes (tcp_parse_pkt bits alloc ncb bytes)
  tcp_parse_pkt-Reads ncb p bytes s f (header b i h) nc n fits =
      rw (parse_pkt-small ncb b bytes f s.some_header n i.no_block i.packet)
        (elim (le_or_lt cb (length p + length bytes)) [
          | inr part ↦
              small-header_part bits alloc cb parser ncb b p bytes i f
                (omega (arith, s.small_header)) n part
          | inl whole ↦
              small-header bits alloc cb parser ncb b p bytes i f nc s.memory s.some_header
                (omega (arith, s.small_header)) h whole fits
        ])
  tcp_parse_pkt-Reads ncb p bytes s f (body b t i a h small) nc n fits =
      rw (parse_pkt-small ncb b bytes f s.some_header n i.no_block i.packet) (
        small-body bits alloc cb parser ncb b p bytes t i f s.reads_header a h small s.some_header
          (s.memory t) n fits)
  tcp_parse_pkt-Reads ncb p bytes s f (block b l t i a h big) nc n fits =
      rw (parse_pkt-marked ncb l bytes f s.some_header n i.block (omega (arith, i.lbsize)))
        (elim (le_or_lt t (length p + length bytes)) [
          | inl end ↦ marked_complete bits cb parser ncb b l p bytes t i f a s.some_header h end
          | inr part ↦ marked-part bits cb parser ncb b l p bytes t i a big n part
        ])
