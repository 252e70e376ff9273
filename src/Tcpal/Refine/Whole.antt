-- ===== src/Tcpal/Refine/Whole.antt =====
-- With no large block under way, tcp_parse_pkt reads the stream.
use swnet_linux.Base.{
  ℕ, ◌+◌, ◌-◌, ◌≤◌, ◌<◌, ◌≡◌, refl, sym, ap, ◌∙◌, List, [], ◌++◌, Option, none, some, inl, inr,
  Bool, true, length, take, drop, arith, take-length, length-append, length-take, take-append-drop,
  append-nil, nil_of_length, le_or_lt, take-append,
}
use swnet_linux.Buffer.{Buffer, memcpy}
use swnet_linux.Buffer.Laws.{memcpy-Begins}
use swnet_linux.Ncb.{Ncb, Parser, AttrBits, tcp_buffer_size}
use swnet_linux.Tcpal.{keep_part, interpret, parse_small}
use swnet_linux.Tcpal.Stream.{run, frame_total, run-append, continue_with}
use swnet_linux.Tcpal.Stream.Reads.{
  Announced, frame_total_gt, run-header_part, run-header, run-header_bad,
}
use swnet_linux.Tcpal.Refine.{
  InPacket, Same, IsFramed, header, ReadsHeader, NoCutLargeHeader, Reads, refused, advanced,
}
use swnet_linux.Tcpal.Refine.Steps.{keep_part_lem, interpret-refused, interpret-placed}
use swnet_linux.Tcpal.Refine.Parse.{Standing, place-Reads, Same-refl}

module _ (bits : AttrBits) (alloc : ℕ → Bool) (cb : ℕ) (parser : Parser) where
  frame_total-ReadsHeader :
      (q : List ℕ)
      → ReadsHeader cb parser
      → cb ≤ length q
      → frame_total cb parser q ≡ frame_total cb parser (take cb q)
  frame_total-ReadsHeader q r h = rw (r q h) refl

  -- The three ways of parse_small.
  parse_small-part :
      (ncb : Ncb) (b : Buffer) (bytes : List ℕ)
      → ncb.tcp.template.cb ≡ cb
      → ncb.tcp.rx_parse_offset + length bytes < cb
      → parse_small bits alloc parser ncb b bytes ≡ keep_part ncb b bytes
  unfolding parse_small
  parse_small-part ncb b bytes e h = ground arith

  parse_small-body :
      (ncb : Ncb) (b : Buffer) (bytes : List ℕ)
      → ncb.tcp.template.cb ≡ cb
      → cb ≤ ncb.tcp.rx_parse_offset
      → parse_small bits alloc parser ncb b bytes ≡ interpret bits alloc parser ncb b bytes bytes
  unfolding parse_small
  parse_small-body ncb b bytes e h = ground arith

  pub parse_small-header :
      (ncb : Ncb) (b b' : Buffer) (bytes : List ℕ) (n : ℕ)
      → ncb.tcp.template.cb ≡ cb
      → ncb.tcp.rx_parse_offset ≡ n
      → n < cb
      → cb ≤ n + length bytes
      → memcpy b n bytes (cb - n) ≡ some b'
      → parse_small bits alloc parser ncb b bytes
        ≡ interpret bits alloc parser
            (record ncb { packet = some b'; tcp = record ncb.tcp { rx_parse_offset = cb } })
            b'
            bytes
            (drop (cb - n) bytes)
  unfolding parse_small
  parse_small-header ncb b b' bytes n e o h1 h2 m = ground arith

  -- The data does not complete the header.
  pub small-header_part :
      (ncb : Ncb) (b : Buffer) (p bytes : List ℕ)
      → InPacket ncb b p
      → IsFramed cb parser ncb
      → cb ≤ tcp_buffer_size
      → 0 < length bytes
      → length p + length bytes < cb
      → Reads cb parser bits ncb p bytes (parse_small bits alloc parser ncb b bytes)
  small-header_part ncb b p bytes i f c n h =
      let (ncb', e, b', i', sm, po) = keep_part_lem ncb b p bytes i (omega arith) in
      advanced 0 ncb' [] (p ++ bytes)
        (parse_small-part ncb b bytes f.template_cb (omega (arith, i.offset)) ∙ e) n
        (rw (take-length (length bytes - 0) bytes (omega arith))
          (run-header_part cb parser p bytes h))
        (header b' i' (omega (arith, length-append p bytes))) sm (po ∙ sym (append-nil ncb.posted))
        (inl refl)

  -- The header was complete before.
  pub small-body :
      (ncb : Ncb) (b : Buffer) (p bytes : List ℕ) (t : ℕ)
      → InPacket ncb b p
      → IsFramed cb parser ncb
      → ReadsHeader cb parser
      → Announced cb parser p t
      → length p < t
      → t ≤ tcp_buffer_size
      → 0 < cb
      → alloc t ≡ true
      → 0 < length bytes
      → length bytes ≤ tcp_buffer_size
      → Reads cb parser bits ncb p bytes (parse_small bits alloc parser ncb b bytes)
  unfolding run
  small-body ncb b p bytes t i f r a o h c al n fits =
      let s : Standing bits alloc cb parser ncb ncb b p bytes p 0 t = record {
        in_packet = i;
        framed = f;
        same = Same-refl ncb;
        posted = refl;
        used = omega arith;
        held = sym (append-nil p);
        read = refl;
        announced = a;
        open_end = o;
        data_fits = fits;
        some_data = n;
      } in
      rw
        (
          parse_small-body ncb b bytes f.template_cb (omega (arith, i.offset, a.whole)),
          interpret-placed bits alloc cb parser ncb b p bytes bytes t i f.template_cb
              (frame_total-ReadsHeader p r a.whole ∙ a.total),
        )
        (place-Reads bits alloc cb parser ncb ncb b p bytes p 0 t s c al
          (λ l. absurd (omega arith)))

  -- The header is complete in the packet buffer.
  header-total :
      (ncb ncb1 : Ncb) (b' : Buffer) (p q bytes : List ℕ) (u : ℕ)
      → InPacket ncb1 b' q
      → IsFramed cb parser ncb1
      → Same ncb ncb1
      → ncb1.posted ≡ ncb.posted
      → u ≤ length bytes
      → q ≡ p ++ take u bytes
      → length q ≡ cb
      → length p < cb
      → ((t : ℕ) → alloc t ≡ true)
      → length bytes ≤ tcp_buffer_size
      → ((t : ℕ) → frame_total cb parser q ≡ some t → tcp_buffer_size < t → p ≡ [])
      → (total : Option ℕ) → frame_total cb parser q ≡ total
      → Reads cb parser bits ncb p bytes (interpret bits alloc parser ncb1 b' bytes (drop u bytes))
  header-total ncb ncb1 b' p q bytes u i f sm po hu hq lq h1 al fits large none bad =
      refused ncb1 (interpret-refused bits alloc cb parser ncb1 b' q bytes (drop u bytes) i bad) (
        ap (run cb parser p) (sym (take-append-drop u bytes))
        ∙ run-append cb parser p (take u bytes) (drop u bytes)
        ∙ ap (λ r. continue_with cb parser r (drop u bytes))
            (run-header_bad cb parser p (take u bytes) h1
              (omega (arith, ap length hq, length-append p (take u bytes))) (rw (← hq) bad)))
  header-total ncb ncb1 b' p q bytes u i f sm po hu hq lq h1 al fits large (some t) ok =
      let split : length q ≡ length p + length (take u bytes) =
        ap length hq ∙ length-append p (take u bytes) in
      rw (interpret-placed bits alloc cb parser ncb1 b' q bytes (drop u bytes) t i f.template_cb ok)
        (place-Reads bits alloc cb parser ncb ncb1 b' p bytes q u t
          (record {
            in_packet = i;
            framed = f;
            same = sm;
            posted = po;
            used = hu;
            held = hq;
            read =
                run-header cb parser p (take u bytes) t h1 (omega arith) (rw (← hq) ok)
                ∙ ap (λ k. some ([], k)) (sym hq);
            announced = record {
              whole = omega arith;
              total = rw (take-length cb q (omega arith)) ok;
            };
            open_end = omega (arith, frame_total_gt cb parser q t ok);
            data_fits = fits;
            some_data = omega (arith, length-take u bytes);
          })
          (omega arith) (al t) (large t ok))

  -- Under the condition on cut headers, only a packet that starts with the data is a large block.
  large :
      (p bytes : List ℕ) (u t : ℕ)
      → NoCutLargeHeader cb parser p bytes
      → length p < cb
      → cb ≤ length p + length bytes
      → length p + u ≡ cb
      → frame_total cb parser (p ++ take u bytes) ≡ some t
      → tcp_buffer_size < t
      → p ≡ []
  large p bytes u t nc h1 h2 e ok big = elim (le_or_lt (length p) 0) [
    | inl h ↦ nil_of_length p (omega arith)
    | inr h ↦ absurd (omega (arith, nc t h h1 h2 (rw cut ok)))
  ]
    where
      cut : take cb (p ++ bytes) ≡ p ++ take u bytes
      cut = ap (λ k. take k (p ++ bytes)) (sym e) ∙ take-append p bytes u

  -- The data completes the header.
  pub small-header :
      (ncb : Ncb) (b : Buffer) (p bytes : List ℕ)
      → InPacket ncb b p
      → IsFramed cb parser ncb
      → NoCutLargeHeader cb parser p bytes
      → ((t : ℕ) → alloc t ≡ true)
      → 0 < cb
      → cb ≤ tcp_buffer_size
      → length p < cb
      → cb ≤ length p + length bytes
      → length bytes ≤ tcp_buffer_size
      → Reads cb parser bits ncb p bytes (parse_small bits alloc parser ncb b bytes)
  small-header ncb b p bytes i f nc al c cm h1 h2 fits =
      let u = cb - length p in
      let (b', m, k, g) = memcpy-Begins b p bytes u i.begins (omega arith) (omega (arith, i.cap)) in
      let q : List ℕ = p ++ take u bytes in
      let lq : length q ≡ cb = omega (arith, length-append p (take u bytes), length-take u bytes) in
      let ncb1 : Ncb = record ncb {
        packet = some b';
        tcp = record ncb.tcp { rx_parse_offset = cb };
      } in
      let i1 : InPacket ncb1 b' q = record {
        packet = refl;
        cap = k ∙ i.cap;
        no_block = i.no_block;
        offset = sym lq;
        begins = g;
      } in
      let step : parse_small bits alloc parser ncb b bytes
          ≡ interpret bits alloc parser ncb1 b' bytes (drop u bytes) =
        parse_small-header ncb b b' bytes (length p) f.template_cb i.offset h1 h2 m in
      rw step (
        header-total ncb ncb1 b' p q bytes u i1
          (record {
            template_cb = f.template_cb;
            template_parser = f.template_parser;
            callback = f.callback;
          })
          (record { template = refl; attr = refl; callback = refl; fifo = refl }) refl (omega arith)
          refl lq h1 al fits (λ t ok big. large p bytes u t nc h1 h2 (omega arith) ok big)
          (frame_total cb parser q) refl)
