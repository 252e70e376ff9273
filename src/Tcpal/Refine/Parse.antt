-- ===== src/Tcpal/Refine/Parse.antt =====
-- Behind the header: wherever the data of a call stands in the announced packet, placing it reads
-- the stream.
use swnet_linux.Base.{
  ℕ, ◌+◌, ◌-◌, ◌≤◌, ◌<◌, ◌≡◌, refl, sym, ap, ap₂, ◌∙◌, List, [], ◌∷◌, ◌++◌, some, inl, inr, Bool,
  true, length, take, drop, arith, take-length, length-append, length-take, length-drop, ge→ltb,
  lt→ltb, take-add, take-append-drop, append-nil, le→leb, gt→leb, le_or_lt,
}
use swnet_linux.Buffer.{Buffer}
use swnet_linux.Ncb.{Ncb, Parser, AttrBits, tcp_buffer_size, receivedata}
use swnet_linux.Tcpal.{place}
use swnet_linux.Tcpal.Stream.{run, run-append, continue_with, prefix}
use swnet_linux.Tcpal.Stream.Reads.{
  Announced, Announced-append, frame_total_gt, run-body_part, run-packet,
}
use swnet_linux.Tcpal.Refine.{
  InPacket, Same, user_bytes, IsFramed, header, body, block, Reads, advanced,
}
use swnet_linux.Tcpal.Refine.Steps.{keep_part_lem, complete_packet_lem, start_lb_lem}

pub Same-trans : {a b c : Ncb} → Same a b → Same b c → Same a c
Same-trans s t = record {
  template = t.template ∙ s.template;
  attr = t.attr ∙ s.attr;
  callback = t.callback ∙ s.callback;
  fifo = t.fifo ∙ s.fifo;
}

pub Same-refl : (a : Ncb) → Same a a
Same-refl a = record { template = refl; attr = refl; callback = refl; fifo = refl }

module _ (bits : AttrBits) (alloc : ℕ → Bool) (cb : ℕ) (parser : Parser) where
  pub run-then :
      (p xs ys q : List ℕ) {fs : List (List ℕ)} {p' : List ℕ}
      → run cb parser p xs ≡ some ([], q)
      → run cb parser q ys ≡ some (fs, p')
      → run cb parser p (xs ++ ys) ≡ some (fs, p')
  run-then p xs ys q e f =
      run-append cb parser p xs ys ∙ ap (λ r. continue_with cb parser r ys) e ∙ ap (prefix []) f

  -- Where a call stands with `p` pending before it: `u` bytes of its data are read, and the packet
  -- buffer of `ncb` holds all of `q`, whose header announces `total`.
  pub record Standing (ncb0 ncb : Ncb) (b : Buffer) (p bytes q : List ℕ) (u total : ℕ)
      : Type 0 where
    pub in_packet : InPacket ncb b q
    pub framed : IsFramed cb parser ncb
    pub same : Same ncb0 ncb
    pub posted : ncb.posted ≡ ncb0.posted
    pub used : u ≤ length bytes
    pub held : q ≡ p ++ take u bytes
    pub read : run cb parser p (take u bytes) ≡ some ([], q)
    pub announced : Announced cb parser q total
    pub open_end : length q < total
    pub data_fits : length bytes ≤ tcp_buffer_size
    pub some_data : 0 < length bytes

  -- The reading of data that stays inside the packet.
  run-kept :
      (ncb0 ncb : Ncb) (b : Buffer) (p bytes q : List ℕ) (u total : ℕ)
      → Standing ncb0 ncb b p bytes q u total
      → length q + length (drop u bytes) < total
      → run cb parser p (take (length bytes - 0) bytes) ≡ some ([], q ++ drop u bytes)
  run-kept ncb0 ncb b p bytes q u total s h =
      rw (take-length (length bytes - 0) bytes (omega arith)) (
        ap (run cb parser p) (sym (take-append-drop u bytes))
        ∙ run-then p (take u bytes) (drop u bytes) q s.read
            (run-body_part cb parser q (drop u bytes) total s.announced h))

  -- The reading of data up to the packet's end.
  run-filled :
      (ncb0 ncb : Ncb) (b : Buffer) (p bytes q : List ℕ) (u total : ℕ)
      → Standing ncb0 ncb b p bytes q u total
      → total ≤ length q + length (drop u bytes)
      → run cb parser p (take (length bytes - (length q + length (drop u bytes) - total)) bytes)
        ≡ some ((q ++ take (total - length q) (drop u bytes)) ∷ [], [])
  run-filled ncb0 ncb b p bytes q u total s h =
      let consumed : length bytes - (length q + length (drop u bytes) - total)
          ≡ u + (total - length q) =
        omega (arith, length-drop u bytes, s.used, s.open_end) in
      rw (consumed, take-add u (total - length q) bytes)
        (run-then p (take u bytes) (take (total - length q) (drop u bytes)) q s.read (
          run-packet cb parser q (take (total - length q) (drop u bytes)) total s.announced
            s.open_end (omega (arith, length-take (total - length q) (drop u bytes), s.open_end))))

  -- The large block takes the whole data.
  place-large :
      (ncb0 ncb : Ncb) (b : Buffer) (p bytes q : List ℕ) (u total : ℕ)
      → Standing ncb0 ncb b p bytes q u total
      → p ≡ []
      → alloc total ≡ true
      → tcp_buffer_size < total
      → Reads cb parser bits ncb0 p bytes (place bits alloc ncb b bytes (drop u bytes) total)
  unfolding place
  place-large ncb0 ncb b p bytes q u total s pe a h =
      let (ncb', e, l, i, sm, po) =
        start_lb_lem alloc ncb b q bytes total a s.in_packet (omega (arith, s.data_fits)) in
      let whole : q ++ drop u bytes ≡ bytes =
        ap (λ k. k ++ drop u bytes) (s.held ∙ ap (λ k. k ++ take u bytes) pe)
        ∙ take-append-drop u bytes in
      let fits : length q + length (drop u bytes) < total =
        omega (arith, ap length whole, length-append q (drop u bytes), s.data_fits) in
      advanced 0 ncb' [] bytes (rw (lt→ltb tcp_buffer_size total h) e) s.some_data
        (run-kept ncb0 ncb b p bytes q u total s fits ∙ ap (λ k. some ([], k)) whole)
        (block b l total i (rw whole at (Announced-append cb parser q (drop u bytes) s.announced))
          (omega (arith, s.data_fits)) h)
        (Same-trans s.same sm) (po ∙ s.posted ∙ sym (append-nil ncb0.posted)) (inl refl)

  -- The packet is completed, and the rest of the data is left.
  place_complete :
      (ncb0 ncb : Ncb) (b : Buffer) (p bytes q : List ℕ) (u total : ℕ)
      → Standing ncb0 ncb b p bytes q u total
      → 0 < cb
      → total ≤ tcp_buffer_size
      → total ≤ length q + length (drop u bytes)
      → Reads cb parser bits ncb0 p bytes (place bits alloc ncb b bytes (drop u bytes) total)
  unfolding place
  place_complete ncb0 ncb b p bytes q u total s c h1 h2 =
      let (ncb', e, b', i, sm, po) =
        complete_packet_lem bits ncb b q (drop u bytes) cb total s.in_packet s.open_end h2 h1
          (omega (arith, frame_total_gt cb parser (take cb q) total s.announced.total))
          s.framed.template_cb s.framed.callback in
      advanced (length q + length (drop u bytes) - total) ncb'
        ((q ++ take (total - length q) (drop u bytes)) ∷ []) []
        (rw
          (
            ge→ltb tcp_buffer_size total h1,
            le→leb total (ncb.tcp.rx_parse_offset + length (drop u bytes))
                (omega (arith, s.in_packet.offset)),
          )
          e)
        (omega (arith, length-drop u bytes, s.used, s.open_end, s.some_data))
        (run-filled ncb0 ncb b p bytes q u total s h2) (header b' i c) (Same-trans s.same sm)
        (po
          ∙ ap₂
              (λ posted attr.
                posted
                ++ (receivedata
                      (user_bytes bits attr cb (q ++ take (total - length q) (drop u bytes)))
                    ∷ []))
              s.posted s.same.attr)
        (inr refl)

  -- The data is kept.
  place-part :
      (ncb0 ncb : Ncb) (b : Buffer) (p bytes q : List ℕ) (u total : ℕ)
      → Standing ncb0 ncb b p bytes q u total
      → total ≤ tcp_buffer_size
      → length q + length (drop u bytes) < total
      → Reads cb parser bits ncb0 p bytes (place bits alloc ncb b bytes (drop u bytes) total)
  unfolding place
  place-part ncb0 ncb b p bytes q u total s h1 h2 =
      let (ncb', e, b', i, sm, po) =
        keep_part_lem ncb b q (drop u bytes) s.in_packet (omega arith) in
      advanced 0 ncb' [] (q ++ drop u bytes)
        (rw
          (
            ge→ltb tcp_buffer_size total h1,
            gt→leb total (ncb.tcp.rx_parse_offset + length (drop u bytes))
                (omega (arith, s.in_packet.offset)),
          )
          e)
        s.some_data (run-kept ncb0 ncb b p bytes q u total s h2)
        (body b' total i (Announced-append cb parser q (drop u bytes) s.announced)
          (omega (arith, length-append q (drop u bytes))) h1)
        (Same-trans s.same sm) (po ∙ s.posted ∙ sym (append-nil ncb0.posted)) (inl refl)

  -- Whatever the announced size, the call reads the stream.
  pub place-Reads :
      (ncb0 ncb : Ncb) (b : Buffer) (p bytes q : List ℕ) (u total : ℕ)
      → Standing ncb0 ncb b p bytes q u total
      → 0 < cb
      → alloc total ≡ true
      → (tcp_buffer_size < total → p ≡ [])
      → Reads cb parser bits ncb0 p bytes (place bits alloc ncb b bytes (drop u bytes) total)
  place-Reads ncb0 ncb b p bytes q u total s c a large = elim (le_or_lt total tcp_buffer_size) [
    | inr h ↦ place-large ncb0 ncb b p bytes q u total s (large h) a h
    | inl h ↦ elim (le_or_lt total (length q + length (drop u bytes))) [
      | inl f ↦ place_complete ncb0 ncb b p bytes q u total s c h f
      | inr f ↦ place-part ncb0 ncb b p bytes q u total s h f
    ]
  ]
