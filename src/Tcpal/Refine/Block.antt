-- ===== src/Tcpal/Refine/Block.antt =====
-- A large block reads the stream too.
use swnet_linux.Base.{
  ℕ, ◌+◌, ◌-◌, ◌≤◌, ◌<◌, ◌≡◌, refl, sym, ap, ap₂, ◌∙◌, List, [], ◌∷◌, ◌++◌, none, some, inl, inr,
  length, take, arith, take-length, length-append, length-take, append-nil, drop-length, le→leb,
}
use swnet_linux.Base.Int.{pos}
use swnet_linux.Buffer.{Buffer, memcpy}
use swnet_linux.Ncb.{Ncb, Parser, AttrBits, tcp_buffer_size, receivedata}
use swnet_linux.Tcpal.{parse_marked_lb, complete_lb, deliver}
use swnet_linux.Tcpal.Stream.Reads.{
  Announced, Announced-append, frame_total_gt, run-body_part, run-packet,
}
use swnet_linux.Tcpal.Refine.{InBlock, user_bytes, IsFramed, header, block, Reads, advanced}
use swnet_linux.Tcpal.Refine.Steps.{deliver_lem}

-- A copy behind all that a block holds.
memcpy-block :
    (l : Buffer) (p src : List ℕ) (n : ℕ)
    → l.bytes ≡ p
    → n ≤ length src
    → length p + n ≤ l.cap
    → memcpy l (length p) src n ≡ some (record l { bytes = p ++ take n src })
unfolding memcpy
memcpy-block l p src n e hn hc =
    rw
      (
        le→leb n (length src) hn,
        le→leb (length p + n) l.cap hc,
        le→leb (length p) (length l.bytes) (omega (arith, ap length e)),
      )
      (ap (λ k. some (record l { bytes = k }))
        (ap₂ ◌++◌ (take-length (length p) l.bytes (omega (arith, ap length e)) ∙ e) (
          ap (◌++◌ (take n src)) (drop-length (length p + n) l.bytes (omega (arith, ap length e)))
          ∙ append-nil (take n src))))

parse_marked_lb_complete :
    (bits : AttrBits) (ncb ncb2 : Ncb) (l l' : Buffer) (bytes : List ℕ) (n t : ℕ)
    → ncb.tcp.lbsize ≡ t
    → ncb.tcp.lboffset ≡ n
    → n ≤ t
    → t ≤ n + length bytes
    → memcpy l n bytes (t - n) ≡ some l'
    → deliver bits ncb l' t ≡ some ncb2
    → parse_marked_lb bits ncb l bytes
      ≡ some (
        pos (length bytes - (t - n)),
        record ncb2 { tcp = record ncb2.tcp { lbdata = none; lboffset = 0; lbsize = 0 } },
      )
unfolding parse_marked_lb complete_lb
parse_marked_lb_complete bits ncb ncb2 l l' bytes n t es eo h1 h2 m d = ground arith

module _ (bits : AttrBits) (cb : ℕ) (parser : Parser) where
  pub marked-part :
      (ncb : Ncb) (b l : Buffer) (p bytes : List ℕ) (t : ℕ)
      → InBlock ncb b l p t
      → Announced cb parser p t
      → tcp_buffer_size < t
      → 0 < length bytes
      → length p + length bytes < t
      → Reads cb parser bits ncb p bytes (parse_marked_lb bits ncb l bytes)
  unfolding parse_marked_lb
  marked-part ncb b l p bytes t i a big n h =
      let l' : Buffer = record l { bytes = p ++ take (length bytes) bytes } in
      let m =
        memcpy-block l p bytes (length bytes) i.block_bytes (omega arith)
          (omega (arith, i.block_cap)) in
      let ncb' : Ncb = record ncb {
        tcp = record ncb.tcp { lbdata = some l'; lboffset = ncb.tcp.lboffset + length bytes };
      } in
      advanced 0 ncb' [] (p ++ bytes) (ground (arith, i.lbsize, i.lboffset)) n
        (rw (take-length (length bytes - 0) bytes (omega arith))
          (run-body_part cb parser p bytes t a h))
        (block b l' t
          (record {
            packet = i.packet;
            cap = i.cap;
            block = refl;
            block_bytes = ap (◌++◌ p) (take-length (length bytes) bytes (omega arith));
            block_cap = i.block_cap;
            lbsize = i.lbsize;
            lboffset = omega (arith, i.lboffset, length-append p bytes);
            offset = i.offset;
          })
          (Announced-append cb parser p bytes a) (omega (arith, length-append p bytes)) big)
        (record { template = refl; attr = refl; callback = refl; fifo = refl })
        (sym (append-nil ncb.posted)) (inl refl)

  pub marked_complete :
      (ncb : Ncb) (b l : Buffer) (p bytes : List ℕ) (t : ℕ)
      → InBlock ncb b l p t
      → IsFramed cb parser ncb
      → Announced cb parser p t
      → 0 < cb
      → length p < t
      → t ≤ length p + length bytes
      → Reads cb parser bits ncb p bytes (parse_marked_lb bits ncb l bytes)
  marked_complete ncb b l p bytes t i f a c h1 h2 =
      let u = t - length p in
      let q : List ℕ = p ++ take u bytes in
      let l' : Buffer = record l { bytes = q } in
      let lq : length q ≡ t = omega (arith, length-append p (take u bytes), length-take u bytes) in
      let m = memcpy-block l p bytes u i.block_bytes (omega arith) (omega (arith, i.block_cap)) in
      let d =
        deliver_lem bits ncb l' q cb t (take-length (length q) q (omega arith)) lq
          (omega (arith, frame_total_gt cb parser (take cb p) t a.total)) f.template_cb
          f.callback in
      advanced (length bytes - u)
        (record ncb {
          posted = ncb.posted ++ (receivedata (user_bytes bits ncb.attr cb q) ∷ []);
          tcp = record ncb.tcp { lbdata = none; lboffset = 0; lbsize = 0 };
        })
        (q ∷ []) []
        (parse_marked_lb_complete bits ncb
          (record ncb { posted = ncb.posted ++ (receivedata (user_bytes bits ncb.attr cb q) ∷ []) })
          l l' bytes (length p) t i.lbsize i.lboffset (omega arith) h2 m d)
        (omega arith)
        (rw (sub_sub (length bytes) u (omega arith))
          (run-packet cb parser p (take u bytes) t a h1 (omega (arith, length-take u bytes))))
        (header b
          (record {
            packet = i.packet;
            cap = i.cap;
            no_block = refl;
            offset = i.offset;
            begins = refl;
          })
          c)
        (record { template = refl; attr = refl; callback = refl; fifo = refl }) refl (inr refl)
    where
      sub_sub : (m k : ℕ) → k ≤ m → m - (m - k) ≡ k
      sub_sub m k h = omega arith
