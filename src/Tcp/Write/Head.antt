-- ===== src/Tcp/Write/Head.antt =====
-- What tcp_write puts into its packet.
use swnet_linux.Base.{
  ℕ, ◌+◌, ◌≤◌, ◌≡◌, refl, sym, ap, ◌∙◌, List, ◌++◌, append-nil, none, some, Bool, true, false,
  le→leb, length, take, drop, take-length, drop-length, arith,
}
use swnet_linux.Base.Int.{ℤ, is_neg}
use swnet_linux.Base.Run.{done}
use swnet_linux.Buffer.{Buffer, memcpy}
use swnet_linux.Buffer.Laws.{memcpy-malloc}
use swnet_linux.Ncb.{Ncb, Builder, AttrBits, has_attr}
use swnet_linux.Submit.{built, serialize, in_buffer}
use swnet_linux.Tcp.Write.{make_packet, packet_with, headed_packet}

-- A copy right behind the bytes of a block.
memcpy_append :
    (b : Buffer) (p src : List ℕ)
    → b.bytes ≡ p
    → length p + length src ≤ b.cap
    → (b' : Buffer) × (memcpy b (length p) src (length src) ≡ some b') × (b'.bytes ≡ p ++ src)
unfolding memcpy
memcpy_append b p src e h = (
  record b {
    bytes =
        take (length p) b.bytes ++ (take (length src) src ++ drop (length p + length src) b.bytes);
  },
  rw
      (
        le→leb (length src) (length src) (omega arith),
        le→leb (length p + length src) b.cap h,
        le→leb (length p) (length b.bytes) (omega (arith, ap length e)),
      )
      refl,
  ap (λ l. take (length p) l ++ (take (length src) src ++ drop (length p + length src) l)) e
      ∙ rw
          (
            take-length (length p) p (omega arith),
            take-length (length src) src (omega arith),
            drop-length (length p + length src) p (omega arith),
            append-nil src,
          )
          refl,
)

module _ (makeerror : ℕ → ℤ) (bits : AttrBits) (alloc : ℕ → Bool) where
  -- With a builder that writes a head of the template's size, without LINKATTR_TCP_NO_BUILD and a
  -- serializer, and with memory for it: the packet of tcp_write is the head and then the payload.
  pub make_packet_headed :
      (ncb : Ncb) (builder : Builder) (origin : List ℕ)
      → ncb.tcp.template.builder ≡ some builder
      → has_attr ncb.attr bits.no_build ≡ false
      → is_neg (builder (length origin)).0 ≡ false
      → length (builder (length origin)).1 ≡ ncb.tcp.template.cb
      → alloc (length origin + ncb.tcp.template.cb) ≡ true
      → (b : Buffer) × (make_packet makeerror bits alloc ncb none origin (length origin)
          ≡ done (built b))
        × (b.bytes ≡ (builder (length origin)).1 ++ origin)
  unfolding make_packet packet_with headed_packet serialize
  make_packet_headed ncb builder origin e nb ok n a =
      let cb = length origin in
      let head = (builder cb).1 in
      let (b1, copied, cap, bytes) = memcpy-malloc (cb + ncb.tcp.template.cb) head (omega arith) in
      let (b2, appended, whole) = memcpy_append b1 head origin bytes (omega (arith, cap)) in
      (
        b2,
        ap (λ x. packet_with makeerror bits alloc x ncb none origin cb) e
            ∙ rw nb (
                rw a (
                  rw ok (
                    rw copied (
                      ap (λ k. in_buffer (memcpy b1 k origin cb)) (sym n)
                      ∙ ap in_buffer appended)))),
        whole,
      )
