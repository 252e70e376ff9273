-- ===== src/Echo/Writes.antt =====
-- How the example server writes back what came.
use swnet_linux.Base.{
  ℕ, ◌+◌, ◌≡◌, refl, ap, ap₂, ◌∙◌, List, none, some, Bool, true, false, length, arith,
}
use swnet_linux.Base.Int.{ℤ, pos, is_nonpos}
use swnet_linux.Base.Run.{done, ◌>>=◌}
use swnet_linux.Buffer.{Buffer}
use swnet_linux.Buffer.Laws.{memcpy-malloc}
use swnet_linux.Ncb.{Ncb, AttrBits, receivedata}
use swnet_linux.Submit.{
  Written, plain_packet, built, on_caller, serialize, submit, after_txn, no_target, node_of,
}
use swnet_linux.Tcpio.Send.{tcp_txn, tcp_established}
use swnet_linux.Tcp.Write.{make_packet, packet_with, tcp_write}
use swnet_linux.Tcp.Write.Call.{IsWritable, tcp_write_submits}
use swnet_linux.Echo.{Console, EchoReplies, display, after_write, on_received, tcp_server_callback}

-- A link of the server: without a template, and not blocking.
pub record IsPlainLink (link : ℤ) (ncb : Ncb) (cb : ℕ) : Type 0 where
  pub writable : IsWritable link ncb cb
  pub no_builder : ncb.tcp.template.builder ≡ none
  pub no_head : ncb.tcp.template.cb ≡ 0
  pub free : ncb.fifo.blocking ≡ 0

module _ (makeerror : ℕ → ℤ) (bits : AttrBits) (alloc : ℕ → Bool) (c : Console) where
  pub plain_built :
      (ncb : Ncb) (origin : List ℕ)
      → ncb.tcp.template.builder ≡ none
      → alloc (length origin) ≡ true
      → (b : Buffer) × (make_packet makeerror bits alloc ncb none origin (length origin)
          ≡ done (built b))
        × (b.bytes ≡ origin)
  unfolding make_packet packet_with plain_packet serialize
  plain_built ncb origin n a =
      let (b, copied, cap, bytes) = memcpy-malloc (length origin) origin (omega arith) in
      (
        b,
        ap (λ x. packet_with makeerror bits alloc x ncb none origin (length origin)) n
            ∙ rw (a, copied) refl,
        bytes,
      )

  abbrev pub server_write : EchoReplies → ℤ → Ncb → List ℕ → Written
  server_write r link ncb data' =
      tcp_write makeerror bits alloc r.state r.node_memory r.ctl link (some ncb) (some data')
        (pos (length data')) none r.sends

  pub write_sends :
      (r : EchoReplies) (link : ℤ) (ncb : Ncb) (data' : List ℕ) (b : Buffer)
      → r.state ≡ some tcp_established
      → r.node_memory ≡ true
      → IsPlainLink link ncb (length data')
      → make_packet makeerror bits alloc ncb none data' (length data') ≡ done (built b)
      → server_write r link ncb data'
        ≡ on_caller
            (tcp_txn (node_of no_target b (length data')) r.sends >>= after_txn makeerror r.ctl ncb)
  unfolding submit
  write_sends r link ncb data' b st nm v m =
      let node = λ (n : ℕ). node_of no_target b n in
      let whole = length data' + ncb.tcp.template.cb in
      let free : submit makeerror r.ctl ncb (node whole) r.sends
          ≡ tcp_txn (node whole) r.sends >>= after_txn makeerror r.ctl ncb =
        rw (v.free) refl in
      let same : whole ≡ length data' = omega (arith, v.no_head) in
      ap₂
        (λ state memory.
          tcp_write makeerror bits alloc state memory r.ctl link (some ncb) (some data')
            (pos (length data')) none r.sends)
        st nm
      ∙ tcp_write_submits makeerror bits alloc r.ctl link ncb data' (length data') none r.sends b
          v.writable m
      ∙ ap on_caller free
      ∙ ap (λ n. on_caller (tcp_txn (node n) r.sends >>= after_txn makeerror r.ctl ncb)) same

  pub callback_writes :
      (r : EchoReplies) (link : ℤ) (ncb : Ncb) (data' : List ℕ)
      → is_nonpos (display c link (some ncb) data') ≡ false
      → tcp_server_callback makeerror bits alloc c r link (some ncb) (receivedata data')
        ≡ server_write r link ncb data' >>= after_write makeerror bits alloc c r
  unfolding tcp_server_callback on_received
  callback_writes r link ncb data' shown = rw shown refl
