-- ===== src/Echo/Answer.antt =====
-- What the example server answers: the data that came, unless it could not be sent at once.
use swnet_linux.Base.{
  ℕ, zero, suc, ◌-◌, ◌<◌, ◌≡◌, refl, sym, subst, ap, if◌then◌else◌, take-append-drop, inl, inr, ◌∙◌,
  List, [], ◌∷◌, ◌++◌, Option, none, some, Bool, true, false, length, take, drop, take-length,
  length-drop, eagain, arith,
}
use swnet_linux.Base.Int.{ℤ, pos, negsuc, neg, is_neg, is_nonpos, positive}
use swnet_linux.Base.Run.{Run, waiting, done, ◌>>=◌}
use swnet_linux.Buffer.{Buffer}
use swnet_linux.Ncb.{Ncb, Node, AttrBits, receivedata}
use swnet_linux.Fifo.{fifo_queue, fifo_block, fifo_added, maximum_fifo_size}
use swnet_linux.Io.{io_modify}
use swnet_linux.Submit.{on_caller, after_txn, queue_node, no_target, node_of, Written}
use swnet_linux.Submit.Stream.{pending, queue_adds}
use swnet_linux.Tcpio.Send.{SendReply, Sending, send_failed, tcp_txn, on_reply, tcp_established}
use swnet_linux.Tcpio.Send.Laws.{
  IsNode, IsError, AreHonest, Sends, waits, returns, tcp_txn-Sends, txn_stop,
}
use swnet_linux.Tcp.Create.{tcp_destroy}
use swnet_linux.Tcp.Write.{tcp_write}
use swnet_linux.Echo.{Console, EchoReplies, Echoed, display, after_write, tcp_server_callback}
use swnet_linux.Echo.Writes.{IsPlainLink, plain_built, server_write, write_sends, callback_writes}

module _ (makeerror : ℕ → ℤ) (bits : AttrBits) (alloc : ℕ → Bool) (c : Console) where
  -- What tcp_write gives, after the sending of the node.
  abbrev written : EchoReplies → Ncb → Sending → Written
  written r ncb out = on_caller (out >>= after_txn makeerror r.ctl ncb)

  -- What the callback gives for data that came, beside what tcp_write gives for that data (`w`): both
  -- wait for the kernel; or all the data was sent back and the link stays as it was; or tcp_write has
  -- returned 0 or less, with a part of the data sent and some of it missing, and the link is
  -- destroyed.
  pub data Answers (r : EchoReplies) (ncb : Ncb) (data' : List ℕ) (w : Written) (out : Run Echoed)
      : Type 0 where
    still : w ≡ waiting → out ≡ waiting → Answers r ncb data' w out
    echoed :
        (n : ℕ) (ncb' : Ncb) (rest : List SendReply)
        → w ≡ done (pos (suc n), some ncb', data', rest)
        → out ≡ done (record { destroyed = false; link = some ncb'; sent = data' })
        → pending ncb'.fifo.nodes ≡ pending ncb.fifo.nodes
        → Answers r ncb data' w out
    ended :
        (ret : ℤ) (found : Option Ncb) (sent missing : List ℕ) (rest : List SendReply)
        → w ≡ done (ret, found, sent, rest)
        → is_nonpos ret ≡ true
        → out
          ≡ done (record { destroyed = true; link = tcp_destroy found r.close_ctl; sent = sent })
        → sent ++ missing ≡ data'
        → 0 < length missing
        → Answers r ncb data' w out

  -- With what follows tcp_write.
  abbrev Follows : EchoReplies → Ncb → List ℕ → Written → Type 0
  Follows r ncb data' w = Answers r ncb data' w (w >>= after_write makeerror bits alloc c r)

  -- A queue that takes the rest of the node, and one that refuses it, end the link alike.
  queued-Answers :
      (r : EchoReplies) (ncb : Ncb) (data' sent missing : List ℕ) (rest : List SendReply)
      (q : ℤ × Ncb)
      → sent ++ missing ≡ data'
      → 0 < length missing
      → Follows r ncb data' (
          on_caller (
            let (retval, ncb') = q in
            if is_neg retval
            then done (retval, ncb', sent, rest)
            else done (pos 0, ncb', sent, rest)))
  unfolding after_write
  queued-Answers r ncb data' sent missing rest (pos n, k) e m =
      ended (pos 0) (some k) sent missing rest refl refl refl e m
  queued-Answers r ncb data' sent missing rest (negsuc n, k) e m =
      ended (negsuc n) (some k) sent missing rest refl refl refl e m

  sent-Answers :
      (r : EchoReplies) (ncb : Ncb) (data' sent missing : List ℕ) (node : Node) (ret : ℤ)
      (rest : List SendReply)
      → sent ++ missing ≡ data'
      → 0 < length missing
      → IsError ret
      → Follows r ncb data' (written r ncb (done (ret, node, sent, rest)))
  unfolding after_txn queue_node after_write
  sent-Answers r ncb data' sent missing node ret rest e m (inl fatal) =
      subst (λ k. Follows r ncb data' (written r ncb (done (k, node, sent, rest)))) (sym fatal)
        (ended (neg 1) (some ncb) sent missing rest refl refl refl e m)
  sent-Answers r ncb data' sent missing node ret rest e m (inr blocks) =
      subst (λ k. Follows r ncb data' (written r ncb (done (k, node, sent, rest)))) (sym blocks)
        (queued-Answers r ncb data' sent missing rest (fifo_queue makeerror ncb (some node) r.ctl) e
          m)

  whole-Answers :
      (r : EchoReplies) (ncb : Ncb) (data' sent : List ℕ) (node : Node) (n : ℕ)
      (rest : List SendReply)
      → sent ≡ data'
      → 0 < n
      → Follows r ncb data' (written r ncb (done (pos n, node, sent, rest)))
  unfolding after_txn after_write
  whole-Answers r ncb data' sent node zero rest e h = absurd (omega arith)
  whole-Answers r ncb data' sent node (suc n) rest e h =
      echoed n ncb rest (ap (λ l. done (pos (suc n), some ncb, l, rest)) e)
        (ap (λ l. done (record { destroyed = false; link = some ncb; sent = l })) e) refl

  written-Answers :
      (r : EchoReplies) (ncb : Ncb) (data' : List ℕ) (b : Buffer) (wcb : ℕ) (out : Sending)
      → b.bytes ≡ data'
      → wcb ≡ length data'
      → 0 < wcb
      → Sends (node_of no_target b wcb) out
      → Follows r ncb data' (written r ncb out)
  written-Answers r ncb data' b wcb out e w n (waits o) =
      still (ap (written r ncb) o)
        (ap (λ k. written r ncb k >>= after_write makeerror bits alloc c r) o)
  written-Answers r ncb data' b wcb out e w n (returns ret offset rest o lo hi (inr (bad, left))) =
      let whole = take-append-drop (offset - 0) b.bytes in
      subst (λ k. Follows r ncb data' (written r ncb k)) (sym o)
        (sent-Answers r ncb data' (take (offset - 0) b.bytes) (drop (offset - 0) b.bytes) _ ret rest
          (whole ∙ e) (omega (arith, length-drop (offset - 0) b.bytes, ap length e)) bad)
  written-Answers r ncb data' b wcb out e w n (returns ret offset rest o lo hi (inl (whole, all))) =
      subst (λ k. Follows r ncb data' (written r ncb k))
        (sym (
          o
          ∙ ap
              (λ k. done (
                k,
                record (node_of no_target b wcb) { offset = offset },
                take (offset - 0) b.bytes,
                rest,
              ))
              whole))
        (whole-Answers r ncb data' (take (offset - 0) b.bytes) _ wcb rest
          (take-length (offset - 0) b.bytes (omega (arith, ap length e)) ∙ e) n)

  -- Data that came on a link without a template, which is not blocking and established, with
  -- memory for the packet and its node, the data shown, and a kernel that takes at most what it is
  -- handed. The server hands exactly that data to tcp_write. It waits only where tcp_write waits for
  -- the kernel; or tcp_write has sent exactly that data back, and the link stays with what waited in
  -- its queue; or tcp_write returned 0 or less, with a first part of the data sent and at least one
  -- byte missing, and the server has destroyed the link that tcp_write left.
  pub server-Answers :
      (r : EchoReplies) (link : ℤ) (ncb : Ncb) (data' : List ℕ)
      → r.state ≡ some tcp_established
      → r.node_memory ≡ true
      → IsPlainLink link ncb (length data')
      → is_nonpos (display c link (some ncb) data') ≡ false
      → alloc (length data') ≡ true
      → AreHonest
          (record { bytes = data'; wcb = length data'; offset = 0; target = no_target })
          r.sends
      → Answers r ncb data'
          (tcp_write makeerror bits alloc r.state r.node_memory r.ctl link
            (some ncb)
            (some data')
            (pos (length data'))
            none
            r.sends)
          (tcp_server_callback makeerror bits alloc c r link (some ncb) (receivedata data'))
  server-Answers r link ncb data' st nm v shown a honest =
      let (b, made, bytes) = plain_built makeerror bits alloc c ncb data' v.no_builder a in
      let node : Node = node_of no_target b (length data') in
      subst (Answers r ncb data' (server_write makeerror bits alloc c r link ncb data'))
        (sym (callback_writes makeerror bits alloc c r link ncb data' shown))
        (subst (Follows r ncb data')
          (sym (write_sends makeerror bits alloc c r link ncb data' b st nm v made))
          (written-Answers r ncb data' b (length data') (tcp_txn node r.sends) bytes refl
            (positive (length data') v.writable.some_data)
            (tcp_txn-Sends node r.sends
              (record { sent_part = omega arith; inside = omega (arith, ap length bytes) })
              (subst
                (λ l.
                  AreHonest
                    (record { bytes = l; wcb = length data'; offset = 0; target = no_target })
                    r.sends)
                (sym bytes) honest))))

  accepts :
      (ncb : Ncb) (node : Node)
      → ncb.fifo.size < maximum_fifo_size
      → ncb.fifo.blocking ≡ 0
      → is_neg (fifo_queue makeerror ncb (some node) none).0 ≡ false
  unfolding fifo_queue fifo_block fifo_added io_modify
  accepts ncb node h f = ground arith

  blocked_write :
      (r : EchoReplies) (ncb : Ncb) (node : Node) (rest : List SendReply)
      → IsNode node
      → node.offset < node.wcb
      → r.sends ≡ send_failed eagain ∷ rest
      → is_neg (fifo_queue makeerror ncb (some node) r.ctl).0 ≡ false
      → on_caller (tcp_txn node r.sends >>= after_txn makeerror r.ctl ncb)
        ≡ done (pos 0, some (fifo_queue makeerror ncb (some node) r.ctl).1, [], rest)
  unfolding after_txn queue_node on_reply
  blocked_write r ncb node rest v h se a =
      ap (λ o. on_caller (o >>= after_txn makeerror r.ctl ncb))
        (ap (tcp_txn node) se ∙ txn_stop node (send_failed eagain) rest (neg eagain) v h refl)
      ∙ rw a refl

  -- On such a link whose queue has room, where the kernel takes nothing at once and epoll_ctl(2)
  -- succeeds: tcp_write queues all of the data and returns 0, which the server takes for a failure,
  -- and it destroys the link with the data still in its queue and nothing of it sent.
  pub server_drops_queued :
      (r : EchoReplies) (link : ℤ) (ncb : Ncb) (data' : List ℕ) (rest : List SendReply)
      → r.state ≡ some tcp_established
      → r.node_memory ≡ true
      → r.sends ≡ send_failed eagain ∷ rest
      → r.ctl ≡ none
      → IsPlainLink link ncb (length data')
      → is_nonpos (display c link (some ncb) data') ≡ false
      → alloc (length data') ≡ true
      → ncb.fifo.size < maximum_fifo_size
      → (ncb' : Ncb) × (node : Node) × (server_write makeerror bits alloc c r link ncb data'
          ≡ done (pos 0, some ncb', [], rest))
        × (tcp_server_callback makeerror bits alloc c r link (some ncb) (receivedata data')
            ≡ done (record {
              destroyed = true;
              link = tcp_destroy (some ncb') r.close_ctl;
              sent = [];
            }))
        × (ncb'.fifo.nodes ≡ ncb.fifo.nodes ++ (node ∷ []))
        × (node.bytes ≡ data')
        × (node.offset ≡ 0)
  unfolding after_write
  server_drops_queued r link ncb data' rest st nm se ok v shown a room =
      let (b, made, bytes) = plain_built makeerror bits alloc c ncb data' v.no_builder a in
      let node : Node = node_of no_target b (length data') in
      let taken : is_neg (fifo_queue makeerror ncb (some node) r.ctl).0 ≡ false =
        ap (λ k. is_neg (fifo_queue makeerror ncb (some node) k).0) ok
        ∙ accepts ncb node room v.free in
      let written : server_write makeerror bits alloc c r link ncb data'
          ≡ done (pos 0, some (fifo_queue makeerror ncb (some node) r.ctl).1, [], rest) =
        write_sends makeerror bits alloc c r link ncb data' b st nm v made
        ∙ blocked_write r ncb node rest
            (record { sent_part = omega arith; inside = omega (arith, ap length bytes) })
            (positive (length data') v.writable.some_data) se taken in
      (
        (fifo_queue makeerror ncb (some node) r.ctl).1,
        node,
        written,
        callback_writes makeerror bits alloc c r link ncb data' shown
            ∙ ap (λ w. w >>= after_write makeerror bits alloc c r) written,
        queue_adds makeerror ncb node r.ctl taken,
        bytes,
        refl,
      )
