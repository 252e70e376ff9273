-- ===== src/Flow/Answers.antt =====
-- What the kernel answers to the tasks of a link: at most the bytes that it is handed, over one node
-- after the other.
use swnet_linux.Base.{
  ℕ, zero, suc, ◌+◌, ◌≤◌, ◌<◌, ◌≡◌, refl, ap, ◌∙◌, List, [], ◌∷◌, ◌++◌, ltb, if◌then◌else◌, true,
  false, take, drop, inl, inr, lt→ltb, ge→ltb, le_or_lt, Bool-cases, ◌==◌, ==_iff, eagain, eintr,
  subst, arith,
}
use swnet_linux.Base.Int.{ℤ, pos, neg}
use swnet_linux.Base.Run.{waiting, done}
use swnet_linux.Ncb.{Node}
use swnet_linux.Tcpio.Send.{SendReply, wrote, send_failed, on_reply, Sending, add_sent, tcp_txn}
use swnet_linux.Tcpio.Send.Laws.{
  IsNode, bytes_between, between-append, between_self, txn_waits, txn_stop, txn_again, txn_closed,
  add_sent-nil,
}

abbrev pub AreTaken : List Node → List SendReply → Type 0
AreTaken nodes [] = Unit {0}
AreTaken [] (r ∷ rs) = Unit {0}
AreTaken (node ∷ nodes) (wrote n ∷ rs) =
    (node.offset + n ≤ node.wcb)
    × (if ltb (node.offset + n) node.wcb
        then AreTaken (record node { offset = node.offset + n } ∷ nodes) rs
        else AreTaken nodes rs)
AreTaken (node ∷ nodes) (send_failed e ∷ rs) = AreTaken (node ∷ nodes) rs

-- What a run of tcp_txn on the front node gives, with what the kernel answers next.
pub data SendsFront (front : Node) (nodes : List Node) (replies : List SendReply) (out : Sending)
    : Type 0 where
  waits : out ≡ waiting → SendsFront front nodes replies out
  whole :
      (used rest : List SendReply)
      → replies ≡ used ++ rest
      → out
        ≡ done (
          pos front.wcb,
          record front { offset = front.wcb },
          bytes_between front front.offset front.wcb,
          rest,
        )
      → AreTaken nodes rest
      → SendsFront front nodes replies out
  blocks :
      (offset : ℕ) (used rest : List SendReply)
      → replies ≡ used ++ (send_failed eagain ∷ rest)
      → out
        ≡ done (
          neg eagain,
          record front { offset = offset },
          bytes_between front front.offset offset,
          rest,
        )
      → front.offset ≤ offset
      → offset ≤ front.wcb
      → SendsFront front nodes replies out
  fails :
      (offset : ℕ) (rest : List SendReply)
      → out
        ≡ done
            (neg 1, record front { offset = offset }, bytes_between front front.offset offset, rest)
      → front.offset ≤ offset
      → offset ≤ front.wcb
      → SendsFront front nodes replies out

front_then :
    (front : Node) (nodes : List Node) (n : ℕ) (reply : SendReply) (replies : List SendReply)
    (out : Sending)
    → front.offset + n ≤ front.wcb
    → SendsFront (record front { offset = front.offset + n }) nodes replies out
    → SendsFront front nodes
        (reply ∷ replies)
        (add_sent (take n (drop front.offset front.bytes)) out)
front_then front nodes n reply replies out h (waits e) =
    waits (ap (add_sent (take n (drop front.offset front.bytes))) e)
front_then front nodes n reply replies out h (whole used rest u e t) =
    whole (reply ∷ used) rest (ap (◌∷◌ reply) u)
      (ap (add_sent (take n (drop front.offset front.bytes))) e
        ∙ ap (λ w. done (pos front.wcb, record front { offset = front.wcb }, w, rest))
            (between-append front front.offset n front.wcb h))
      t
front_then front nodes n reply replies out h (blocks o used rest u e lo hi) =
    blocks o (reply ∷ used) rest (ap (◌∷◌ reply) u)
      (ap (add_sent (take n (drop front.offset front.bytes))) e
        ∙ ap (λ w. done (neg eagain, record front { offset = o }, w, rest))
            (between-append front front.offset n o lo))
      (omega arith) hi
front_then front nodes n reply replies out h (fails o rest e lo hi) =
    fails o rest
      (ap (add_sent (take n (drop front.offset front.bytes))) e
        ∙ ap (λ w. done (neg 1, record front { offset = o }, w, rest))
            (between-append front front.offset n o lo))
      (omega arith) hi

-- After an interrupted call.
front_again :
    (front : Node) (nodes : List Node) (reply : SendReply) (replies : List SendReply)
    (out : Sending)
    → SendsFront front nodes replies out
    → SendsFront front nodes (reply ∷ replies) out
front_again front nodes reply replies out (waits e) = waits e
front_again front nodes reply replies out (whole used rest u e t) =
    whole (reply ∷ used) rest (ap (◌∷◌ reply) u) e t
front_again front nodes reply replies out (blocks o used rest u e lo hi) =
    blocks o (reply ∷ used) rest (ap (◌∷◌ reply) u) e lo hi
front_again front nodes reply replies out (fails o rest e lo hi) = fails o rest e lo hi

-- A return with nothing sent.
nothing :
    (front : Node) (r : ℤ) (rest : List SendReply) (out : Sending)
    → out ≡ done (r, front, [], rest)
    → out
      ≡ done (
        r,
        record front { offset = front.offset },
        bytes_between front front.offset front.offset,
        rest,
      )
nothing front r rest out e =
    e ∙ ap (λ w. done (r, front, w, rest)) (between_self front front.offset)

closed_front :
    (front : Node) (nodes : List Node) (rs : List SendReply)
    → IsNode front
    → front.wcb ≤ front.offset
    → AreTaken nodes rs
    → SendsFront front nodes rs (tcp_txn front rs)
closed_front front nodes rs v c t =
    whole [] rs refl
      (txn_closed front rs c
        ∙ ap (λ w. done (pos front.wcb, front, w, rs)) (between_self front front.offset)
        ∙ ap
            (λ k.
              done (
                pos front.wcb,
                record front { offset = k },
                bytes_between front front.offset k,
                rs,
              ))
            (same front.offset front.wcb v.sent_part c))
      t
  where
    same : (a b : ℕ) → a ≤ b → b ≤ a → a ≡ b
    same a b h k = omega arith

abbrev Then : Node → List Node → List SendReply → Type 0
Then front nodes rs =
    if ltb front.offset front.wcb then AreTaken (front ∷ nodes) rs else AreTaken nodes rs

next_nodes :
    (front : Node) (nodes : List Node) (rs : List SendReply)
    → ltb front.offset front.wcb ≡ false
    → Then front nodes rs
    → AreTaken nodes rs
next_nodes front nodes rs e t =
    subst (λ b. if b then AreTaken (front ∷ nodes) rs else AreTaken nodes rs) e t

same_node :
    (front : Node) (nodes : List Node) (rs : List SendReply)
    → ltb front.offset front.wcb ≡ true
    → Then front nodes rs
    → AreTaken (front ∷ nodes) rs
same_node front nodes rs e t =
    subst (λ b. if b then AreTaken (front ∷ nodes) rs else AreTaken nodes rs) e t

failed_front :
    (front : Node) (nodes : List Node) (e : ℕ) (rs : List SendReply)
    → IsNode front
    → front.offset < front.wcb
    → SendsFront front nodes rs (tcp_txn front rs)
    → SendsFront front nodes (send_failed e ∷ rs) (tcp_txn front (send_failed e ∷ rs))
unfolding on_reply
failed_front front nodes e rs v h ih = elim (Bool-cases (e == eagain)) [
  | inl y ↦
      blocks front.offset [] rs (ap (λ k. send_failed k ∷ rs) ((==_iff e eagain).0 y))
        (nothing front (neg eagain) rs (tcp_txn front (send_failed e ∷ rs))
          (txn_stop front (send_failed e) rs (neg eagain) v h (rw y refl)))
        (omega arith) v.sent_part
  | inr n ↦ elim (Bool-cases (e == eintr)) [
    | inl y ↦
        rw
          (txn_again front front (send_failed e) rs [] v h (rw (n, y) refl)
            ∙ add_sent-nil (tcp_txn front rs))
          (front_again front nodes (send_failed e) rs (tcp_txn front rs) ih)
    | inr m ↦
        fails front.offset rs
          (nothing front (neg 1) rs (tcp_txn front (send_failed e ∷ rs))
            (txn_stop front (send_failed e) rs (neg 1) v h (rw (n, m) refl)))
          (omega arith) v.sent_part
  ]
]

-- On a front node with bytes to send.
pub txn-SendsFront :
    (front : Node) (nodes : List Node) (replies : List SendReply)
    → IsNode front
    → front.offset < front.wcb
    → AreTaken (front ∷ nodes) replies
    → SendsFront front nodes replies (tcp_txn front replies)
unfolding on_reply
txn-SendsFront front nodes [] v h t = waits (txn_waits front v h)
txn-SendsFront front nodes (wrote zero ∷ rs) v h t =
    fails front.offset rs
      (nothing front (neg 1) rs (tcp_txn front (wrote zero ∷ rs))
        (txn_stop front (wrote zero) rs (neg 1) v h refl))
      (omega arith) v.sent_part
txn-SendsFront front nodes (wrote (suc n) ∷ rs) v h (fits, t) =
    let front' : Node = record front { offset = front.offset + suc n } in
    let v' : IsNode front' = record { sent_part = fits; inside = v.inside } in
    let go = txn-SendsFront front' nodes rs v' in
    rw
      (txn_again front front' (wrote (suc n)) rs (take (suc n) (drop front.offset front.bytes)) v h
        refl)
      (front_then front nodes (suc n) (wrote (suc n)) rs (tcp_txn front' rs) fits
        (elim (le_or_lt front.wcb front'.offset) [
          | inl c ↦
              closed_front front' nodes rs v' c
                (next_nodes front' nodes rs (ge→ltb front'.offset front.wcb c) t)
          | inr o ↦ go o (same_node front' nodes rs (lt→ltb front'.offset front.wcb o) t)
        ]))
txn-SendsFront front nodes (send_failed e ∷ rs) v h t =
    failed_front front nodes e rs v h (txn-SendsFront front nodes rs v h t)
