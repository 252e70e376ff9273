-- ===== src/Tcpio/Send/Laws.antt =====
-- What the sending loop sends.
use swnet_linux.Base.{
  ℕ, zero, suc, ◌+◌, ◌-◌, ◌≤◌, ◌<◌, ◌≡◌, refl, sym, ap, ◌∙◌, List, [], ◌∷◌, ◌++◌, true, ◌⊎◌, inl,
  inr, ◌==◌, length, take, drop, eintr, eagain, arith, lt→ltb, ge→ltb, le→leb, take-add, drop-add,
  Bool-cases, ==_iff, le_or_lt,
}
use swnet_linux.Base.Int.{ℤ, pos, neg, is_neg}
use swnet_linux.Base.Run.{fault, waiting, done}
use swnet_linux.Ncb.{Node}
use swnet_linux.Tcpio.Send.{
  SendReply, wrote, send_failed, stop, again, on_reply, Sending, add_sent, tcp_txn,
}

-- The node's range lies inside its data.
pub record IsNode (node : Node) : Type 0 where
  pub sent_part : node.offset ≤ node.wcb
  pub inside : node.wcb ≤ length node.bytes

-- The kernel takes at most the bytes that it is handed.
abbrev pub AreHonest : Node → List SendReply → Type 0
AreHonest node [] = Unit {0}
AreHonest node (wrote n ∷ rs) =
    (node.offset + n ≤ node.wcb) × AreHonest (record node { offset = node.offset + n }) rs
AreHonest node (send_failed e ∷ rs) = AreHonest node rs

-- The bytes of a node from an offset on.
abbrev pub bytes_between : Node → ℕ → ℕ → List ℕ
bytes_between node from to = take (to - from) (drop from node.bytes)

-- The error codes of tcp_txn: -1, which closes the link, and -EAGAIN.
abbrev pub IsError : ℤ → Type 0
IsError r = (r ≡ neg 1) ⊎ (r ≡ neg eagain)

pub IsError-neg : (r : ℤ) → IsError r → is_neg r ≡ true
IsError-neg r (inl e) = ap is_neg e
IsError-neg r (inr e) = ap is_neg e

-- What a run on a node may give: it waits for the kernel, or it returns with some of the remaining
-- bytes sent in order; the node's size with all of them sent, an error with bytes left.
pub data Sends (node : Node) (out : Sending) : Type 0 where
  waits : out ≡ waiting → Sends node out
  returns :
      (r : ℤ) (offset : ℕ) (rest : List SendReply)
      → out ≡ done (r, record node { offset = offset }, bytes_between node node.offset offset, rest)
      → node.offset ≤ offset
      → offset ≤ node.wcb
      → ((r ≡ pos node.wcb) × (offset ≡ node.wcb)) ⊎ (IsError r × (offset < node.wcb))
      → Sends node out

-- The bytes up to one offset and from there to another.
pub between-append :
    (node : Node) (a n c : ℕ)
    → a + n ≤ c
    → take n (drop a node.bytes) ++ bytes_between node (a + n) c ≡ bytes_between node a c
between-append node a n c h =
    ap (λ l. take n (drop a node.bytes) ++ take (c - (a + n)) l)
      (sym (drop-add a n (a + n) node.bytes refl))
    ∙ sym (take-add n (c - (a + n)) (drop a node.bytes))
    ∙ ap (λ k. take k (drop a node.bytes)) (omega arith)

pub between_self : (node : Node) (a : ℕ) → [] ≡ bytes_between node a a
between_self node a = ap (λ k. take k (drop a node.bytes)) (zero_sub a)
  where
    zero_sub : (k : ℕ) → 0 ≡ k - k
    zero_sub k = omega arith

-- A return with nothing sent.
stays :
    (node : Node) (r : ℤ) (rest : List SendReply) (out : Sending)
    → IsNode node
    → out ≡ done (r, node, [], rest)
    → ((r ≡ pos node.wcb) × (node.offset ≡ node.wcb)) ⊎ (IsError r × (node.offset < node.wcb))
    → Sends node out
stays node r rest out v e h =
    returns r node.offset rest
      (e ∙ ap (λ w. done (r, node, w, rest)) (between_self node node.offset)) (omega arith)
      v.sent_part h

Sends-then :
    (node : Node) (n : ℕ) (out : Sending)
    → Sends (record node { offset = node.offset + n }) out
    → Sends node (add_sent (take n (drop node.offset node.bytes)) out)
Sends-then node n out (waits e) = waits (ap (add_sent (take n (drop node.offset node.bytes))) e)
Sends-then node n out (returns r o rest e h1 h2 k) =
    returns r o rest
      (ap (add_sent (take n (drop node.offset node.bytes))) e
        ∙ ap (λ w. done (r, record node { offset = o }, w, rest))
            (between-append node node.offset n o h1))
      (omega arith) h2 k

pub txn_waits : (node : Node) → IsNode node → node.offset < node.wcb → tcp_txn node [] ≡ waiting
unfolding tcp_txn
txn_waits node v h =
    rw (lt→ltb node.offset node.wcb h, le→leb node.wcb (length node.bytes) v.inside) refl

pub txn_stop :
    (node : Node) (r : SendReply) (rs : List SendReply) (ret : ℤ)
    → IsNode node
    → node.offset < node.wcb
    → on_reply node r ≡ stop ret
    → tcp_txn node (r ∷ rs) ≡ done (ret, node, [], rs)
unfolding tcp_txn
txn_stop node r rs ret v h e =
    rw (lt→ltb node.offset node.wcb h, le→leb node.wcb (length node.bytes) v.inside, e) refl

pub txn_again :
    (node node' : Node) (r : SendReply) (rs : List SendReply) (w : List ℕ)
    → IsNode node
    → node.offset < node.wcb
    → on_reply node r ≡ again node' w
    → tcp_txn node (r ∷ rs) ≡ add_sent w (tcp_txn node' rs)
unfolding tcp_txn
txn_again node node' r rs w v h e =
    rw (lt→ltb node.offset node.wcb h, le→leb node.wcb (length node.bytes) v.inside, e) refl

pub txn_closed :
    (node : Node) (rs : List SendReply)
    → node.wcb ≤ node.offset
    → tcp_txn node rs ≡ done (pos node.wcb, node, [], rs)
unfolding tcp_txn
txn_closed node [] h = rw (ge→ltb node.offset node.wcb h) refl
txn_closed node (r ∷ rs) h = rw (ge→ltb node.offset node.wcb h) refl

pub add_sent-nil : (out : Sending) → add_sent [] out ≡ out
add_sent-nil fault = refl
add_sent-nil waiting = refl
add_sent-nil (done s) = refl

-- What an errno makes of a round.
pub failed_cases :
    (node : Node) (e : ℕ)
    → ((r : ℤ) × (on_reply node (send_failed e) ≡ stop r) × IsError r)
      ⊎ ((e ≡ eintr) × (on_reply node (send_failed e) ≡ again node []))
unfolding on_reply
failed_cases node e = elim (Bool-cases (e == eagain)) [
  | inl y ↦ inl (neg eagain, rw y refl, inr refl)
  | inr n ↦ elim (Bool-cases (e == eintr)) [
    | inl y ↦ inr ((==_iff e eintr).0 y, rw (n, y) refl)
    | inr m ↦ inl (neg 1, rw (n, m) refl, inl refl)
  ]
]

closed-Sends :
    (node : Node) (rs : List SendReply)
    → IsNode node
    → node.wcb ≤ node.offset
    → Sends node (tcp_txn node rs)
closed-Sends node rs v c =
    stays node (pos node.wcb) rs (tcp_txn node rs) v (txn_closed node rs c)
      (inl (refl, omega (arith, v.sent_part)))

failed-Sends :
    (node : Node) (e : ℕ) (rs : List SendReply)
    → IsNode node
    → node.offset < node.wcb
    → Sends node (tcp_txn node rs)
    → Sends node (tcp_txn node (send_failed e ∷ rs))
failed-Sends node e rs v h ih = elim (failed_cases node e) [
  | inl (r, s, n) ↦
      stays node r rs (tcp_txn node (send_failed e ∷ rs)) v
        (txn_stop node (send_failed e) rs r v h s) (inr (n, h))
  | inr (i, s) ↦
      rw (txn_again node node (send_failed e) rs [] v h s ∙ add_sent-nil (tcp_txn node rs)) ih
]

-- On every node whose range lies inside its data, tcp_txn never reads outside the data. It sends
-- the remaining bytes in order and without a gap, from the node's offset on and up to the offset
-- that it leaves. Where it returns with all of them sent, it returns the node's size; where bytes
-- are left, it returns -1 or -EAGAIN; it may also wait for the kernel.
pub tcp_txn-Sends :
    (node : Node) (replies : List SendReply)
    → IsNode node
    → AreHonest node replies
    → Sends node (tcp_txn node replies)
unfolding on_reply
tcp_txn-Sends node [] v h = elim (le_or_lt node.wcb node.offset) [
  | inl c ↦ closed-Sends node [] v c
  | inr o ↦ waits (txn_waits node v o)
]
tcp_txn-Sends node (wrote zero ∷ rs) v h = elim (le_or_lt node.wcb node.offset) [
  | inl c ↦ closed-Sends node (wrote zero ∷ rs) v c
  | inr o ↦
      stays node (neg 1) rs (tcp_txn node (wrote zero ∷ rs)) v
        (txn_stop node (wrote zero) rs (neg 1) v o refl) (inr (inl refl, o))
]
tcp_txn-Sends node (wrote (suc n) ∷ rs) v h =
    let rest =
      tcp_txn-Sends (record node { offset = node.offset + suc n }) rs
        (record { sent_part = h.0; inside = v.inside }) h.1 in
    elim (le_or_lt node.wcb node.offset) [
      | inl c ↦ closed-Sends node (wrote (suc n) ∷ rs) v c
      | inr o ↦
          rw
            (txn_again node (record node { offset = node.offset + suc n }) (wrote (suc n)) rs
              (take (suc n) (drop node.offset node.bytes)) v o refl)
            (Sends-then node (suc n) (tcp_txn (record node { offset = node.offset + suc n }) rs)
              rest)
    ]
tcp_txn-Sends node (send_failed e ∷ rs) v h =
    let rest = tcp_txn-Sends node rs v h in
    elim (le_or_lt node.wcb node.offset) [
      | inl c ↦ closed-Sends node (send_failed e ∷ rs) v c
      | inr o ↦ failed-Sends node e rs v o rest
    ]
