-- ===== src/Tcpio/Send/Ends.antt =====
-- The sending loop ends.
use swnet_linux.Base.{
  ℕ, zero, suc, ◌+◌, ◌≤◌, ◌≡◌, ◌≢◌, sym, refl, ◌∙◌, List, [], ◌∷◌, inl, inr, ◌==◌, if◌then◌else◌,
  take, drop, eintr, arith, le_or_lt,
}
use swnet_linux.Base.Int.{neg}
use swnet_linux.Base.Run.{fault, waiting, done}
use swnet_linux.Ncb.{Node}
use swnet_linux.Tcpio.Send.{SendReply, wrote, send_failed, on_reply, Sending, add_sent, tcp_txn}
use swnet_linux.Tcpio.Send.Laws.{IsNode, AreHonest, txn_stop, txn_again, txn_closed, failed_cases}

-- The answers that are not an interruption.
abbrev pub effective : List SendReply → ℕ
effective [] = 0
effective (wrote n ∷ rs) = suc (effective rs)
effective (send_failed e ∷ rs) = if e == eintr then effective rs else suc (effective rs)

effective_interrupted :
    (e : ℕ) (rs : List SendReply) → e ≡ eintr → effective (send_failed e ∷ rs) ≡ effective rs
effective_interrupted e rs h = ground arith

add_sent-waiting : (w : List ℕ) (out : Sending) → add_sent w out ≡ waiting → out ≡ waiting
add_sent-waiting w fault e = cc
add_sent-waiting w waiting e = refl
add_sent-waiting w (done s) e = cc

-- On every node whose range lies inside its data, tcp_txn has returned once the kernel has given
-- as many answers other than an interruption as there are bytes left to send.
pub tcp_txn_returns :
    (node : Node) (replies : List SendReply)
    → IsNode node
    → AreHonest node replies
    → node.wcb ≤ node.offset + effective replies
    → tcp_txn node replies ≢ waiting
unfolding on_reply
tcp_txn_returns node [] v h n w = cc (txn_closed node [] (omega arith))
tcp_txn_returns node (wrote zero ∷ rs) v h n w = elim (le_or_lt node.wcb node.offset) [
  | inl c ↦ cc (txn_closed node (wrote zero ∷ rs) c)
  | inr o ↦ cc (txn_stop node (wrote zero) rs (neg 1) v o refl)
]
tcp_txn_returns node (wrote (suc k) ∷ rs) v h n w =
    let node' : Node = record node { offset = node.offset + suc k } in
    let sent = take (suc k) (drop node.offset node.bytes) in
    let rest =
      tcp_txn_returns node' rs (record { sent_part = h.0; inside = v.inside }) h.1 (omega arith) in
    elim (le_or_lt node.wcb node.offset) [
      | inl c ↦ cc (txn_closed node (wrote (suc k) ∷ rs) c)
      | inr o ↦ rest (
          add_sent-waiting sent (tcp_txn node' rs)
            (sym (txn_again node node' (wrote (suc k)) rs sent v o refl) ∙ w))
    ]
tcp_txn_returns node (send_failed e ∷ rs) v h n w =
    let rest = tcp_txn_returns node rs v h in
    elim (le_or_lt node.wcb node.offset) [
      | inl c ↦ cc (txn_closed node (send_failed e ∷ rs) c)
      | inr o ↦ elim (failed_cases node e) [
        | inl (r, s, _) ↦ cc (txn_stop node (send_failed e) rs r v o s)
        | inr (i, s) ↦ rest (omega (arith, effective_interrupted e rs i)) (
            add_sent-waiting [] (tcp_txn node rs)
              (sym (txn_again node node (send_failed e) rs [] v o s) ∙ w))
      ]
    ]
