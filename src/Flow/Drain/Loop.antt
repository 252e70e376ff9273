-- ===== src/Flow/Drain/Loop.antt =====
-- The loop of the pool's thread over the task of one link.
use swnet_linux.Base.{
  ℕ, zero, suc, ◌+◌, ◌≤◌, ◌≡◌, refl, sym, ap, ◌∙◌, subst, List, [], ◌∷◌, ◌++◌, Option, some, Bool,
  true, length, append-nil, append_assoc, eagain, arith,
}
use swnet_linux.Base.Int.{ℤ, pos, neg}
use swnet_linux.Base.Run.{Run, waiting, done}
use swnet_linux.Ncb.{Node}
use swnet_linux.Fifo.Invariant.{IsQueue, flag}
use swnet_linux.Submit.Stream.{pending, AreNodes}
use swnet_linux.Tcpio.Send.{SendReply, send_failed}
use swnet_linux.Wpool.{Worker, wp_exec}
use swnet_linux.Flow.Moved.{IsMoved}
use swnet_linux.Flow.Answers.{AreTaken, txn-SendsFront}
use swnet_linux.Flow.Drain.{AreOpen, established, Round, pauses, sent, blocked, broken, front-Round}
use swnet_linux.Flow.Drain.Rounds.{
  IsMoved-trans, suc_add, taken_task, thread, run_done, last_round, waiting_round, empty_round,
}

module _ (makeerror : ℕ → ℤ) (alive : ℕ → Bool) (ctl : Option ℕ) where
  -- How the thread may have left the link.
  pub data Left (w w' : Worker) : Type 0 where
    emptied : w'.link.fifo.nodes ≡ [] → w'.closed ≡ w.closed → Left w w'
    kept :
        (front : Node) (nodes : List Node)
        → w'.link.fifo.nodes ≡ front ∷ nodes
        → w'.link.fifo.blocking ≡ 1
        → (used : List SendReply) × (w.replies ≡ used ++ (send_failed eagain ∷ w'.replies))
        → w'.closed ≡ w.closed
        → Left w w'
    closed : (hld : ℕ) → w'.closed ≡ w.closed ++ (hld ∷ []) → Left w w'

  -- With this many rounds or more, the thread comes to the same, and never runs out of rounds: it
  -- still waits for the kernel's answer, or it has freed the task and left the pool empty, and
  -- bytes have moved from the queue to the wire.
  pub data Settles (w : Worker) (freed enough : ℕ) : Type 0 where
    still :
        ((fuel : ℕ) → enough ≤ fuel → thread makeerror alive ctl fuel w freed ≡ waiting)
        → Settles w freed enough
    settled :
        (w' : Worker)
        → ((fuel : ℕ)
            → enough ≤ fuel
            → thread makeerror alive ctl fuel w freed ≡ done (some (w', freed + 1)))
        → IsMoved w w'
        → w'.pool.tasks ≡ []
        → Left w w'
        → Settles w freed enough

  Left-then :
      (a b c : Worker) (used : List SendReply)
      → a.replies ≡ used ++ b.replies
      → b.closed ≡ a.closed
      → Left b c
      → Left a c
  Left-then a b c used u s (emptied e k) = emptied e (k ∙ s)
  Left-then a b c used u s (kept front nodes e f (more, m) k) =
      kept front nodes e f
        (
          used ++ more,
          u ∙ ap (λ l. used ++ l) m ∙ sym (append_assoc used more (send_failed eagain ∷ c.replies)),
        )
        (k ∙ s)
  Left-then a b c used u s (closed hld k) = closed hld (k ∙ ap (λ l. l ++ (hld ∷ [])) s)

  -- From the round behind on.
  after_round :
      (a b : Worker) (freed enough : ℕ) (out : Run (Option (Worker × ℕ)))
      → ((fuel : ℕ)
          → thread makeerror alive ctl (suc fuel) a freed ≡ thread makeerror alive ctl fuel b freed)
      → ((fuel : ℕ) → enough ≤ fuel → thread makeerror alive ctl fuel b freed ≡ out)
      → (fuel : ℕ) → suc enough ≤ fuel
      → thread makeerror alive ctl fuel a freed ≡ out
  after_round a b freed enough out step o zero h = absurd (omega arith)
  after_round a b freed enough out step o (suc fuel) h = step fuel ∙ o fuel (omega arith)

  Settles-then :
      (a b : Worker) (freed enough : ℕ) (used : List SendReply)
      → a.replies ≡ used ++ b.replies
      → ((fuel : ℕ)
          → thread makeerror alive ctl (suc fuel) a freed ≡ thread makeerror alive ctl fuel b freed)
      → IsMoved a b
      → b.closed ≡ a.closed
      → Settles b freed enough
      → Settles a freed (suc enough)
  Settles-then a b freed enough used u step m s (still o) =
      still (after_round a b freed enough waiting step o)
  Settles-then a b freed enough used u step m s (settled c o n t l) =
      settled c (after_round a b freed enough (done (some (c, freed + 1))) step o)
        (IsMoved-trans a b c m n) t (Left-then a b c used u s l)

  -- The pool does not count among what moves.
  from_taken : (w w' : Worker) (rest : List ℕ) → IsMoved (taken_task w rest) w' → IsMoved w w'
  from_taken w w' rest m = record {
    queue = m.queue;
    nodes = m.nodes;
    stream = m.stream;
    like = m.like;
  }

  -- On an established TCP link whose handle is alive, whose queue's nodes all have bytes to send,
  -- with its task alone in the pool, and a kernel that takes at most what it is handed: with two
  -- rounds more than there are nodes, or any number above, the thread does not run out of rounds:
  -- it still waits for the kernel's answer to a send; or it has left its loop, freed the task and
  -- left the pool empty, the bytes sent followed by those that wait are what they were, and the
  -- queue is empty; or the kernel's last answer was EAGAIN, and nodes wait with the blocking flag
  -- set; or the link was closed.
  pub wp_run-Settles :
      (nodes : List Node) (w : Worker) (freed task : ℕ)
      → IsQueue w.link.fifo
      → w.link.fifo.nodes ≡ nodes
      → AreOpen nodes
      → AreTaken nodes w.replies
      → w.pool.tasks ≡ task ∷ []
      → alive task ≡ true
      → Settles w freed (length nodes + 2)
  wp_run-Settles [] w freed task q e o t p a =
      let w' : Worker = record (taken_task w []) { sent = w.sent ++ [] } in
      settled w'
        (last_round makeerror alive ctl w w' freed task 0 (pos 0) p a
          (empty_round makeerror alive ctl (taken_task w []) task e) refl refl)
        (record {
          queue = q;
          nodes = subst AreNodes (sym e) _;
          stream = ap (λ l. l ++ pending w.link.fifo.nodes) (append-nil w.sent);
          like = (refl, refl);
        })
        refl (emptied e refl)
  wp_run-Settles (front ∷ nodes) w freed task q e (v, u, o) t p a =
      go (wp_exec makeerror true established ctl (taken_task w []) task) refl
        (front-Round makeerror (taken_task w []) task ctl front nodes q e (v, u, o)
          (txn-SendsFront front nodes w.replies v u t))
        (λ w' q' e' t' p'. wp_run-Settles nodes w' freed task q' e' o t' p' a)
    where
      go :
          (out : Run (ℤ × Worker))
          → wp_exec makeerror true established ctl (taken_task w []) task ≡ out
          → Round makeerror (taken_task w []) task nodes out
          → ((w' : Worker)
              → IsQueue w'.link.fifo
              → w'.link.fifo.nodes ≡ nodes
              → AreTaken nodes w'.replies
              → w'.pool.tasks ≡ task ∷ []
              → Settles w' freed (length nodes + 2))
          → Settles w freed (length (front ∷ nodes) + 2)
      go out x (pauses y) ih =
          still
            (waiting_round makeerror alive ctl w freed task (length (front ∷ nodes)) p a (x ∙ y))
      go out x (sent n w' y m e' t' (used, r) p' s) ih =
          subst (Settles w freed) (suc_add (length nodes)) (
            Settles-then w w' freed (length nodes + 2) used r
              (λ fuel.
                run_done makeerror alive ctl fuel w w' freed task [] (pos (suc n)) p a (x ∙ y))
              (from_taken w w' [] m) s (ih w' m.queue e' t' p'))
      go out x (blocked w' front' y m e' u' p' s) ih =
          settled w'
            (last_round makeerror alive ctl w w' freed task (length (front ∷ nodes)) (neg eagain) p
              a (x ∙ y) refl p')
            (from_taken w w' [] m) p' (kept front' nodes e' (m.queue.flagged ∙ ap flag e') u' s)
      go out x (broken w' y m p' s) ih =
          settled w'
            (last_round makeerror alive ctl w w' freed task (length (front ∷ nodes)) (neg 1) p a
              (x ∙ y) refl p')
            (from_taken w w' [] m) p' (closed w.link.hld s)
