-- ===== src/Flow/Drain/Rounds.antt =====
-- The rounds of the pool's thread: a task that is done, and one that still waits.
use swnet_linux.Base.{
  ℕ, zero, suc, ◌+◌, ◌-◌, ◌≤◌, ◌≡◌, refl, ap, ◌∙◌, List, [], ◌∷◌, ◌++◌, Option, none, some, Bool,
  true, if◌then◌else◌, arith,
}
use swnet_linux.Base.Int.{ℤ, pos, is_nonpos}
use swnet_linux.Base.Run.{Run, waiting, done}
use swnet_linux.Tcpio.Send.{tcp_tx, tcp_tx_front, tcp_established}
use swnet_linux.Wpool.{Wpool, Worker, wp_get_task, wp_exec, wp_after, wp_run}
use swnet_linux.Wpool.Exec.{wp_exec_done}
use swnet_linux.Flow.Moved.{IsMoved}
use swnet_linux.Flow.Drain.{established}

-- A step that keeps a link's fixed parts and bytes, and another one.
pub IsMoved-trans : (a b c : Worker) → IsMoved a b → IsMoved b c → IsMoved a c
IsMoved-trans a b c m n = record {
  queue = n.queue;
  nodes = n.nodes;
  stream = n.stream ∙ m.stream;
  like = (n.like.0 ∙ m.like.0, n.like.1 ∙ m.like.1);
}

get_task-cons :
    (pool : Wpool) (task : ℕ) (rest : List ℕ)
    → pool.tasks ≡ task ∷ rest
    → wp_get_task pool
      ≡ (some task, record pool { tasks = rest; task_list_size = pool.task_list_size - 1 })
unfolding wp_get_task
get_task-cons pool task rest e = rw e refl

get_task-nil : (pool : Wpool) → pool.tasks ≡ [] → wp_get_task pool ≡ (none, pool)
unfolding wp_get_task
get_task-nil pool e = rw e refl

pub suc_add : (n : ℕ) → suc (n + 2) ≡ suc n + 2
suc_add n = omega arith

-- With its first task taken.
abbrev pub taken_task : Worker → List ℕ → Worker
taken_task w rest = record w {
  pool = record w.pool { tasks = rest; task_list_size = w.pool.task_list_size - 1 };
}

module _ (makeerror : ℕ → ℤ) (alive : ℕ → Bool) (ctl : Option ℕ) where
  abbrev pub thread : ℕ → Worker → ℕ → Run (Option (Worker × ℕ))
  thread fuel w freed = wp_run makeerror fuel alive (tcp_tx (some tcp_established)) ctl w freed

  run_none :
      (fuel : ℕ) (w : Worker) (freed : ℕ)
      → w.pool.tasks ≡ []
      → thread (suc fuel) w freed ≡ done (some (w, freed))
  unfolding wp_run
  run_none fuel w freed e = rw (get_task-nil w.pool e, wp_run) refl

  run_waits :
      (fuel : ℕ) (w : Worker) (freed task : ℕ) (rest : List ℕ)
      → w.pool.tasks ≡ task ∷ rest
      → alive task ≡ true
      → wp_exec makeerror true established ctl (taken_task w rest) task ≡ waiting
      → thread (suc fuel) w freed ≡ waiting
  unfolding wp_run
  run_waits fuel w freed task rest e a x =
      rw (get_task-cons w.pool task rest e, wp_run)
        (rw (a, get_task-cons w.pool task rest e) (rw x refl))

  pub run_done :
      (fuel : ℕ) (w w' : Worker) (freed task : ℕ) (rest : List ℕ) (r : ℤ)
      → w.pool.tasks ≡ task ∷ rest
      → alive task ≡ true
      → wp_exec makeerror true established ctl (taken_task w rest) task ≡ done (r, w')
      → thread (suc fuel) w freed ≡ thread fuel w' (if is_nonpos r then freed + 1 else freed)
  unfolding wp_run
  run_done fuel w w' freed task rest r e a x =
      rw (get_task-cons w.pool task rest e, wp_run)
        (rw (a, get_task-cons w.pool task rest e) (rw x refl))

  -- The last round of a task.
  pub last_round :
      (w w' : Worker) (freed task enough : ℕ) (r : ℤ)
      → w.pool.tasks ≡ task ∷ []
      → alive task ≡ true
      → wp_exec makeerror true established ctl (taken_task w []) task ≡ done (r, w')
      → is_nonpos r ≡ true
      → w'.pool.tasks ≡ []
      → (fuel : ℕ) → enough + 2 ≤ fuel
      → thread fuel w freed ≡ done (some (w', freed + 1))
  last_round w w' freed task enough r e a x n t zero h = absurd (omega arith)
  last_round w w' freed task enough r e a x n t (suc zero) h = absurd (omega arith)
  last_round w w' freed task enough r e a x n t (suc (suc fuel)) h =
      run_done (suc fuel) w w' freed task [] r e a x
      ∙ ap (λ b. thread (suc fuel) w' (if b then freed + 1 else freed)) n
      ∙ run_none fuel w' (freed + 1) t

  pub waiting_round :
      (w : Worker) (freed task enough : ℕ)
      → w.pool.tasks ≡ task ∷ []
      → alive task ≡ true
      → wp_exec makeerror true established ctl (taken_task w []) task ≡ waiting
      → (fuel : ℕ) → enough + 2 ≤ fuel
      → thread fuel w freed ≡ waiting
  waiting_round w freed task enough e a x zero h = absurd (omega arith)
  waiting_round w freed task enough e a x (suc fuel) h = run_waits fuel w freed task [] e a x

  pub empty_round :
      (w : Worker) (task : ℕ)
      → w.link.fifo.nodes ≡ []
      → wp_exec makeerror true established ctl w task
        ≡ done (pos 0, record w { sent = w.sent ++ [] })
  unfolding tcp_tx wp_after
  empty_round w task e =
      wp_exec_done makeerror (tcp_tx (some tcp_established)) ctl w task (pos 0) w.link [] w.replies
        (ap (λ ns. tcp_tx_front w.link ns w.replies) e)
