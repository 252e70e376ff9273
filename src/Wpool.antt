-- ===== src/Wpool.antt =====
-- wpool.c: the queue of write tasks and what its thread does with one. A task is the handle of the
-- link that has something to write. The mutex makes each access of the queue one step.
pub mod Exec
pub mod Queued
pub mod Init
pub mod Thread
use swnet_linux.Base.{
  true, false, ℕ, zero, suc, ◌+◌, ◌-◌, List, [], ◌∷◌, ◌++◌, Option, none, some, Bool, if◌then◌else◌,
  eagain, enoent,
}
use swnet_linux.Base.Int.{ℤ, pos, neg, int_eq, is_nonpos, is_zero}
use swnet_linux.Base.Run.{Run, fault, waiting, done, ◌>>=◌}
use swnet_linux.Ncb.{Ncb}
use swnet_linux.Fifo.{fifo_pop}
use swnet_linux.Tcpio.Send.{SendReply, Tx}

pub record Wpool : Type 0 where
  pub tasks : List ℕ
  pub task_list_size : ℕ
  pub actived : Bool
  -- Whether `thread` is a thread that was created.
  pub thread : Bool

-- __wp_add_task
unfoldable pub wp_add_task : Wpool → ℕ → Wpool
wp_add_task pool task = record pool {
  tasks = pool.tasks ++ (task ∷ []);
  task_list_size = pool.task_list_size + 1;
}

-- __wp_get_task
unfoldable pub wp_get_task : Wpool → Option ℕ × Wpool
wp_get_task pool = elim pool.tasks [
  | [] ↦ (none, pool)
  | task ∷ rest ↦
      (some task, record pool { tasks = rest; task_list_size = pool.task_list_size - 1 })
]

-- What has become of the link and of the pool, the bytes sent, the answers of the kernel that are
-- left, and the handles that were closed.
pub record Worker : Type 0 where
  pub pool : Wpool
  pub link : Ncb
  pub sent : List ℕ
  pub replies : List SendReply
  pub closed : List ℕ

-- `ncb_write`, where it is set.
abbrev pub Write : Type 0
Write = Ncb → List SendReply → Tx

module _ (makeerror : ℕ → ℤ) where
  -- What __wp_exec does with the return code of `ncb_write`.
  unfoldable pub wp_after : Option ℕ → Worker → ℕ → ℤ → Worker
  wp_after ctl w task retval =
      if int_eq retval (neg 1)
      then record w { closed = w.closed ++ (w.link.hld ∷ []) }
      else if int_eq retval (neg eagain)
      then w
      else if is_zero retval
      then w
      else let (popped, node, link) = fifo_pop makeerror w.link ctl in
        let w' : Worker = record w { link = link } in
        if is_nonpos popped then w' else record w' { pool = wp_add_task w'.pool task }

  -- __wp_exec where the task's handle refers to the link.
  unfoldable pub wp_exec_link : Option Write → Option ℕ → Worker → ℕ → Run (ℤ × Worker)
  wp_exec_link none ctl w task = done (neg 1, w)
  wp_exec_link (some ncb_write) ctl w task = do
    tx ← ncb_write w.link w.replies
    done (
      tx.0,
      wp_after ctl (record w { link = tx.1; sent = w.sent ++ tx.2; replies = tx.3 }) task tx.0,
    )

  -- __wp_exec. `alive` tells whether the task's handle still refers to the link.
  unfoldable pub wp_exec : Bool → Option Write → Option ℕ → Worker → ℕ → Run (ℤ × Worker)
  unfolding wp_exec_link
  wp_exec false ncb_write ctl w task = done (neg enoent, w)
  wp_exec true ncb_write ctl w task = wp_exec_link ncb_write ctl w task

  -- The inner loop of __wp_run, while the pool is active: takes tasks until there is none, and
  -- counts those that it frees. The first argument bounds the rounds; `none` means that
  -- they are used up, while `waiting` means that the kernel has not answered. `alive` tells
  -- which handles still refer to the link.
  unfoldable pub wp_run : ℕ → (ℕ → Bool) → Write → Option ℕ → Worker → ℕ → Run (Option (Worker × ℕ))
  wp_run zero alive ncb_write ctl w freed = done none
  wp_run (suc fuel) alive ncb_write ctl w freed =
      let (next, pool) = wp_get_task w.pool in
      elim next [
        | none ↦ done (some (w, freed))
        | some task ↦
            elim (wp_exec (alive task) (some ncb_write) ctl (record w { pool = pool }) task) [
              | fault ↦ fault
              | waiting ↦ waiting
              | done (retval, w') ↦
                  wp_run fuel alive ncb_write ctl w' (if is_nonpos retval then freed + 1 else freed)
            ]
      ]
