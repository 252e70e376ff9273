-- ===== src/Wpool/Thread.antt =====
-- wpool.c: __wp_run, the thread of a pool, around its inner loop (wp_run).
use swnet_linux.Base.{ℕ, ◌+◌, List, [], ◌∷◌, Option, none, some, Bool, true, false, if◌then◌else◌}
use swnet_linux.Base.Int.{ℤ, is_neg, is_zero}
use swnet_linux.Base.Run.{Run, fault, waiting, done}
use swnet_linux.Wpool.{Worker, Write, wp_run}

-- One round of the outer loop: whether the pool is active when it begins, what
-- posix__waitfor_waitable_handle returns, and what the other threads make of the worker meanwhile.
pub record Round : Type 0 where
  pub actived : Bool
  pub result : ℤ
  pub meanwhile : Worker → Worker

-- Gives the worker where the thread ends, the tasks that it has freed, and how often it has blocked
-- the signal. A thread whose rounds are used up waits. The number bounds the inner loop, and `none`
-- means that it was too small.
unfoldable pub wp_thread :
    (ℕ → ℤ)
    → ℕ
    → (ℕ → Bool)
    → Write
    → Option ℕ
    → List Round
    → Worker
    → ℕ
    → ℕ
    → Run (Option (Worker × ℕ × ℕ))
wp_thread makeerror fuel alive ncb_write ctl [] w freed blocks = waiting
wp_thread makeerror fuel alive ncb_write ctl (x ∷ xs) w freed blocks = elim x.actived [
  | false ↦ done (some (w, freed, blocks))
  | true ↦ elim (is_neg x.result) [
    | true ↦ done (some (x.meanwhile w, freed, blocks))
    | false ↦ elim (wp_run makeerror fuel alive ncb_write ctl (x.meanwhile w) freed) [
      | fault ↦ fault
      | waiting ↦ waiting
      | done none ↦ done none
      | done (some (w', freed')) ↦
          wp_thread makeerror fuel alive ncb_write ctl xs w' freed'
            (if is_zero x.result then blocks + 1 else blocks)
    ]
  ]
]
