-- ===== src/Udp/Create/Outcomes.antt =====
-- What udp_create comes to.
use swnet_linux.Base.{ℕ, ◌+◌, ◌≡◌, [], ◌∷◌, Option, none, some}
use swnet_linux.Base.Int.{ℤ, pos, neg}
use swnet_linux.Ncb.{Ncb, Routine, pre_close, closed}
use swnet_linux.Udp.Create.{Stage, ready, given_up}

-- A link that its user has not been told anything about.
pub record IsNew (callback : ℕ) (ncb : Ncb) : Type 0 where
  pub called : ncb.nis_callback ≡ some callback
  pub untold : ncb.posted ≡ []
  pub no_context : ncb.context ≡ none

pub record IsStarted (callback : ℕ) (ncb : Ncb) : Type 0 where
  pub fresh : IsNew callback ncb
  pub reads : ncb.ncb_read ≡ some Routine.udp_rx
  pub writes : ncb.ncb_write ≡ some Routine.udp_tx

-- No link was made; a link was made and has ended, with its user told so; or the link is there.
pub data Outcome (callback nl_count : ℕ) (out : ℤ × Option Ncb × ℕ) : Type 0 where
  not_made : out ≡ (neg 1, none, nl_count) → Outcome callback nl_count out
  ended :
      (ncb : Ncb)
      → out ≡ (neg 1, some ncb, nl_count)
      → ncb.posted ≡ pre_close none ∷ closed ∷ []
      → ncb.nis_callback ≡ none
      → ncb.packet ≡ none
      → Outcome callback nl_count out
  made :
      (hld : ℕ) (ncb : Ncb)
      → out ≡ (pos hld, some ncb, nl_count + 1)
      → IsStarted callback ncb
      → Outcome callback nl_count out

data Staged (callback : ℕ) (s : Stage) : Type 0 where
  going : (ncb : Ncb) → s ≡ ready ncb → IsStarted callback ncb → Staged callback s
  stopped : (ncb : Ncb) → s ≡ given_up ncb → IsNew callback ncb → Staged callback s

-- A step of the creation that keeps the link new.
data IsStep (callback : ℕ) : Stage → Type 0 where
  goes : (ncb : Ncb) → IsNew callback ncb → IsStep callback (ready ncb)
  stops : (ncb : Ncb) → IsNew callback ncb → IsStep callback (given_up ncb)
