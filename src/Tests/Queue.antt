-- ===== src/Tests/Queue.antt =====
-- The send queue: tests and instances.
use swnet_linux.Base.{◌≡◌, refl, List, [], ◌∷◌, none, some, arith}
use swnet_linux.Base.Int.{pos}
use swnet_linux.Ncb.{Ncb, Fifo}
use swnet_linux.Fifo.Invariant.{IsQueue}
use swnet_linux.Fifo.Watch.{IsWatched}
use swnet_linux.Fifo.Calls.{Call, queueing, popping, after, calls-IsQueue, calls-IsWatched}
use swnet_linux.Fifo.Spec
use swnet_linux.Fifo.Spec.{Op, queue, top, pop, is_blocking}
use swnet_linux.Fifo.Refine
use swnet_linux.Fifo.Refine.{run_refines}
use swnet_linux.Tests.Samples.{link, parser, idle, fresh, node, other, makeerror}

abbrev busy : Fifo
busy = record { blocking = 1; size = 1; nodes = node ∷ [] }

abbrev one_waits : Ncb
one_waits = record (link parser [] busy) { interest = some 2147491869 }

busy-IsQueue : IsQueue busy
busy-IsQueue = record { counted = refl; bounded = omega arith; flagged = refl }

idle-IsQueue : IsQueue idle
idle-IsQueue = record { counted = refl; bounded = omega arith; flagged = refl }

abbrev mixed : List Call
mixed =
    queueing (some other) none
    ∷ popping none
    ∷ popping none
    ∷ queueing none none
    ∷ popping none
    ∷ []

-- A call that epoll_ctl(2) fails.
abbrev failing : List Call
failing = popping (some 9) ∷ queueing (some other) (some 9) ∷ []

calls-IsQueue_example : IsQueue (after makeerror one_waits failing).fifo
calls-IsQueue_example = calls-IsQueue makeerror one_waits failing busy-IsQueue

calls-IsWatched_example : IsWatched (after makeerror one_waits mixed)
calls-IsWatched_example =
    calls-IsWatched makeerror one_waits mixed (refl, (refl, (refl, (refl, (refl, _))))) refl

abbrev calls : List Op
calls = queue node ∷ queue other ∷ is_blocking ∷ top ∷ pop ∷ pop ∷ pop ∷ is_blocking ∷ []

run_refines_example : Refine.run makeerror fresh calls ≡ Spec.run [] calls
run_refines_example = run_refines makeerror fresh calls idle-IsQueue

run-calls :
    Spec.run [] calls
    ≡ (pos 1, none)
      ∷ (pos 2, none)
      ∷ (pos 1, none)
      ∷ (pos 0, some node)
      ∷ (pos 1, some node)
      ∷ (pos 1, some other)
      ∷ (pos 0, none)
      ∷ (pos 0, none)
      ∷ []
unfolding Spec.run Spec.apply
run-calls = refl
