-- ===== src/Io/Loop.antt =====
-- io.c: __epoll_proc, the loop of an epoll thread, and __iorun, what it does with the events of one
-- epoll_wait(2). The routines that a link's `ncb_read` points to are a parameter.
use swnet_linux.Base.{
  ℕ, ◌≡◌, sym, ap, ◌∙◌, List, [], ◌∷◌, ◌++◌, append_assoc, append-nil, Option, none, some, Bool,
  true, false, ◌==◌, eintr, ◌||◌, ◌&&◌, not, if◌then◌else◌,
}
use swnet_linux.Base.Int.{ℤ, is_neg}
use swnet_linux.Base.Run.{Run, waiting, done}
use swnet_linux.Ncb.{Ncb, Routine, has_attr, ipproto_tcp}
use swnet_linux.Io.{epollin, epollout, epollerr, epollhup, epollrdhup}
use swnet_linux.Wpool.{Wpool, wp_add_task}
use swnet_linux.Wpool.Queued.{Pools, wp_queued}

-- An event: its mask, the handle that it carries, the link that the handle refers to (objrefr), and
-- whether malloc(3) succeeds for its task.
pub record EpollEvent : Type 0 where
  pub events : ℕ
  pub hld : ℕ
  pub ncb : Option Ncb
  pub memory : Bool

-- The handles that were closed (objclos), the pools, and the links that events were handled on.
pub record Loop : Type 0 where
  pub closed : List ℕ
  pub pools : Pools
  pub links : List Ncb

-- EPOLLRDHUP or EPOLLERR
abbrev pub is_broken : ℕ → Bool
is_broken events = has_attr events epollrdhup || has_attr events epollerr

-- What epoll_wait(2) answers: events, none of them after a timeout, or an errno.
pub data Wait : Type 0 where
  signals : List EpollEvent → Wait
  wait_failed : ℕ → Wait

module _ (call : Routine → Ncb → ℤ × Ncb) where
  -- The link is readable.
  unfoldable pub loop_read : Loop → Ncb → Loop × Ncb
  loop_read st ncb = elim ncb.ncb_read [
    | none ↦ (st, ncb)
    | some r ↦
        let (retval, ncb') = call r ncb in
        (if is_neg retval then record st { closed = st.closed ++ (ncb.hld ∷ []) } else st, ncb')
  ]

  -- One event on a link that is alive.
  unfoldable pub loop_link : Loop → ℕ → Bool → Ncb → Loop
  unfolding loop_read
  loop_link st events memory ncb =
      let (st', ncb') = if has_attr events epollin then loop_read st ncb else (st, ncb) in
      let kept : Loop = record st' { links = st'.links ++ (ncb' ∷ []) } in
      if has_attr events epollout && not (has_attr events epollhup)
      then record kept { pools = (wp_queued kept.pools ncb' memory).1 }
      else kept

  unfoldable pub loop_event : Loop → EpollEvent → Loop
  unfolding loop_link
  loop_event st evt =
      if is_broken evt.events
      then record st { closed = st.closed ++ (evt.hld ∷ []) }
      else elim evt.ncb [ none ↦ st | some ncb ↦ loop_link st evt.events evt.memory ncb ]

  -- __iorun
  unfoldable pub iorun : Loop → List EpollEvent → Loop
  iorun st [] = st
  iorun st (evt ∷ evts) = iorun (loop_event st evt) evts

  -- One round of a thread behind epoll_wait(2): whether the thread goes on.
  unfoldable pub epoll_round : Loop → Wait → Bool × Loop
  epoll_round st (signals evts) = (true, iorun st evts)
  epoll_round st (wait_failed e) = (e == eintr, st)

  -- __epoll_proc: rounds while the flag `actived`, read before each, is set.
  unfoldable pub epoll_proc : Loop → List (Bool × Wait) → Run Loop
  epoll_proc st [] = waiting
  epoll_proc st ((actived, wait) ∷ rounds) =
      let (goes_on, st') = epoll_round st wait in
      let rest = epoll_proc st' rounds in
      if actived then if goes_on then rest else done st' else done st

  -- Every event tells of an error or of the end of the peer.
  abbrev pub AreBroken : List EpollEvent → Type 0
  AreBroken [] = Unit {0}
  AreBroken (evt ∷ evts) = (is_broken evt.events ≡ true) × AreBroken evts

  abbrev pub handles_of : List EpollEvent → List ℕ
  handles_of [] = []
  handles_of (evt ∷ evts) = evt.hld ∷ handles_of evts

  -- Links that are in error or whose peer has gone are closed, each once and in order, and neither
  -- read nor written, whatever else their events say.
  pub iorun_broken :
      (st : Loop) (evts : List EpollEvent)
      → AreBroken evts
      → iorun st evts ≡ record st { closed = st.closed ++ handles_of evts }
  unfolding iorun loop_event
  iorun_broken st [] h = ap (λ l. record st { closed = l }) (sym (append-nil st.closed))
  iorun_broken st (evt ∷ evts) (b, h) = rw b (
      iorun_broken (record st { closed = st.closed ++ (evt.hld ∷ []) }) evts h
      ∙ ap (λ l. record st { closed = l })
          (append_assoc st.closed (evt.hld ∷ []) (handles_of evts)))

  -- An event of a TCP link that can be written, cannot be read, and has neither failed nor hung up,
  -- whatever else its mask tells.
  pub record IsWritable (events : ℕ) (ncb : Ncb) : Type 0 where
    pub whole : is_broken events ≡ false
    pub unread : has_attr events epollin ≡ false
    pub writable : has_attr events epollout ≡ true
    pub open_link : has_attr events epollhup ≡ false
    pub protocol : ncb.protocol ≡ ipproto_tcp

  -- The events of links, each with its mask, and whether there is memory for its task.
  abbrev pub events_of : List (ℕ × Ncb × Bool) → List EpollEvent
  events_of [] = []
  events_of ((events, ncb, memory) ∷ xs) =
      record { events = events; hld = ncb.hld; ncb = some ncb; memory = memory } ∷ events_of xs

  abbrev pub AreWritable : List (ℕ × Ncb × Bool) → Type 0
  AreWritable [] = Unit {0}
  AreWritable ((events, ncb, memory) ∷ xs) = IsWritable events ncb × AreWritable xs

  abbrev pub links_of : List (ℕ × Ncb × Bool) → List Ncb
  links_of [] = []
  links_of ((events, ncb, memory) ∷ xs) = ncb ∷ links_of xs

  -- The pool with one more task, where there is memory for it.
  abbrev pub add_task : Wpool → Ncb → Bool → Wpool
  add_task pool ncb true = wp_add_task pool ncb.hld
  add_task pool ncb false = pool

  abbrev pub add_tasks : Wpool → List (ℕ × Ncb × Bool) → Wpool
  add_tasks pool [] = pool
  add_tasks pool ((events, ncb, memory) ∷ xs) = add_tasks (add_task pool ncb memory) xs
