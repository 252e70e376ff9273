-- ===== src/Tests/Links.antt =====
-- The life of links, the event loop, accepting and connecting: tests and instances.
use swnet_linux.Base.{
  Bool, ◌≡◌, refl, List, [], ◌∷◌, ◌++◌, none, some, true, false, zero, suc, eintr, eagain, ℕ,
}
use swnet_linux.Base.Int.{ℤ, pos, negsuc, is_neg}
use swnet_linux.Base.Run.{waiting, done}
use swnet_linux.Ncb.{Ncb, Routine, pre_close, closed, tcp_connected}
use swnet_linux.Ncb.Life.{ncb_deconstruct, ncb_deconstruct_ends}
use swnet_linux.Io.{registered, epollin}
use swnet_linux.Io.Attach.{
  IoObject, IoHandles, stale, live, FcntlReplies, io_fcntl, fcntl_nonblock, fcntl_cloexec,
  fcntl_setfl, io_attach, attach_in, attach_to, io_handle,
}
use swnet_linux.Io.Loop.{EpollEvent, Loop}
use swnet_linux.Wpool.Queued as Queued
use swnet_linux.Tcpio.Connect.{Names, reported, tcp_tx_syn, tcp_tx_syn_connected}
use swnet_linux.Tcpio.Syn.{Round, Accepted, accept_failed, tcp_syn}
use swnet_linux.Tcpio.Syn.Laws.{Peer, rounds, told, AreReady, tcp_syn_spins, tcp_syn_accepts}
use swnet_linux.Tcp.Template.{IsTcp}
use swnet_linux.Tcp.Connect.{tcp_close, tcp_connect}
use swnet_linux.Tcp.Connect.Laws.{tcp_connect_ready}
use swnet_linux.Tests.Samples.{bits, fresh, nowhere}

-- An error code is negative.
abbrev pub error_code : ℕ → ℤ
error_code zero = negsuc 0
error_code (suc n) = negsuc n

error_code_negative : (e : ℕ) → is_neg (error_code e) ≡ true
error_code_negative zero = refl
error_code_negative (suc n) = refl

abbrev object : IoObject
object = record { divisions = 2; epfd = λ n. pos 5; pipefdw = λ n. pos 6 }

object_valid : (k : ℕ) → is_neg (object.epfd k) ≡ false
object_valid k = refl

abbrev pub handles : IoHandles
handles = record { tcphld = live object; udphld = stale }

abbrev pub granted : FcntlReplies
granted = record { getfl = none; setfl = none; getfd = none; setfd = none }

ncb_deconstruct_ends_example :
    ((ncb_deconstruct fresh 3 none).0.posted ≡ pre_close none ∷ closed ∷ [])
    × ((ncb_deconstruct fresh 3 none).0.nis_callback ≡ none)
    × ((ncb_deconstruct fresh 3 none).0.context ≡ none)
    × ((ncb_deconstruct fresh 3 none).0.packet ≡ none)
    × ((ncb_deconstruct fresh 3 none).0.fifo.nodes ≡ [])
ncb_deconstruct_ends_example = ncb_deconstruct_ends fresh 1 3 none refl

fcntl-fresh : is_neg (io_fcntl error_code fresh granted).0 ≡ false
unfolding io_fcntl fcntl_nonblock fcntl_setfl fcntl_cloexec
fcntl-fresh = refl

attach-fresh :
    is_neg (io_attach error_code handles fresh epollin (record { fcntl = granted; add = none })).0
    ≡ false
unfolding io_attach io_fcntl fcntl_nonblock fcntl_setfl fcntl_cloexec io_handle attach_in attach_to
attach-fresh = refl

-- A routine that reads nothing.
abbrev no_data : Routine → Ncb → ℤ × Ncb
no_data r ncb = (pos eagain, ncb)

abbrev idle_loop : Loop
idle_loop = record {
  closed = [];
  pools = record {
    tcphld =
        Queued.live (record { tasks = 1 ∷ []; task_list_size = 1; actived = true; thread = true });
    udphld = Queued.stale;
  };
  links = [];
}

-- EPOLLRDHUP with EPOLLIN, and EPOLLERR
abbrev broken : List EpollEvent
broken =
    record { events = 0x2001; hld = 7; ncb = some fresh; memory = true }
    ∷ record { events = 8; hld = 9; ncb = none; memory = true }
    ∷ []

-- EPOLLOUT with EPOLLWRNORM, the last time without memory for a task.
abbrev ready : List (ℕ × Ncb × Bool)
ready =
    (0x104, fresh, true)
    ∷ (0x104, record fresh { hld = 8 }, true)
    ∷ (0x104, record fresh { hld = 9 }, false)
    ∷ []

abbrev names : Names
names = record { remot = record { addr = 1; port = 80 }; local = nowhere }

tcp_tx_syn_connected_example :
    (ncb' : Ncb) × (tcp_tx_syn error_code names none fresh
        (reported eintr ∷ reported eintr ∷ reported 0 ∷ [])
      ≡ done (pos 0, ncb', false, []))
    × (ncb'.ncb_read ≡ some Routine.tcp_rx)
    × (ncb'.ncb_write ≡ some Routine.tcp_tx)
    × (ncb'.interest ≡ some (registered epollin))
    × (ncb'.remot_addr ≡ names.remot)
    × (ncb'.posted ≡ tcp_connected ∷ [])
tcp_tx_syn_connected_example = tcp_tx_syn_connected error_code names fresh 1 2 [] refl

abbrev peers : List Peer
peers =
    record { fd = 11; hld = 20; names = names } ∷ record { fd = 12; hld = 21; names = names } ∷ []

tcp_syn_accepts_example :
    (server : Ncb) × (links : List Accepted) × (tcp_syn error_code bits handles fresh (rounds peers)
      ≡ done (pos eagain, server, links, []))
    × AreReady peers links
    × (server.posted ≡ [] ++ told peers)
tcp_syn_accepts_example =
    tcp_syn_accepts error_code bits object stale object_valid fresh peers 1 refl

-- Two rounds in the state CLOSE.
abbrev closed_rounds : List Round
closed_rounds =
    record { state = some 7; reply = accept_failed eagain }
    ∷ record { state = some 7; reply = accept_failed eagain }
    ∷ []

tcp_syn_spins_example : tcp_syn error_code bits handles fresh closed_rounds ≡ waiting
tcp_syn_spins_example =
    tcp_syn_spins error_code bits handles fresh closed_rounds
      ((7, refl, refl), ((7, refl, refl), _))

fresh-IsTcp : IsTcp (pos 7) fresh
fresh-IsTcp = record { handle = refl; protocol = refl }

tcp_connect_ready_example :
    (ncb' : Ncb) × (tcp_connect error_code handles
        (pos 7)
        (some fresh)
        (some 16777343)
        80
        (some tcp_close)
        names
        (record { fcntl = granted; add = none })
        (some eintr ∷ none ∷ [])
      ≡ done (
        (io_attach error_code handles fresh epollin (record { fcntl = granted; add = none })).0,
        some ncb',
        false,
      ))
    × (ncb'.interest ≡ some (registered epollin))
    × (ncb'.flags.nonblock ≡ true)
    × (ncb'.ncb_read ≡ some Routine.tcp_rx)
    × (ncb'.ncb_write ≡ some Routine.tcp_tx)
    × (ncb'.posted ≡ tcp_connected ∷ [])
tcp_connect_ready_example =
    tcp_connect_ready error_code error_code_negative handles (pos 7) 16777343 80 names granted fresh
      1 1 [] fresh-IsTcp refl refl attach-fresh
