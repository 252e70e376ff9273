-- ===== src/Tests/Echoes.antt =====
-- The example program: tests and instances.
use swnet_linux.Base.{
  ℕ, ◌≡◌, refl, List, [], ◌∷◌, ◌++◌, map, none, some, true, eagain, replicate, length, arith,
}
use swnet_linux.Base.Int.{pos}
use swnet_linux.Base.Run.{fault, done}
use swnet_linux.Ncb.{Ncb, Node, receivedata}
use swnet_linux.Tcpio.Send.{wrote, send_failed, tcp_established}
use swnet_linux.Tcp.Create.{
  tcp_destroy, tcp_getaddr, tcp_create, tcp_opened, granted as tcp_granted,
}
use swnet_linux.Tcp.{tcp_refr}
use swnet_linux.Tcp.Write.{tcp_write}
use swnet_linux.Echo.{Console, EchoReplies, display, tcp_server_callback}
use swnet_linux.Echo.Writes.{IsPlainLink, server_write}
use swnet_linux.Echo.Answer.{Answers, server-Answers, server_drops_queued}
use swnet_linux.Echo.Args.{check_args, check_opts, on_opt, copy_host, startup_default}
use swnet_linux.Echo.Args.Laws.{
  Setting, server, client, port, opt_of, answer, chosen, check_args-chosen, check_args_overflow,
}
use swnet_linux.Echo.Startup.{ServerReplies, echo_server_startup}
use swnet_linux.Tests.Links.{handles, granted}
use swnet_linux.Tests.Samples.{nowhere, alloc, bits, makeerror, fresh}

-- A strtoul(3) that knows one text.
abbrev number : List ℕ → ℕ
number text = 65546

-- nshost.echo -p 65546 -s -c h
abbrev settings : List Setting
settings = port (b'6' ∷ []) ∷ server none ∷ client (some (b'h' ∷ [])) ∷ []

settings-chosen :
    check_args number (map opt_of settings)
    ≡ done (pos 0, record { type = b'c'; host = b'h' ∷ []; port = 10 }, [])
unfolding check_args check_opts on_opt copy_host
settings-chosen = refl

check_args-chosen_example :
    check_args number (map opt_of settings) ≡ answer number (chosen number startup_default settings)
check_args-chosen_example = check_args-chosen number settings (omega arith)

check_args_overflow_example :
    check_args number (
      map opt_of (server none ∷ [])
      ++ (opt_of (client (some (replicate 128 b'h'))) ∷ (b'v', none) ∷ []))
    ≡ fault
check_args_overflow_example =
    check_args_overflow number (server none ∷ []) (client (some (replicate 128 b'h')))
      (replicate 128 b'h') ((b'v', none) ∷ []) (omega arith) refl (omega arith)

abbrev console : Console
console = record { income = λ a. b'>' ∷ []; stale = (0, 0); printed = λ text. pos 1 }

abbrev plain : Ncb
plain = record fresh {
  tcp = record fresh.tcp { template = record { cb = 0; builder = none; parser = none } };
}

abbrev came : List ℕ
came = 7 ∷ 8 ∷ 9 ∷ []

plain-IsPlainLink : IsPlainLink (pos 7) plain 3
plain-IsPlainLink = record {
  writable = record {
    tcp_link = record { handle = refl; protocol = refl };
    write_routine = (_, refl);
    read_routine = (_, refl);
    some_data = refl;
    not_too_much = omega arith;
  };
  no_builder = refl;
  no_head = refl;
  free = refl;
}

abbrev sends_all : EchoReplies
sends_all = record {
  state = some tcp_established;
  node_memory = true;
  ctl = none;
  sends = wrote 2 ∷ wrote 1 ∷ [];
  close_ctl = none;
}

abbrev blocks : EchoReplies
blocks = record sends_all { sends = send_failed eagain ∷ [] }

server-Answers_example :
    Answers makeerror bits alloc console sends_all plain came
      (tcp_write makeerror bits alloc sends_all.state true none
        (pos 7)
        (some plain)
        (some came)
        (pos (length came))
        none
        sends_all.sends)
      (tcp_server_callback makeerror bits alloc console sends_all
        (pos 7)
        (some plain)
        (receivedata came))
unfolding display tcp_getaddr tcp_refr
server-Answers_example =
    server-Answers makeerror bits alloc console sends_all (pos 7) plain came refl refl
      plain-IsPlainLink refl refl (omega arith)

server_drops_queued_example :
    (ncb' : Ncb) × (node : Node) × (server_write makeerror bits alloc console blocks
        (pos 7)
        plain
        came
      ≡ done (pos 0, some ncb', [], []))
    × (tcp_server_callback makeerror bits alloc console blocks
          (pos 7)
          (some plain)
          (receivedata came)
        ≡ done (record { destroyed = true; link = tcp_destroy (some ncb') none; sent = [] }))
    × (ncb'.fifo.nodes ≡ node ∷ [])
    × (node.bytes ≡ came)
    × (node.offset ≡ 0)
unfolding display tcp_getaddr tcp_refr
server_drops_queued_example =
    server_drops_queued makeerror bits alloc console blocks (pos 7) plain came [] refl refl refl
      refl plain-IsPlainLink refl refl (omega arith)

-- A program that gets no socket.
abbrev refused : ServerReplies
refused = record {
  create = record (tcp_granted 3 7) { fd = none };
  state = none;
  listen = none;
  local = nowhere;
  attach = record { fcntl = granted; add = none };
}

startup-refused : echo_server_startup makeerror handles refused 1 none 10256 0 ≡ done (pos 1, none)
unfolding echo_server_startup tcp_create tcp_opened
startup-refused = refl
