-- ===== src/Echo/Startup.antt =====
-- echo/echo.c: echo_server_startup and echo_client_startup. What the system answers to the calls of
-- the library is a record for each of the two.
use swnet_linux.Base.{ℕ, List, [], Option, none, some, Bool, if◌then◌else◌}
use swnet_linux.Base.Int.{ℤ, pos, neg, is_neg, int_eq}
use swnet_linux.Base.Run.{Run, done, ◌>>=◌}
use swnet_linux.Ncb.{Ncb, SockAddr, AttrBits}
use swnet_linux.Io.Attach.{IoHandles, AttachReplies, FcntlReplies}
use swnet_linux.Tcp.Create.{TcpReplies, tcp_create}
use swnet_linux.Tcpio.Connect.{Names, SoError}
use swnet_linux.Tcp.Connect.{tcp_listen, tcp_connect2}
use swnet_linux.Echo.{EchoReplies, client_loop}

-- What meets tcp_create and tcp_listen.
pub record ServerReplies : Type 0 where
  pub create : TcpReplies
  pub state : Option ℕ
  pub listen : Option ℕ
  pub local : SockAddr
  pub attach : AttachReplies

-- What meets tcp_create and tcp_connect2, and the lines of the input.
pub record ClientReplies : Type 0 where
  pub create : TcpReplies
  pub fcntl : FcntlReplies
  pub state : Option ℕ
  pub names : Names
  pub ctl : Option ℕ
  pub errors : List SoError
  pub attach : AttachReplies
  pub connects : List (Option ℕ)
  pub lines : List (List ℕ × EchoReplies)

-- What objrefr gives for what tcp_create returned.
abbrev pub created : ℤ → Option Ncb → Option Ncb
created link ncb = if is_neg link then none else ncb

module _ (makeerror : ℕ → ℤ) (handles : IoHandles) where
  -- INVALID_HTCPLINK is -1. What tcp_listen returns is not looked at; the program waits after it.
  unfoldable pub echo_server_startup : ServerReplies → ℕ → Option ℕ → ℕ → ℕ → Run (ℤ × Option Ncb)
  echo_server_startup r callback host port nl_count =
      let (server, ncb, count) = tcp_create r.create (some callback) host port nl_count in
      if int_eq server (neg 1)
      then done (pos 1, ncb)
      else tcp_listen makeerror handles server (created server ncb) (pos 100) r.state r.listen
          r.local r.attach
        >>= (λ ended. done (pos 0, ended.1))

  -- The program ends with 1 in any case. Gives the link and what was sent.
  unfoldable pub echo_client_startup :
      AttrBits → (ℕ → Bool) → ClientReplies → ℕ → SockAddr → ℕ → Run (ℤ × Option Ncb × List ℕ)
  echo_client_startup bits alloc r callback target nl_count =
      let (client, ncb, count) = tcp_create r.create (some callback) none 0 nl_count in
      if int_eq client (neg 1)
      then done (pos 1, ncb, [])
      else tcp_connect2 makeerror handles client (created client ncb) r.fcntl r.state (some target)
          r.names r.ctl r.errors r.attach r.connects
        >>= (λ ended.
            if is_neg ended.0
            then done (pos 1, ended.1, [])
            else client_loop makeerror bits alloc client ended.1 [] r.lines
              >>= (λ out. done (pos 1, out.0, out.1)))
