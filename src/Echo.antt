-- ===== src/Echo.antt =====
-- echo/echo.c: the example program's answers to the events of its links. What goes to the standard
-- output is not kept; what posix__file_write returns for it is an argument. A link is looked up by
-- its handle: `found`.
pub mod Args
pub mod Writes
pub mod Answer
pub mod Startup
use swnet_linux.Base.{
  ℕ, ◌+◌, ◌-◌, List, [], ◌∷◌, ◌++◌, Option, none, some, Bool, true, false, ◌&&◌, ltb, if◌then◌else◌,
  length,
}
use swnet_linux.Base.Int.{ℤ, pos, neg, is_neg, is_nonpos}
use swnet_linux.Base.Run.{Run, fault, waiting, done, ◌>>=◌}
use swnet_linux.Ncb.{Ncb, AttrBits, Event, receivedata, tcp_connected}
use swnet_linux.Submit.{Written}
use swnet_linux.Tcpio.Send.{SendReply}
use swnet_linux.Tcp.Create.{tcp_getaddr, tcp_destroy, link_addr_remote}
use swnet_linux.Tcp.Write.{tcp_write}

-- sizeof(output)
abbrev pub output_size : ℕ
output_size = 1024

-- What the program's surroundings answer: `income` the text that sprintf makes of the address and
-- the port, `stale` what the variables for these hold before, `printed` what posix__file_write
-- returns for a text.
pub record Console : Type 0 where
  pub income : ℕ × ℕ → List ℕ
  pub stale : ℕ × ℕ
  pub printed : List ℕ → ℤ

-- What tcp_write meets: the state of the socket, the memory for the node, and the answers of
-- epoll_ctl(2) and send(2); then the answer of the epoll_ctl(2) of tcp_destroy.
pub record EchoReplies : Type 0 where
  pub state : Option ℕ
  pub node_memory : Bool
  pub ctl : Option ℕ
  pub sends : List SendReply
  pub close_ctl : Option ℕ

-- What a callback has done: whether the link was destroyed, the link, and the bytes sent.
pub record Echoed : Type 0 where
  pub destroyed : Bool
  pub link : Option Ncb
  pub sent : List ℕ

-- The address that display prints.
abbrev pub remote : Console → ℤ → Option Ncb → ℕ × ℕ
remote c link found = elim (tcp_getaddr link found link_addr_remote).1 [
  | none ↦ c.stale
  | some a ↦ a
]

-- display: the text is put together in a buffer of 1024 bytes, whose rest must be longer than the
-- data. `(sizeof(output) - offset)` wraps round where the address alone is longer, which the format
-- excludes; the difference is 0 here.
unfoldable pub display : Console → ℤ → Option Ncb → List ℕ → ℤ
display c link found data' =
    let head = c.income (remote c link found) in
    if ltb (length data') (output_size - length head) && ltb 0 (length data')
    then c.printed (head ++ data')
    else neg 1

module _ (makeerror : ℕ → ℤ) (bits : AttrBits) (alloc : ℕ → Bool) (c : Console) where
  -- What becomes of a link that is destroyed.
  abbrev pub dropped : EchoReplies → Option Ncb → List ℕ → Run Echoed
  dropped r found sent =
      done (record { destroyed = true; link = tcp_destroy found r.close_ctl; sent = sent })

  -- What tcp_server_callback does with the result of tcp_write.
  unfoldable pub after_write : EchoReplies → ℤ × Option Ncb × List ℕ × List SendReply → Run Echoed
  after_write r (ret, found, sent, rest) =
      if is_nonpos ret
      then dropped r found sent
      else done (record { destroyed = false; link = found; sent = sent })

  -- tcp_server_callback on EVT_RECEIVEDATA.
  unfoldable pub on_received : EchoReplies → ℤ → Option Ncb → List ℕ → Run Echoed
  unfolding display after_write
  on_received r link found data' =
      if is_nonpos (display c link found data')
      then dropped r found []
      else tcp_write makeerror bits alloc r.state r.node_memory r.ctl link found (some data')
          (pos (length data')) none r.sends
        >>= after_write r

  unfoldable pub tcp_server_callback : EchoReplies → ℤ → Option Ncb → Event → Run Echoed
  unfolding on_received
  tcp_server_callback r link found (receivedata data') = on_received r link found data'
  tcp_server_callback r link found e = done (record { destroyed = false; link = found; sent = [] })

module _ (makeerror : ℕ → ℤ) (bits : AttrBits) (alloc : ℕ → Bool) where
  -- The loop of echo_client_startup: each line that fgets(3) reads, up to its 0, with what its
  -- tcp_write meets. Gives the link and what was sent when the input ends or a write fails.
  unfoldable pub client_loop :
      ℤ → Option Ncb → List ℕ → List (List ℕ × EchoReplies) → Run (Option Ncb × List ℕ)
  client_loop link found sent [] = done (found, sent)
  client_loop link found sent (([], r) ∷ lines) = client_loop link found sent lines
  client_loop link found sent ((x ∷ xs, r) ∷ lines) =
      elim (tcp_write makeerror bits alloc r.state r.node_memory r.ctl link found (some (x ∷ xs))
        (pos (length (x ∷ xs))) none r.sends) [
          | fault ↦ fault
          | waiting ↦ waiting
          | done (ret, found', more, rest) ↦ elim (is_neg ret) [
            | true ↦ done (found', sent ++ more)
            | false ↦ client_loop link found' (sent ++ more) lines
          ]
        ]

-- tcp_client_callback: whether the data is shown, and whether the prompt is.
unfoldable pub tcp_client_callback : Console → ℤ → Option Ncb → Event → Option ℤ × Bool
unfolding display
tcp_client_callback c link found (receivedata data') = (some (display c link found data'), true)
tcp_client_callback c link found tcp_connected = (none, true)
tcp_client_callback c link found e = (none, false)
