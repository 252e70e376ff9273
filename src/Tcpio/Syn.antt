-- ===== src/Tcpio/Syn.antt =====
-- tcpio.c: accepting, __tcp_syn_try, __tcp_syn_dpc, __tcp_syn and tcp_syn. What the system answers
-- in one round is a `Round`; the options that the code sets on an
-- accepted socket (Tcp/Options) are no part of a link's record.
pub mod Laws
use swnet_linux.Base.{
  ℕ, List, [], ◌∷◌, ◌++◌, Option, none, some, Bool, true, false, ◌==◌, ◌||◌, if◌then◌else◌, eperm,
  enomem, eintr, eagain, enfile, enobufs, econnaborted,
}
use swnet_linux.Base.Int.{ℤ, pos, neg, is_neg, is_zero}
use swnet_linux.Base.Run.{Run, waiting, done}
use swnet_linux.Buffer.{malloc}
use swnet_linux.Ncb.{
  Ncb, AttrBits, has_attr, Routine, tcp_buffer_size, ipproto_tcp, ncb_post_accepted,
}
use swnet_linux.Ncb.Life.{zeroed, ncb_allocator}
use swnet_linux.Io.{io_modify, epollin}
use swnet_linux.Io.Attach.{IoHandles, AttachReplies, io_attach}
use swnet_linux.Tcpio.Connect.{Names, named, with_io}

-- TCP_LISTEN of tcpi_state
abbrev pub tcp_listen_state : ℕ
tcp_listen_state = 10

-- A connection that accept(2) gives: its descriptor, the handle of the new object (objallo may
-- fail), and the answers to the calls that follow.
pub record Arrival : Type 0 where
  pub fd : ℕ
  pub hld : Option ℕ
  pub names : Names
  pub packet_memory : Bool
  pub rx_memory : Bool
  pub attach : AttachReplies
  pub modify : Option ℕ

pub data AcceptReply : Type 0 where
  accepted : Arrival → AcceptReply
  accept_failed : ℕ → AcceptReply

-- The state of the socket, where getsockopt(2) tells it, and the answer of accept(2).
pub record Round : Type 0 where
  pub state : Option ℕ
  pub reply : AcceptReply

-- The control code of __tcp_syn_try for an errno of accept(2).
unfoldable pub syn_ctrlcode : ℕ → ℤ
syn_ctrlcode e =
    if (e == eintr) || (e == econnaborted)
    then pos 0
    else if e == eagain
    then pos eagain
    else if (e == enfile) || (e == enobufs) || (e == enomem) || (e == eperm)
    then pos e
    else neg 1

-- What has become of an accepted connection: the link, and whether it was closed again (objclos).
abbrev pub Accepted : Type 0
Accepted = Ncb × Bool

-- The return code, the listening link, the links accepted and the rounds left.
abbrev pub Accepting : Type 0
Accepting = Run (ℤ × Ncb × List Accepted × List Round)

abbrev pub with_links : List Accepted → Accepting → Accepting
with_links links Run.fault = Run.fault
with_links links waiting = waiting
with_links links (done (r, server, more, rs)) = done (r, server, links ++ more, rs)

-- The object of a new link.
unfoldable pub accepted_link : Ncb → ℕ → ℕ → Ncb
accepted_link ncb_server fd hld = record (ncb_allocator 0).1 {
  sockfd = pos fd;
  hld = hld;
  protocol = ipproto_tcp;
  nis_callback = ncb_server.nis_callback;
}

module _ (makeerror : ℕ → ℤ) (bits : AttrBits) (handles : IoHandles) where
  -- The new link with its buffers and routines, and the attributes of the listening link if these
  -- are passed on.
  unfoldable pub syn_prepared : Ncb → Ncb → Ncb
  syn_prepared ncb_server ncb =
      let ready = record (with_io ncb) {
        tcp = record ncb.tcp { rx_parse_offset = 0; rx_buffer = some (malloc tcp_buffer_size) };
      } in
      if has_attr ncb_server.attr bits.update_accept_context
      then record ready {
        attr = ncb_server.attr;
        tcp = record ready.tcp { template = ncb_server.tcp.template };
      }
      else ready

  -- The rest of __tcp_syn_dpc: the link is attached without EPOLLIN, the user is told, and only
  -- then the link is registered for reading; the result of that is not looked at.
  unfoldable pub syn_attached : Ncb → Ncb → Arrival → ℤ × Ncb × Ncb
  unfolding ncb_post_accepted
  syn_attached ncb_server ncb a =
      let (retval, ncb') = io_attach makeerror handles ncb 0 a.attach in
      if is_neg retval then (neg 1, ncb_server, ncb') else (
        pos 0,
        ncb_post_accepted ncb_server ncb'.hld,
        (io_modify makeerror ncb' epollin a.modify).1,
      )

  -- __tcp_syn_dpc: the return code, the listening link and the new one
  unfoldable pub tcp_syn_dpc : Ncb → Ncb → Arrival → ℤ × Ncb × Ncb
  unfolding syn_prepared syn_attached
  tcp_syn_dpc ncb_server ncb a =
      let ncb' = record (named ncb a.names) { packet = some (malloc tcp_buffer_size) } in
      if a.packet_memory
      then if a.rx_memory
        then syn_attached ncb_server (syn_prepared ncb_server ncb') a
        else (neg enomem, ncb_server, record ncb' { tcp = record ncb'.tcp { rx_parse_offset = 0 } })
      else (neg enomem, ncb_server, named ncb a.names)

  -- The part of __tcp_syn for a connection that was accepted.
  unfoldable pub syn_accepted : Ncb → Arrival → ℤ × Ncb × List Accepted
  unfolding tcp_syn_dpc
  syn_accepted ncb_server a = elim a.hld [
    | none ↦ (pos 0, ncb_server, [])
    | some hld ↦
        let (retval, server, ncb) = tcp_syn_dpc ncb_server (accepted_link ncb_server a.fd hld) a in
        (pos 0, server, (ncb, is_neg retval) ∷ [])
  ]

  unfoldable pub syn_tried : Ncb → AcceptReply → ℤ × Ncb × List Accepted
  unfolding syn_accepted syn_ctrlcode
  syn_tried ncb_server (accepted a) = syn_accepted ncb_server a
  syn_tried ncb_server (accept_failed e) = (syn_ctrlcode e, ncb_server, [])

  -- __tcp_syn
  unfoldable pub tcp_syn_once : Ncb → Round → ℤ × Ncb × List Accepted
  unfolding syn_tried
  tcp_syn_once ncb_server r = elim r.state [
    | none ↦ syn_tried ncb_server r.reply
    | some state ↦
        if state == tcp_listen_state then syn_tried ncb_server r.reply else (pos 0, ncb_server, [])
  ]

  -- tcp_syn: as long as __tcp_syn returns 0.
  unfoldable pub tcp_syn : Ncb → List Round → Accepting
  tcp_syn ncb_server [] = waiting
  tcp_syn ncb_server (r ∷ rs) =
      let (retval, server, links) = tcp_syn_once ncb_server r in
      let rest = tcp_syn server rs in
      if is_zero retval then with_links links rest else done (retval, server, links, rs)
