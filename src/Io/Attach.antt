-- ===== src/Io/Attach.antt =====
-- io.c: io_fcntl, io_attach and io_pipefd. What fcntl(2) and epoll_ctl(2) answer is an argument:
-- `none` for success, or the errno.
pub mod Laws
use Prim.Native.Nat.{◌%◌}
use swnet_linux.Base.{
  ℕ, ◌≡◌, refl, Option, none, some, true, false, ◌==◌, ◌||◌, if◌then◌else◌, arith, einval, enoent,
  eexist, eprototype,
}
use swnet_linux.Base.Int.{ℤ, pos, neg, is_neg}
use swnet_linux.Ncb.{Ncb, ipproto_tcp, ipproto_udp, eth_p_arp}
use swnet_linux.Io.{registered}

-- struct io_object_block as io_attach and io_pipefd read it: the epoll instance and the pipe that
-- stand at an index of the array `epoptr`. What is read outside the array is whatever stands there.
pub record IoObject : Type 0 where
  pub divisions : ℕ
  pub epfd : ℕ → ℤ
  pub pipefdw : ℕ → ℤ

-- What the handle of a protocol's object is: not set (-1), of an object that is gone, or of a live
-- one.
pub data Handle : Type 0 where
  unset stale : Handle
  live : IoObject → Handle

-- `tcphld` and `udphld`
pub record IoHandles : Type 0 where
  pub tcphld : Handle
  pub udphld : Handle

unfoldable pub io_handle : IoHandles → ℕ → Handle
io_handle handles protocol =
    if protocol == ipproto_tcp
    then handles.tcphld
    else if (protocol == ipproto_udp) || (protocol == eth_p_arp)
    then handles.udphld
    else unset

-- The answers to the four calls of io_fcntl, each made only where the code reaches it.
pub record FcntlReplies : Type 0 where
  pub getfl : Option ℕ
  pub setfl : Option ℕ
  pub getfd : Option ℕ
  pub setfd : Option ℕ

pub record AttachReplies : Type 0 where
  pub fcntl : FcntlReplies
  pub add : Option ℕ

module _ (makeerror : ℕ → ℤ) where
  -- The second half of io_fcntl: the descriptor is not inherited over exec(3).
  unfoldable pub fcntl_cloexec : Ncb → Option ℕ → Option ℕ → ℤ × Ncb
  fcntl_cloexec ncb (some e) setfd = (makeerror e, ncb)
  fcntl_cloexec ncb none none = (pos 0, record ncb { flags = record ncb.flags { cloexec = true } })
  fcntl_cloexec ncb none (some e) = if ncb.flags.cloexec then (pos 0, ncb) else (makeerror e, ncb)

  -- The flag O_NONBLOCK is set where it is not, and then the second half follows.
  unfoldable pub fcntl_setfl : Ncb → Option ℕ → Option ℕ → Option ℕ → ℤ × Ncb
  unfolding fcntl_cloexec
  fcntl_setfl ncb (some e) getfd setfd = (makeerror e, ncb)
  fcntl_setfl ncb none getfd setfd =
      fcntl_cloexec (record ncb { flags = record ncb.flags { nonblock = true } }) getfd setfd

  -- The first half: the descriptor does not block.
  unfoldable pub fcntl_nonblock : Ncb → Option ℕ → Option ℕ → Option ℕ → Option ℕ → ℤ × Ncb
  unfolding fcntl_cloexec fcntl_setfl
  fcntl_nonblock ncb (some e) setfl getfd setfd = (makeerror e, ncb)
  fcntl_nonblock ncb none setfl getfd setfd =
      if ncb.flags.nonblock
      then fcntl_cloexec ncb getfd setfd
      else fcntl_setfl ncb setfl getfd setfd

  -- io_fcntl, on the link's socket
  unfoldable pub io_fcntl : Ncb → FcntlReplies → ℤ × Ncb
  unfolding fcntl_nonblock
  io_fcntl ncb r =
      if is_neg ncb.sockfd
      then (neg einval, ncb)
      else fcntl_nonblock ncb r.getfl r.setfl r.getfd r.setfd

  -- The call of epoll_ctl(2). That the socket is registered already is no failure.
  unfoldable pub attach_to : Ncb → ℤ → ℕ → Option ℕ → ℤ × Ncb
  attach_to ncb epfd mask none =
      (epfd, record ncb { epfd = epfd; interest = some (registered mask) })
  attach_to ncb epfd mask (some e) =
      if e == eexist
      then (epfd, record ncb { epfd = epfd })
      else (neg 1, record ncb { epfd = neg 1 })

  unfoldable pub attach_in : Handle → Ncb → ℕ → Option ℕ → ℤ × Ncb
  unfolding attach_to
  attach_in unset ncb mask add = (neg eprototype, ncb)
  attach_in stale ncb mask add = (neg enoent, ncb)
  attach_in (live o) ncb mask add = attach_to ncb (o.epfd (ncb.hld % o.divisions)) mask add

  unfoldable pub io_attach : IoHandles → Ncb → ℕ → AttachReplies → ℤ × Ncb
  unfolding io_fcntl attach_in
  io_attach handles ncb mask r =
      let (retval, ncb') = io_fcntl ncb r.fcntl in
      if is_neg retval
      then (retval, ncb')
      else attach_in (io_handle handles ncb'.protocol) ncb' mask r.add

  unfoldable pub pipefd_of : Handle → Ncb → ℤ
  pipefd_of unset ncb = neg eprototype
  pipefd_of stale ncb = neg enoent
  pipefd_of (live o) ncb = o.pipefdw (ncb.hld % o.divisions)

  unfoldable pub io_pipefd : IoHandles → Ncb → ℤ
  unfolding pipefd_of
  io_pipefd handles ncb = pipefd_of (io_handle handles ncb.protocol) ncb
