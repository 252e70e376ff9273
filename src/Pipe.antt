-- ===== src/Pipe.antt =====
-- pipe.c: the pipe of an epoll thread, over which a user's thread hands data to a link. The layout
-- of struct pipe_package_head is that of a 64-bit little-endian machine: four bytes of length, four
-- of padding, eight of handle, and the data. read(2) and write(2) on the pipe move whole messages,
-- as pipe2(2) makes it with O_DIRECT.
pub mod Message
use swnet_linux.Base.{
  ℕ, zero, suc, ◌+◌, ◌-◌, ◌%◌, ◌^◌, List, [], ◌∷◌, ◌++◌, Option, none, some, Bool, true, false,
  ◌==◌, ◌||◌, ltb, leb, if◌then◌else◌, length, take, drop, le_bytes, of_le, eintr, eagain, einval,
  enomem,
}
use swnet_linux.Base.Int.{ℤ, pos, neg, is_neg, is_nonpos, to_ℕ}
use swnet_linux.Base.Run.{Run, fault, waiting, done}
use swnet_linux.Ncb.{Ncb, Routine, ncb_post_pipedata}
use swnet_linux.Ncb.Life.{zeroed}
use swnet_linux.Objects.{Objects, on_object}
use swnet_linux.Io.{epollin}
use swnet_linux.Io.Attach.{IoHandles, AttachReplies, io_attach, io_pipefd}

abbrev pub pipe_buf : ℕ
pipe_buf = 4096

-- sizeof(struct pipe_package_head)
abbrev pub head_size : ℕ
head_size = 16

-- The message in memory; `stale` are the four bytes of padding, as malloc left them.
unfoldable pub pipe_message : ℕ → List ℕ → List ℕ → List ℕ
pipe_message hld stale bytes = le_bytes 4 (length bytes) ++ (stale ++ (le_bytes 8 hld ++ bytes))

-- The test of pipe_write_message on `cb`, which C makes a size_t: a negative one is too large.
unfoldable pub is_too_large : ℤ → Bool
is_too_large cb = is_neg cb || leb (pipe_buf - head_size) (to_ℕ cb)

-- pipe_write_message: the return code, and what is handed to write(2), whose answer is `written`.
unfoldable pub pipe_write_message :
    (ℕ → ℤ) → IoHandles → (ℕ → Bool) → List ℕ → ℤ → Ncb → List ℕ → ℤ → Run (ℤ × Option (List ℕ))
unfolding is_too_large
pipe_write_message makeerror handles alloc stale written ncb bytes cb =
    if is_too_large cb
    then done (neg einval, none)
    else if is_nonpos (io_pipefd makeerror handles ncb)
    then done (neg 1, none)
    else if alloc (head_size + to_ℕ cb)
    then if ltb (length bytes) (to_ℕ cb)
      then fault
      else done (written, some (pipe_message ncb.hld stale (take (to_ℕ cb) bytes)))
    else done (neg enomem, none)

-- What read(2) answers: a message, or 0 or -1 with what errno is.
pub data PipeReply : Type 0 where
  message : List ℕ → PipeReply
  nothing : ℕ → PipeReply

-- `pipepkt->length + sizeof(struct pipe_package_head)` as a size_t: the int is sign-extended.
unfoldable pub packet_size : ℕ → ℕ
packet_size length' =
    (if ltb length' (2 ^ 31) then length' + head_size else length' + (2 ^ 64 - 2 ^ 32) + head_size)
    % 2 ^ 64

-- A message that was read: it is dropped, or given to the link that it names.
unfoldable pub pipe_deliver : Objects → List ℕ → Objects
unfolding packet_size
pipe_deliver objects bytes =
    if ltb (length bytes) head_size
    then objects
    else if length bytes == packet_size (of_le (take 4 bytes))
    then on_object
        (λ ncb. ncb_post_pipedata ncb (take (of_le (take 4 bytes)) (drop head_size bytes)))
        (of_le (take 8 (drop 8 bytes))) objects
    else objects

-- pipe_rx: until read(2) gives no message and was not interrupted. A message is never empty (an
-- empty one would be an answer of 0).
unfoldable pub pipe_rx : Objects → List PipeReply → Run (ℤ × Objects × List PipeReply)
pipe_rx objects [] = waiting
pipe_rx objects (message [] ∷ rs) = waiting
pipe_rx objects (message (b ∷ bs) ∷ rs) = pipe_rx (pipe_deliver objects (b ∷ bs)) rs
pipe_rx objects (nothing e ∷ rs) =
    let rest = pipe_rx objects rs in
    if (e == 0) || (e == eagain)
    then done (pos 0, objects, rs)
    else if e == eintr
    then rest
    else done (neg 1, objects, rs)

-- pipe_tx
unfoldable pub pipe_tx : ℤ
pipe_tx = pos 0

-- pipe_create: the descriptor to write to, and the object of the pipe, with whether it was closed.
-- The object's memory is taken to be zero, which pipe_initialize leaves to objallo. The
-- first option is the descriptors that pipe2(2) gives, the second the handle that objallo gives.
unfoldable pub pipe_create :
    (ℕ → ℤ) → IoHandles → Option (ℕ × ℕ) → Option ℕ → AttachReplies → ℕ → ℤ × Option (Ncb × Bool)
pipe_create makeerror handles none hld attach protocol = (neg 1, none)
pipe_create makeerror handles (some (r, w)) none attach protocol = (neg 1, none)
pipe_create makeerror handles (some (r, w)) (some hld) attach protocol =
    let (retval, ncb) =
      io_attach makeerror handles
        (record zeroed {
          sockfd = pos r;
          hld = hld;
          protocol = protocol;
          ncb_read = some Routine.pipe_rx;
          ncb_write = some Routine.pipe_tx;
        })
        epollin attach in
    if is_neg retval then (neg 1, some (ncb, true)) else (pos w, some (ncb, false))
