-- ===== src/Tests/Pipes.antt =====
-- The pipe of an epoll thread: tests and instances.
use swnet_linux.Base.{ℕ, ◌≡◌, refl, List, [], ◌∷◌, some, arith, eagain}
use swnet_linux.Base.Int.{pos}
use swnet_linux.Base.Run.{done}
use swnet_linux.Ncb.{Ncb, pipedata}
use swnet_linux.Io.Attach.{IoHandles, live, stale, io_pipefd, pipefd_of, io_handle}
use swnet_linux.Pipe.{pipe_message, is_too_large, pipe_write_message, pipe_rx, message, nothing}
use swnet_linux.Pipe.Message.{message_roundtrip}
use swnet_linux.Tests.Samples.{alloc, fresh, makeerror}

abbrev pipes : IoHandles
pipes = record {
  tcphld = live (record { divisions = 2; epfd = λ n. pos 5; pipefdw = λ n. pos 6 });
  udphld = stale;
}

abbrev neighbour : Ncb
neighbour = record fresh { hld = 300 }

-- Two bytes of three, for the link with the handle 7.
abbrev sent_message : List ℕ
sent_message = 2 ∷ 0 ∷ 0 ∷ 0 ∷ 9 ∷ 9 ∷ 9 ∷ 9 ∷ 7 ∷ 0 ∷ 0 ∷ 0 ∷ 0 ∷ 0 ∷ 0 ∷ 0 ∷ 4 ∷ 5 ∷ []

abbrev padding : List ℕ
padding = 9 ∷ 9 ∷ 9 ∷ 9 ∷ []

write_message :
    pipe_write_message makeerror pipes alloc padding (pos 18) fresh (4 ∷ 5 ∷ 6 ∷ []) (pos 2)
    ≡ done (pos 18, some sent_message)
unfolding pipe_write_message is_too_large pipe_message io_pipefd pipefd_of io_handle
write_message = refl

message_roundtrip_example :
    pipe_rx (neighbour ∷ fresh ∷ []) (message sent_message ∷ nothing eagain ∷ [])
    ≡ done (pos 0, neighbour ∷ record fresh { posted = pipedata (4 ∷ 5 ∷ []) ∷ [] } ∷ [], [])
message_roundtrip_example =
    message_roundtrip makeerror pipes alloc padding (pos 18) (neighbour ∷ []) [] fresh 1
      (4 ∷ 5 ∷ 6 ∷ []) (pos 2) (pos 18) sent_message (refl, _) refl (omega arith) refl write_message
