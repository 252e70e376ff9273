-- ===== src/Io.antt =====
-- io.c: a link's registration with its epoll instance. What epoll_ctl(2) answers is an argument:
-- `none` for success, or the errno. `makeerror` is posix__makeerror of the platform library.
pub mod Attach
pub mod Loop
pub mod Init
use Prim.Native.Nat.{bit_or}
use swnet_linux.Base.{ℕ, ◌+◌, Option, none, some, if◌then◌else◌}
use swnet_linux.Base.Int.{ℤ, pos, neg, is_nonpos}
use swnet_linux.Ncb.{Ncb}

abbrev pub epollin : ℕ
epollin = 1

abbrev pub epollout : ℕ
epollout = 4

abbrev pub epollerr : ℕ
epollerr = 8

abbrev pub epollhup : ℕ
epollhup = 0x10

abbrev pub epollrdhup : ℕ
epollrdhup = 0x2000

abbrev pub epollet : ℕ
epollet = 0x80000000

-- The events that a link is registered for: those of every link, and those of the mask.
abbrev pub registered : ℕ → ℕ
registered mask = bit_or (epollet + epollrdhup + epollhup + epollerr) mask

-- io_modify
unfoldable pub io_modify : (ℕ → ℤ) → Ncb → ℕ → Option ℕ → ℤ × Ncb
io_modify makeerror ncb mask none = (pos 0, record ncb { interest = some (registered mask) })
io_modify makeerror ncb mask (some errno) = (makeerror errno, ncb)

-- io_detach; a failure is only reported.
unfoldable pub io_detach : Ncb → Option ℕ → Ncb
io_detach ncb none = record ncb { interest = none }
io_detach ncb (some errno) = ncb

-- The part of io_close that takes the link out of its epoll instance.
unfoldable pub detach_open : Ncb → Option ℕ → Ncb
detach_open ncb ctl =
    if is_nonpos ncb.epfd then ncb else record (io_detach ncb ctl) { epfd = neg 1 }

-- io_close; shutdown(2) and close(2) have no result that is looked at.
unfoldable pub io_close : Ncb → Option ℕ → Ncb
io_close ncb ctl =
    if is_nonpos ncb.sockfd then ncb else record (detach_open ncb ctl) { sockfd = neg 1 }
