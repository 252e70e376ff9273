-- ===== src/Base/Errno.antt =====
-- The values of errno(3) on Linux that the source names. EWOULDBLOCK is EAGAIN there.
use Prim.Native.Nat.{ℕ}

abbrev pub eperm : ℕ
eperm = 1

abbrev pub enoent : ℕ
enoent = 2

abbrev pub eintr : ℕ
eintr = 4

abbrev pub eagain : ℕ
eagain = 11

abbrev pub enomem : ℕ
enomem = 12

abbrev pub ebusy : ℕ
ebusy = 16

abbrev pub eexist : ℕ
eexist = 17

abbrev pub einval : ℕ
einval = 22

abbrev pub enfile : ℕ
enfile = 23

abbrev pub eprototype : ℕ
eprototype = 91

abbrev pub econnaborted : ℕ
econnaborted = 103

abbrev pub econnreset : ℕ
econnreset = 104

abbrev pub enobufs : ℕ
enobufs = 105

abbrev pub eisconn : ℕ
eisconn = 106

abbrev pub ealready : ℕ
ealready = 114

abbrev pub einprogress : ℕ
einprogress = 115
