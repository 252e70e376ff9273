-- ===== src/Buffer.antt =====
-- Memory from malloc(3), and memcpy(3) and memmove(3) into it. The library functions are not the
-- program's own code: this is what C says of them, and `none` is undefined behaviour.
pub mod Laws
use swnet_linux.Base.{
  ℕ, ◌+◌, List, [], ◌++◌, Option, none, some, ◌&&◌, leb, if◌then◌else◌, length, take, drop,
}

-- A block of `cap` bytes. Its first `length bytes` are initialised, the rest indeterminate.
pub record Buffer : Type 0 where
  pub cap : ℕ
  pub bytes : List ℕ

unfoldable pub malloc : ℕ → Buffer
malloc n = record { cap = n; bytes = [] }

-- Copies the first `n` bytes at `src` to offset `off`. It is undefined to read past the end of
-- `src`, to write past the end of the block, and (here) to leave a gap of indeterminate bytes.
unfoldable pub memcpy : Buffer → ℕ → List ℕ → ℕ → Option Buffer
memcpy b off src n =
    if leb n (length src) && leb (off + n) b.cap && leb off (length b.bytes)
    then some (record b { bytes = take off b.bytes ++ (take n src ++ drop (off + n) b.bytes) })
    else none

-- `n` bytes from offset `off`. It is undefined to read an indeterminate byte.
unfoldable pub read : Buffer → ℕ → ℕ → Option (List ℕ)
read b off n = if leb (off + n) (length b.bytes) then some (take n (drop off b.bytes)) else none
