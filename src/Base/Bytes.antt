-- ===== src/Base/Bytes.antt =====
-- Numbers in memory: little-endian bytes, and the byte orders of the network.
use Prim.Native.Nat.{ℕ, zero, suc, ◌+◌, ◌*◌, ◌/◌, ◌%◌, ◌<◌}
use mathlib.Core.Path.{◌≡◌, refl, ap}
use mathlib.Core.List.{List, [], ◌∷◌}
use native.Mathlib.Omega.{arith}
use swnet_linux.Base.Lists.{length}

-- The `k` bytes of a number, the lowest first.
abbrev pub le_bytes : ℕ → ℕ → List ℕ
le_bytes zero n = []
le_bytes (suc k) n = n % 256 ∷ le_bytes k (n / 256)

abbrev pub of_le : List ℕ → ℕ
of_le [] = 0
of_le (b ∷ bs) = b + 256 * of_le bs

-- `256 ^ k`
abbrev pub byte_limit : ℕ → ℕ
byte_limit zero = 1
byte_limit (suc k) = 256 * byte_limit k

pub of_le-le_bytes : (k n : ℕ) → n < byte_limit k → of_le (le_bytes k n) ≡ n
of_le-le_bytes zero n h = omega arith
of_le-le_bytes (suc k) n h = omega (arith, of_le-le_bytes k (n / 256) (omega arith))

pub length-le_bytes : (k n : ℕ) → length (le_bytes k n) ≡ k
length-le_bytes zero n = refl
length-le_bytes (suc k) n = ap suc (length-le_bytes k (n / 256))

-- htons and ntohs, htonl and ntohl of a little-endian machine: the bytes in the other order.
abbrev pub swap16 : ℕ → ℕ
swap16 n = (n % 256) * 256 + (n / 256) % 256

abbrev pub swap32 : ℕ → ℕ
swap32 n =
    (n % 256) * 16777216 + (n / 256 % 256) * 65536 + (n / 65536 % 256) * 256 + n / 16777216 % 256

pub swap16_twice : (n : ℕ) → n < 65536 → swap16 (swap16 n) ≡ n
swap16_twice n h = omega arith

pub swap32_twice : (n : ℕ) → n < 4294967296 → swap32 (swap32 n) ≡ n
swap32_twice n h = omega arith
