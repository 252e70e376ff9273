-- ===== src/Buffer/Laws.antt =====
-- Laws of a buffer that begins with a known list of bytes.
use swnet_linux.Base.{
  ℕ, zero, suc, ◌+◌, ◌≤◌, ◌≡◌, refl, sym, ap, List, [], ◌∷◌, ◌++◌, some, length, take, drop,
  length-take, take-append_self, append_assoc, le→leb, arith, take-length, drop-length, append-nil,
}
use swnet_linux.Buffer.{Buffer, malloc, memcpy, read}

-- The block's initialised part begins with `p`.
abbrev pub Begins : Buffer → List ℕ → Type 0
Begins b p = take (length p) b.bytes ≡ p

pub Begins-length : (b : Buffer) (p : List ℕ) → Begins b p → length p ≤ length b.bytes
Begins-length b p h = omega (arith, ap length h, length-take (length p) b.bytes)

-- A copy behind `p` is defined if it stays inside the block and inside its source, and appends.
pub memcpy-Begins :
    (b : Buffer) (p src : List ℕ) (n : ℕ)
    → Begins b p
    → n ≤ length src
    → length p + n ≤ b.cap
    → (b' : Buffer) × (memcpy b (length p) src n ≡ some b')
      × (b'.cap ≡ b.cap)
      × Begins b' (p ++ take n src)
unfolding memcpy
memcpy-Begins b p src n h hn hc = (
  record b { bytes = take (length p) b.bytes ++ (take n src ++ drop (length p + n) b.bytes) },
  rw
      (
        le→leb n (length src) hn,
        le→leb (length p + n) b.cap hc,
        le→leb (length p) (length b.bytes) (Begins-length b p h),
      )
      refl,
  refl,
  rw (h, ← append_assoc) (take-append_self (p ++ take n src) _ _ refl),
)

-- A copy into a fresh block.
pub memcpy-malloc :
    (size : ℕ) (src : List ℕ)
    → length src ≤ size
    → (b : Buffer) × (memcpy (malloc size) 0 src (length src) ≡ some b)
      × (b.cap ≡ size)
      × (b.bytes ≡ src)
unfolding memcpy malloc
memcpy-malloc size src h = (
  record { cap = size; bytes = take (length src) src ++ drop (0 + length src) [] },
  rw (le→leb (length src) (length src) (omega arith), le→leb (0 + length src) size (omega arith))
      refl,
  refl,
  rw
      (
        take-length (length src) src (omega arith),
        drop-length {A = ℕ} (0 + length src) [] (omega arith),
      )
      (append-nil src),
)

take-drop : (c n m : ℕ) (xs : List ℕ) → m ≡ c + n → take n (drop c xs) ≡ drop c (take m xs)
take-drop zero n m xs e = ap (λ k. take k xs) (omega arith)
take-drop (suc c) n zero xs e = absurd (omega arith)
take-drop (suc c) zero (suc m) [] e = refl
take-drop (suc c) (suc n) (suc m) [] e = refl
take-drop (suc c) n (suc m) (x ∷ xs) e = take-drop c n m xs (omega arith)

-- Reading within `p` is defined and gives its bytes.
pub read-Begins :
    (b : Buffer) (p : List ℕ) (c n : ℕ)
    → Begins b p
    → c + n ≡ length p
    → read b c n ≡ some (drop c p)
unfolding read
read-Begins b p c n h e =
    rw
      (
        le→leb (c + n) (length b.bytes) (omega (arith, Begins-length b p h)),
        take-drop c n (length p) b.bytes (sym e),
        h,
      )
      refl
