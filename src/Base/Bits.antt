-- ===== src/Base/Bits.antt =====
-- Setting, clearing and testing bits, by the binary digits.
use Prim.Native.Nat.{
  ℕ, zero, suc, ◌+◌, ◌-◌, ◌*◌, ◌/◌, ◌%◌, ◌≤◌, min, max, digits, bit_and, bit_or, bit_and-bitwise,
  bit_or-bitwise,
}
use mathlib.Core.Path.{◌≡◌, refl, ap}
use native.Mathlib.Omega.{arith}

-- `a & ~b`
abbrev pub bit_clear : ℕ → ℕ → ℕ
bit_clear a b = a - bit_and a b

module _ (z : ℕ → ℕ) (f : ℕ → ℕ → ℕ) where
  -- A count of digits that is enough gives the same as any other that is.
  enough_digits : (k l a b : ℕ) → a ≤ k → a ≤ l → digits z f k a b ≡ digits z f l a b
  enough_digits zero zero zero b p q = refl
  enough_digits zero (suc l) zero b p q = refl
  enough_digits (suc k) zero zero b p q = refl
  enough_digits (suc k) (suc l) zero b p q = refl
  enough_digits zero l (suc a) b p q = absurd (omega arith)
  enough_digits (suc k) zero (suc a) b p q = absurd (omega arith)
  enough_digits (suc k) (suc l) (suc a) b p q =
      ap (λ d. d * 2 + f (suc a % 2) (b % 2))
        (enough_digits k l (suc a / 2) (b / 2) (omega arith) (omega arith))

and_none : (b : ℕ) → bit_and 0 b ≡ 0
and_none b = bit_and-bitwise 0 b

or_none : (b : ℕ) → bit_or 0 b ≡ b
or_none b = bit_or-bitwise 0 b

and_digit : (a b : ℕ) → bit_and a b ≡ 2 * bit_and (a / 2) (b / 2) + min (a % 2) (b % 2)
and_digit zero b = omega (arith, and_none b, and_none (b / 2))
and_digit (suc a) b = omega (
  arith,
  bit_and-bitwise (suc a) b,
  bit_and-bitwise (suc a / 2) (b / 2),
  enough_digits (λ b. zero) min a (suc a / 2) (suc a / 2) (b / 2) (omega arith) (omega arith),
)

or_digit : (a b : ℕ) → bit_or a b ≡ 2 * bit_or (a / 2) (b / 2) + max (a % 2) (b % 2)
or_digit zero b = omega (arith, or_none b, or_none (b / 2))
or_digit (suc a) b = omega (
  arith,
  bit_or-bitwise (suc a) b,
  bit_or-bitwise (suc a / 2) (b / 2),
  enough_digits (λ b. b) max a (suc a / 2) (suc a / 2) (b / 2) (omega arith) (omega arith),
)

or_half : (a b : ℕ) → bit_or a b / 2 ≡ bit_or (a / 2) (b / 2)
or_half a b = omega (arith, or_digit a b)

and_le : (n a b : ℕ) → a ≤ n → bit_and a b ≤ a
and_le n zero b h = omega (arith, and_none b)
and_le zero (suc a) b h = absurd (omega arith)
and_le (suc n) (suc a) b h =
    omega (arith, and_digit (suc a) b, and_le n (suc a / 2) (b / 2) (omega arith))

clear_half : (a b : ℕ) → bit_clear a b / 2 ≡ bit_clear (a / 2) (b / 2)
clear_half a b =
    omega (
      arith,
      and_digit a b,
      and_le a a b (omega arith),
      and_le (a / 2) (a / 2) (b / 2) (omega arith),
    )

-- What is asked of the bits of `c` after those of `b` were set or cleared.
set_fuel : (n a b : ℕ) → a ≤ n → b ≤ n → bit_and (bit_or a b) b ≡ b
set_fuel zero zero zero p q = refl
set_fuel zero (suc a) b p q = absurd (omega arith)
set_fuel zero zero (suc b) p q = absurd (omega arith)
set_fuel (suc n) a b p q = omega (
  arith,
  and_digit (bit_or a b) b,
  or_digit a b,
  ap (λ x. bit_and x (b / 2)) (or_half a b),
  set_fuel n (a / 2) (b / 2) (omega arith) (omega arith),
)

clear_fuel : (n a b : ℕ) → a ≤ n → b ≤ n → bit_and (bit_clear a b) b ≡ 0
clear_fuel zero zero zero p q = refl
clear_fuel zero (suc a) b p q = absurd (omega arith)
clear_fuel zero zero (suc b) p q = absurd (omega arith)
clear_fuel (suc n) a b p q = omega (
  arith,
  and_digit (bit_clear a b) b,
  and_digit a b,
  and_le a a b (omega arith),
  and_le (a / 2) (a / 2) (b / 2) (omega arith),
  ap (λ x. bit_and x (b / 2)) (clear_half a b),
  clear_fuel n (a / 2) (b / 2) (omega arith) (omega arith),
)

set_other_fuel :
    (n a b c : ℕ) → a ≤ n → b ≤ n → c ≤ n → bit_and b c ≡ 0 → bit_and (bit_or a b) c ≡ bit_and a c
set_other_fuel zero zero zero zero p q r d = refl
set_other_fuel zero (suc a) b c p q r d = absurd (omega arith)
set_other_fuel zero zero (suc b) c p q r d = absurd (omega arith)
set_other_fuel zero zero zero (suc c) p q r d = absurd (omega arith)
set_other_fuel (suc n) a b c p q r d = omega (
  arith,
  and_digit (bit_or a b) c,
  and_digit a c,
  and_digit b c,
  or_digit a b,
  d,
  ap (λ x. bit_and x (c / 2)) (or_half a b),
  set_other_fuel n (a / 2) (b / 2) (c / 2) (omega arith) (omega arith) (omega arith)
      (omega (arith, and_digit b c)),
)

clear_other_fuel :
    (n a b c : ℕ)
    → a ≤ n
    → b ≤ n
    → c ≤ n
    → bit_and b c ≡ 0
    → bit_and (bit_clear a b) c ≡ bit_and a c
clear_other_fuel zero zero zero zero p q r d = refl
clear_other_fuel zero (suc a) b c p q r d = absurd (omega arith)
clear_other_fuel zero zero (suc b) c p q r d = absurd (omega arith)
clear_other_fuel zero zero zero (suc c) p q r d = absurd (omega arith)
clear_other_fuel (suc n) a b c p q r d = omega (
  arith,
  and_digit (bit_clear a b) c,
  and_digit a c,
  and_digit b c,
  and_digit a b,
  d,
  and_le a a b (omega arith),
  and_le (a / 2) (a / 2) (b / 2) (omega arith),
  ap (λ x. bit_and x (c / 2)) (clear_half a b),
  clear_other_fuel n (a / 2) (b / 2) (c / 2) (omega arith) (omega arith) (omega arith)
      (omega (arith, and_digit b c)),
)

pub and-or : (a b : ℕ) → bit_and (bit_or a b) b ≡ b
and-or a b = set_fuel (a + b) a b (omega arith) (omega arith)

pub and-clear : (a b : ℕ) → bit_and (bit_clear a b) b ≡ 0
and-clear a b = clear_fuel (a + b) a b (omega arith) (omega arith)

pub and-or_other : (a b c : ℕ) → bit_and b c ≡ 0 → bit_and (bit_or a b) c ≡ bit_and a c
and-or_other a b c d = set_other_fuel (a + b + c) a b c (omega arith) (omega arith) (omega arith) d

pub and-clear_other : (a b c : ℕ) → bit_and b c ≡ 0 → bit_and (bit_clear a b) c ≡ bit_and a c
and-clear_other a b c d =
    clear_other_fuel (a + b + c) a b c (omega arith) (omega arith) (omega arith) d
