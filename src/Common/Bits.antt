-- ===== src/Common/Bits.antt =====
-- The bit operations that the wire format uses, as arithmetic.
use Prim.Native.Nat.{ℕ, zero, suc, ◌+◌, ◌-◌, ◌*◌, ◌/◌, ◌%◌, ◌^◌, ◌≤◌, ◌<◌, min, max}
use Prim.Native.Nat.{bit_and, bit_or, bit_xor, digits, bitwise}
use Prim.Native.Nat.{bit_and-bitwise, bit_or-bitwise, bit_xor-bitwise, differ}
use mathlib.Core.Path.{◌≡◌, refl, ap, sym, ◌∙◌}
use mathlib.Core.Bool.{Bool, true}
use native.Mathlib.Nat.{le_refl, pow-suc, one-le-pow}
use native.Mathlib.Omega.{arith}
use package.wdt.Common.Tests.{◌==◌, ==_iff, Bool-cases, order_cases, if◌then◌else◌}
use mathlib.Core.List.{List, [], ◌∷◌}
use mathlib.Core.Logic.{inl, inr}

-- The numbers below a bound that fail a test, by evaluation.
failures : (ℕ → Bool) → ℕ → List ℕ
failures test zero = []
failures test (suc bound) =
    let smaller = failures test bound in if test bound then smaller else bound ∷ smaller

no_failures :
    (test : ℕ → Bool) (bound : ℕ) → failures test bound ≡ [] → (x : ℕ) → x < bound → test x ≡ true
unfolding failures
no_failures test zero none x below = absurd (omega arith)
no_failures test (suc bound) none x below = elim (Bool-cases (test bound)) [
  | inl good ↦ elim (order_cases bound x) [
    | inl above ↦ let last : x ≡ bound = omega arith in rw last good
    | inr under ↦ no_failures test bound (rw good at none) x under
  ]
  | inr bad ↦ absurd (cc (rw bad at none))
]

-- `0x80 | x` sets the top bit of a byte.
pub set_top_bit : (x : ℕ) → x < 128 → bit_or 0x80 x ≡ 128 + x
set_top_bit x h = (==_iff _ _).0 (no_failures _ 128 table x h)
  where
    table : failures (λ x. bit_or 0x80 x == 128 + x) 128 ≡ []
    table = unfold failures in refl

-- `x & 0x80` reads the top bit of a byte.
pub top_bit : (x : ℕ) → x < 256 → bit_and x 0x80 ≡ x / 128 * 128
top_bit x h = (==_iff _ _).0 (no_failures _ 256 table x h)
  where
    table : failures (λ x. bit_and x 0x80 == x / 128 * 128) 256 ≡ []
    table = unfold failures in refl

-- The recursion on binary digits behind the native operations gives the same for all enough fuel.
module _ (z : ℕ → ℕ) (f : ℕ → ℕ → ℕ) where
  no_digits : (fuel b : ℕ) → digits z f fuel 0 b ≡ z b
  no_digits zero b = refl
  no_digits (suc fuel) b = refl

  same_digits : (a fuel more b : ℕ) → a ≤ min fuel more → digits z f more a b ≡ digits z f fuel a b
  same_digits zero fuel more b enough = no_digits more b ∙ sym (no_digits fuel b)
  same_digits (suc a) zero more b enough = absurd (omega arith)
  same_digits (suc a) (suc fuel) zero b enough = absurd (omega arith)
  same_digits (suc a) (suc fuel) (suc more) b enough =
      rw (same_digits (suc a / 2) fuel more (b / 2) (omega arith)) refl

  -- So an operation with that meaning has a law for the lowest digit.
  module _ (op : ℕ → ℕ → ℕ) (meaning : (a b : ℕ) → op a b ≡ bitwise z f a b) where
    digit_law : (a b : ℕ) → op (suc a) b ≡ op (suc a / 2) (b / 2) * 2 + f (suc a % 2) (b % 2)
    digit_law a b =
        rw
          (
            meaning (suc a) b,
            meaning (suc a / 2) (b / 2),
            same_digits (suc a / 2) (suc a / 2) a (b / 2) (omega arith),
          )
          refl

bit_and_step : (a b : ℕ) → bit_and a b ≡ bit_and (a / 2) (b / 2) * 2 + min (a % 2) (b % 2)
bit_and_step zero b = omega (arith, bit_and-bitwise 0 b, bit_and-bitwise 0 (b / 2))
bit_and_step (suc a) b = digit_law (λ y. 0) min bit_and bit_and-bitwise a b

bit_or_step : (a b : ℕ) → bit_or a b ≡ bit_or (a / 2) (b / 2) * 2 + max (a % 2) (b % 2)
bit_or_step zero b = omega (arith, bit_or-bitwise 0 b, bit_or-bitwise 0 (b / 2))
bit_or_step (suc a) b = digit_law (λ y. y) max bit_or bit_or-bitwise a b

bit_xor_step : (a b : ℕ) → bit_xor a b ≡ bit_xor (a / 2) (b / 2) * 2 + differ (a % 2) (b % 2)
bit_xor_step zero b =
    ground
      (arith, bit_xor-bitwise 0 b, bit_xor-bitwise 0 (b / 2), differ_zero (b % 2) (omega arith))
  where
    differ_zero : (d : ℕ) → d < 2 → differ 0 d ≡ d
    differ_zero zero h = refl
    differ_zero (suc zero) h = refl
    differ_zero (suc (suc d)) h = absurd (omega arith)
bit_xor_step (suc a) b = digit_law (λ y. y) differ bit_xor bit_xor-bitwise a b

zero-bit_or : (b : ℕ) → bit_or 0 b ≡ b
zero-bit_or b = simp bit_or-bitwise

-- `a` bounds itself; the bound halves with it.
nothing_shared : (bound a : ℕ) → a < suc bound → bit_and a 0 ≡ 0
nothing_shared bound zero below = refl
nothing_shared zero (suc a) below = absurd (omega arith)
nothing_shared (suc bound) (suc a) below =
    let half = nothing_shared bound (suc a / 2) (omega arith) in
    omega (arith, half, bit_and_step (suc a) 0)

bit_xor-zero : (n a : ℕ) → a ≤ n → bit_xor a 0 ≡ a
bit_xor-zero n zero h = refl
bit_xor-zero zero (suc a) h = absurd (omega arith)
bit_xor-zero (suc n) (suc a) h = ground (
  arith,
  bit_xor_step (suc a) 0,
  bit_xor-zero n (suc a / 2) (omega arith),
  digit_xor_zero (suc a),
)
  where
    digit_xor_zero : (m : ℕ) → differ (m % 2) 0 ≡ m % 2
    digit_xor_zero m = by_digit (m % 2)
      where
        by_digit : (d : ℕ) → differ d 0 ≡ d
        by_digit zero = refl
        by_digit (suc d) = refl

pub xor_nothing : (a : ℕ) → bit_xor a 0 ≡ a
xor_nothing a = bit_xor-zero a a (le_refl a)

low_one : (a : ℕ) → bit_and a 1 ≡ a % 2
low_one a =
    let above = nothing_shared (a / 2) (a / 2) (omega arith) in
    omega (arith, above, bit_and_step a 1)

low_seven : (a : ℕ) → bit_and a 7 ≡ a % 8
low_seven a = omega (arith, bit_and_step a 7, bit_and_step (a / 2) 3, low_one (a / 2 / 2))

low_63 : (a : ℕ) → bit_and a 63 ≡ a % 64
low_63 a = omega (
  arith,
  bit_and_step a 63,
  bit_and_step (a / 2) 31,
  bit_and_step (a / 2 / 2) 15,
  low_seven (a / 2 / 2 / 2),
)

-- `v & 0x7f` keeps the low seven bits, and `v & 1` the lowest.
pub low_seven_bits : (a : ℕ) → bit_and a 0x7f ≡ a % 128
low_seven_bits a = omega (arith, bit_and_step a 127, low_63 (a / 2))

pub low_bit : (a : ℕ) → bit_and a 1 ≡ a % 2
low_bit a = low_one a

double_shift : (y s : ℕ) → y * 2 ^ suc s ≡ 2 * (y * 2 ^ s)
double_shift y s = omega (arith, ap (λ (t : ℕ). y * t) (pow-suc 2 s))

-- `v | (y << s)` is a sum where `v` has at most `s` bits.
pub or_shifted : (s v y : ℕ) → v < 2 ^ s → bit_or v (y * 2 ^ s) ≡ v + y * 2 ^ s
or_shifted zero v y h = ground (arith, zero-bit_or (y * 1))
or_shifted (suc s) v y h = ground (
  arith,
  bit_or_step v (y * 2 ^ suc s),
  double_shift y s,
  pow-suc 2 s,
  or_shifted s (v / 2) y (omega (arith, pow-suc 2 s)),
)

flip_digit : (d : ℕ) → d < 2 → differ d 1 ≡ 1 - d
flip_digit zero h = refl
flip_digit (suc zero) h = refl
flip_digit (suc (suc d)) h = absurd (omega arith)

halve_ones : (w : ℕ) → ((2 ^ suc w - 1) / 2 ≡ 2 ^ w - 1) × ((2 ^ suc w - 1) % 2 ≡ 1)
halve_ones w = omega (arith, pow-suc 2 w, one-le-pow w 2 (omega arith))

-- `x ^ (2 ^ w - 1)` flips the `w` bits of `x`.
pub xor_ones : (w x : ℕ) → x < 2 ^ w → bit_xor x (2 ^ w - 1) ≡ 2 ^ w - 1 - x
xor_ones zero zero h = refl
xor_ones zero (suc x) h = absurd (omega arith)
xor_ones (suc w) x h =
    let (half, odd) = halve_ones w in
    rw (bit_xor_step x (2 ^ suc w - 1), half, odd)
      (omega (
        arith,
        pow-suc 2 w,
        xor_ones w (x / 2) (omega (arith, pow-suc 2 w)),
        flip_digit (x % 2) (omega arith),
      ))
