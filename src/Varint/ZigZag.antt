-- ===== src/Varint/ZigZag.antt =====
-- Zigzag: a bijection between the `int64_t`s and the `uint64_t`s.
use wdt.Common.{ℕ, ◌+◌, ◌-◌, ◌*◌, ◌/◌, ◌%◌, ◌^◌, ◌≤◌, ◌<◌, ◌≡◌, refl, ap, ◌∙◌, ◌⊎◌, inl, inr, suc}
use wdt.Common.{arith, bit_xor, bit_and, length}
use native.Mathlib.Nat.{pow-suc}
use wdt.Common.Bits.{xor_ones, xor_nothing, low_bit}
use wdt.Common.Int.{ℤ, pos, negsuc}
use wdt.Varint.{to_i64, negate_u64, encode_zig_zag, decode_zig_zag}
use wdt.Varint.Groups.{varint, length-groups_small}

abbrev pub IsI64 : ℤ → Type 0
IsI64 (pos n) = n < 2 ^ 63
IsI64 (negsuc n) = n < 2 ^ 63

-- 0, -1, 1, -2, 2, ... go to 0, 1, 2, 3, 4, ...
abbrev pub zig_zag : ℤ → ℕ
zig_zag (pos n) = 2 * n
zig_zag (negsuc n) = 2 * n + 1

encode_zig_zag_lem : (v : ℤ) → IsI64 v → encode_zig_zag v ≡ zig_zag v
unfolding encode_zig_zag
encode_zig_zag_lem (pos n) h = xor_nothing (n % 2 ^ 64 * 2 % 2 ^ 64) ∙ omega arith
encode_zig_zag_lem (negsuc n) h =
    xor_ones 64 ((2 ^ 64 - 1 - n % 2 ^ 64) * 2 % 2 ^ 64) (omega arith) ∙ omega arith

-- The bits that `decodeZigZag` computes, by the parity of the number.
even_bits : (n : ℕ) → bit_xor (2 * n / 2) (negate_u64 (bit_and (2 * n) 1)) ≡ n
unfolding negate_u64
even_bits n =
    let half : 2 * n / 2 ≡ n = omega arith in
    let mask : (2 ^ 64 - 2 * n % 2) % 2 ^ 64 ≡ 0 = omega arith in
    rw (low_bit, mask, half) (xor_nothing n)

odd_bits :
    (n : ℕ)
    → n < 2 ^ 63
    → bit_xor ((2 * n + 1) / 2) (negate_u64 (bit_and (2 * n + 1) 1)) ≡ 2 ^ 64 - 1 - n
unfolding negate_u64
odd_bits n h =
    let half : (2 * n + 1) / 2 ≡ n = omega arith in
    let mask : (2 ^ 64 - (2 * n + 1) % 2) % 2 ^ 64 ≡ 2 ^ 64 - 1 = omega arith in
    rw (low_bit, mask, half) (xor_ones 64 n (omega arith))

decode_zig_zag_lem : (v : ℤ) → IsI64 v → decode_zig_zag (zig_zag v) ≡ v
unfolding decode_zig_zag
decode_zig_zag_lem (pos n) h = ap to_i64 (even_bits n) ∙ ground arith
decode_zig_zag_lem (negsuc n) h = ap to_i64 (odd_bits n h) ∙ ground arith

-- Every `uint64_t` is the zigzag number of an `int64_t`.
zig_zag_onto : (u : ℕ) → u < 2 ^ 64 → (v : ℤ) × IsI64 v × (zig_zag v ≡ u)
zig_zag_onto u h = elim (parity u) [
  | inl e ↦ (pos (u / 2), omega arith, omega arith)
  | inr e ↦ (negsuc (u / 2), omega arith, omega arith)
]
  where
    parity : (u : ℕ) → (u % 2 ≡ 0) ⊎ (u % 2 ≡ 1)
    parity u = omega arith

-- `decodeZigZag` after `encodeZigZag` gives back every `int64_t`.
pub decode_zig_zag-encode_zig_zag : (v : ℤ) → IsI64 v → decode_zig_zag (encode_zig_zag v) ≡ v
decode_zig_zag-encode_zig_zag v h = rw (encode_zig_zag_lem v h) (decode_zig_zag_lem v h)

-- `encodeZigZag` after `decodeZigZag` gives back every `uint64_t`.
pub encode_zig_zag-decode_zig_zag : (u : ℕ) → u < 2 ^ 64 → encode_zig_zag (decode_zig_zag u) ≡ u
encode_zig_zag-decode_zig_zag u h =
    let (v, i, e) = zig_zag_onto u h in rw (← e, decode_zig_zag_lem v i) (encode_zig_zag_lem v i)

-- From -64 * 128 ^ n up to 64 * 128 ^ n - 1.
abbrev pub IsWithin : ℕ → ℤ → Type 0
IsWithin n (pos m) = m < 64 * 128 ^ n
IsWithin n (negsuc m) = m < 64 * 128 ^ n

-- An `int64_t` between -64 * 128 ^ n and 64 * 128 ^ n - 1 takes at most n + 1 bytes: one byte for
-- -64 to 63, two for -8192 to 8191, and so on.
pub zig_zag_size :
    (n : ℕ) (v : ℤ) → IsI64 v → IsWithin n v → length (varint (encode_zig_zag v)) ≤ n + 1
zig_zag_size n v i h =
    rw (encode_zig_zag_lem v i) (omega (arith, length-groups_small n 8 (zig_zag v) (small v h)))
  where
    small : (v : ℤ) → IsWithin n v → zig_zag v < 128 ^ suc n
    small (pos m) h = omega (arith, pow-suc 128 n)
    small (negsuc m) h = omega (arith, pow-suc 128 n)

pub encode_zig_zag-lt : (v : ℤ) → IsI64 v → encode_zig_zag v < 2 ^ 64
encode_zig_zag-lt v h = rw (encode_zig_zag_lem v h) (bound v h)
  where
    bound : (v : ℤ) → IsI64 v → zig_zag v < 2 ^ 64
    bound (pos n) h = omega arith
    bound (negsuc n) h = omega arith

-- The cast of a `uint64_t` keeps a small value and takes the largest to -1.
pub to_i64_small : (n : ℕ) → n < 2 ^ 63 → to_i64 n ≡ pos n
unfolding to_i64
to_i64_small n h = ground arith

pub to_i64_largest : to_i64 (2 ^ 64 - 1) ≡ negsuc 0
unfolding to_i64
to_i64_largest = refl
