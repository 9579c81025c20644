-- ===== src/Examples/Endian.antt =====
-- Little-endian two's complement, as folly's endian functions compute it on memory.
use wdt.Common.{
  ℕ, zero, suc, ◌+◌, ◌-◌, ◌*◌, ◌/◌, ◌%◌, ◌^◌, ◌<◌, ◌≡◌, refl, ap, List, [], ◌∷◌, length,
}
use wdt.Common.{arith, ltb, lt→ltb, if◌then◌else◌}
use wdt.Common.Int.{ℤ, pos, negsuc}
use native.Mathlib.Nat.{pow-suc}
use wdt.Serial.{FixedInt, FixedIntLaws, FitsBytes}

abbrev pub digits : ℕ → ℕ → List ℕ
digits zero v = []
digits (suc n) v = v % 256 ∷ digits n (v / 256)

abbrev pub number : List ℕ → ℕ
number [] = 0
number (b ∷ bs) = b + 256 * number bs

abbrev store_le : ℕ → ℤ → List ℕ
store_le n (pos m) = digits n m
store_le n (negsuc m) = digits n (256 ^ n - 1 - m)

abbrev load_le : ℕ → List ℕ → ℤ
load_le n bs =
    if ltb (2 * number bs) (256 ^ n) then pos (number bs) else negsuc (256 ^ n - 1 - number bs)

abbrev pub little_endian : FixedInt
little_endian = record { store = store_le; load = load_le }

length-digits : (n v : ℕ) → length (digits n v) ≡ n
length-digits zero v = refl
length-digits (suc n) v = ap suc (length-digits n (v / 256))

number-digits : (n v : ℕ) → v < 256 ^ n → number (digits n v) ≡ v
number-digits zero v h = omega arith
number-digits (suc n) v h = omega (arith, number-digits n (v / 256) (omega (arith, pow-suc 256 n)))

pub little_endian-FixedIntLaws : FixedIntLaws little_endian
little_endian-FixedIntLaws = record { length-store = sizes; load-store = loads }
  where
    sizes : (n : ℕ) (v : ℤ) → length (store_le n v) ≡ n
    sizes n (pos m) = length-digits n m
    sizes n (negsuc m) = length-digits n (256 ^ n - 1 - m)

    loads : (n : ℕ) (v : ℤ) → FitsBytes n v → load_le n (store_le n v) ≡ v
    loads n (pos m) h =
        let same = number-digits n m (omega arith) in rw (same, lt→ltb (2 * m) (256 ^ n) h) refl
    loads n (negsuc m) h = absurd h
