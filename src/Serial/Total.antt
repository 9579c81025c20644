-- ===== src/Serial/Total.antt =====
-- The decoders of util/SerializationUtil.cpp on any input.
use wdt.Common.{ℕ, ◌^◌, ◌-◌, Bool-cases, inl, inr, Option, none, some, Bool}
use wdt.Common.{List, [], ◌∷◌, length, length-drop, arith, ltb, le→leb}
use wdt.Common.Int.{ℤ}
use wdt.Wire.Types.{Result, ok, refused, bailed, crashed, Decoder}
use wdt.Wire.Decoder.{◌>>=◌}
use wdt.Wire.Sound.{IsSound, IsSoundAt, IsSound-bind, IsSound-less}
use wdt.Wire.Yields.{Yields, Yields-bind, Yields-IsSound}
use wdt.Varint.Encode.{IsCount}
use wdt.Common.{order_cases, le→ltb, lt→ltb}
use wdt.Varint.{decode_var_u64, decode_var_i64}
use wdt.Varint.Shrinks.{IsAdvance, decode_var_u64-IsAdvance, decode_var_i64-IsAdvance}
use wdt.Serial.{
  advance, decode_uint64, decode_int64, narrow, decode_int32, to_signed, decode_int64c,
}
use wdt.Serial.{decode_int32c, decode_bytes, decode_string, decode_byte_or_bail}

module _ {ℓ} {A : Type ℓ} where
  advance-IsSound :
      (br : List ℕ) (r : Option (A × ℕ))
      → IsAdvance (length br) r
      → IsSoundAt 1 (length br) (advance br r)
  advance-IsSound br none h = omega arith
  advance-IsSound br (some (val, off)) h =
      rw (le→leb 1 off h.0) (omega (arith, length-drop off br, h))

pub decode_uint64-IsSound : IsSound 1 decode_uint64
unfolding decode_uint64 IsSound
decode_uint64-IsSound br =
    advance-IsSound br (decode_var_u64 br (length br) 0) (decode_var_u64-IsAdvance br)

pub decode_int64-IsSound : IsSound 1 decode_int64
unfolding decode_int64 IsSound
decode_int64-IsSound br =
    advance-IsSound br (decode_var_i64 br (length br) 0) (decode_var_i64-IsAdvance br)

to_signed-IsSound : (ures : ℕ) → IsSound 0 (to_signed ures)
unfolding IsSound
to_signed-IsSound ures br = elim (Bool-cases (ltb (2 ^ 63 - 1) ures)) [
  | inl large ↦ rw large (omega arith)
  | inr small ↦ rw small (omega arith)
]

pub decode_int64c-IsSound : IsSound 1 decode_int64c
unfolding decode_int64c
decode_int64c-IsSound =
    IsSound-bind 1 decode_uint64 to_signed decode_uint64-IsSound to_signed-IsSound

narrow-IsSound :
    (too_big : ℤ → Bool) (br : List ℕ) (r : Result ℤ × List ℕ)
    → IsSoundAt 1 (length br) r
    → IsSoundAt 1 (length br) (narrow too_big br r)
narrow-IsSound too_big br (ok v, rest) h = elim (Bool-cases (too_big v)) [
  | inl large ↦ rw large (omega arith)
  | inr small ↦ rw small h
]
narrow-IsSound too_big br (refused, rest) h = h
narrow-IsSound too_big br (bailed, rest) h = h
narrow-IsSound too_big br (crashed, rest) h = h

pub decode_int32c-IsSound : IsSound 1 decode_int32c
unfolding decode_int32c IsSound
decode_int32c-IsSound br = narrow-IsSound _ br (decode_int64c br) (decode_int64c-IsSound br)

pub decode_int32-IsSound : IsSound 1 decode_int32
unfolding decode_int32 IsSound
decode_int32-IsSound br = narrow-IsSound _ br (decode_int64 br) (decode_int64-IsSound br)

decode_bytes-IsSound : (n : ℕ) → IsSound 0 (decode_bytes n)
unfolding IsSound
decode_bytes-IsSound n br = elim (Bool-cases (ltb (length br) n)) [
  | inl short ↦ rw short (omega arith)
  | inr whole ↦ rw whole (omega (arith, length-drop n br))
]

pub decode_string-IsSound : IsSound 1 decode_string
unfolding decode_string
decode_string-IsSound =
    IsSound-bind 1 decode_uint64 decode_bytes decode_uint64-IsSound decode_bytes-IsSound

pub decode_byte_or_bail-IsSound : IsSound 1 decode_byte_or_bail
unfolding IsSound
decode_byte_or_bail-IsSound [] = omega arith
decode_byte_or_bail-IsSound (c ∷ br) = omega arith

-- Behind another field.
module _ {ℓ} {A : Type ℓ} where
  pub IsSound-int64c :
      (k : ℤ → Decoder A) → ((v : ℤ) → IsSound 0 (k v)) → IsSound 0 (decode_int64c >>= k)
  IsSound-int64c k s =
      IsSound-less 1 0 (decode_int64c >>= k) (omega arith)
        (IsSound-bind 1 decode_int64c k decode_int64c-IsSound s)

  pub IsSound-uint64 :
      (k : ℕ → Decoder A) → ((v : ℕ) → IsSound 0 (k v)) → IsSound 0 (decode_uint64 >>= k)
  IsSound-uint64 k s =
      IsSound-less 1 0 (decode_uint64 >>= k) (omega arith)
        (IsSound-bind 1 decode_uint64 k decode_uint64-IsSound s)

  pub IsSound-byte_or_bail :
      (k : ℕ → Decoder A) → ((c : ℕ) → IsSound 0 (k c)) → IsSound 0 (decode_byte_or_bail >>= k)
  IsSound-byte_or_bail k s =
      IsSound-less 1 0 (decode_byte_or_bail >>= k) (omega arith)
        (IsSound-bind 1 decode_byte_or_bail k decode_byte_or_bail-IsSound s)

  pub IsSound-string :
      (k : List ℕ → Decoder A) → ((v : List ℕ) → IsSound 0 (k v)) → IsSound 0 (decode_string >>= k)
  IsSound-string k s =
      IsSound-less 1 0 (decode_string >>= k) (omega arith)
        (IsSound-bind 1 decode_string k decode_string-IsSound s)

-- What `decodeInt64C` yields is not negative.
pub decode_int64c-Yields : Yields IsCount decode_int64c
unfolding decode_int64c Yields
decode_int64c-Yields =
    Yields-bind (λ n. Unit) IsCount decode_uint64 to_signed
      (Yields-IsSound 1 decode_uint64 decode_uint64-IsSound) (λ n u. signed n)
  where
    signed : (n : ℕ) → Yields IsCount (to_signed n)
    signed n br = elim (order_cases n (2 ^ 63 - 1)) [
      | inl small ↦ rw (le→ltb (2 ^ 63 - 1) n small) (omega arith)
      | inr large ↦ rw (lt→ltb (2 ^ 63 - 1) n large) tt
    ]
