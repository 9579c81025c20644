-- ===== src/Serial.antt =====
-- The encoders and decoders of util/SerializationUtil.cpp. A `std::string` is the list of its bytes.
pub mod Reading
pub mod Writing
pub mod Total
use wdt.Common.{ℕ, zero, suc, ◌+◌, ◌-◌, ◌*◌, ◌^◌, ◌<◌, ◌≡◌, Bool, true, false, Option, none, some}
use wdt.Common.{List, [], ◌∷◌, ◌++◌, length, take, drop, set, ltb, leb, if◌then◌else◌, ◌||◌}
use wdt.Common.Int.{ℤ, pos, negsuc, ltb_ℤ}
use wdt.Wire.Types.{Status, Buffer, Encoder, Result, ok, refused, bailed, crashed, Decoder}
use wdt.Wire.Memory.{copy}
use wdt.Wire.Encoder.{◌>>◌, put}
use wdt.Wire.Decoder.{◌>>=◌, pure}
use wdt.Varint.{encode_var_u64, decode_var_u64, decode_var_i64}

-- `return false` with the range as it stands.
abbrev pub fail {ℓ} : {A : Type ℓ} → Decoder A
fail br = (refused, br)

-- `WDT_CHECK_GE(pos, 1); br.advance(pos)`
abbrev pub advance {ℓ} : {A : Type ℓ} → List ℕ → Option (A × ℕ) → Result A × List ℕ
advance br none = (refused, br)
advance br (some (res, off)) = if leb 1 off then (ok res, drop off br) else (crashed, br)

pub decode_int64 : Decoder ℤ
decode_int64 br = advance br (decode_var_i64 br (length br) 0)

pub decode_uint64 : Decoder ℕ
decode_uint64 br = advance br (decode_var_u64 br (length br) 0)

-- A value that does not fit puts the range back to where it was.
abbrev pub narrow : (ℤ → Bool) → List ℕ → Result ℤ × List ℕ → Result ℤ × List ℕ
narrow too_big obr (ok res64, br) = if too_big res64 then (refused, obr) else (ok res64, br)
narrow too_big obr (refused, br) = (refused, br)
narrow too_big obr (bailed, br) = (bailed, br)
narrow too_big obr (crashed, br) = (crashed, br)

abbrev pub int32_max : ℤ
int32_max = pos (2 ^ 31 - 1)

abbrev pub int32_min : ℤ
int32_min = negsuc (2 ^ 31 - 1)

pub decode_int32 : Decoder ℤ
decode_int32 br =
    narrow (λ res64. ltb_ℤ int32_max res64 || ltb_ℤ res64 int32_min) br (decode_int64 br)

-- `ures > INT64_MAX` is refused behind what was consumed.
abbrev pub to_signed : ℕ → Decoder ℤ
to_signed ures br = if ltb (2 ^ 63 - 1) ures then (refused, br) else (ok (pos ures), br)

pub decode_int64c : Decoder ℤ
decode_int64c = decode_uint64 >>= to_signed

pub decode_int32c : Decoder ℤ
decode_int32c br =
    narrow (λ res64. ltb_ℤ int32_max res64 || ltb_ℤ res64 (pos 0)) br (decode_int64c br)

abbrev pub encode_bytes : ℕ → List ℕ → Encoder
encode_bytes sz str b =
    if ltb sz (b.off + length str) then (Status.refused, b) else (Status.done, put b str)

pub encode_string : ℕ → List ℕ → Encoder
encode_string sz str = encode_var_u64 sz (length str) >> encode_bytes sz str

abbrev pub decode_bytes : ℕ → Decoder (List ℕ)
decode_bytes str_len br =
    if ltb (length br) str_len then (refused, br) else (ok (take str_len br), drop str_len br)

pub decode_string : Decoder (List ℕ)
decode_string = decode_uint64 >>= decode_bytes

-- folly's `storeUnaligned` and `loadUnaligned` around `Endian::little`, for an integer type of so
-- many bytes.
pub record FixedInt : Type 0 where
  pub store : ℕ → ℤ → List ℕ
  pub load : ℕ → List ℕ → ℤ

-- What fits a signed type of `n` bytes and is not negative.
abbrev pub FitsBytes : ℕ → ℤ → Type 0
FitsBytes n (pos m) = 2 * m < 256 ^ n
FitsBytes n (negsuc m) = ⊥

-- What the code relies on: a value takes its size in bytes, and is loaded as it was stored.
pub record FixedIntLaws (f : FixedInt) : Type 0 where
  pub length-store : (n : ℕ) (v : ℤ) → length (f.store n v) ≡ n
  pub load-store : (n : ℕ) (v : ℤ) → FitsBytes n v → f.load n (f.store n v) ≡ v

module _ (f : FixedInt) where
  pub decode_int_fixed_length : ℕ → Decoder ℤ
  decode_int_fixed_length n br =
      if ltb (length br) n
      then (refused, br)
      else if ltb_ℤ (f.load n (take n br)) (pos 0)
      then (refused, drop n br)
      else (ok (f.load n (take n br)), drop n br)

  pub decode_int16_fixed_length : Decoder ℤ
  decode_int16_fixed_length = decode_int_fixed_length 2

  pub decode_int32_fixed_length : Decoder ℤ
  decode_int32_fixed_length = decode_int_fixed_length 4

  pub decode_int64_fixed_length : Decoder ℤ
  decode_int64_fixed_length = decode_int_fixed_length 8

  pub encode_int_fixed_length : ℕ → ℕ → ℤ → Encoder
  encode_int_fixed_length n sz val b =
      if ltb sz (b.off + n)
      then (Status.refused, b)
      else (Status.done, record { dest = copy b.dest b.off (f.store n val); off = b.off + n })

  pub encode_int16_fixed_length : ℕ → ℤ → Encoder
  encode_int16_fixed_length = encode_int_fixed_length 2

  pub encode_int32_fixed_length : ℕ → ℤ → Encoder
  encode_int32_fixed_length = encode_int_fixed_length 4

  pub encode_int64_fixed_length : ℕ → ℤ → Encoder
  encode_int64_fixed_length = encode_int_fixed_length 8

-- `if (off >= max) { ok = false; } else { dest[off++] = c; }`
abbrev pub encode_byte : ℕ → ℕ → Encoder
encode_byte max c b =
    if leb max b.off
    then (Status.refused, b)
    else (Status.done, record { dest = set b.dest b.off c; off = b.off + 1 })

-- `if (br.empty()) { return false; }`, then `br.front()` and `br.pop_front()`.
abbrev pub decode_byte_or_bail : Decoder ℕ
decode_byte_or_bail [] = (bailed, [])
decode_byte_or_bail (c ∷ br) = (ok c, br)

-- `br.front()` and `br.pop_front()` with no test: out of bounds on the empty range.
abbrev pub decode_byte : Decoder ℕ
decode_byte [] = (crashed, [])
decode_byte (c ∷ br) = (ok c, br)
