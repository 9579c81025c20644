-- ===== src/Wire/Types.antt =====
-- How the encoders and decoders of util/SerializationUtil.cpp and Protocol.cpp end.
--
-- An encoder is handed `char* dest` and `int64_t& off`: it returns the memory and the offset that
-- it leaves behind, also where it fails. A decoder is handed a `ByteRange&`: the bytes not yet
-- consumed. Offsets are natural numbers: `encodeVarU64` refuses a negative one and `makeByteRange`
-- ends the process.
use wdt.Common.{ℕ, List}

-- How an encoder ends: true, false, or a failed WDT_CHECK, which ends the process.
pub data Status : Type 0 where
  done refused crashed : Status

pub record Buffer : Type 0 where
  pub dest : List ℕ
  pub off : ℕ

abbrev pub Encoder : Type 0
Encoder = Buffer → Status × Buffer

-- How a decoder ends. `bailed` is a `return false` that leaves the caller's offset alone, where
-- `refused` is `ok = false`, after which the offset still moves past what was consumed.
pub data Result {ℓ} (A : Type ℓ) : Type ℓ where
  ok : A → Result A
  refused : Result A
  bailed : Result A
  crashed : Result A

abbrev pub Decoder {ℓ} : Type ℓ → Type ℓ
Decoder A = List ℕ → Result A × List ℕ
