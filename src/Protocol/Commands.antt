-- ===== src/Protocol/Commands.antt =====
-- The smaller messages of Protocol.cpp: done, size, abort, chunks, encryption settings and footer.
pub mod Replies
pub mod Fixed
pub mod Abort
pub mod Total
use wdt.Common.{ℕ, zero, suc, ◌+◌, ◌%◌, Bool, true, false, List, [], ◌∷◌, leb, ltb, set}
use wdt.Common.{if◌then◌else◌}
use wdt.Common.Int.{ℤ, pos, negsuc}
use wdt.ErrorCodes.{ErrorCode, code, to_error_code}
use wdt.Wire.Types.{Status, Buffer, Encoder, Result, ok, refused, bailed, crashed, Decoder}
use wdt.Wire.Encoder.{◌>>◌, when}
use wdt.Wire.Decoder.{◌>>=◌, pure, when_or, decode_at}
use wdt.Varint.{encode_var_i64c, encode_var_i64}
use wdt.Serial.{encode_string, decode_string, decode_int64c, decode_int32, decode_byte}
use wdt.Serial.{FixedInt, encode_int32_fixed_length, encode_int64_fixed_length}
use wdt.Serial.{decode_int32_fixed_length, decode_int64_fixed_length}
use wdt.Protocol.{checkpoint_offset_version, abort_length}

pub encode_done : ℕ → ℕ → ℤ → ℤ → Encoder
encode_done version max num_blocks bytes_sent =
    encode_var_i64c max num_blocks
    >> when (leb checkpoint_offset_version version) (encode_var_i64c max bytes_sent)

-- The last argument is what the caller's `bytesSent` held before.
pub decode_done : ℕ → ℤ → Decoder (ℤ × ℤ)
decode_done version old_bytes = do
  num_blocks ← decode_int64c
  when_or (leb checkpoint_offset_version version) (num_blocks, old_bytes)
      (decode_int64c >>= λ bytes_sent. pure (num_blocks, bytes_sent))

unfoldable pub encode_size : ℕ → ℤ → Encoder
encode_size = encode_var_i64c

pub decode_size : Decoder ℤ
decode_size = decode_int64c

unfoldable pub encode_footer : ℕ → ℤ → Encoder
encode_footer = encode_var_i64

pub decode_footer : Decoder ℤ
decode_footer = decode_int32

-- `enum EncryptionType` of util/EncryptionUtils.h, and what an `int64_t` cast to it may be besides.
pub data EncryptionType : Type 0 where
  enc_none enc_aes128_ctr enc_aes128_gcm num_enc_types : EncryptionType
  unnamed : ℤ → EncryptionType

abbrev pub encryption_code : EncryptionType → ℤ
encryption_code enc_none = pos 0
encryption_code enc_aes128_ctr = pos 1
encryption_code enc_aes128_gcm = pos 2
encryption_code num_enc_types = pos 3
encryption_code (unnamed v) = v

-- `static_cast<EncryptionType>(v)`
abbrev pub to_encryption_type : ℤ → EncryptionType
to_encryption_type (pos zero) = enc_none
to_encryption_type (pos (suc zero)) = enc_aes128_ctr
to_encryption_type (pos (suc (suc zero))) = enc_aes128_gcm
to_encryption_type (pos (suc (suc (suc zero)))) = num_enc_types
to_encryption_type (pos (suc (suc (suc (suc n))))) = unnamed (pos (suc (suc (suc (suc n)))))
to_encryption_type (negsuc n) = unnamed (negsuc n)

-- `dest[off++] = c`, with no test.
abbrev store_byte : ℕ → Encoder
store_byte c b = (Status.done, record { dest = set b.dest b.off c; off = b.off + 1 })

-- `return false` instead of `ok = false`.
abbrev or_bail {ℓ} : {A : Type ℓ} → Result A × List ℕ → Result A × List ℕ
or_bail (ok a, br) = (ok a, br)
or_bail (refused, br) = (bailed, br)
or_bail (bailed, br) = (bailed, br)
or_bail (crashed, br) = (crashed, br)

module _ (f : FixedInt) where
  abbrev abort_fields : ℕ → ℤ → ErrorCode → ℤ → Encoder
  abort_fields max version err checkpoint =
      encode_int32_fixed_length f max version
      >> store_byte (code err % 256)
      >> encode_int64_fixed_length f max checkpoint

  pub encode_abort : ℕ → ℤ → ErrorCode → ℤ → Encoder
  encode_abort max version err checkpoint b =
      if ltb max (b.off + abort_length)
      then (Status.refused, b)
      else abort_fields max version err checkpoint b

  abbrev decode_abort_fields : Decoder (ℤ × ErrorCode × ℤ)
  decode_abort_fields = do
    version ← λ br. or_bail (decode_int32_fixed_length f br)
    c ← decode_byte
    checkpoint ← decode_int64_fixed_length f
    pure (version, to_error_code c, checkpoint)

  -- From memory, limit and offset.
  pub decode_abort : List ℕ → ℕ → ℕ → Result (ℤ × ErrorCode × ℤ) × ℕ
  decode_abort src max off =
      if ltb max (off + abort_length)
      then (bailed, off)
      else decode_at decode_abort_fields src max off

  pub encode_chunks_cmd : ℕ → ℤ → ℤ → Encoder
  encode_chunks_cmd max buf_size num_files =
      encode_int64_fixed_length f max buf_size >> encode_int64_fixed_length f max num_files

  pub decode_chunks_cmd : Decoder (ℤ × ℤ)
  decode_chunks_cmd = do
    buf_size ← decode_int64_fixed_length f
    num_files ← decode_int64_fixed_length f
    pure (buf_size, num_files)

  pub encode_encryption_settings : ℕ → EncryptionType → List ℕ → ℤ → Encoder
  encode_encryption_settings max encryption_type iv tag_interval =
      encode_var_i64c max (encryption_code encryption_type)
      >> encode_string max iv
      >> encode_int32_fixed_length f max tag_interval

  pub decode_encryption_settings : Decoder (EncryptionType × List ℕ × ℤ)
  decode_encryption_settings = do
    v ← decode_int64c
    iv ← decode_string
    tag_interval ← decode_int32_fixed_length f
    pure (to_encryption_type v, iv, tag_interval)
