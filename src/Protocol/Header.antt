-- ===== src/Protocol/Header.antt =====
-- `encodeHeader` and `decodeHeader` of Protocol.cpp.
pub mod RoundTrip
pub mod Total
use wdt.Common.{ℕ, ◌%◌, Bool, true, false, List, [], leb, ◌==◌, if◌then◌else◌, ◌||◌, bit_and}
use wdt.Common.Int.{ℤ}
use wdt.Wire.Types.{Encoder, Decoder}
use wdt.Wire.Encoder.{◌>>◌, when}
use wdt.Wire.Decoder.{◌>>=◌, pure, when_or}
use wdt.Varint.{encode_var_i64c}
use wdt.Serial.{encode_string, decode_string, decode_int64c, encode_byte, decode_byte_or_bail}
use wdt.Protocol.{BlockDetails, FileAllocationStatus, exists_too_large, exists_too_small}
use wdt.Protocol.{status_code, to_status, header_flag_and_prev_seq_id_version}

-- Where the receiver holds the file at another size, the seq-id of the previous transfer follows.
abbrev pub is_size_mismatch : ℕ → Bool
is_size_mismatch flags =
    flags == status_code exists_too_small || flags == status_code exists_too_large

-- `uint8_t flags = blockDetails.allocationStatus`
abbrev pub flags_of : BlockDetails → ℕ
flags_of d = status_code d.allocation_status % 256

encode_flags : ℕ → BlockDetails → Encoder
encode_flags max d =
    encode_byte max (flags_of d)
    >> when (is_size_mismatch (flags_of d)) (encode_var_i64c max d.prev_seq_id)

pub encode_header : ℕ → ℕ → BlockDetails → Encoder
unfolding encode_flags
encode_header version max d =
    encode_string max d.file_name
    >> encode_var_i64c max d.seq_id
    >> encode_var_i64c max d.data_size
    >> encode_var_i64c max d.offset
    >> encode_var_i64c max d.file_size
    >> when (leb header_flag_and_prev_seq_id_version version) (encode_flags max d)

-- The low three bits of the flags are the status; `d` holds what was decoded before.
abbrev decode_prev : BlockDetails → ℕ → Decoder BlockDetails
decode_prev d flags =
    let d' : BlockDetails = record d { allocation_status = to_status (bit_and flags 7) } in
    when_or (is_size_mismatch (status_code d'.allocation_status)) d'
      (decode_int64c >>= λ prev. pure (record d' { prev_seq_id = prev }))

decode_flags : BlockDetails → Decoder BlockDetails
decode_flags d = decode_byte_or_bail >>= decode_prev d

-- `d` is what the caller's `BlockDetails` held before.
pub decode_header : ℕ → BlockDetails → Decoder BlockDetails
unfolding decode_flags
decode_header version d = do
  name ← decode_string
  seq_id ← decode_int64c
  data_size ← decode_int64c
  offset ← decode_int64c
  file_size ← decode_int64c
  let d' : BlockDetails = record d {
    file_name = name;
    seq_id = seq_id;
    data_size = data_size;
    offset = offset;
    file_size = file_size;
  }
  when_or (leb header_flag_and_prev_seq_id_version version) d' (decode_flags d')
