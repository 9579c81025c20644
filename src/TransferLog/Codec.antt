-- ===== src/TransferLog/Codec.antt =====
-- LogEncoderDecoder. The time is an argument.
pub mod Written
pub mod Logged
pub mod Lengths
pub mod Yield
use wdt.Common.{ℕ, ◌+◌, ◌-◌, ◌%◌, ◌^◌, List, [], ◌∷◌, set, ltb, if◌then◌else◌, replicate}
use wdt.Common.Int.{ℤ, pos, negsuc}
use wdt.Wire.Types.{Status, Buffer, Encoder, Result, ok, refused, bailed, crashed, Decoder}
use wdt.Wire.Memory.{copy}
use wdt.Wire.Encoder.{◌>>◌}
use wdt.Wire.Decoder.{◌>>=◌, pure}
use wdt.Varint.{encode_var_i64c}
use wdt.Serial.{encode_string, decode_string, decode_int64c, decode_int32c, FixedInt}
use wdt.TransferLog.{EntryType, header, file_creation, block_write, file_invalidation, file_resize}
use wdt.TransferLog.{directory_invalidation, entry_code, wlog_version}

-- `static_cast<int16_t>(size)`
abbrev pub to_int16 : ℕ → ℤ
to_int16 size =
    let low = size % 2 ^ 16 in if ltb low (2 ^ 15) then pos low else negsuc (2 ^ 16 - 1 - low)

module _ (f : FixedInt) where
  -- The length goes to the front; the offset is the size that is returned. A status of `refused` is
  -- a returned -1.
  abbrev pub store_length : Status × Buffer → Status × Buffer
  store_length (Status.done, b) =
      (Status.done, record b { dest = copy b.dest 0 (f.store 2 (to_int16 (b.off - 2))) })
  store_length (Status.refused, b) = (Status.refused, b)
  store_length (Status.crashed, b) = (Status.crashed, b)

  -- The steps that the encoders share: room for the length, the check, the type, and the fields.
  abbrev pub encode_entry : EntryType → ℕ → Encoder → List ℕ → Status × Buffer
  encode_entry type max fields dest =
      let b : Buffer = record { dest = set dest 2 (entry_code type); off = 3 } in
      if ltb max 3
      then (Status.crashed, record { dest = dest; off = 2 })
      else store_length (fields b)

  -- `ptr` is `dest + 2` and `max` is smaller by two, so that offsets and limit are those from `dest`.
  pub encode_log_header : ℤ → ℕ → List ℕ → List ℕ → List ℕ → ℤ → Status × Buffer
  encode_log_header now max dest recovery_id sender_ip config =
      encode_entry header max
        (encode_var_i64c max now
          >> encode_var_i64c max (pos wlog_version)
          >> encode_string max recovery_id
          >> encode_string max sender_ip
          >> encode_var_i64c max config)
        dest

  pub encode_file_creation_entry : ℤ → ℕ → List ℕ → List ℕ → ℤ → ℤ → Status × Buffer
  encode_file_creation_entry now max dest file_name seq_id file_size =
      encode_entry file_creation max
        (encode_var_i64c max now
          >> encode_string max file_name
          >> encode_var_i64c max seq_id
          >> encode_var_i64c max file_size)
        dest

  pub encode_block_write_entry : ℤ → ℕ → List ℕ → ℤ → ℤ → ℤ → Status × Buffer
  encode_block_write_entry now max dest seq_id offset block_size =
      encode_entry block_write max
        (encode_var_i64c max now
          >> encode_var_i64c max seq_id
          >> encode_var_i64c max offset
          >> encode_var_i64c max block_size)
        dest

  pub encode_file_resize_entry : ℤ → ℕ → List ℕ → ℤ → ℤ → Status × Buffer
  encode_file_resize_entry now max dest seq_id file_size =
      encode_entry file_resize max
        (encode_var_i64c max now >> encode_var_i64c max seq_id >> encode_var_i64c max file_size)
        dest

  pub encode_file_invalidation_entry : ℤ → ℕ → List ℕ → ℤ → Status × Buffer
  encode_file_invalidation_entry now max dest seq_id =
      encode_entry file_invalidation max (encode_var_i64c max now >> encode_var_i64c max seq_id)
        dest

  pub encode_directory_invalidation_entry : ℤ → ℕ → List ℕ → Status × Buffer
  encode_directory_invalidation_entry now max dest =
      encode_entry directory_invalidation max (encode_var_i64c max now) dest

-- `if (!ok || br.size() != 0) { return false; }`
abbrev pub to_the_end {ℓ} : {A : Type ℓ} → Result A × List ℕ → Result A
to_the_end (ok a, []) = ok a
to_the_end (ok a, b ∷ br) = refused
to_the_end (refused, br) = refused
to_the_end (bailed, br) = refused
to_the_end (crashed, br) = crashed

pub record LogHeader : Type 0 where
  pub timestamp : ℤ
  pub version : ℤ
  pub recovery_id : List ℕ
  pub sender_ip : List ℕ
  pub config : ℤ

-- All fields but the last.
abbrev pub header_front : Decoder (ℤ × ℤ × List ℕ × List ℕ)
header_front = do
  timestamp ← decode_int64c
  version ← decode_int32c
  recovery_id ← decode_string
  sender_ip ← decode_string
  pure (timestamp, version, recovery_id, sender_ip)

abbrev pub header_fields : Decoder LogHeader
header_fields = do
  (timestamp, version, recovery_id, sender_ip) ← header_front
  config ← decode_int64c
  pure (record {
    timestamp = timestamp;
    version = version;
    recovery_id = recovery_id;
    sender_ip = sender_ip;
    config = config;
  })

-- What the caller's `senderIp` holds behind: it is set before the last field is decoded.
abbrev pub sender_ip_behind : List ℕ → Result (ℤ × ℤ × List ℕ × List ℕ) × List ℕ → List ℕ
sender_ip_behind old (ok (timestamp, version, recovery_id, sender_ip), br) = sender_ip
sender_ip_behind old (refused, br) = old
sender_ip_behind old (bailed, br) = old
sender_ip_behind old (crashed, br) = old

pub decode_log_header : List ℕ → List ℕ → Result LogHeader × List ℕ
decode_log_header old_sender_ip br =
    (to_the_end (header_fields br), sender_ip_behind old_sender_ip (header_front br))

abbrev pub creation_fields : Decoder (ℤ × List ℕ × ℤ × ℤ)
creation_fields = do
  timestamp ← decode_int64c
  file_name ← decode_string
  seq_id ← decode_int64c
  file_size ← decode_int64c
  pure (timestamp, file_name, seq_id, file_size)

pub decode_file_creation_entry : List ℕ → Result (ℤ × List ℕ × ℤ × ℤ)
decode_file_creation_entry br = to_the_end (creation_fields br)

abbrev pub block_fields : Decoder (ℤ × ℤ × ℤ × ℤ)
block_fields = do
  timestamp ← decode_int64c
  seq_id ← decode_int64c
  offset ← decode_int64c
  block_size ← decode_int64c
  pure (timestamp, seq_id, offset, block_size)

pub decode_block_write_entry : List ℕ → Result (ℤ × ℤ × ℤ × ℤ)
decode_block_write_entry br = to_the_end (block_fields br)

abbrev pub resize_fields : Decoder (ℤ × ℤ × ℤ)
resize_fields = do
  timestamp ← decode_int64c
  seq_id ← decode_int64c
  file_size ← decode_int64c
  pure (timestamp, seq_id, file_size)

pub decode_file_resize_entry : List ℕ → Result (ℤ × ℤ × ℤ)
decode_file_resize_entry br = to_the_end (resize_fields br)

abbrev pub invalidation_fields : Decoder (ℤ × ℤ)
invalidation_fields = do timestamp ← decode_int64c; seq_id ← decode_int64c; pure (timestamp, seq_id)

pub decode_file_invalidation_entry : List ℕ → Result (ℤ × ℤ)
decode_file_invalidation_entry br = to_the_end (invalidation_fields br)

pub decode_directory_invalidation_entry : List ℕ → Result ℤ
decode_directory_invalidation_entry br = to_the_end (decode_int64c br)
