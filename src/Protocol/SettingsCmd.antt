-- ===== src/Protocol/SettingsCmd.antt =====
-- `encodeSettings`, `decodeVersion` and `decodeSettings` of Protocol.cpp.
pub mod RoundTrip
use wdt.Common.{ℕ, zero, suc, ◌+◌, Bool, true, false, not, List, [], leb, ◌==◌, if◌then◌else◌}
use wdt.Common.{bit_and, bit_or, ◌∷◌, length, take, drop}
use wdt.Common.Int.{ℤ, pos}
use wdt.Wire.Types.{Encoder, Result, bailed, Decoder}
use wdt.Wire.Memory.{span}
use wdt.Wire.Encoder.{◌>>◌, when}
use wdt.Wire.Decoder.{◌>>=◌, pure, when_or, decode_at}
use wdt.Varint.{encode_var_i64c}
use wdt.Serial.{encode_string, decode_string, decode_int32c, encode_byte, decode_byte_or_bail}
use wdt.Protocol.{Settings, settings_flag_version}

-- `if (set) { flags |= mask; }`
abbrev set_flag : Bool → ℕ → ℕ → ℕ
set_flag set mask flags = if set then bit_or flags mask else flags

pub settings_flags : Settings → ℕ
settings_flags s = set_flag s.enable_heart_beat 8 (
    set_flag s.block_mode_disabled 4
      (set_flag s.send_file_chunks 2 (set_flag s.enable_checksum 1 0)))

pub encode_settings : ℕ → ℕ → Settings → Encoder
encode_settings version max s =
    encode_var_i64c max (pos version)
    >> encode_var_i64c max s.read_timeout_millis
    >> encode_var_i64c max s.write_timeout_millis
    >> encode_string max s.transfer_id
    >> when (leb settings_flag_version version) (encode_byte max (settings_flags s))

pub decode_version : Decoder ℤ
decode_version = decode_int32c

-- `flags & mask` as a bool
abbrev pub has_flag : ℕ → ℕ → Bool
has_flag flags mask = not (bit_and flags mask == 0)

abbrev pub with_flags : Settings → ℕ → Settings
with_flags s flags = record s {
  enable_checksum = has_flag flags 1;
  send_file_chunks = has_flag flags 2;
  block_mode_disabled = has_flag flags 4;
  enable_heart_beat = has_flag flags 8;
}

-- The part behind the two tests of the offset; `s` is what the caller's `Settings` held before.
settings_fields : ℕ → Settings → Decoder Settings
settings_fields version s = do
  read ← decode_int32c
  write ← decode_int32c
  id ← decode_string
  let s' : Settings = record s {
    read_timeout_millis = read;
    write_timeout_millis = write;
    transfer_id = id;
    enable_checksum = false;
    send_file_chunks = false;
  }
  when_or (leb settings_flag_version version) s'
      (decode_byte_or_bail >>= λ flags. pure (with_flags s' flags))

-- From memory, limit and offset.
pub decode_settings : ℕ → Settings → List ℕ → ℕ → ℕ → Result Settings × ℕ
unfolding settings_fields
decode_settings version s src max off =
    if leb max off then (bailed, off) else decode_at (settings_fields version s) src max off
