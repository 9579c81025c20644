-- ===== src/Examples/Headers.antt =====
-- The theorems on headers and settings at concrete inputs.
use wdt.Common.{ℕ, ◌≤◌, ◌≡◌, [], ◌∷◌, replicate, length-replicate, arith}
use wdt.Common.{true, false}
use wdt.Common.Int.{pos}
use wdt.Wire.Types.{Status, Buffer, ok}
use wdt.Wire.Decoder.{decode_at, IsFalse}
use wdt.Wire.Exchange.{IsRoom}
use wdt.Protocol.{BlockDetails, FileAllocationStatus, Settings}
use wdt.Protocol.{max_header, max_settings}
use wdt.Protocol.Header.{encode_header, decode_header}
use wdt.Protocol.Header.RoundTrip.{
  IsBlock, decode_header-encode_header, decode_header_short, encode_header_fits,
}
use wdt.Protocol.Header.RoundTrip.{encode_header_advances}
use wdt.Protocol.SettingsCmd.{encode_settings, decode_settings, decode_version}
use wdt.Protocol.SettingsCmd.RoundTrip.{
  IsSettings, decode_settings-encode_settings, encode_settings_fits,
}
use wdt.Protocol.Header.RoundTrip as Header
use wdt.Protocol.SettingsCmd.RoundTrip as SettingsCmd

-- The second block of a file that the receiver holds with another size.
abbrev block : BlockDetails
block = record {
  file_name = 97 ∷ 47 ∷ 98 ∷ [];
  seq_id = pos 300;
  file_size = pos 70000;
  offset = pos 65536;
  data_size = pos 4464;
  allocation_status = FileAllocationStatus.exists_too_small;
  prev_seq_id = pos 12;
}

abbrev new_block : BlockDetails
new_block = record {
  file_name = [];
  seq_id = pos 0;
  file_size = pos 0;
  offset = pos 0;
  data_size = pos 0;
  allocation_status = FileAllocationStatus.not_exists;
  prev_seq_id = pos 0;
}

block-IsBlock : IsBlock block
block-IsBlock = record {
  name_size = omega arith;
  seq_id = omega arith;
  file_size = omega arith;
  offset = omega arith;
  data_size = omega arith;
  status = tt;
  prev_seq_id = omega arith;
}

abbrev pub after_command : ℕ → Buffer
after_command size = record { dest = replicate size 0; off = 1 }

pub after_command-IsRoom : (size : ℕ) → 1 ≤ size → IsRoom size (after_command size)
after_command-IsRoom size h = record {
  start = h;
  size = omega (arith, length-replicate {A = ℕ} size 0);
}

header_sent : (encode_header 27 max_header block (after_command max_header)).0 ≡ Status.done
header_sent =
    encode_header_fits 27 block (replicate max_header 0) block-IsBlock (omega arith)
      (omega (arith, length-replicate {A = ℕ} max_header 0))

decode_header-encode_header_example :
    decode_at
      (decode_header 27 new_block)
      (encode_header 27 max_header block (after_command max_header)).1.dest
      max_header
      1
    ≡ (
      ok (Header.received 27 new_block block),
      (encode_header 27 max_header block (after_command max_header)).1.off,
    )
decode_header-encode_header_example =
    decode_header-encode_header 27 max_header new_block block (after_command max_header)
      block-IsBlock (after_command-IsRoom max_header (omega arith)) header_sent

decode_header_short_example :
    IsFalse
      (decode_at
        (decode_header 27 new_block)
        (encode_header 27 max_header block (after_command max_header)).1.dest
        1
        1).0
decode_header_short_example =
    decode_header_short 27 max_header new_block block (after_command max_header) block-IsBlock
      (after_command-IsRoom max_header (omega arith)) header_sent 1 (omega arith)
      (encode_header_advances 27 max_header new_block block (after_command max_header) block-IsBlock
        (after_command-IsRoom max_header (omega arith)) header_sent)

encode_header_fits_example :
    (encode_header 27 max_header block (after_command max_header)).0 ≡ Status.done
encode_header_fits_example =
    encode_header_fits 27 block (replicate max_header 0) block-IsBlock (omega arith)
      (omega (arith, length-replicate {A = ℕ} max_header 0))

abbrev settings : Settings
settings = record {
  read_timeout_millis = pos 5000;
  write_timeout_millis = pos 7000;
  transfer_id = 49 ∷ 50 ∷ [];
  enable_checksum = true;
  send_file_chunks = false;
  block_mode_disabled = true;
  enable_heart_beat = false;
}

abbrev new_settings : Settings
new_settings = record {
  read_timeout_millis = pos 0;
  write_timeout_millis = pos 0;
  transfer_id = [];
  enable_checksum = false;
  send_file_chunks = false;
  block_mode_disabled = false;
  enable_heart_beat = false;
}

settings-IsSettings : IsSettings settings
settings-IsSettings = record { read = omega arith; write = omega arith; id = omega arith }

encode_settings_fits_example :
    (encode_settings 27 max_settings settings (after_command max_settings)).0 ≡ Status.done
encode_settings_fits_example =
    encode_settings_fits 27 settings settings-IsSettings (replicate max_settings 0) (omega arith)
      (omega arith) (omega (arith, length-replicate {A = ℕ} max_settings 0))

settings_sent :
    (encode_settings 27 max_settings settings (after_command max_settings)).0 ≡ Status.done
settings_sent =
    encode_settings_fits 27 settings settings-IsSettings (replicate max_settings 0) (omega arith)
      (omega arith) (omega (arith, length-replicate {A = ℕ} max_settings 0))

decode_settings-encode_settings_example :
    let b' = (encode_settings 27 max_settings settings (after_command max_settings)).1 in
    (o : ℕ) × (decode_at decode_version b'.dest max_settings 1 ≡ (ok (pos 27), o))
    × (decode_settings 27 new_settings b'.dest max_settings o
        ≡ (ok (SettingsCmd.received 27 new_settings settings), b'.off))
decode_settings-encode_settings_example =
    decode_settings-encode_settings 27 settings settings-IsSettings max_settings new_settings
      (after_command max_settings) (omega arith) (after_command-IsRoom max_settings (omega arith))
      settings_sent
