-- ===== src/Protocol.antt =====
-- Protocol.h and the small functions of Protocol.cpp: feature versions, command bytes, lengths, and
-- the structures that the messages carry. An `int32_t` or `int64_t` field is an integer, a protocol
-- version a natural number, a `std::string` the list of its bytes.
pub mod Header
pub mod CheckpointList
pub mod SettingsCmd
pub mod Commands
pub mod Chunks
pub mod FileChunks
pub mod Safety
use wdt.Common.{ℕ, zero, suc, ◌+◌, ◌*◌, Bool, true, false, List, [], ◌∷◌, length, ltb, leb, ◌==◌}
use wdt.Common.{if◌then◌else◌, ◌&&◌, ◌||◌}
use wdt.Common.Int.{ℤ, pos, negsuc, ltb_ℤ, leb_ℤ, ◌-ℤ◌, ◌+ℤ◌}

-- The feature versions that the encodings depend on.
abbrev pub settings_flag_version : ℕ
settings_flag_version = 12

abbrev pub header_flag_and_prev_seq_id_version : ℕ
header_flag_and_prev_seq_id_version = 13

abbrev pub checkpoint_offset_version : ℕ
checkpoint_offset_version = 16

abbrev pub checkpoint_seq_id_version : ℕ
checkpoint_seq_id_version = 21

abbrev pub varint_change : ℕ
varint_change = 27

pub negotiate_protocol : ℤ → ℤ → ℤ
negotiate_protocol requested cur =
    if ltb_ℤ requested (pos 10) then pos 0 else if ltb_ℤ requested cur then requested else cur

-- Lengths of Protocol.h.
abbrev pub max_transfer_id_length : ℕ
max_transfer_id_length = 1024

-- `PATH_MAX` is 4096 on Linux.
abbrev pub path_max : ℕ
path_max = 4096

abbrev pub max_header : ℕ
max_header = 1 + 2 + path_max + 4 * 10 + 1 + 10

abbrev pub max_done : ℕ
max_done = 2 + 2 * 10

abbrev pub max_size : ℕ
max_size = 1 + 10

abbrev pub max_settings : ℕ
max_settings = 1 + 3 * 10 + max_transfer_id_length + 1

abbrev pub max_footer : ℕ
max_footer = 1 + 10

abbrev pub chunks_cmd_len : ℕ
chunks_cmd_len = 2 * 8

abbrev pub max_chunk_encode_len : ℕ
max_chunk_encode_len = 20

abbrev pub abort_length : ℕ
abort_length = 4 + 1 + 8

abbrev pub aes_block_size : ℕ
aes_block_size = 16

abbrev pub encryption_cmd_len : ℕ
encryption_cmd_len = 1 + 1 + 1 + aes_block_size + 4

unfoldable pub get_max_local_checkpoint_length : ℕ → ℕ
get_max_local_checkpoint_length version =
    10
    + 2 * 10
    + (if leb checkpoint_offset_version version then 10 else 0)
    + (if leb checkpoint_seq_id_version version then 2 * 10 else 0)

pub record Checkpoint : Type 0 where
  pub port : ℤ
  pub num_blocks : ℤ
  pub last_block_seq_id : ℤ
  pub last_block_offset : ℤ
  pub last_block_received_bytes : ℤ
  pub has_seq_id : Bool

-- `Checkpoint()`
abbrev pub new_checkpoint : Checkpoint
new_checkpoint = record {
  port = pos 0;
  num_blocks = pos 0;
  last_block_seq_id = pos 0;
  last_block_offset = pos 0;
  last_block_received_bytes = pos 0;
  has_seq_id = false;
}

pub record Interval : Type 0 where
  pub start : ℤ
  pub stop : ℤ

-- `Interval::size`
abbrev pub interval_size : Interval → ℤ
interval_size chunk = chunk.stop -ℤ chunk.start

pub record FileChunksInfo : Type 0 where
  pub seq_id : ℤ
  pub file_name : List ℕ
  pub file_size : ℤ
  pub chunks : List Interval

-- A byte may be cast to a value that the enumeration does not name.
pub data FileAllocationStatus : Type 0 where
  not_exists exists_correct_size exists_too_large exists_too_small to_be_deleted :
      FileAllocationStatus
  unnamed : ℕ → FileAllocationStatus

abbrev pub status_code : FileAllocationStatus → ℕ
status_code not_exists = 0
status_code exists_correct_size = 1
status_code exists_too_large = 2
status_code exists_too_small = 3
status_code to_be_deleted = 4
status_code (unnamed n) = n

-- `(FileAllocationStatus)n`
abbrev pub to_status : ℕ → FileAllocationStatus
to_status zero = not_exists
to_status (suc zero) = exists_correct_size
to_status (suc (suc zero)) = exists_too_large
to_status (suc (suc (suc zero))) = exists_too_small
to_status (suc (suc (suc (suc zero)))) = to_be_deleted
to_status (suc (suc (suc (suc (suc n))))) = unnamed (suc (suc (suc (suc (suc n)))))

pub record BlockDetails : Type 0 where
  pub file_name : List ℕ
  pub seq_id : ℤ
  pub file_size : ℤ
  pub offset : ℤ
  pub data_size : ℤ
  pub allocation_status : FileAllocationStatus
  pub prev_seq_id : ℤ

pub record Settings : Type 0 where
  pub read_timeout_millis : ℤ
  pub write_timeout_millis : ℤ
  pub transfer_id : List ℕ
  pub enable_checksum : Bool
  pub send_file_chunks : Bool
  pub block_mode_disabled : Bool
  pub enable_heart_beat : Bool
