-- ===== src/TransferLog/Entries/Applied.antt =====
-- What the parser does with the entries that the receiver logs.
use wdt.Common.{◌-◌, ◌<◌, ◌≡◌, refl, arith, not}
use wdt.Common.{Bool, true, false, Option, some, length, if◌then◌else◌, le→ltb}
use wdt.Common.Int.{pos}
use wdt.ErrorCodes.{ErrorCode, invalid_log}
use wdt.TransferLog.{Parser, ParserConfig, Disk}
use wdt.TransferLog.{max_entry_length, wlog_version}
use wdt.TransferLog.Codec.Logged.{
  LogEntry, started, file_created, block_written, file_resized, file_invalidated,
  directory_invalidated, type_of, payload, IsLoggable, decode_log_header-payload,
  decode_file_creation_entry-payload, decode_block_write_entry-payload,
  decode_file_resize_entry-payload, decode_file_invalidation_entry-payload,
  decode_directory_invalidation_entry-payload,
}
use wdt.TransferLog.Codec.{LogHeader}
use wdt.TransferLog.Entries.{
  process_entry, process_header_entry, process_file_creation_entry, process_file_resize_entry,
  process_block_write_entry, process_file_invalidation_entry, process_directory_invalidation_entry,
  header_checks, on_creation, on_resize, on_block, on_invalidation, on_directory_invalidation,
}

-- A handler, behind its test that a header came first.
abbrev if_header : Parser → Option (ErrorCode × Parser) → Option (ErrorCode × Parser)
if_header p r = if p.header_parsed then r else some (invalid_log, p)

-- What the parser does with the entry.
abbrev pub apply_entry : Disk → ParserConfig → LogEntry → Parser → Option (ErrorCode × Parser)
apply_entry d c (started now recovery_id sender_ip config) p =
    let h : LogHeader = record {
      timestamp = now;
      version = pos wlog_version;
      recovery_id = recovery_id;
      sender_ip = sender_ip;
      config = config;
    } in
    some (header_checks c h (record p { sender_ip = sender_ip }))
apply_entry d c (file_created now file_name seq_id file_size) p =
    if_header p (on_creation d c p (now, file_name, seq_id, file_size))
apply_entry d c (block_written now seq_id offset block_size) p =
    if_header p (on_block c p (now, seq_id, offset, block_size))
apply_entry d c (file_resized now seq_id file_size) p =
    if_header p (on_resize c p (now, seq_id, file_size))
apply_entry d c (file_invalidated now seq_id) p = if_header p (on_invalidation c p (now, seq_id))
apply_entry d c (directory_invalidated now) p = on_directory_invalidation c p now

if_not {ℓ} : {A : Type ℓ} (b : Bool) (x y : A) → (if not b then x else y) ≡ (if b then y else x)
if_not true x y = refl
if_not false x y = refl

module _ (d : Disk) (c : ParserConfig) where
  pub process_entry-payload :
      (e : LogEntry) (p : Parser)
      → IsLoggable e
      → length (payload e) < max_entry_length
      → process_entry d c (type_of e) (payload e) p ≡ apply_entry d c e p
  unfolding process_entry
  process_entry-payload (started now recovery_id sender_ip config) p h le =
      unfold process_header_entry in
      rw
        (
          le→ltb (max_entry_length - 1)
              (length (payload (started now recovery_id sender_ip config))) (omega arith),
          decode_log_header-payload now recovery_id sender_ip config p.sender_ip h,
        )
        refl
  process_entry-payload (file_created now file_name seq_id file_size) p h le =
      unfold process_file_creation_entry in
      rw (decode_file_creation_entry-payload now file_name seq_id file_size h)
        (if_not p.header_parsed _ _)
  process_entry-payload (block_written now seq_id offset block_size) p h le =
      unfold process_block_write_entry in
      rw (decode_block_write_entry-payload now seq_id offset block_size h)
        (if_not p.header_parsed _ _)
  process_entry-payload (file_resized now seq_id file_size) p h le =
      unfold process_file_resize_entry in
      rw (decode_file_resize_entry-payload now seq_id file_size h) (if_not p.header_parsed _ _)
  process_entry-payload (file_invalidated now seq_id) p h le =
      unfold process_file_invalidation_entry in
      rw (decode_file_invalidation_entry-payload now seq_id h) (if_not p.header_parsed _ _)
  process_entry-payload (directory_invalidated now) p h le =
      unfold process_directory_invalidation_entry in
      rw (decode_directory_invalidation_entry-payload now h) refl
