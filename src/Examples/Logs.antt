-- ===== src/Examples/Logs.antt =====
-- The transfer log at concrete inputs.
use wdt.Common.{
  ℕ, ◌≡◌, ◌∙◌, ◌⊎◌, refl, true, false, none, some, List, [], ◌∷◌, ◌++◌, map, length, replicate, All,
  arith,
}
use wdt.Common.Named.{bytes_eq}
use wdt.Common.Int.{pos, ◌+ℤ◌}
use wdt.Common.SortedMap.{find, emplace, assign, erase}
use wdt.ErrorCodes.{ok_code, invalid_log, inconsistent_directory, code}
use wdt.Varint.Groups.{groups}
use wdt.Protocol.{FileChunksInfo}
use wdt.Protocol.Chunks.{add_chunk}
use wdt.TransferLog.{ParserConfig, Disk}
use wdt.TransferLog.Codec.Logged.{LogEntry, started, file_created, block_written, logged, payload}
use wdt.TransferLog.Parse.{
  parse_log, Parsed, new_parser, after_scan, merged_chunks, write_file_invalidation_entries,
}
use wdt.TransferLog.Parse.Frames.{frame, frames}
use wdt.TransferLog.Parse.Replay.{IsShort, replay, parse_log-replay}
use wdt.TransferLog.Parse.Torn.{parse_log_torn}
use wdt.TransferLog.Parse.Returned.{IsRestorable, parse_log_returns}
use wdt.TransferLog.Parse.Fixed.{parse_log_again}
use wdt.TransferLog.Manager.{
  Manager, LogOptions, runs, close_log, add_file_creation_entry, invalidate_directory,
  write_log_header,
}
use wdt.TransferLog.Manager.Writer.{Adds, here, adds, close_log-Adds}
use wdt.TransferLog.Manager.Faults.{
  add_file_creation_entry_lem, invalidate_directory_fails, write_log_header_too_long,
}
use wdt.TransferLog.Manager.Resumed.{parse_log-close_log}
use wdt.Examples.Endian.{little_endian, little_endian-FixedIntLaws}
use wdt.Examples.Sorting.{sort, sort-IsSorting}

abbrev disk : Disk
disk = record {
  stat = λ name. some (pos 5);
  read_error = λ n. false;
  can_truncate = true;
  accepted = length;
}

abbrev options : LogOptions
options = record {
  root_dir = 47 ∷ [];
  resume_using_dir_tree = false;
  should_preallocate_files = true;
  disable_sender_verification_during_resumption = false;
}

abbrev config : ParserConfig
config = record {
  root_dir = 47 ∷ [];
  recovery_id = 97 ∷ [];
  config = pos 7;
  parse_only = false;
  resume_using_dir_tree = false;
  should_preallocate_files = true;
}

abbrev start_entry : LogEntry
start_entry = started (pos 5) (97 ∷ []) (49 ∷ []) (pos 7)

abbrev file_entry : LogEntry
file_entry = file_created (pos 6) (102 ∷ []) (pos 0) (pos 5)

abbrev block_entry : LogEntry
block_entry = block_written (pos 7) (pos 0) (pos 0) (pos 3)

abbrev session : List LogEntry
session = start_entry ∷ file_entry ∷ block_entry ∷ []

abbrev bytes_of : List LogEntry → List ℕ
bytes_of es = frames little_endian (map logged es)

session-IsShort : All IsShort session
unfolding payload groups
session-IsShort = (
  ((omega arith, omega arith, omega arith, omega arith), omega arith),
  (
    ((omega arith, omega arith, omega arith, omega arith), omega arith),
    (((omega arith, omega arith, omega arith, omega arith), omega arith), tt),
  ),
)

abbrev parsed_info : FileChunksInfo
parsed_info = record {
  seq_id = pos 0;
  file_name = 102 ∷ [];
  file_size = pos 5;
  chunks = record { start = pos 0; stop = pos 3 } ∷ [];
}

abbrev parsed : Parsed
parsed = record {
  status = ok_code;
  log = bytes_of session;
  sender_ip = 49 ∷ [];
  chunks = merged_chunks little_endian disk config sort ((pos 0, parsed_info) ∷ []);
}

parse_session : parse_log little_endian disk config sort (pos 9) [] (bytes_of session) ≡ some parsed
unfolding bytes_eq find emplace assign erase add_chunk write_file_invalidation_entries code ◌+ℤ◌
parse_session =
    parse_log-replay little_endian little_endian-FixedIntLaws disk (λ n. refl) config sort (pos 9)
      [] session session-IsShort
    ∙ refl

-- A block of the session, cut off behind four bytes.
abbrev torn_front : List ℕ
torn_front = 5 ∷ 0 ∷ 2 ∷ 7 ∷ []

parse_log_torn_example :
    parse_log little_endian disk config sort (pos 9) [] (bytes_of session ++ torn_front)
    ≡ parse_log little_endian disk config sort (pos 9) [] (bytes_of session)
unfolding payload groups code
parse_log_torn_example =
    parse_log_torn little_endian little_endian-FixedIntLaws disk (λ n. refl) config sort (pos 9)
      refl refl (map logged session) (logged block_entry) torn_front 0 (0 ∷ 3 ∷ []) [] parsed
      (omega arith, (omega arith, (omega arith, tt))) (omega arith) refl (λ e. cc) parse_session
      (λ e. cc)

parse_log_again_example :
    parse_log little_endian disk config sort (pos 9) [] parsed.log ≡ some parsed
parse_log_again_example =
    parse_log_again little_endian little_endian-FixedIntLaws disk (λ n. refl) config refl (pos 9)
      (omega arith) sort [] (bytes_of session) parsed parse_session refl

parse_log_returns_example :
    (r : Parsed) × (parse_log little_endian disk config sort (pos 9) [] (1 ∷ 2 ∷ 3 ∷ []) ≡ some r)
    × ((r.status ≡ ok_code)
        ⊎ ((r.status ≡ inconsistent_directory) × (r.chunks ≡ []))
        ⊎ (r.status ≡ invalid_log))
    × All (IsRestorable disk config) r.chunks
parse_log_returns_example =
    parse_log_returns little_endian little_endian-FixedIntLaws disk config sort sort-IsSorting
      (pos 9) (omega arith) [] (1 ∷ 2 ∷ 3 ∷ [])

abbrev manager : Manager
manager = record {
  is_open = true;
  log = bytes_of (start_entry ∷ []);
  recovery_id = 97 ∷ [];
  sender_ip = 49 ∷ [];
  config = pos 7;
  entries = [];
  finished = false;
  resumption_status = ok_code;
  header_written = true;
  writer_thread = runs;
}

abbrev added : Manager
added = record manager { entries = frame little_endian (logged file_entry) ∷ [] }

add_file_creation_entry_example :
    add_file_creation_entry little_endian disk options (pos 6) (102 ∷ []) (pos 0) (pos 5) manager
    ≡ some added
add_file_creation_entry_example =
    add_file_creation_entry_lem little_endian little_endian-FixedIntLaws disk options (pos 6)
      (omega arith) manager (102 ∷ []) (pos 0) (pos 5) (omega arith) (omega arith) (omega arith)
      refl refl

added-Adds :
    Adds little_endian little_endian-FixedIntLaws disk options manager (file_entry ∷ []) added
unfolding payload groups
added-Adds =
    adds file_entry here (omega arith, omega arith, omega arith, omega arith) (omega arith)
      (add_file_creation_entry_lem little_endian little_endian-FixedIntLaws disk options (pos 6)
        (omega arith) manager (102 ∷ []) (pos 0) (pos 5) (omega arith) (omega arith) (omega arith)
        refl refl)
      refl

close_log-Adds_example :
    ((close_log disk options added).log ≡ bytes_of (start_entry ∷ []) ++ bytes_of (file_entry ∷ []))
    × ((close_log disk options added).entries ≡ [])
    × ((close_log disk options added).is_open ≡ false)
close_log-Adds_example =
    close_log-Adds little_endian little_endian-FixedIntLaws disk options manager added
      (file_entry ∷ []) (λ bytes. refl) refl refl refl refl added-Adds refl

parse_log-close_log_example :
    parse_log little_endian disk config sort (pos 9) [] (close_log disk options added).log
    ≡ after_scan little_endian disk config sort
        (pos 9)
        (close_log disk options added).log
        (replay disk config (start_entry ∷ file_entry ∷ []) ok_code (new_parser []))
parse_log-close_log_example =
    parse_log-close_log little_endian little_endian-FixedIntLaws disk options config sort (pos 9) []
      manager added (start_entry ∷ []) (file_entry ∷ []) (λ n. refl) (λ bytes. refl) refl
      (session-IsShort.0, tt) refl refl refl refl added-Adds refl

-- A disk that takes no byte.
abbrev full_disk : Disk
full_disk = record disk { accepted = λ bytes. 0 }

invalidate_directory_fails_example :
    invalidate_directory little_endian full_disk options (pos 9) manager ≡ none
invalidate_directory_fails_example =
    invalidate_directory_fails little_endian little_endian-FixedIntLaws full_disk options (pos 9)
      (omega arith) manager refl (λ bytes h. h)

abbrev long_manager : Manager
long_manager = record manager { log = []; header_written = false; recovery_id = replicate 4129 97 }

write_log_header_too_long_example :
    write_log_header little_endian disk options (pos 9) long_manager
    ≡ some (record long_manager { resumption_status = ok_code; header_written = true })
write_log_header_too_long_example =
    write_log_header_too_long little_endian little_endian-FixedIntLaws disk options (pos 9)
      (omega arith) long_manager refl (omega arith) (omega arith)
