-- ===== src/TransferLog/Manager.antt =====
-- TransferLogManager, apart from opening, locking, checking and unlinking the file. What is written
-- goes to the end of the log. A result of `none` is a failed WDT_CHECK, or an exception of
-- std::string for the size -1. fsync and close succeed; the log is not replaced under the manager.
pub mod Writer
pub mod Resumption
pub mod Faults
pub mod Resumed
use wdt.Common.{
  ℕ, zero, suc, ◌+◌, ◌-◌, Bool, true, false, not, ◌&&◌, ◌||◌, Option, none, some, List, [], ◌∷◌,
  ◌++◌,
}
use wdt.Common.{ltb, ◌==◌, if◌then◌else◌, length, take, replicate}
use wdt.Common.Int.{ℤ, pos, eqb_ℤ}
use wdt.ErrorCodes.{ErrorCode, ok_code, invalid_log, inconsistent_directory, code}
use wdt.Wire.Types.{Status, Buffer}
use wdt.Serial.{FixedInt}
use wdt.Protocol.{FileChunksInfo, Interval}
use wdt.Protocol.Chunks.{get_total_chunk_size}
use wdt.TransferLog.{ParserConfig, Disk, max_entry_length}
use wdt.TransferLog.Codec.{
  encode_log_header, encode_file_creation_entry, encode_block_write_entry, encode_file_resize_entry,
  encode_file_invalidation_entry, encode_directory_invalidation_entry,
}
use wdt.Common.Named.{bytes_eq}
use wdt.TransferLog.Entries.{is_empty}
use wdt.TransferLog.Parse.{parse_log, Parsed, write_entry, same_code}

-- `writerThread_`: not joinable, in its loop, or behind it and not yet joined.
pub data WriterThread : Type 0 where
  not_started runs ended : WriterThread

pub record Manager : Type 0 where
  pub is_open : Bool
  pub log : List ℕ
  pub recovery_id : List ℕ
  pub sender_ip : List ℕ
  pub config : ℤ
  pub entries : List (List ℕ)
  pub finished : Bool
  pub resumption_status : ErrorCode
  pub header_written : Bool
  pub writer_thread : WriterThread

-- The options that the manager reads.
pub record LogOptions : Type 0 where
  pub root_dir : List ℕ
  pub resume_using_dir_tree : Bool
  pub should_preallocate_files : Bool
  pub disable_sender_verification_during_resumption : Bool

abbrev pub buffer : List ℕ
buffer = replicate max_entry_length 0

abbrev pub concat : List (List ℕ) → List ℕ
concat [] = []
concat (e ∷ es) = e ++ concat es

-- `writeEntriesToDiskNoLock`
pub write_entries_to_disk_no_lock : Disk → List (List ℕ) → List ℕ → Bool × List ℕ
write_entries_to_disk_no_lock d entries log =
    let buffer = concat entries in
    if is_empty buffer
    then (true, log)
    else (d.accepted buffer == length buffer, log ++ take (d.accepted buffer) buffer)

-- A round of `threadProcWriteEntriesToDisk`, behind the wait: the entries are taken under the lock and
-- written; the thread ends behind a failed write, or where the manager is finished.
pub writer_round : Disk → Manager → Manager
writer_round d m =
    let (wrote, log) = write_entries_to_disk_no_lock d m.entries m.log in
    record m {
      entries = [];
      log = log;
      writer_thread = if wrote && not m.finished then runs else ended;
    }

-- A thread in its loop has one more round, which sees `finished_`; then it is joined.
abbrev joined : Disk → WriterThread → Manager → Manager
joined d not_started m = m
joined d runs m = record (writer_round d (record m { finished = true })) {
  writer_thread = not_started;
}
joined d ended m = record m { finished = true; writer_thread = not_started }

pub shutdown_thread : Disk → Manager → Manager
shutdown_thread d m = joined d m.writer_thread m

pub start_thread : LogOptions → Manager → ErrorCode × Manager
start_thread o m =
    if o.resume_using_dir_tree
    then (ok_code, m)
    else if not (same_code m.resumption_status ok_code)
    then (m.resumption_status, m)
    else (ok_code, record m { writer_thread = runs })

pub close_log : Disk → LogOptions → Manager → Manager
unfolding shutdown_thread
close_log d o m =
    let m' : Manager = if o.resume_using_dir_tree then m else shutdown_thread d m in
    if m.is_open then record m' { is_open = false } else m

pub fsync_log : Manager → Option Manager
fsync_log m = if m.is_open then some m else none

-- `entries_.emplace_back(buf, size)`
abbrev pub emplace_back : Status × Buffer → Manager → Option Manager
emplace_back (Status.done, b) m = some (record m { entries = m.entries ++ take b.off b.dest ∷ [] })
emplace_back (Status.refused, b) m = none
emplace_back (Status.crashed, b) m = none

module _ (f : FixedInt) (d : Disk) (o : LogOptions) (now : ℤ) where
  -- A write of an entry at once, with what follows a failed write and a whole one.
  abbrev pub written_or :
      (Manager → Option Manager)
      → (Manager → Option Manager)
      → Manager
      → Option (Bool × List ℕ)
      → Option Manager
  written_or failed whole m none = none
  written_or failed whole m (some (true, log)) = whole (record m { log = log })
  written_or failed whole m (some (false, log)) = failed (record m { log = log })

  -- Behind a failed write the log is closed, and then synced all the same.
  pub invalidate_directory : Manager → Option Manager
  unfolding close_log fsync_log
  invalidate_directory m =
      let m' : Manager = record m { resumption_status = inconsistent_directory } in
      let wrote =
        written_or (λ x. fsync_log (close_log d o x)) fsync_log m'
          (write_entry f d now (encode_directory_invalidation_entry f now max_entry_length buffer)
            m.log) in
      if m.is_open then wrote else some m

  abbrev pub header_done : Option Manager → Option Manager
  header_done none = none
  header_done (some m) = some (record m { resumption_status = ok_code; header_written = true })

  pub write_log_header : Manager → Option Manager
  unfolding close_log fsync_log
  write_log_header m =
      let wrote =
        written_or (λ x. some (close_log d o x)) (λ x. header_done (fsync_log x)) m
          (write_entry f d now
            (encode_log_header f now max_entry_length buffer m.recovery_id m.sender_ip m.config)
            m.log) in
      if m.is_open then wrote else some m

  pub add_file_creation_entry : List ℕ → ℤ → ℤ → Manager → Option Manager
  add_file_creation_entry file_name seq_id file_size m =
      let added =
        emplace_back
          (encode_file_creation_entry f now max_entry_length buffer file_name seq_id file_size) m in
      if not m.is_open || not m.header_written then some m else added

  pub add_block_write_entry : ℤ → ℤ → ℤ → Manager → Option Manager
  add_block_write_entry seq_id offset block_size m =
      let added =
        emplace_back
          (encode_block_write_entry f now max_entry_length buffer seq_id offset block_size) m in
      if not m.is_open || not m.header_written then some m else added

  pub add_file_resize_entry : ℤ → ℤ → Manager → Option Manager
  add_file_resize_entry seq_id file_size m =
      let added =
        emplace_back (encode_file_resize_entry f now max_entry_length buffer seq_id file_size) m in
      if not m.is_open || not m.header_written then some m else added

  pub add_file_invalidation_entry : ℤ → Manager → Option Manager
  add_file_invalidation_entry seq_id m =
      let added =
        emplace_back (encode_file_invalidation_entry f now max_entry_length buffer seq_id) m in
      if not m.is_open then some m else added
