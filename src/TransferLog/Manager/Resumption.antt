-- ===== src/TransferLog/Manager/Resumption.antt =====
-- TransferLogManager where a transfer resumes: the sender's address, the parsing and fixing of the
-- log, and its compaction.
use wdt.Common.{ℕ, Bool, true, false, not, ◌&&◌, Option, none, some, List, [], ◌∷◌}
use wdt.Common.{◌==◌, if◌then◌else◌, length}
use wdt.Common.Int.{ℤ, pos, eqb_ℤ}
use wdt.ErrorCodes.{ErrorCode, ok_code, invalid_log, inconsistent_directory}
use wdt.Serial.{FixedInt}
use wdt.Protocol.{FileChunksInfo, Interval}
use wdt.Protocol.Chunks.{get_total_chunk_size}
use wdt.TransferLog.{ParserConfig, Disk}
use wdt.TransferLog.Codec.{}
use wdt.Common.Named.{bytes_eq}
use wdt.TransferLog.Entries.{is_empty}
use wdt.TransferLog.Parse.{parse_log, Parsed, same_code}
use wdt.TransferLog.Manager.{
  LogOptions, Manager, write_entries_to_disk_no_lock, shutdown_thread, close_log,
  invalidate_directory, write_log_header, add_file_creation_entry, add_block_write_entry,
}

module _ (f : FixedInt) (d : Disk) (o : LogOptions) (now : ℤ) where
  abbrev with_sender : List ℕ → Bool → Option Manager → Option (Bool × Manager)
  with_sender sender_ip verified none = none
  with_sender sender_ip verified (some m) = some (verified, record m { sender_ip = sender_ip })

  pub verify_sender_ip : List ℕ → Manager → Option (Bool × Manager)
  unfolding invalidate_directory
  verify_sender_ip cur_sender_ip m =
      let invalidated = with_sender cur_sender_ip false (invalidate_directory f d o now m) in
      if not m.is_open
      then some (false, m)
      else if o.disable_sender_verification_during_resumption
      then with_sender cur_sender_ip true (some m)
      else if is_empty m.sender_ip
      then with_sender cur_sender_ip true (some m)
      else if not (bytes_eq m.sender_ip cur_sender_ip)
      then invalidated
      else with_sender cur_sender_ip true (some m)

  abbrev parser_config : List ℕ → ℤ → Bool → ParserConfig
  parser_config recovery_id config parse_only = record {
    root_dir = o.root_dir;
    recovery_id = recovery_id;
    config = config;
    parse_only = parse_only;
    resume_using_dir_tree = o.resume_using_dir_tree;
    should_preallocate_files = o.should_preallocate_files;
  }

  abbrev with_chunks :
      ErrorCode
      → List FileChunksInfo
      → Option Manager
      → Option (ErrorCode × List FileChunksInfo × Manager)
  with_chunks status chunks none = none
  with_chunks status chunks (some m) = some (status, chunks, m)

  -- Behind the parser.
  abbrev parsed_to :
      Bool → Manager → Option Parsed → Option (ErrorCode × List FileChunksInfo × Manager)
  parsed_to parse_only m none = none
  parsed_to parse_only m (some r) =
      let m' : Manager = record m {
        log = r.log;
        sender_ip = r.sender_ip;
        resumption_status = r.status;
      } in
      let invalidated =
        with_chunks inconsistent_directory r.chunks (invalidate_directory f d o now m') in
      if same_code r.status invalid_log
      then some (invalid_log, r.chunks, close_log d o m')
      else if same_code r.status inconsistent_directory && not parse_only
      then invalidated
      else some (r.status, r.chunks, m')

  module _ (sort : List Interval → List Interval) where
    -- On a manager that is not open the result is INVALID_LOG, and its status stays.
    pub parse_verify_and_fix :
        List ℕ → ℤ → Bool → Manager → Option (ErrorCode × List FileChunksInfo × Manager)
    unfolding invalidate_directory close_log
    parse_verify_and_fix recovery_id config parse_only m =
        let parsed = parsed_to parse_only m (
          parse_log f d (parser_config recovery_id config parse_only) sort now m.sender_ip m.log) in
        if m.is_open then parsed else some (invalid_log, [], m)

    pub parse_and_match : List ℕ → ℤ → Manager → Option (ErrorCode × List FileChunksInfo × Manager)
    parse_and_match recovery_id config m =
        parse_verify_and_fix recovery_id config false
          (record m { recovery_id = recovery_id; config = config })

    -- Each file has one chunk, of its size.
    pub is_compact : List FileChunksInfo → Bool
    is_compact [] = true
    is_compact (info ∷ infos) =
        let rest = is_compact infos in
        if not (length info.chunks == 1)
        then false
        else if not (eqb_ℤ (get_total_chunk_size info) info.file_size)
        then false
        else rest

    abbrev if_some : Option Manager → (Manager → Option Manager) → Option Manager
    if_some none k = none
    if_some (some m) k = k m

    -- `addFileCreationEntry` and `addBlockWriteEntry` for each file.
    pub add_files : List FileChunksInfo → Manager → Option Manager
    unfolding add_file_creation_entry add_block_write_entry
    add_files [] m = some m
    add_files (info ∷ infos) m =
        if_some (add_file_creation_entry f d o now info.file_name info.seq_id info.file_size m)
          (λ m'.
            if_some (add_block_write_entry f d o now info.seq_id (pos 0) info.file_size m')
              (add_files infos))

    -- The entries are taken and written, and the result only logged; nothing is written where the log
    -- was closed.
    abbrev flush : Manager → Option Manager
    flush m =
        let (wrote, log) = write_entries_to_disk_no_lock d m.entries m.log in
        some (record m { entries = []; log = if m.is_open then log else m.log })

    abbrev rewrite : List FileChunksInfo → Manager → Option Manager
    rewrite infos m =
        if_some (write_log_header f d o now (record m { log = [] }))
          (λ m'. if_some (add_files infos m') flush)

    abbrev compacted : Option (ErrorCode × List FileChunksInfo × Manager) → Option Manager
    compacted none = none
    compacted (some (status, infos, m)) =
        let rewritten = rewrite infos m in
        if not (same_code status ok_code)
        then some m
        else if not (is_compact infos)
        then some m
        else if d.can_truncate
        then rewritten
        else some m

    pub compact_log : Manager → Option Manager
    unfolding parse_and_match shutdown_thread
    compact_log m =
        let m' : Manager = shutdown_thread d m in
        let done = compacted (parse_and_match m'.recovery_id m'.config m') in
        if not m.is_open then some m else if d.can_truncate then done else some m'
