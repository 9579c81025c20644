-- ===== src/TransferLog/Entries.antt =====
-- The handlers of LogParser for the entries of each type, without what parse-only mode prints. The
-- argument is the entry behind its type. A result of `none` is a failed WDT_CHECK.
pub mod Applied
pub mod WellFormed
pub mod Changes
pub mod Safe
use wdt.Common.{
  ℕ, ◌+◌, ◌-◌, Bool, true, false, not, ◌&&◌, ◌||◌, Option, none, some, List, [], ◌∷◌, ◌++◌,
}
use wdt.Common.{ltb, ◌==◌, if◌then◌else◌, length}
use wdt.Common.Int.{ℤ, pos, ltb_ℤ, leb_ℤ, eqb_ℤ, ◌+ℤ◌}
use wdt.Common.SortedMap.{Map, find, is_some, emplace, assign, erase}
use wdt.ErrorCodes.{ErrorCode, ok_code, invalid_log, inconsistent_directory}
use wdt.Wire.Types.{Result, ok, refused, bailed, crashed}
use wdt.Common.Named.{bytes_eq}
use wdt.Protocol.{FileChunksInfo, Interval}
use wdt.Protocol.Chunks.{add_chunk}
use wdt.TransferLog.{Parser, ParserConfig, Disk, EntryType, header, file_creation, block_write}
use wdt.TransferLog.{file_invalidation, file_resize, directory_invalidation, unnamed}
use wdt.TransferLog.{max_entry_length, wlog_version}
use wdt.TransferLog.Codec.{
  LogHeader, decode_log_header, decode_file_creation_entry, decode_block_write_entry,
  decode_file_resize_entry, decode_file_invalidation_entry, decode_directory_invalidation_entry,
}

abbrev pub is_empty : List ℕ → Bool
is_empty [] = true
is_empty (x ∷ xs) = false

-- `if (!decode…) { return INVALID_LOG; }`
abbrev pub decoded {ℓ} :
    {A : Type ℓ}
    → Parser
    → Result A
    → (A → Option (ErrorCode × Parser))
    → Option (ErrorCode × Parser)
decoded p (ok a) k = k a
decoded p refused k = some (invalid_log, p)
decoded p bailed k = some (invalid_log, p)
decoded p crashed k = none

abbrev pub header_checks : ParserConfig → LogHeader → Parser → ErrorCode × Parser
header_checks c h p =
    if not (eqb_ℤ h.version (pos wlog_version))
    then (invalid_log, p)
    else if is_empty h.sender_ip
    then (invalid_log, p)
    else if c.parse_only
    then (ok_code, record p { header_parsed = true })
    else if not (bytes_eq c.recovery_id h.recovery_id)
    then (inconsistent_directory, p)
    else if not (eqb_ℤ c.config h.config)
    then (inconsistent_directory, p)
    else (ok_code, record p { header_parsed = true })

abbrev pub header_decoded :
    ParserConfig → Parser → Result LogHeader × List ℕ → Option (ErrorCode × Parser)
header_decoded c p (r, sender_ip) =
    let p' : Parser = record p { sender_ip = sender_ip } in
    decoded p' r (λ h. some (header_checks c h p'))

pub process_header_entry : ParserConfig → ℕ → List ℕ → Parser → Option (ErrorCode × Parser)
process_header_entry c max entry p =
    if ltb max (length entry)
    then some (invalid_log, p)
    else header_decoded c p (decode_log_header p.sender_ip entry)

-- The file is known by the size that it has on the disk, where that is large enough.
abbrev pub created : ParserConfig → ℤ → List ℕ → ℤ → Parser → Option ℤ → Parser
created c seq_id file_name file_size p none = record p {
  invalid_seq_ids = emplace seq_id tt p.invalid_seq_ids;
}
created c seq_id file_name file_size p (some st_size) =
    let info : FileChunksInfo = record {
      seq_id = seq_id;
      file_name = file_name;
      file_size = st_size;
      chunks = [];
    } in
    let verified : Parser = record p {
      file_info = emplace seq_id info p.file_info;
      seq_id_to_size = emplace seq_id file_size p.seq_id_to_size;
    } in
    let failed : Parser = record p { invalid_seq_ids = emplace seq_id tt p.invalid_seq_ids } in
    if (if c.should_preallocate_files then leb_ℤ file_size st_size else true)
    then verified
    else failed

-- The seq-id has a file or is known to be invalid.
abbrev pub is_known : ℤ → Parser → Bool
is_known seq_id p = is_some (find seq_id p.file_info) || is_some (find seq_id p.invalid_seq_ids)

abbrev pub on_creation :
    Disk → ParserConfig → Parser → ℤ × List ℕ × ℤ × ℤ → Option (ErrorCode × Parser)
on_creation d c p (timestamp, file_name, seq_id, file_size) =
    if c.parse_only
    then some (ok_code, p)
    else if c.resume_using_dir_tree
    then some (invalid_log, p)
    else if is_known seq_id p
    then some (invalid_log, p)
    else some (ok_code, created c seq_id file_name file_size p (d.stat (c.root_dir ++ file_name)))

pub process_file_creation_entry :
    Disk → ParserConfig → List ℕ → Parser → Option (ErrorCode × Parser)
process_file_creation_entry d c entry p =
    if not p.header_parsed
    then some (invalid_log, p)
    else decoded p (decode_file_creation_entry entry) (on_creation d c p)

abbrev pub resized :
    ParserConfig → ℤ → ℤ → Parser → Option FileChunksInfo → Option ℤ → Option (ErrorCode × Parser)
resized c seq_id file_size p none size = some (invalid_log, p)
resized c seq_id file_size p (some info) none = none
resized c seq_id file_size p (some info) (some size) =
    if ltb_ℤ file_size size
    then some (invalid_log, p)
    else if c.should_preallocate_files && ltb_ℤ info.file_size file_size
    then some (invalid_log, p)
    else some (ok_code, record p { seq_id_to_size = assign seq_id file_size p.seq_id_to_size })

abbrev pub on_resize : ParserConfig → Parser → ℤ × ℤ × ℤ → Option (ErrorCode × Parser)
on_resize c p (timestamp, seq_id, file_size) =
    if c.parse_only
    then some (ok_code, p)
    else if c.resume_using_dir_tree
    then some (invalid_log, p)
    else resized c seq_id file_size p (find seq_id p.file_info) (find seq_id p.seq_id_to_size)

pub process_file_resize_entry : ParserConfig → List ℕ → Parser → Option (ErrorCode × Parser)
process_file_resize_entry c entry p =
    if not p.header_parsed
    then some (invalid_log, p)
    else decoded p (decode_file_resize_entry entry) (on_resize c p)

-- The end of the block is the sum as an integer: in C++ it is undefined past 2 ^ 63.
abbrev pub written : ℤ → ℤ → ℤ → Parser → Option FileChunksInfo → ErrorCode × Parser
written seq_id offset block_size p none = (invalid_log, p)
written seq_id offset block_size p (some info) =
    let info' : FileChunksInfo =
      add_chunk info (record { start = offset; stop = offset +ℤ block_size }) in
    if ltb_ℤ info.file_size (offset +ℤ block_size)
    then (invalid_log, p)
    else (ok_code, record p { file_info = assign seq_id info' p.file_info })

abbrev pub on_block : ParserConfig → Parser → ℤ × ℤ × ℤ × ℤ → Option (ErrorCode × Parser)
on_block c p (timestamp, seq_id, offset, block_size) =
    if c.parse_only
    then some (ok_code, p)
    else if c.resume_using_dir_tree
    then some (invalid_log, p)
    else if is_some (find seq_id p.invalid_seq_ids)
    then some (ok_code, p)
    else some (written seq_id offset block_size p (find seq_id p.file_info))

pub process_block_write_entry : ParserConfig → List ℕ → Parser → Option (ErrorCode × Parser)
process_block_write_entry c entry p =
    if not p.header_parsed
    then some (invalid_log, p)
    else decoded p (decode_block_write_entry entry) (on_block c p)

-- The size of the seq-id stays in `seqIdToSizeMap_`.
abbrev pub forget : ℤ → Parser → Parser
forget seq_id p = record p {
  file_info = erase seq_id p.file_info;
  invalid_seq_ids = erase seq_id p.invalid_seq_ids;
}

abbrev pub on_invalidation : ParserConfig → Parser → ℤ × ℤ → Option (ErrorCode × Parser)
on_invalidation c p (timestamp, seq_id) =
    if c.parse_only
    then some (ok_code, p)
    else if c.resume_using_dir_tree
    then some (invalid_log, p)
    else if is_known seq_id p
    then some (ok_code, forget seq_id p)
    else some (invalid_log, p)

pub process_file_invalidation_entry : ParserConfig → List ℕ → Parser → Option (ErrorCode × Parser)
process_file_invalidation_entry c entry p =
    if not p.header_parsed
    then some (invalid_log, p)
    else decoded p (decode_file_invalidation_entry entry) (on_invalidation c p)

abbrev pub on_directory_invalidation : ParserConfig → Parser → ℤ → Option (ErrorCode × Parser)
on_directory_invalidation c p timestamp =
    if c.parse_only
    then some (ok_code, p)
    else some (inconsistent_directory, record p { header_parsed = false })

pub process_directory_invalidation_entry :
    ParserConfig → List ℕ → Parser → Option (ErrorCode × Parser)
process_directory_invalidation_entry c entry p =
    decoded p (decode_directory_invalidation_entry entry) (on_directory_invalidation c p)

-- The `switch` of `parseLog`.
pub process_entry : Disk → ParserConfig → EntryType → List ℕ → Parser → Option (ErrorCode × Parser)
process_entry d c header entry p = process_header_entry c (max_entry_length - 1) entry p
process_entry d c file_creation entry p = process_file_creation_entry d c entry p
process_entry d c block_write entry p = process_block_write_entry c entry p
process_entry d c file_resize entry p = process_file_resize_entry c entry p
process_entry d c file_invalidation entry p = process_file_invalidation_entry c entry p
process_entry d c directory_invalidation entry p = process_directory_invalidation_entry c entry p
process_entry d c (unnamed n) entry p = some (invalid_log, p)
