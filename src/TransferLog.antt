-- ===== src/TransferLog.antt =====
-- util/TransferLogManager: the log `.wdt.log` that the receiver keeps of what it has written, from
-- which a later transfer resumes. An entry is two bytes of length, one of its type, and its fields.
pub mod Codec
pub mod Entries
pub mod Parse
pub mod Manager
use wdt.Common.{
  ℕ, zero, suc, ◌+◌, ◌-◌, ◌%◌, ◌^◌, Bool, true, false, List, [], ◌∷◌, Option, if◌then◌else◌,
}
use wdt.Common.{ltb, ◌==◌, length}
use wdt.Common.Int.{ℤ, pos, negsuc}
use wdt.Common.SortedMap.{Map}
use wdt.Protocol.{FileChunksInfo}

abbrev pub wlog_version : ℕ
wlog_version = 2

-- `kMaxEntryLength`, with PATH_MAX = 4096.
abbrev pub max_entry_length : ℕ
max_entry_length = 2 + 1 + 10 + 4096 + 20

-- `EntryType`, and what a byte cast to it may be besides.
pub data EntryType : Type 0 where
  header file_creation block_write file_invalidation file_resize directory_invalidation : EntryType
  unnamed : ℕ → EntryType

abbrev pub entry_code : EntryType → ℕ
entry_code header = 0
entry_code file_creation = 1
entry_code block_write = 2
entry_code file_invalidation = 3
entry_code file_resize = 4
entry_code directory_invalidation = 5
entry_code (unnamed n) = n

abbrev pub to_entry_type : ℕ → EntryType
to_entry_type zero = header
to_entry_type (suc zero) = file_creation
to_entry_type (suc (suc zero)) = block_write
to_entry_type (suc (suc (suc zero))) = file_invalidation
to_entry_type (suc (suc (suc (suc zero)))) = file_resize
to_entry_type (suc (suc (suc (suc (suc zero))))) = directory_invalidation
to_entry_type (suc (suc (suc (suc (suc (suc n)))))) = unnamed (suc (suc (suc (suc (suc (suc n))))))

-- The fields of LogParser that stay, with the options that it reads.
pub record ParserConfig : Type 0 where
  pub root_dir : List ℕ
  pub recovery_id : List ℕ
  pub config : ℤ
  pub parse_only : Bool
  pub resume_using_dir_tree : Bool
  pub should_preallocate_files : Bool

-- The fields of LogParser that change, and `senderIp`, which it is handed by reference.
pub record Parser : Type 0 where
  pub header_parsed : Bool
  pub file_info : Map FileChunksInfo
  pub seq_id_to_size : Map ℤ
  pub invalid_seq_ids : Map (Unit {0})
  pub sender_ip : List ℕ

-- What the file system answers. `stat` is the size of the file at a path; `read_error` is whether a
-- read fails, by the offset in the log; `can_truncate` whether fstat, ftruncate and lseek succeed;
-- `accepted` how many bytes a write takes, none where it fails.
pub record Disk : Type 0 where
  pub stat : List ℕ → Option ℤ
  pub read_error : ℕ → Bool
  pub can_truncate : Bool
  pub accepted : List ℕ → ℕ
