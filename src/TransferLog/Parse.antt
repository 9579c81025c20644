-- ===== src/TransferLog/Parse.antt =====
-- LogParser::parseLog and what it does to the log. The log is the list of its bytes; a read at an
-- offset takes what is there.
pub mod Frames
pub mod Torn
pub mod Safe
pub mod Returned
pub mod Resume
pub mod Fixed
pub mod Replay
use wdt.Common.{
  ℕ, zero, suc, ◌+◌, ◌-◌, Bool, true, false, not, ◌&&◌, Option, none, some, List, [], ◌∷◌, ◌++◌,
}
use wdt.Common.{ltb, leb, ◌==◌, if◌then◌else◌, length, take, drop, map, replicate}
use wdt.Common.Int.{ℤ, pos, leb_ℤ, ltb_ℤ, pos_part}
use wdt.Common.SortedMap.{Map}
use wdt.ErrorCodes.{ErrorCode, ok_code, invalid_log, inconsistent_directory, code}
use wdt.Wire.Types.{Status, Buffer}
use wdt.Serial.{FixedInt}
use wdt.Protocol.{FileChunksInfo, Interval}
use wdt.Protocol.Chunks.{merge_chunks}
use wdt.TransferLog.{Parser, ParserConfig, Disk, EntryType, header, to_entry_type, max_entry_length}
use wdt.TransferLog.Codec.{encode_file_invalidation_entry}
use wdt.TransferLog.Entries.{process_entry}

abbrev pub new_parser : List ℕ → Parser
new_parser sender_ip = record {
  header_parsed = false;
  file_info = [];
  seq_id_to_size = [];
  invalid_seq_ids = [];
  sender_ip = sender_ip;
}

abbrev pub clear_parsed_data : Parser → Parser
clear_parsed_data p = record p { file_info = []; seq_id_to_size = []; invalid_seq_ids = [] }

-- What the two reads of a round of the loop find.
pub data Chunk : Type 0 where
  eof : Chunk
  extra : ℕ → Chunk
  bad : Chunk
  entry : ℕ → List ℕ → List ℕ → Chunk

abbrev pub is_header : EntryType → Bool
is_header header = true
is_header _ = false

abbrev pub same_code : ErrorCode → ErrorCode → Bool
same_code a b = code a == code b

-- How the loop ends: by a `return`, or by a `break` with so many extra bytes at the end of the log.
pub data Scan : Type 0 where
  returned : Parser → Scan
  ended : ErrorCode → Parser → ℕ → Scan
  crashed : Scan
  out_of_fuel : Scan

module _ (f : FixedInt) (d : Disk) where
  -- The second read, for an entry of a size in range.
  abbrev pub read_entry : ℕ → ℕ → List ℕ → Chunk
  read_entry pos_in_log zero rest = bad
  read_entry pos_in_log (suc n) [] = if d.read_error pos_in_log then bad else extra 2
  read_entry pos_in_log (suc n) (type ∷ rest) =
      if d.read_error pos_in_log
      then bad
      else if ltb (suc (length rest)) (suc n)
      then extra (suc (length rest) + 2)
      else entry type (take n rest) (drop n rest)

  pub read_chunk : ℕ → List ℕ → Chunk
  read_chunk pos_in_log [] = if d.read_error pos_in_log then bad else eof
  read_chunk pos_in_log (a ∷ []) = if d.read_error pos_in_log then bad else extra 1
  read_chunk pos_in_log (a ∷ b ∷ rest) =
      let entry_size = f.load 2 (a ∷ b ∷ []) in
      if d.read_error pos_in_log
      then bad
      else if leb_ℤ entry_size (pos 0)
      then bad
      else if ltb_ℤ (pos max_entry_length) entry_size
      then bad
      else read_entry (pos_in_log + 2) (pos_part entry_size) rest

module _ (d : Disk) (c : ParserConfig) where
  -- Behind the switch: whether the loop returns, and what it goes on with.
  abbrev pub after_entry : Option (ErrorCode × Parser) → Option (ErrorCode × Parser)
  after_entry none = none
  after_entry (some (status, p)) =
      some (status, if same_code status inconsistent_directory then clear_parsed_data p else p)

  -- One entry; it is skipped where the directory is invalid, unless it is a header.
  pub handle_entry : ErrorCode → EntryType → List ℕ → Parser → Option (ErrorCode × Parser)
  handle_entry status type payload p =
      let handled = after_entry (process_entry d c type payload p) in
      if same_code status inconsistent_directory && not (is_header type)
      then some (status, p)
      else handled

-- The rest of a round behind the switch, and a round, before the rounds that follow.
abbrev pub next_round :
    (ℕ → List ℕ → ErrorCode → Parser → Scan) → ℕ → List ℕ → Option (ErrorCode × Parser) → Scan
next_round loop pos_in_log rest none = crashed
next_round loop pos_in_log rest (some (status, p)) =
    let later = loop pos_in_log rest status p in
    if same_code status invalid_log then returned p else later

module _ (d : Disk) (c : ParserConfig) where
  abbrev pub round :
      (ℕ → List ℕ → ErrorCode → Parser → Scan) → ℕ → ErrorCode → Parser → Chunk → Scan
  round loop pos_in_log status p eof = ended status p 0
  round loop pos_in_log status p (extra n) = ended status p n
  round loop pos_in_log status p bad = returned p
  round loop pos_in_log status p (entry type payload rest) =
      next_round loop (pos_in_log + length payload + 3) rest
        (handle_entry d c status (to_entry_type type) payload p)

module _ (f : FixedInt) (d : Disk) (c : ParserConfig) where
  pub scan : ℕ → ℕ → List ℕ → ErrorCode → Parser → Scan
  scan zero pos_in_log log status p = out_of_fuel
  scan (suc fuel) pos_in_log log status p =
      round d c (scan fuel) pos_in_log status p (read_chunk f d pos_in_log log)

-- What `parseLog` leaves: its result, the log, the sender's address and the chunks of the files.
pub record Parsed : Type 0 where
  pub status : ErrorCode
  pub log : List ℕ
  pub sender_ip : List ℕ
  pub chunks : List FileChunksInfo

module _ (f : FixedInt) (d : Disk) (now : ℤ) where
  -- A write at the end of the log, and whether it wrote what it was to write. Where the encoder
  -- returned -1, write refuses that size with -1, which is the size.
  abbrev pub write_entry : Status × Buffer → List ℕ → Option (Bool × List ℕ)
  write_entry (Status.done, b) log =
      let buf = take b.off b.dest in
      some (d.accepted buf == b.off, log ++ take (d.accepted buf) buf)
  write_entry (Status.refused, b) log = some (true, log)
  write_entry (Status.crashed, b) log = none

  -- Behind a write: a failed one is the last.
  abbrev pub write_rest :
      (List ℕ → Option (Bool × List ℕ)) → Option (Bool × List ℕ) → Option (Bool × List ℕ)
  write_rest more none = none
  write_rest more (some (true, log)) = more log
  write_rest more (some (false, log)) = some (false, log)

  unfoldable pub write_file_invalidation_entries : Map (Unit {0}) → List ℕ → Option (Bool × List ℕ)
  write_file_invalidation_entries [] log = some (true, log)
  write_file_invalidation_entries ((seq_id, u) ∷ ids) log =
      let dest : List ℕ = replicate max_entry_length 0 in
      write_rest (write_file_invalidation_entries ids)
        (write_entry (encode_file_invalidation_entry f now max_entry_length dest seq_id) log)

-- `truncateExtraBytesAtEnd`
pub truncate_extra_bytes_at_end : Disk → List ℕ → ℕ → Bool × List ℕ
truncate_extra_bytes_at_end d log extra_bytes =
    if d.can_truncate then (true, take (length log - extra_bytes) log) else (false, log)

module _ (f : FixedInt) (d : Disk) (c : ParserConfig) (sort : List Interval → List Interval) where
  -- The chunks of the files, in the order of their seq-ids.
  abbrev pub merged_chunks : Map FileChunksInfo → List FileChunksInfo
  merged_chunks m = map (λ (x : ℤ × FileChunksInfo). merge_chunks sort x.1) m

  -- Behind the loop.
  abbrev pub finish :
      ErrorCode → Parser → List ℕ → List FileChunksInfo → Option (Bool × List ℕ) → Option Parsed
  finish status p log chunks none = none
  finish status p log chunks (some (wrote, log')) = some (record {
    status = if wrote then status else invalid_log;
    log = log';
    sender_ip = p.sender_ip;
    chunks = chunks;
  })

  abbrev pub stopped : ErrorCode → Parser → List ℕ → Parsed
  stopped status p log = record { status = status; log = log; sender_ip = p.sender_ip; chunks = [] }

  abbrev pub close_scan : ℤ → ErrorCode → Parser → List ℕ → Option Parsed
  close_scan now status p log =
      let fixed =
        finish status p log (merged_chunks p.file_info)
          (write_file_invalidation_entries f d now p.invalid_seq_ids log) in
      if same_code status ok_code then fixed else some (stopped status p log)

  abbrev pub truncated : ℤ → ErrorCode → Parser → Bool × List ℕ → Option Parsed
  truncated now status p (cut, log) =
      let closed = close_scan now status p log in
      if cut then closed else some (stopped invalid_log p log)

  abbrev pub after_scan : ℤ → List ℕ → Scan → Option Parsed
  after_scan now log (returned p) = some (stopped invalid_log p log)
  after_scan now log (ended status p extra_bytes) =
      let kept = close_scan now status p log in
      let fixed = truncated now status p (truncate_extra_bytes_at_end d log extra_bytes) in
      if extra_bytes == 0 then kept else if c.parse_only then kept else fixed
  after_scan now log crashed = none
  after_scan now log out_of_fuel = none

  -- A round of the loop takes three bytes at least, or is the last.
  pub parse_log : ℤ → List ℕ → List ℕ → Option Parsed
  parse_log now sender_ip log =
      after_scan now log (scan f d c (suc (length log)) 0 log ok_code (new_parser sender_ip))
