-- ===== src/History.antt =====
-- util/ThreadTransferHistory: the blocks that a sender thread has sent and that the receiver has not
-- acknowledged, and what a checkpoint does to them. TransferStats is the part of Reporting.h that
-- these functions touch, and ByteSource what FileByteSource keeps of a block.
--
-- `history_.back()` is the head of the list. The queue is the list of the sources that were returned
-- to it, the last first. A result of `none` is a failed WDT_CHECK, or an access out of bounds.
pub mod Validity
pub mod Failures
pub mod Operations
pub mod Controller
pub mod Applied
use wdt.Common.{
  ℕ, zero, suc, ◌-◌, Bool, true, false, ◌&&◌, ◌||◌, not, Option, none, some, List, [], ◌∷◌,
}
use wdt.Common.{length, get_elem?, if◌then◌else◌, ltb, ◌==◌}
use wdt.Common.Int.{ℤ, pos, negsuc, pos_part, ◌+ℤ◌, ◌-ℤ◌, ltb_ℤ, leb_ℤ, eqb_ℤ}
use wdt.ErrorCodes.{
  ErrorCode, ok_code, error, invalid_checkpoint, no_progress, socket_write_error, code,
}
use wdt.Protocol.{Checkpoint, new_checkpoint}

pub record TransferStats : Type 0 where
  pub effective_header_bytes : ℤ
  pub effective_data_bytes : ℤ
  pub num_blocks : ℤ
  pub failed_attempts : ℤ
  pub local_err_code : ErrorCode

abbrev pub add_effective_bytes : ℤ → ℤ → TransferStats → TransferStats
add_effective_bytes header_bytes data_bytes s = record s {
  effective_header_bytes = s.effective_header_bytes +ℤ header_bytes;
  effective_data_bytes = s.effective_data_bytes +ℤ data_bytes;
}

abbrev pub subtract_effective_bytes : ℤ → ℤ → TransferStats → TransferStats
subtract_effective_bytes header_bytes data_bytes s = record s {
  effective_header_bytes = s.effective_header_bytes -ℤ header_bytes;
  effective_data_bytes = s.effective_data_bytes -ℤ data_bytes;
}

abbrev pub decr_num_blocks : TransferStats → TransferStats
decr_num_blocks s = record s { num_blocks = s.num_blocks -ℤ pos 1 }

abbrev pub incr_failed_attempts : TransferStats → TransferStats
incr_failed_attempts s = record s { failed_attempts = s.failed_attempts +ℤ pos 1 }

pub record ByteSource : Type 0 where
  pub identifier : List ℕ
  pub seq_id : ℤ
  pub offset : ℤ
  pub size : ℤ
  pub transfer_stats : TransferStats

-- `FileByteSource::advanceOffset`
abbrev pub advance_offset : ℤ → ByteSource → ByteSource
advance_offset num_bytes source = record source {
  offset = source.offset +ℤ num_bytes;
  size = source.size -ℤ num_bytes;
}

pub record History : Type 0 where
  pub history : List ByteSource
  pub global_checkpoint : Bool
  pub num_acknowledged : ℤ
  pub last_checkpoint : Option Checkpoint
  pub in_use : Bool
  pub thread_stats : TransferStats
  pub queue : List ByteSource

-- `ThreadTransferHistory(queue, threadStats, port)`
abbrev pub new_history : TransferStats → History
new_history thread_stats = record {
  history = [];
  global_checkpoint = false;
  num_acknowledged = pos 0;
  last_checkpoint = none;
  in_use = true;
  thread_stats = thread_stats;
  queue = [];
}

-- Whether the checkpoint's last block is the source, where the checkpoint says which block it is.
abbrev is_valid_for : ByteSource → Checkpoint → Bool
is_valid_for source c =
    if c.has_seq_id
    then eqb_ℤ c.last_block_seq_id source.seq_id && eqb_ℤ c.last_block_offset source.offset
    else true

abbrev pub received_bytes : ByteSource → Option Checkpoint → ℤ
received_bytes source none = pos 0
received_bytes source (some c) =
    if is_valid_for source c then c.last_block_received_bytes else pos 0

-- `errorCode != OK`
abbrev pub is_failed : TransferStats → Bool
is_failed s = not (code s.local_err_code == 0)

pub mark_source_as_failed :
    ByteSource → Option Checkpoint → TransferStats → ByteSource × TransferStats
mark_source_as_failed source checkpoint thread_stats =
    let received = received_bytes source checkpoint in
    let source_stats = source.transfer_stats in
    let header_bytes = source_stats.effective_header_bytes in
    let wasted_bytes = source.size -ℤ received in
    let again : TransferStats = add_effective_bytes (pos 0) received source_stats in
    let first : TransferStats =
      incr_failed_attempts
        (record (decr_num_blocks
          (subtract_effective_bytes header_bytes wasted_bytes source_stats)) {
            local_err_code = socket_write_error;
          }) in
    if is_failed source_stats
    then (
      advance_offset received (record source { transfer_stats = again }),
      add_effective_bytes (pos 0) received thread_stats,
    )
    else (
      advance_offset received (record source { transfer_stats = first }),
      incr_failed_attempts
          (decr_num_blocks (subtract_effective_bytes header_bytes wasted_bytes thread_stats)),
    )

-- The checkpoint has the same block as the last one.
abbrev pub same_block : Checkpoint → Checkpoint → Bool
same_block c last =
    eqb_ℤ c.last_block_seq_id last.last_block_seq_id
    && eqb_ℤ c.last_block_offset last.last_block_offset

-- `if (noProgress && !globalCheckpoint)`
abbrev progress : Bool → Bool → Option ErrorCode
progress no_progress_made global =
    some (if no_progress_made && not global then no_progress else ok_code)

pub validate_checkpoint : Option Checkpoint → Checkpoint → Bool → Option ErrorCode
validate_checkpoint none c global = some ok_code
validate_checkpoint (some last) c global =
    if ltb_ℤ c.num_blocks last.num_blocks
    then some invalid_checkpoint
    else if ltb_ℤ last.num_blocks c.num_blocks
    then some ok_code
    else if same_block c last
    then (if eqb_ℤ c.last_block_received_bytes last.last_block_received_bytes
        then progress true global
        else some invalid_checkpoint)
    else if ltb_ℤ c.last_block_received_bytes (pos 0)
    then none
    else progress (eqb_ℤ c.last_block_received_bytes (pos 0)) global

-- What the loop of `setCheckpointAndReturnToQueue` works on.
pub record Returning : Type 0 where
  pub history : List ByteSource
  pub thread_stats : TransferStats
  pub sources_to_return : List ByteSource

-- The loop with so many rounds left; the last round gets the checkpoint.
pub fail_sources : ℕ → Checkpoint → Returning → Option Returning
fail_sources zero c w = some w
fail_sources (suc n) c w = elim w.history [
  | [] ↦ none
  | source ∷ history ↦
      let (source', thread_stats) =
        mark_source_as_failed source (if n == 0 then some c else none) w.thread_stats in
      fail_sources n c (record {
        history = history;
        thread_stats = thread_stats;
        sources_to_return = source' ∷ w.sources_to_return;
      })
]

abbrev pub with_failed :
    Checkpoint → Bool → ErrorCode → History → Option Returning → Option (ErrorCode × History)
with_failed c global err h none = none
with_failed c global err h (some w) = some (
  err,
  record h {
    history = w.history;
    global_checkpoint = h.global_checkpoint || global;
    num_acknowledged = c.num_blocks;
    last_checkpoint = some c;
    thread_stats = w.thread_stats;
    queue = w.sources_to_return;
  },
)

-- Behind the validation. The sources to return go on top of the queue.
pub apply_checkpoint : Checkpoint → Bool → ErrorCode → History → Option (ErrorCode × History)
apply_checkpoint c global err h =
    let num_failed = pos_part (pos (length h.history) -ℤ c.num_blocks) in
    with_failed c global err h (
      fail_sources num_failed c (record {
        history = h.history;
        thread_stats = h.thread_stats;
        sources_to_return = h.queue;
      }))

abbrev pub validated : Checkpoint → Bool → History → Option ErrorCode → Option (ErrorCode × History)
validated c global h none = none
validated c global h (some err) =
    let applied = apply_checkpoint c global err h in
    if code err == code invalid_checkpoint then some (invalid_checkpoint, h) else applied

pub set_checkpoint_and_return_to_queue : Checkpoint → Bool → History → Option (ErrorCode × History)
set_checkpoint_and_return_to_queue c global h =
    if ltb_ℤ (pos (length h.history)) c.num_blocks
    then some (invalid_checkpoint, h)
    else validated c global h (validate_checkpoint h.last_checkpoint c global)
