-- ===== src/SourceQueue.antt =====
-- util/DirectorySourceQueue: the queue of blocks to send. A block keeps a copy of the metadata of its
-- file, which changes only while no block of the queue is out or in it. The file descriptor and how
-- the file is read are left out, and so are the notifications.
pub mod Operations
pub mod Blocks
pub mod Created
use wdt.Common.{
  ℕ, zero, suc, ◌+◌, ◌*◌, Bool, true, false, not, ◌&&◌, ◌||◌, Option, none, some, List, [], ◌∷◌,
  ◌++◌, length, ltb, ◌==◌, if◌then◌else◌,
}
use wdt.Common.Int.{ℤ, pos, negsuc, ◌+ℤ◌, ◌-ℤ◌, ltb_ℤ, leb_ℤ, eqb_ℤ, pos_part}
use wdt.Common.Named.{Named, lookup, bytes_eq}
use wdt.ErrorCodes.{ErrorCode, ok_code, error, byte_source_read_error}
use wdt.Protocol.{
  FileChunksInfo, Interval, interval_size, FileAllocationStatus, not_exists, exists_correct_size,
  exists_too_large, exists_too_small, to_be_deleted,
}
use wdt.Protocol.Chunks.{get_total_chunk_size, get_remaining_chunks}

pub record SourceMetaData : Type 0 where
  pub rel_path : List ℕ
  pub seq_id : ℤ
  pub size : ℤ
  pub allocation_status : FileAllocationStatus
  pub prev_seq_id : ℤ

-- FileByteSource, as far as the queue uses it.
pub record FileByteSource : Type 0 where
  pub metadata : SourceMetaData
  pub size : ℤ
  pub offset : ℤ
  pub failed_attempts : ℤ

abbrev pub is_deletion : FileAllocationStatus → Bool
is_deletion to_be_deleted = true
is_deletion _ = false

abbrev pub is_to_be_deleted : FileByteSource → Bool
is_to_be_deleted s = is_deletion s.metadata.allocation_status

-- `<` of std::string, on bytes.
pub ltb_bytes : List ℕ → List ℕ → Bool
ltb_bytes xs [] = false
ltb_bytes [] (y ∷ ys) = true
ltb_bytes (x ∷ xs) (y ∷ ys) =
    let rest = ltb_bytes xs ys in if ltb x y then true else if ltb y x then false else rest

-- `SourceComparator`: whether the first is sent after the second.
pub source_comparator : FileByteSource → FileByteSource → Bool
source_comparator source1 source2 =
    if is_to_be_deleted source1 && not (is_to_be_deleted source2)
    then false
    else if not (is_to_be_deleted source1) && is_to_be_deleted source2
    then true
    else if not (eqb_ℤ source1.failed_attempts source2.failed_attempts)
    then ltb_ℤ source2.failed_attempts source1.failed_attempts
    else if not (eqb_ℤ source1.size source2.size)
    then ltb_ℤ source1.size source2.size
    else if not (eqb_ℤ source1.offset source2.offset)
    then ltb_ℤ source2.offset source1.offset
    else ltb_bytes source2.metadata.rel_path source1.metadata.rel_path

-- std::priority_queue, as the list in which its elements are popped.
pub push : FileByteSource → List FileByteSource → List FileByteSource
push source [] = source ∷ []
push source (next ∷ queue) =
    let behind = next ∷ push source queue in
    if source_comparator source next then behind else source ∷ next ∷ queue

abbrev pub push_all : List FileByteSource → List FileByteSource → List FileByteSource
push_all [] queue = queue
push_all (source ∷ sources) queue = push_all sources (push source queue)

pub record SourceQueue : Type 0 where
  pub block_size_mbytes : ℤ
  pub delete_files : Bool
  pub init_finished : Bool
  pub previously_transferred_chunks : Named FileChunksInfo
  pub shared_file_data : List SourceMetaData
  pub source_queue : List FileByteSource
  pub failed_sources : List FileByteSource
  pub failed_directories : List (List ℕ)
  pub next_seq_id : ℤ
  pub num_entries : ℤ
  pub num_blocks : ℤ
  pub num_blocks_dequeued : ℤ
  pub total_file_size : ℤ
  pub previously_sent_bytes : ℤ

abbrev pub min_ℤ : ℤ → ℤ → ℤ
min_ℤ a b = if ltb_ℤ b a then b else a

abbrev pub new_source : SourceMetaData → ℤ → ℤ → FileByteSource
new_source metadata size offset = record {
  metadata = metadata;
  size = size;
  offset = offset;
  failed_attempts = pos 0;
}

-- The `do` loop over a chunk. A round takes a byte at least, or is the last.
pub split_chunk : ℕ → SourceMetaData → ℤ → ℤ → ℤ → List FileByteSource
split_chunk zero metadata block_size offset remaining_bytes = []
split_chunk (suc fuel) metadata block_size offset remaining_bytes =
    let size = min_ℤ remaining_bytes block_size in
    let rest = split_chunk fuel metadata block_size (offset +ℤ size) (remaining_bytes -ℤ size) in
    if ltb_ℤ (pos 0) (remaining_bytes -ℤ size)
    then new_source metadata size offset ∷ rest
    else new_source metadata size offset ∷ []

-- The loop over the remaining chunks.
pub split_chunks : SourceMetaData → ℤ → List Interval → List FileByteSource
split_chunks metadata block_size [] = []
split_chunks metadata block_size (chunk ∷ chunks) =
    split_chunk (suc (pos_part (interval_size chunk))) metadata block_size chunk.start
      (interval_size chunk)
    ++ split_chunks metadata block_size chunks

abbrev pub total_size : List Interval → ℤ
total_size [] = pos 0
total_size (chunk ∷ chunks) = interval_size chunk +ℤ total_size chunks

abbrev pub block_size_for : SourceQueue → ℤ → ℤ
block_size_for q file_size =
    let bytes = pos (pos_part q.block_size_mbytes * 1024 * 1024) in
    if ltb_ℤ (pos 0) q.block_size_mbytes then bytes else file_size

-- The blocks of the remaining chunks go into the queue.
abbrev pub enqueue_chunks : SourceMetaData → List Interval → SourceQueue → SourceQueue
enqueue_chunks metadata chunks q =
    let sources = split_chunks metadata (block_size_for q metadata.size) chunks in
    record q {
      source_queue = push_all sources q.source_queue;
      total_file_size = q.total_file_size +ℤ total_size chunks;
      num_entries = q.num_entries +ℤ pos 1;
      num_blocks = q.num_blocks +ℤ pos (length sources);
    }

-- The whole file, under a new seq-id.
abbrev pub enqueue_whole : SourceMetaData → FileAllocationStatus → ℤ → SourceQueue → SourceQueue
enqueue_whole metadata status prev_seq_id q =
    let m : SourceMetaData = record metadata {
      seq_id = q.next_seq_id;
      prev_seq_id = prev_seq_id;
      allocation_status = status;
    } in
    enqueue_chunks m (record { start = pos 0; stop = metadata.size } ∷ [])
      (record q { next_seq_id = q.next_seq_id +ℤ pos 1 })

-- What the receiver does not have yet; nothing where that is empty.
abbrev pub enqueue_rest :
    SourceMetaData → FileChunksInfo → List Interval → SourceQueue → SourceQueue
enqueue_rest metadata info [] q = q
enqueue_rest metadata info (chunk ∷ chunks) q =
    let m : SourceMetaData = record metadata {
      seq_id = info.seq_id;
      prev_seq_id = pos 0;
      allocation_status =
          if ltb_ℤ info.file_size metadata.size then exists_too_small else exists_correct_size;
    } in
    enqueue_chunks m (chunk ∷ chunks) q

abbrev pub create_or_resume : SourceMetaData → SourceQueue → Option FileChunksInfo → SourceQueue
create_or_resume metadata q none = enqueue_whole metadata not_exists (pos 0) q
create_or_resume metadata q (some info) =
    let resumed : SourceQueue = record q {
      previously_sent_bytes = q.previously_sent_bytes +ℤ get_total_chunk_size info;
    } in
    if ltb_ℤ metadata.size info.file_size
    then enqueue_whole metadata exists_too_large info.seq_id q
    else enqueue_rest metadata info (get_remaining_chunks info metadata.size) resumed

-- `createIntoQueueInternal`
pub create_into_queue_internal : SourceMetaData → SourceQueue → SourceQueue
create_into_queue_internal metadata q =
    create_or_resume metadata q (lookup metadata.rel_path q.previously_transferred_chunks)
