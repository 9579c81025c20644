-- ===== src/SourceQueue/Operations.antt =====
-- The other operations of DirectorySourceQueue, apart from the walk of the directory.
pub mod Taken
use wdt.Common.{
  ℕ, Bool, true, false, not, ◌&&◌, ◌||◌, Option, none, some, List, [], ◌∷◌, ◌++◌, length,
  if◌then◌else◌,
}
use wdt.Common.Int.{ℤ, pos, ◌+ℤ◌, ◌-ℤ◌, ltb_ℤ, eqb_ℤ}
use wdt.Common.Named.{Named, lookup, bytes_eq}
use wdt.ErrorCodes.{ErrorCode, ok_code, error, byte_source_read_error}
use wdt.Protocol.{FileChunksInfo, FileAllocationStatus, to_be_deleted}
use wdt.SourceQueue.{
  SourceMetaData, FileByteSource, SourceQueue, push, new_source, create_into_queue_internal,
}

-- `createIntoQueue`, behind the opening of the file.
pub create_into_queue : SourceMetaData → SourceQueue → SourceQueue
create_into_queue metadata q =
    create_into_queue_internal metadata
      (record q { shared_file_data = q.shared_file_data ++ metadata ∷ [] })

-- `returnToQueue`; `none` is a failed WDT_CHECK.
pub return_to_queue : List FileByteSource → SourceQueue → Option SourceQueue
return_to_queue [] q = some q
return_to_queue (source ∷ sources) q =
    let rest = return_to_queue sources (record q {
      source_queue = push source q.source_queue;
      num_blocks_dequeued = q.num_blocks_dequeued -ℤ pos 1;
    }) in
    if ltb_ℤ (pos 0) q.num_blocks_dequeued then rest else none

abbrev pub is_discovered : List ℕ → List SourceMetaData → Bool
is_discovered name [] = false
is_discovered name (metadata ∷ files) = bytes_eq name metadata.rel_path || is_discovered name files

-- A source that has the receiver delete the file.
abbrev pub deletion : List ℕ → FileChunksInfo → SourceMetaData
deletion name info = record {
  rel_path = name;
  seq_id = info.seq_id;
  size = pos 0;
  allocation_status = to_be_deleted;
  prev_seq_id = pos 0;
}

-- The loop over the files of the receiver; `discovered` is from before the loop.
pub enqueue_deletions : List SourceMetaData → Named FileChunksInfo → SourceQueue → SourceQueue
enqueue_deletions discovered [] q = q
enqueue_deletions discovered ((name, info) ∷ l) q =
    let kept = enqueue_deletions discovered l q in
    let deleted = enqueue_deletions discovered l (record q {
      shared_file_data = q.shared_file_data ++ deletion name info ∷ [];
      source_queue = push (new_source (deletion name info) (pos 0) (pos 0)) q.source_queue;
      num_entries = q.num_entries +ℤ pos 1;
      num_blocks = q.num_blocks +ℤ pos 1;
    }) in
    if is_discovered name discovered then kept else deleted

abbrev pub is_nothing : Named FileChunksInfo → Bool
is_nothing [] = true
is_nothing (x ∷ l) = false

-- `enqueueFilesToBeDeleted`
pub enqueue_files_to_be_deleted : SourceQueue → SourceQueue
enqueue_files_to_be_deleted q =
    let enqueued = enqueue_deletions q.shared_file_data q.previously_transferred_chunks q in
    if not q.delete_files
    then q
    else if not q.init_finished || is_nothing q.previously_transferred_chunks
    then q
    else enqueued

-- `insert` of a name that is there already changes nothing.
abbrev pub insert_or :
    FileChunksInfo → Named FileChunksInfo → Option FileChunksInfo → Named FileChunksInfo
insert_or info l none = (info.file_name, info) ∷ l
insert_or info l (some old) = l

-- The loop over the chunks that the receiver has sent.
pub receive_chunks : List FileChunksInfo → SourceQueue → SourceQueue
receive_chunks [] q = q
receive_chunks (info ∷ infos) q = receive_chunks infos (record q {
  next_seq_id =
      if ltb_ℤ q.next_seq_id (info.seq_id +ℤ pos 1) then info.seq_id +ℤ pos 1 else q.next_seq_id;
  previously_transferred_chunks =
      insert_or info q.previously_transferred_chunks
        (lookup info.file_name q.previously_transferred_chunks);
})

abbrev pub create_all : List SourceMetaData → SourceQueue → SourceQueue
create_all [] q = q
create_all (metadata ∷ files) q = create_all files (create_into_queue_internal metadata q)

-- `setPreviouslyReceivedChunks`; `none` is a failed WDT_CHECK.
pub set_previously_received_chunks : List FileChunksInfo → SourceQueue → Option SourceQueue
set_previously_received_chunks infos q =
    let received = receive_chunks infos (record q {
      next_seq_id = pos 0;
      total_file_size = pos 0;
      num_entries = pos 0;
      num_blocks = pos 0;
    }) in
    let created = create_all q.shared_file_data (record received { source_queue = [] }) in
    if eqb_ℤ (pos 0) q.num_blocks_dequeued then some (enqueue_files_to_be_deleted created) else none

-- The end of `buildQueueSynchronously`.
pub finish_init : SourceQueue → SourceQueue
finish_init q = enqueue_files_to_be_deleted (record q { init_finished = true })

abbrev pub is_any {ℓ} : {A : Type ℓ} → List A → Bool
is_any [] = false
is_any (x ∷ xs) = true

abbrev pub has_failures : SourceQueue → Bool
has_failures q = is_any q.failed_sources || is_any q.failed_directories

-- How a call of `getNextSource` ends, or that it waits for a source.
pub data NextSource : Type 0 where
  waits : SourceQueue → NextSource
  no_source : ErrorCode → SourceQueue → NextSource
  next_source : ErrorCode → FileByteSource → SourceQueue → NextSource

-- `getNextSource`, from the queue in its order, where no other thread takes a source between;
-- `opens` is whether `open` succeeds.
pub take_source : (FileByteSource → Bool) → List FileByteSource → SourceQueue → NextSource
take_source opens [] q =
    let status = if has_failures q then error else ok_code in
    let left : SourceQueue = record q { source_queue = [] } in
    if not q.init_finished then waits left else no_source status left
take_source opens (source ∷ queue) q =
    let status = if has_failures q then error else ok_code in
    let later =
      take_source opens queue (record q { failed_sources = q.failed_sources ++ source ∷ [] }) in
    if opens source
    then next_source status source
        (record q { source_queue = queue; num_blocks_dequeued = q.num_blocks_dequeued +ℤ pos 1 })
    else later

pub get_next_source : (FileByteSource → Bool) → SourceQueue → NextSource
get_next_source opens q = take_source opens q.source_queue q

pub finished : SourceQueue → Bool
finished q = q.init_finished && not (is_any q.source_queue)

pub get_num_blocks_and_status : SourceQueue → ℤ × ErrorCode
get_num_blocks_and_status q =
    (q.num_blocks, if has_failures q then byte_source_read_error else ok_code)
