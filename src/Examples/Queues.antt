-- ===== src/Examples/Queues.antt =====
-- The source queue at concrete inputs.
use wdt.Common.{◌≡◌, refl, Bool, true, false, not, some, [], ◌∷◌, arith}
use wdt.Common.Int.{pos, eqb_ℤ}
use wdt.Common.Named.{lookup, bytes_eq}
use wdt.Protocol.{FileChunksInfo, not_exists}
use wdt.SourceQueue.{
  SourceMetaData, FileByteSource, SourceQueue, new_source, create_into_queue_internal,
}
use wdt.SourceQueue.Created.{Enqueued, is_received, create_into_queue_internal_lem}
use wdt.SourceQueue.Operations.{get_next_source}
use wdt.SourceQueue.Operations.Taken.{TakeEnds, get_next_source_lem}

abbrev file : SourceMetaData
file = record {
  rel_path = 102 ∷ [];
  seq_id = pos 0;
  size = pos 3000000;
  allocation_status = not_exists;
  prev_seq_id = pos 0;
}

-- The receiver has a piece from the middle.
abbrev received : FileChunksInfo
received = record {
  seq_id = pos 4;
  file_name = 102 ∷ [];
  file_size = pos 3000000;
  chunks = record { start = pos 100; stop = pos 200 } ∷ [];
}

abbrev queue : SourceQueue
queue = record {
  block_size_mbytes = pos 1;
  delete_files = false;
  init_finished = true;
  previously_transferred_chunks = (102 ∷ [], received) ∷ [];
  shared_file_data = file ∷ [];
  source_queue = new_source file (pos 7) (pos 0) ∷ new_source file (pos 5) (pos 7) ∷ [];
  failed_sources = [];
  failed_directories = [];
  next_seq_id = pos 5;
  num_entries = pos 0;
  num_blocks = pos 0;
  num_blocks_dequeued = pos 0;
  total_file_size = pos 0;
  previously_sent_bytes = pos 0;
}

is_there : lookup (102 ∷ []) queue.previously_transferred_chunks ≡ some received
unfolding lookup bytes_eq
is_there = refl

create_into_queue_internal_example :
    Enqueued
      (λ x.
        not (is_received (lookup (102 ∷ []) queue.previously_transferred_chunks) (pos 3000000) x))
      (pos 3000000)
      queue
      (create_into_queue_internal file queue)
create_into_queue_internal_example =
    create_into_queue_internal_lem file queue (omega arith)
      (rw is_there (omega arith, omega arith, tt))

abbrev opens_small : FileByteSource → Bool
opens_small s = eqb_ℤ s.size (pos 5)

get_next_source_example :
    TakeEnds opens_small queue.source_queue queue (get_next_source opens_small queue)
get_next_source_example = get_next_source_lem opens_small queue
