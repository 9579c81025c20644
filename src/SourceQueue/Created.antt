-- ===== src/SourceQueue/Created.antt =====
-- What createIntoQueueInternal puts into the queue for a file.
use wdt.Common.{
  ◌*◌, ◌≡◌, refl, sym, ap, ◌∙◌, arith, Bool, true, false, not, ◌||◌, Option, none, some, List, [],
  ◌∷◌, All, length, if◌then◌else◌, Bool-cases, inl, inr,
}
use wdt.Common.Int.{ℤ, pos, ◌+ℤ◌, ◌≤ℤ◌, ltb_ℤ, pos_part, int_laws}
use wdt.Common.Named.{lookup}
use wdt.Protocol.{
  FileChunksInfo, Interval, FileAllocationStatus, not_exists, exists_too_large, exists_too_small,
  exists_correct_size,
}
use wdt.Protocol.Chunks.{get_remaining_chunks}
use wdt.Protocol.Chunks.Coverage.{covered, inside, IsOrdered, ◌<ℤ◌}
use wdt.Protocol.Chunks.Remaining.{
  covered-get_remaining_chunks, get_remaining_chunks-IsNonempty, IsNonempty,
}
use wdt.SourceQueue.{
  SourceMetaData, FileByteSource, SourceQueue, push_all, split_chunks, block_size_for,
  enqueue_chunks, enqueue_whole, enqueue_rest, create_or_resume, create_into_queue_internal,
}
use wdt.SourceQueue.Blocks.{blocks_of, IsBlock, sum_of, split_chunks_lem}

-- Whether the receiver has the byte: what it has sent of a file that is larger does not count.
abbrev pub is_received : Option FileChunksInfo → ℤ → ℤ → Bool
is_received none file_size x = false
is_received (some info) file_size x =
    if ltb_ℤ file_size info.file_size then false else covered x info.chunks

-- The chunks of the receiver are in order, none over another.
abbrev pub IsOrderedInfo : Option FileChunksInfo → Type 0
IsOrderedInfo none = Unit
IsOrderedInfo (some info) = IsOrdered (pos 0) info.chunks

-- The queue behind is the one ahead with these sources, which have the bytes that are missing.
pub record Enqueued (missing : ℤ → Bool) (file_size : ℤ) (q q' : SourceQueue) : Type 0 where
  pub sources : List FileByteSource
  pub queue : q'.source_queue ≡ push_all sources q.source_queue
  pub bytes : (x : ℤ) → pos 0 ≤ℤ x → x <ℤ file_size → covered x (blocks_of sources) ≡ missing x
  pub each : All (IsBlock (block_size_for q file_size)) sources
  pub size : q'.total_file_size ≡ q.total_file_size +ℤ sum_of sources
  pub number : q'.num_blocks ≡ q.num_blocks +ℤ pos (length sources)

block_size_positive : (q : SourceQueue) (size : ℤ) → pos 0 <ℤ size → pos 0 <ℤ block_size_for q size
block_size_positive q size h = elim (Bool-cases (ltb_ℤ (pos 0) q.block_size_mbytes)) [
  | inl e ↦ rw e (many q.block_size_mbytes e)
  | inr e ↦ rw e h
]
  where
    many : (n : ℤ) → ltb_ℤ (pos 0) n ≡ true → pos 0 <ℤ pos (pos_part n * 1024 * 1024)
    many n e = ground arith

enqueue_chunks_lem :
    (missing : ℤ → Bool) (metadata : SourceMetaData) (chunks : List Interval) (q : SourceQueue)
    → pos 0 <ℤ metadata.size
    → All IsNonempty chunks
    → ((x : ℤ) → pos 0 ≤ℤ x → x <ℤ metadata.size → covered x chunks ≡ missing x)
    → Enqueued missing metadata.size q (enqueue_chunks metadata chunks q)
enqueue_chunks_lem missing metadata chunks q h ne left =
    let (cover, each, sum) =
      split_chunks_lem metadata (block_size_for q metadata.size) chunks
        (block_size_positive q metadata.size h) ne in
    record {
      sources = split_chunks metadata (block_size_for q metadata.size) chunks;
      queue = refl;
      bytes = λ x low high. cover x ∙ left x low high;
      each = each;
      size = ap (λ (z : ℤ). q.total_file_size +ℤ z) (sym sum);
      number = refl;
    }

plus_none : (a : ℤ) → a ≡ a +ℤ pos 0
plus_none a = grind int_laws

-- The numbers that the queue hands out and counts as sent before do not matter.
from_same :
    {missing : ℤ → Bool} {file_size : ℤ} {q' : SourceQueue} (q : SourceQueue) (next sent : ℤ)
    → Enqueued missing file_size (record q { next_seq_id = next; previously_sent_bytes = sent }) q'
    → Enqueued missing file_size q q'
from_same q next sent r = record {
  sources = r.sources;
  queue = r.queue;
  bytes = r.bytes;
  each = r.each;
  size = r.size;
  number = r.number;
}

whole_lem :
    (metadata : SourceMetaData) (status : FileAllocationStatus) (prev : ℤ) (q : SourceQueue)
    → pos 0 <ℤ metadata.size
    → Enqueued (λ x. true) metadata.size q (enqueue_whole metadata status prev q)
whole_lem metadata status prev q h =
    let m : SourceMetaData = record metadata {
      seq_id = q.next_seq_id;
      prev_seq_id = prev;
      allocation_status = status;
    } in
    let r =
      enqueue_chunks_lem (λ x. true) m (record { start = pos 0; stop = metadata.size } ∷ [])
        (record q { next_seq_id = q.next_seq_id +ℤ pos 1 }) h (h, tt)
        (λ x low high. is_inside metadata.size x low high) in
    from_same q (q.next_seq_id +ℤ pos 1) q.previously_sent_bytes r
  where
    is_inside :
        (size x : ℤ)
        → pos 0 ≤ℤ x
        → x <ℤ size
        → (inside x (record { start = pos 0; stop = size }) || false) ≡ true
    is_inside size x low high = ground arith

-- For a file that is not empty, the blocks that are put into the queue have exactly the bytes of the
-- file that the receiver does not have: all of them where it has no such file or a larger one, and
-- otherwise those outside its chunks, which are in order and apart. No block is empty or larger than
-- the block size, and the total size and the number of blocks grow by those of these blocks.
pub create_into_queue_internal_lem :
    (metadata : SourceMetaData) (q : SourceQueue)
    → pos 0 <ℤ metadata.size
    → IsOrderedInfo (lookup metadata.rel_path q.previously_transferred_chunks)
    → Enqueued
        (λ x.
          not (
            is_received (lookup metadata.rel_path q.previously_transferred_chunks) metadata.size x))
        metadata.size
        q
        (create_into_queue_internal metadata q)
unfolding create_into_queue_internal
create_into_queue_internal_lem metadata q h =
    by_info (lookup metadata.rel_path q.previously_transferred_chunks)
  where
    by_rest :
        (info : FileChunksInfo) (chunks : List Interval)
        → All IsNonempty chunks
        → ((x : ℤ)
            → pos 0 ≤ℤ x
            → x <ℤ metadata.size
            → covered x chunks ≡ not (covered x info.chunks))
        → (sent : ℤ)
        → Enqueued
            (λ x. not (covered x info.chunks))
            metadata.size
            q
            (enqueue_rest metadata info chunks (record q { previously_sent_bytes = sent }))
    by_rest info [] ne left sent = record {
      sources = [];
      queue = refl;
      bytes = left;
      each = tt;
      size = plus_none q.total_file_size;
      number = plus_none q.num_blocks;
    }
    by_rest info (c ∷ chunks) ne left sent =
        let m : SourceMetaData = record metadata {
          seq_id = info.seq_id;
          prev_seq_id = pos 0;
          allocation_status =
              if ltb_ℤ info.file_size metadata.size then exists_too_small else exists_correct_size;
        } in
        from_same q q.next_seq_id sent (
          enqueue_chunks_lem (λ x. not (covered x info.chunks)) m (c ∷ chunks)
            (record q { previously_sent_bytes = sent }) h ne left)

    by_size :
        (info : FileChunksInfo) (b : Bool)
        → IsOrdered (pos 0) info.chunks
        → (sent : ℤ)
        → Enqueued
            (λ x. not (if b then false else covered x info.chunks))
            metadata.size
            q
            (if b
              then enqueue_whole metadata exists_too_large info.seq_id q
              else enqueue_rest metadata info
                  (get_remaining_chunks info metadata.size)
                  (record q { previously_sent_bytes = sent }))
    by_size info true o sent = whole_lem metadata exists_too_large info.seq_id q h
    by_size info false o sent =
        by_rest info (get_remaining_chunks info metadata.size)
          (get_remaining_chunks-IsNonempty info metadata.size)
          (λ x low high. covered-get_remaining_chunks info metadata.size x o low high) sent

    by_info :
        (o : Option FileChunksInfo)
        → IsOrderedInfo o
        → Enqueued
            (λ x. not (is_received o metadata.size x))
            metadata.size
            q
            (create_or_resume metadata q o)
    by_info none u = whole_lem metadata not_exists (pos 0) q h
    by_info (some info) o = by_size info (ltb_ℤ metadata.size info.file_size) o _
