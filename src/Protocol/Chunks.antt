-- ===== src/Protocol/Chunks.antt =====
-- `FileChunksInfo::mergeChunks`, `getTotalChunkSize` and `getRemainingChunks` of Protocol.cpp.
pub mod Coverage
pub mod Remaining
use wdt.Common.{ℕ, zero, suc, Bool, true, false, List, [], ◌∷◌, ◌++◌, if◌then◌else◌, ◌≡◌}
use wdt.Common.Int.{ℤ, pos, ltb_ℤ, ◌+ℤ◌, ◌≤ℤ◌}
use wdt.Protocol.{Interval, interval_size, FileChunksInfo}

add_sizes : ℤ → List Interval → ℤ
add_sizes total_chunk_size [] = total_chunk_size
add_sizes total_chunk_size (chunk ∷ chunks) =
    add_sizes (total_chunk_size +ℤ interval_size chunk) chunks

pub get_total_chunk_size : FileChunksInfo → ℤ
get_total_chunk_size info = add_sizes (pos 0) info.chunks

unfoldable pub add_chunk : FileChunksInfo → Interval → FileChunksInfo
add_chunk info chunk = record info { chunks = info.chunks ++ chunk ∷ [] }

-- `std::max`
abbrev pub max_ℤ : ℤ → ℤ → ℤ
max_ℤ a b = if ltb_ℤ a b then b else a

-- The loop of `mergeChunks` with `curChunk`.
merge_from : Interval → List Interval → List Interval
merge_from cur_chunk [] = cur_chunk ∷ []
merge_from cur_chunk (chunk ∷ chunks) =
    let apart = cur_chunk ∷ merge_from chunk chunks in
    let joined =
      merge_from (record { start = cur_chunk.start; stop = max_ℤ cur_chunk.stop chunk.stop })
        chunks in
    if ltb_ℤ cur_chunk.stop chunk.start then apart else joined

abbrev merge_sorted : List Interval → List Interval
merge_sorted [] = []
merge_sorted (chunk ∷ chunks) = merge_from chunk chunks

-- `std::sort` by the start of the chunks.
abbrev merged : (List Interval → List Interval) → List Interval → List Interval
merged sort [] = []
merged sort (chunk ∷ chunks) = merge_sorted (sort (chunk ∷ chunks))

pub merge_chunks : (List Interval → List Interval) → FileChunksInfo → FileChunksInfo
merge_chunks sort info = record info { chunks = merged sort info.chunks }

-- The loop of `getRemainingChunks` with `curStart`.
remaining_from : ℤ → ℤ → List Interval → List Interval
remaining_from cur_file_size cur_start [] =
    if ltb_ℤ cur_start cur_file_size
    then record { start = cur_start; stop = cur_file_size } ∷ []
    else []
remaining_from cur_file_size cur_start (chunk ∷ chunks) =
    let rest = remaining_from cur_file_size chunk.stop chunks in
    if ltb_ℤ cur_start chunk.start
    then record { start = cur_start; stop = chunk.start } ∷ rest
    else rest

pub get_remaining_chunks : FileChunksInfo → ℤ → List Interval
get_remaining_chunks info cur_file_size = remaining_from cur_file_size (pos 0) info.chunks
