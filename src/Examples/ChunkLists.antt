-- ===== src/Examples/ChunkLists.antt =====
-- The theorems on chunks at concrete inputs.
use wdt.Common.{ℕ, ◌≡◌, refl, not, List, [], ◌∷◌, arith, if◌then◌else◌}
use wdt.Common.Int.{pos, ltb_ℤ}
use mathlib.Core.List.{Permᴰ}
use wdt.Protocol.{Interval, FileChunksInfo}
use wdt.Protocol.Chunks.{merge_chunks, get_remaining_chunks}
use wdt.Protocol.Chunks.Coverage.{covered, IsApart, Sorts, covered-merge_chunks}
use wdt.Protocol.Chunks.Remaining.{covered-get_remaining_chunks}

abbrev chunk : ℕ → ℕ → Interval
chunk start stop = record { start = pos start; stop = pos stop }

-- Insertion sort by the starts.
abbrev insert : Interval → List Interval → List Interval
insert c [] = c ∷ []
insert c (d ∷ ds) =
    let later = d ∷ insert c ds in if ltb_ℤ d.start c.start then later else c ∷ d ∷ ds

abbrev sort : List Interval → List Interval
sort [] = []
sort (c ∷ cs) = insert c (sort cs)

abbrev info_of : List Interval → FileChunksInfo
info_of chunks = record {
  seq_id = pos 1;
  file_name = 97 ∷ [];
  file_size = pos 100;
  chunks = chunks;
}

abbrev unsorted : FileChunksInfo
unsorted = info_of (chunk 40 60 ∷ chunk 10 20 ∷ chunk 20 30 ∷ [])

unsorted-Sorts : Sorts sort unsorted.chunks
unsorted-Sorts = record {
  same = Permᴰ.trans (Permᴰ.swap refl refl) (Permᴰ.cons refl (Permᴰ.swap refl refl));
  sorted = (omega arith, (omega arith, (omega arith, tt)));
}

covered-merge_chunks_example :
    IsApart (merge_chunks sort unsorted).chunks
    × (covered (pos 25) (merge_chunks sort unsorted).chunks ≡ covered (pos 25) unsorted.chunks)
covered-merge_chunks_example =
    covered-merge_chunks sort unsorted (pos 25) unsorted-Sorts
      (omega arith, (omega arith, (omega arith, tt)))

abbrev merged_info : FileChunksInfo
merged_info = info_of (chunk 10 30 ∷ chunk 40 60 ∷ [])

covered-get_remaining_chunks_example :
    covered (pos 35) (get_remaining_chunks merged_info (pos 100))
    ≡ not (covered (pos 35) merged_info.chunks)
covered-get_remaining_chunks_example =
    covered-get_remaining_chunks merged_info (pos 100) (pos 35)
      (omega arith, omega arith, (omega arith, omega arith, tt)) (omega arith) (omega arith)
