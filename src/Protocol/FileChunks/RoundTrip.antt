-- ===== src/Protocol/FileChunks/RoundTrip.antt =====
-- One entry of the list: its bytes, its length, and that it is decoded as it was encoded.
use wdt.Common.{ℕ, ◌+◌, ◌*◌, ◌^◌, ◌≤◌, ◌<◌, ◌≡◌, false, List, [], ◌∷◌, ◌++◌}
use wdt.Common.{arith, length, length-append, All, ltb}
use wdt.Common.Int.{pos, pos_part}
use wdt.Wire.Encoder.{Writes, Writes-seq, Writes-skip}
use wdt.Wire.Decoder.{Reads, Reads-bind, Reads-map, Reads-pure}
use wdt.Varint.Groups.{varint, length-groups, length-groups_small}
use wdt.Varint.Encode.{IsCount, encode_var_i64c-Writes}
use wdt.Serial.Writing.{encode_string-Writes}
use wdt.Serial.Reading.{Reads-int64c, Reads-string}
use wdt.Protocol.{Interval, FileChunksInfo}
use wdt.Protocol.FileChunks.{encode_chunks, encode_file_chunks_info}
use wdt.Protocol.FileChunks.{decode_chunks, decode_num_chunks}
use wdt.Protocol.FileChunks.{decode_file_chunks_info, max_encode_len}

pub record IsInterval (chunk : Interval) : Type 0 where
  pub start : IsCount chunk.start
  pub stop : IsCount chunk.stop

-- An entry with no negative field, a file name that `maxEncodeLen` has room for, and a number of
-- chunks that an `int64_t` holds.
pub record IsInfo (info : FileChunksInfo) : Type 0 where
  pub seq_id : IsCount info.seq_id
  pub name : length info.file_name < 2 ^ 35
  pub file_size : IsCount info.file_size
  pub num_chunks : length info.chunks < 2 ^ 63
  pub chunks : All IsInterval info.chunks

chunk_bytes : Interval → List ℕ
chunk_bytes chunk = varint (pos_part chunk.start) ++ varint (pos_part chunk.stop)

chunks_bytes : List Interval → List ℕ
chunks_bytes [] = []
chunks_bytes (chunk ∷ chunks) = chunk_bytes chunk ++ chunks_bytes chunks

pub info_bytes : FileChunksInfo → List ℕ
info_bytes info =
    varint (pos_part info.seq_id)
    ++ ((varint (length info.file_name) ++ info.file_name)
        ++ (varint (pos_part info.file_size)
            ++ (varint (length info.chunks) ++ chunks_bytes info.chunks)))

chunks-Writes :
    (max : ℕ) (chunks : List Interval)
    → All IsInterval chunks
    → Writes max (encode_chunks max chunks) (chunks_bytes chunks)
unfolding encode_chunks chunks_bytes chunk_bytes
chunks-Writes max [] v = Writes-skip max
chunks-Writes max (chunk ∷ chunks) v =
    Writes-seq max
      (Writes-seq max (encode_var_i64c-Writes max chunk.start v.0.start)
        (encode_var_i64c-Writes max chunk.stop v.0.stop))
      (chunks-Writes max chunks v.1)

chunks-Reads :
    (chunks : List Interval)
    → All IsInterval chunks
    → Reads (decode_chunks (length chunks)) (chunks_bytes chunks) chunks
unfolding decode_chunks chunks_bytes chunk_bytes
chunks-Reads [] v = Reads-pure []
chunks-Reads (chunk ∷ chunks) v =
    Reads-bind _
      (Reads-bind _ (Reads-int64c chunk.start v.0.start)
        (Reads-map _ (Reads-int64c chunk.stop v.0.stop)))
      (Reads-map _ (chunks-Reads chunks v.1))

pub info-Writes :
    (max : ℕ) (info : FileChunksInfo)
    → IsInfo info
    → Writes max (encode_file_chunks_info max info) (info_bytes info)
unfolding encode_file_chunks_info info_bytes
info-Writes max info v = Writes-seq max (encode_var_i64c-Writes max info.seq_id v.seq_id) (
    Writes-seq max (encode_string-Writes max info.file_name) (
      Writes-seq max (encode_var_i64c-Writes max info.file_size v.file_size) (
        Writes-seq max (encode_var_i64c-Writes max (pos (length info.chunks)) v.num_chunks)
          (chunks-Writes max info.chunks v.chunks))))

num_chunks-Reads :
    (chunks : List Interval)
    → All IsInterval chunks
    → Reads (decode_num_chunks (pos (length chunks))) (chunks_bytes chunks) chunks
num_chunks-Reads chunks v =
    let plain : ltb (length chunks + 0) 0 ≡ false = ground arith in rw plain (chunks-Reads chunks v)

pub info-Reads :
    (info : FileChunksInfo) → IsInfo info → Reads decode_file_chunks_info (info_bytes info) info
unfolding decode_file_chunks_info info_bytes
info-Reads info v = Reads-bind _ (Reads-int64c info.seq_id v.seq_id) (
    Reads-bind _ (Reads-string info.file_name (omega (arith, v.name))) (
      Reads-bind _ (Reads-int64c info.file_size v.file_size) (
        Reads-bind _ (Reads-int64c (pos (length info.chunks)) v.num_chunks)
          (Reads-map _ (num_chunks-Reads info.chunks v.chunks)))))

length-chunks_bytes : (chunks : List Interval) → length (chunks_bytes chunks) ≤ length chunks * 18
unfolding chunks_bytes chunk_bytes
length-chunks_bytes [] = omega arith
length-chunks_bytes (chunk ∷ chunks) = omega (
  arith,
  length-append {0},
  length-groups 8 (pos_part chunk.start),
  length-groups 8 (pos_part chunk.stop),
  length-chunks_bytes chunks,
)

-- `maxEncodeLen` bounds the length of an encoded entry, which is not empty.
pub length-info_bytes :
    (info : FileChunksInfo)
    → IsInfo info
    → (1 ≤ length (info_bytes info)) × (length (info_bytes info) ≤ max_encode_len info)
unfolding info_bytes max_encode_len
length-info_bytes info v = omega (
  arith,
  length-append {0},
  length-groups 8 (pos_part info.seq_id),
  length-groups_small 4 8 (length info.file_name) v.name,
  length-groups 8 (pos_part info.file_size),
  length-groups 8 (length info.chunks),
  length-chunks_bytes info.chunks,
)
