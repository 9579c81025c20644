-- ===== src/Protocol/FileChunks.antt =====
-- The list of files and chunks that the receiver already holds: `encodeChunkInfo` to
-- `decodeFileChunksInfoList` of Protocol.cpp, and the loop of ReceiverThread.cpp that sends it.
pub mod RoundTrip
pub mod Total
pub mod Listing
pub mod Pages
pub mod Progress
use wdt.Common.{
  ℕ, zero, suc, ◌+◌, ◌-◌, ◌*◌, ◌==◌, Bool, true, false, List, [], ◌∷◌, ◌++◌, length, drop,
}
use wdt.Common.{leb, ltb, if◌then◌else◌}
use wdt.Common.Int.{ℤ, pos, pos_part, ltb_ℤ}
use wdt.Wire.Types.{Status, Buffer, Encoder, Result, ok, refused, bailed, crashed, Decoder}
use wdt.Wire.Memory.{copy}
use wdt.Wire.Encoder.{◌>>◌, skip}
use wdt.Wire.Decoder.{◌>>=◌, pure}
use wdt.Varint.{encode_var_i64c}
use wdt.Serial.{encode_string, decode_string, decode_int64c, fail, FixedInt}
use wdt.Protocol.{Interval, FileChunksInfo, max_chunk_encode_len}

encode_chunk_info : ℕ → Interval → Encoder
encode_chunk_info max chunk = encode_var_i64c max chunk.start >> encode_var_i64c max chunk.stop

decode_chunk_info : Decoder Interval
decode_chunk_info = do
  start ← decode_int64c
  stop ← decode_int64c
  pure (record { start = start; stop = stop })

encode_chunks : ℕ → List Interval → Encoder
unfolding encode_chunk_info
encode_chunks max [] = skip
encode_chunks max (chunk ∷ chunks) = encode_chunk_info max chunk >> encode_chunks max chunks

pub encode_file_chunks_info : ℕ → FileChunksInfo → Encoder
unfolding encode_chunks
encode_file_chunks_info max info =
    encode_var_i64c max info.seq_id
    >> encode_string max info.file_name
    >> encode_var_i64c max info.file_size
    >> encode_var_i64c max (pos (length info.chunks))
    >> encode_chunks max info.chunks

decode_chunks : ℕ → Decoder (List Interval)
unfolding decode_chunk_info
decode_chunks zero = pure []
decode_chunks (suc n) =
    decode_chunk_info >>= λ chunk. decode_chunks n >>= λ chunks. pure (chunk ∷ chunks)

-- `numChunks < 0`, then the loop.
abbrev decode_num_chunks : ℤ → Decoder (List Interval)
decode_num_chunks num_chunks =
    if ltb_ℤ num_chunks (pos 0) then fail else decode_chunks (pos_part num_chunks)

-- Into a new `FileChunksInfo`.
pub decode_file_chunks_info : Decoder FileChunksInfo
unfolding decode_chunks
decode_file_chunks_info = do
  seq_id ← decode_int64c
  file_name ← decode_string
  file_size ← decode_int64c
  num_chunks ← decode_int64c
  chunks ← decode_num_chunks num_chunks
  pure (record { seq_id = seq_id; file_name = file_name; file_size = file_size; chunks = chunks })

unfoldable pub max_encode_len : FileChunksInfo → ℕ
max_encode_len info =
    10 + 2 + length info.file_name + 10 + 10 + length info.chunks * max_chunk_encode_len

-- The loop of `encodeFileChunksInfoList` over what is left of the list. The result of
-- `encodeFileChunksInfo` is not looked at, but a failed WDT_CHECK ends the process.
abbrev pub encoded_one :
    (Buffer → ℕ → Status × Buffer × ℕ) → ℕ → Status × Buffer → Status × Buffer × ℕ
encoded_one more num_encoded (Status.crashed, b) = (Status.crashed, b, num_encoded)
encoded_one more num_encoded (Status.done, b) = more b (num_encoded + 1)
encoded_one more num_encoded (Status.refused, b) = more b (num_encoded + 1)

pub encode_list : ℕ → ℕ → List FileChunksInfo → Buffer → ℕ → Status × Buffer × ℕ
encode_list old_offset buf_size [] b num_encoded = (Status.done, b, num_encoded)
encode_list old_offset buf_size (info ∷ infos) b num_encoded =
    let ignored = encode_list old_offset buf_size infos b num_encoded in
    let encoded =
      encoded_one (encode_list old_offset buf_size infos) num_encoded
        (encode_file_chunks_info buf_size info b) in
    if ltb buf_size (max_encode_len info + old_offset)
    then ignored
    else if leb buf_size (max_encode_len info + b.off)
    then (Status.done, b, num_encoded)
    else encoded

pub encode_file_chunks_info_list : ℕ → ℕ → List FileChunksInfo → Buffer → Status × Buffer × ℕ
unfolding encode_list
encode_file_chunks_info_list buf_size start_index infos b =
    encode_list b.off buf_size (drop start_index infos) b 0

-- How the loop in `ReceiverThread::sendFileChunks` ends: with the number of entries written, by a
-- failed WDT_CHECK, or not within the fuel.
pub data Sending : Type 0 where
  finished : ℕ → Sending
  ended still_sending : Sending

module _ (f : FixedInt) (write : ℕ → ℕ → ℕ) (buf_size : ℕ) (infos : List FileChunksInfo) where
  -- One round behind its page: the size goes into the first four bytes, and `write` says how many
  -- bytes the socket took. A round that wrote less than the page is the last.
  abbrev pub after_page : (List ℕ → ℕ → Sending) → ℕ → ℕ → Status × Buffer × ℕ → Sending
  after_page more fuel num_written (Status.crashed, b, n) = ended
  after_page more fuel num_written (Status.refused, b, n) = ended
  after_page more fuel num_written (Status.done, b, n) =
      let next = more (copy b.dest 0 (f.store 4 (pos (b.off - 4)))) (num_written + n) in
      if write fuel b.off == b.off then next else finished num_written

  pub send_pages : ℕ → List ℕ → ℕ → Sending
  send_pages zero mem num_written = still_sending
  send_pages (suc fuel) mem num_written =
      let page =
        encode_file_chunks_info_list buf_size num_written infos (record { dest = mem; off = 4 }) in
      let next = after_page (send_pages fuel) fuel num_written page in
      if ltb num_written (length infos) then next else finished num_written

-- `while (!br.empty())`, with one unit of fuel for each byte; a decoded entry takes a byte at least.
abbrev collected :
    (Decoder (List FileChunksInfo))
    → Result FileChunksInfo × List ℕ
    → Result (List FileChunksInfo) × List ℕ
collected more (ok info, br) = (more >>= λ infos. pure (info ∷ infos)) br
collected more (refused, br) = (bailed, br)
collected more (bailed, br) = (bailed, br)
collected more (crashed, br) = (crashed, br)

decode_list : ℕ → Decoder (List FileChunksInfo)
decode_list fuel [] = (ok [], [])
decode_list zero (c ∷ br) = (crashed, c ∷ br)
decode_list (suc fuel) (c ∷ br) = collected (decode_list fuel) (decode_file_chunks_info (c ∷ br))

-- Into an empty vector.
pub decode_file_chunks_info_list : Decoder (List FileChunksInfo)
unfolding decode_list
decode_file_chunks_info_list br = decode_list (length br) br
