-- ===== src/Examples/FileLists.antt =====
-- The theorems on the list of files and chunks at concrete inputs.
use wdt.Common.{ℕ, ◌+◌, ◌<◌, ◌≤◌, ◌≡◌, List, [], ◌∷◌, length, replicate, take, drop, arith}
use wdt.Common.Int.{pos}
use wdt.Wire.Types.{Status, Buffer, ok}
use wdt.Wire.Decoder.{decode_at}
use wdt.Protocol.{FileChunksInfo}
use wdt.Protocol.FileChunks.{
  encode_file_chunks_info_list, decode_file_chunks_info_list, max_encode_len,
}
use wdt.Protocol.FileChunks.{send_pages, finished, still_sending}
use wdt.Protocol.FileChunks.RoundTrip.{IsInfo}
use wdt.Protocol.FileChunks.Listing.{Stopped}
use wdt.Protocol.FileChunks.Pages.{decode_list-encode_list, kept}
use wdt.Protocol.FileChunks.Progress.{send_pages_ends, send_pages_never_ends}
use wdt.Examples.Endian.{little_endian}
use wdt.Wire.Exchange.{IsRoom}

abbrev info_of : List ℕ → FileChunksInfo
info_of name = record {
  seq_id = pos 12;
  file_name = name;
  file_size = pos 70000;
  chunks = record { start = pos 0; stop = pos 4096 } ∷ [];
}

abbrev small_info : FileChunksInfo
small_info = info_of (97 ∷ [])

-- Its name alone does not leave room for the rest.
abbrev big_info : FileChunksInfo
big_info = info_of (replicate 50 98)

small_info-IsInfo : IsInfo small_info
small_info-IsInfo = record {
  seq_id = omega arith;
  name = omega arith;
  file_size = omega arith;
  num_chunks = omega arith;
  chunks = (record { start = omega arith; stop = omega arith }, tt);
}

big_info-IsInfo : IsInfo big_info
big_info-IsInfo = record {
  seq_id = omega arith;
  name = omega arith;
  file_size = omega arith;
  num_chunks = omega arith;
  chunks = (record { start = omega arith; stop = omega arith }, tt);
}

abbrev page : Buffer
page = record { dest = replicate 100 0; off = 4 }

page-IsRoom : IsRoom 70 page
page-IsRoom = record { start = omega arith; size = omega arith }

decode_list-encode_list_example :
    let (status, b', n) = encode_file_chunks_info_list 70 0 (big_info ∷ small_info ∷ []) page in
    let kept' = kept 70 0 (big_info ∷ small_info ∷ []) page in
    (status ≡ Status.done)
    × (n ≤ length kept')
    × (b'.off ≤ 70)
    × Stopped 70 (drop n kept') b'.off
    × (decode_at decode_file_chunks_info_list b'.dest b'.off 4 ≡ (ok (take n kept'), b'.off))
decode_list-encode_list_example =
    decode_list-encode_list 70 0 (big_info ∷ small_info ∷ []) page
      (big_info-IsInfo, (small_info-IsInfo, tt)) page-IsRoom

small_fits : max_encode_len small_info + 4 < 70
unfolding max_encode_len
small_fits = omega arith

big_over : 70 < max_encode_len big_info + 4
unfolding max_encode_len
big_over = omega arith

send_pages_ends_example :
    send_pages little_endian (λ round n. n) 70 (small_info ∷ small_info ∷ []) 3 (replicate 70 0) 0
    ≡ finished 2
send_pages_ends_example =
    send_pages_ends little_endian 70 (small_info ∷ small_info ∷ [])
      (small_info-IsInfo, (small_info-IsInfo, tt)) 3 (replicate 70 0) 0
      (small_fits, (small_fits, tt)) (omega arith) (omega arith) (omega arith) (omega arith)

send_pages_never_ends_example :
    send_pages little_endian (λ round n. n) 70 (small_info ∷ big_info ∷ []) 1000 (replicate 70 0) 0
    ≡ still_sending
send_pages_never_ends_example =
    send_pages_never_ends little_endian 70 (small_info ∷ []) big_info
      (small_info-IsInfo, (big_info-IsInfo, tt)) 1000 (replicate 70 0) 0 big_over (omega arith)
      (omega arith) (omega arith)
