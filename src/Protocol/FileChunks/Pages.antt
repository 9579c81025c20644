-- ===== src/Protocol/FileChunks/Pages.antt =====
-- One page of the list: which entries `encodeFileChunksInfoList` encodes, and that the page is
-- decoded to those entries.
use wdt.Common.{ℕ, zero, suc, ◌+◌, ◌≤◌, ◌≡◌, refl, ap, ◌∙◌, List, [], ◌∷◌, ◌++◌}
use wdt.Common.{arith, length, take, drop, take-all, length-append, All}
use native.Mathlib.Nat.{zero-add}
use wdt.Wire.Types.{Status, Buffer, Result, ok}
use wdt.Wire.Memory.{span, span-copy_cut}
use wdt.Wire.Encoder.{put}
use wdt.Wire.Decoder.{decode_at}
use wdt.Wire.Exchange.{IsRoom}
use wdt.Protocol.{FileChunksInfo}
use wdt.Protocol.FileChunks.{encode_file_chunks_info_list}
use wdt.Protocol.FileChunks.{
  decode_list, decode_file_chunks_info_list, decode_file_chunks_info, collected,
}
use wdt.Protocol.FileChunks.RoundTrip.{IsInfo, info_bytes, info-Reads, length-info_bytes}
use wdt.Protocol.FileChunks.Listing.{fitting, list_bytes, Stopped, encode_list-Encoded}

pub All-drop : (n : ℕ) (infos : List FileChunksInfo) → All IsInfo infos → All IsInfo (drop n infos)
All-drop zero infos v = v
All-drop (suc n) [] v = tt
All-drop (suc n) (info ∷ infos) v = All-drop n infos v.1

All-take : (n : ℕ) (infos : List FileChunksInfo) → All IsInfo infos → All IsInfo (take n infos)
All-take zero infos v = tt
All-take (suc n) [] v = tt
All-take (suc n) (info ∷ infos) v = (v.0, All-take n infos v.1)

All-fitting :
    (old buf_size : ℕ) (infos : List FileChunksInfo)
    → All IsInfo infos
    → All IsInfo (fitting old buf_size infos)
unfolding fitting
All-fitting old buf_size [] v = tt
All-fitting old buf_size (info ∷ infos) v = ground (arith, All-fitting old buf_size infos v.1)

decode_list_step :
    (fuel : ℕ) (br : List ℕ)
    → 1 ≤ length br
    → decode_list (suc fuel) br ≡ collected (decode_list fuel) (decode_file_chunks_info br)
unfolding decode_list
decode_list_step fuel [] h = absurd (omega arith)
decode_list_step fuel (c ∷ br) h = refl

decode_list_whole :
    (fuel : ℕ) (infos : List FileChunksInfo)
    → All IsInfo infos
    → length (list_bytes infos) ≤ fuel
    → decode_list fuel (list_bytes infos) ≡ (ok infos, [])
unfolding list_bytes
decode_list_whole zero [] v h = unfold decode_list in refl
decode_list_whole (suc fuel) [] v h = unfold decode_list in refl
decode_list_whole zero (info ∷ infos) v h =
    absurd (
      omega (arith, length-append (info_bytes info) (list_bytes infos), length-info_bytes info v.0))
decode_list_whole (suc fuel) (info ∷ infos) v h =
    let split = length-append (info_bytes info) (list_bytes infos) in
    rw (
      decode_list_step fuel (info_bytes info ++ list_bytes infos)
          (omega (arith, split, length-info_bytes info v.0)),
      (info-Reads info v.0).whole (list_bytes infos),
      decode_list_whole fuel infos v.1 (omega (arith, split, length-info_bytes info v.0)),
    )

page_decodes :
    (infos : List FileChunksInfo) (b : Buffer)
    → All IsInfo infos
    → b.off + length (list_bytes infos) ≤ length b.dest
    → let b' = put b (list_bytes infos) in
      decode_at decode_file_chunks_info_list b'.dest b'.off b.off ≡ (ok infos, b'.off)
unfolding decode_file_chunks_info_list
page_decodes infos b v h =
    let bs : List ℕ = list_bytes infos in
    let input : span (put b bs).dest (put b bs).off b.off ≡ bs =
      span-copy_cut b.dest b.off (length bs) bs (omega arith) h
      ∙ take-all (length bs) bs (omega arith) in
    rw (input, decode_list_whole (length bs) infos v (omega arith))
      (ap {B = Result (List FileChunksInfo) × ℕ} (λ n. (ok infos, n)) (omega arith))

module _ (buf_size start_index : ℕ) (infos : List FileChunksInfo) (b : Buffer) where
  abbrev pub kept : List FileChunksInfo
  kept = fitting b.off buf_size (drop start_index infos)

  -- `encodeFileChunksInfoList` encodes, from `startIndex` on, the first entries of those that would
  -- fit the page alone, and stops at the end of the list or at one that finds no room any more. It
  -- writes no further than the buffer's size, and `decodeFileChunksInfoList`, given the page up to
  -- the offset that was reached, returns true with exactly the entries that were counted.
  pub decode_list-encode_list :
      All IsInfo infos
      → IsRoom buf_size b
      → let (status, b', n) = encode_file_chunks_info_list buf_size start_index infos b in
        (status ≡ Status.done)
        × (n ≤ length kept)
        × (b'.off ≤ buf_size)
        × Stopped buf_size (drop n kept) b'.off
        × (decode_at decode_file_chunks_info_list b'.dest b'.off b.off ≡ (ok (take n kept), b'.off))
  unfolding encode_file_chunks_info_list
  decode_list-encode_list v r =
      let valid = All-drop start_index infos v in
      let (n, page) = encode_list-Encoded b.off buf_size (drop start_index infos) b 0 valid r in
      let taken = All-take n kept (All-fitting b.off buf_size (drop start_index infos) valid) in
      rw (page.result, zero-add n)
        (
          refl,
          page.count,
          page.room,
          page.stopped,
          page_decodes (take n kept) b taken (omega (arith, page.room, r.size)),
        )
