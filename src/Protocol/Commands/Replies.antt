-- ===== src/Protocol/Commands/Replies.antt =====
-- The done, size and footer messages: what was encoded is decoded, and a cut message is refused.
use wdt.Common.{ℕ, ◌+◌, ◌-◌, ◌≤◌, ◌≡◌, List, [], ◌++◌, leb, if◌then◌else◌, arith}
use wdt.Common.{length-append, length-if}
use wdt.Common.Int.{ℤ, pos_part}
use wdt.Wire.Types.{Status, Buffer, ok}
use wdt.Wire.Encoder.{Writes, Writes-seq, Writes-when}
use wdt.Wire.Decoder.{Reads, Reads-bind, Reads-when_or, Reads-map, decode_at}
use wdt.Wire.Exchange.{IsRoom, decodes_back, succeeds}
use wdt.Varint.Groups.{varint, length-groups}
use wdt.Varint.Encode.{IsCount, encode_var_i64c-Writes, encode_var_i64-Writes}
use wdt.Serial.Reading.{Reads-int64c, Reads-int32, IsI32}
use wdt.Protocol.{checkpoint_offset_version, max_done}
use wdt.Protocol.Commands.{encode_done, decode_done, encode_size, decode_size}
use wdt.Protocol.Commands.{encode_footer, decode_footer}

done_bytes : ℕ → ℤ → ℤ → List ℕ
done_bytes version n s =
    varint (pos_part n)
    ++ (if leb checkpoint_offset_version version then varint (pos_part s) else [])

module _ (version max : ℕ) (num_blocks bytes_sent : ℤ) (n : IsCount num_blocks)
    (s : IsCount bytes_sent) where
  encode_done-Writes :
      Writes max
        (encode_done version max num_blocks bytes_sent)
        (done_bytes version num_blocks bytes_sent)
  unfolding encode_done done_bytes
  encode_done-Writes = Writes-seq max (encode_var_i64c-Writes max num_blocks n) (
      Writes-when max (leb checkpoint_offset_version version)
        (encode_var_i64c-Writes max bytes_sent s))

  decode_done-Reads :
      (old : ℤ)
      → Reads (decode_done version old) (done_bytes version num_blocks bytes_sent) (
          if leb checkpoint_offset_version version
          then (num_blocks, bytes_sent)
          else (num_blocks, old))
  unfolding decode_done done_bytes
  decode_done-Reads old = Reads-bind _ (Reads-int64c num_blocks n) (
      Reads-when_or (leb checkpoint_offset_version version)
        (Reads-map _ (Reads-int64c bytes_sent s)) (num_blocks, old))

  -- Where `encodeDone` returns true, `decodeDone` of the same version returns true with the number
  -- of blocks and, from version 16 on, the number of bytes, and ends at the same offset; below 16
  -- the caller's number of bytes stays.
  pub decode_done-encode_done :
      (old : ℤ) (b : Buffer)
      → IsRoom max b
      → (encode_done version max num_blocks bytes_sent b).0 ≡ Status.done
      → let b' = (encode_done version max num_blocks bytes_sent b).1 in
        decode_at (decode_done version old) b'.dest max b.off ≡ (
          ok (
              if leb checkpoint_offset_version version
              then (num_blocks, bytes_sent)
              else (num_blocks, old)),
          b'.off,
        )
  decode_done-encode_done old b r d =
      decodes_back max encode_done-Writes (decode_done-Reads old) b r d

  -- A done message fits the `kMaxDone` bytes, behind the command and status bytes.
  pub encode_done_fits :
      (b : Buffer)
      → IsRoom max b
      → b.off + (max_done - 2) ≤ max
      → (encode_done version max num_blocks bytes_sent b).0 ≡ Status.done
  unfolding done_bytes
  encode_done_fits b r h = succeeds max encode_done-Writes b r (
      omega (
        arith,
        length-append {0},
        length-groups 8 (pos_part num_blocks),
        length-groups 8 (pos_part bytes_sent),
        length-if (leb checkpoint_offset_version version) (varint (pos_part bytes_sent)),
      ))

-- Where `encodeSize` returns true, `decodeSize` returns true with the same number of bytes and ends
-- at the same offset.
pub decode_size-encode_size :
    (max : ℕ) (v : ℤ) (b : Buffer)
    → IsCount v
    → IsRoom max b
    → (encode_size max v b).0 ≡ Status.done
    → decode_at decode_size (encode_size max v b).1.dest max b.off
      ≡ (ok v, (encode_size max v b).1.off)
unfolding encode_size decode_size
decode_size-encode_size max v b h r d =
    decodes_back max (encode_var_i64c-Writes max v h) (Reads-int64c v h) b r d

-- Where `encodeFooter` returns true, `decodeFooter` returns true with the same checksum, of either
-- sign, and ends at the same offset.
pub decode_footer-encode_footer :
    (max : ℕ) (v : ℤ) (b : Buffer)
    → IsI32 v
    → IsRoom max b
    → (encode_footer max v b).0 ≡ Status.done
    → decode_at decode_footer (encode_footer max v b).1.dest max b.off
      ≡ (ok v, (encode_footer max v b).1.off)
unfolding encode_footer decode_footer
decode_footer-encode_footer max v b h r d =
    decodes_back max (encode_var_i64-Writes max v) (Reads-int32 v h) b r d
