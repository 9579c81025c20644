-- ===== src/Protocol/CheckpointList/Legacy.antt =====
-- The seq-id of -1 that a sender before version 27 puts into a checkpoint.
use wdt.Common.{ℕ, ◌≤◌, ◌<◌, ◌≡◌, refl, true, List, [], ◌∷◌, ◌++◌, replicate}
use wdt.Common.{arith, lt→ltb, le→leb}
use wdt.Common.Int.{negsuc, pos_part}
use wdt.Wire.Types.{ok}
use wdt.Varint.Groups.{varint, groups}
use wdt.Varint.Encode.{IsCount}
use wdt.Serial.Reading.{Reads-uint64, Reads-int64c, Reads-int32c, IsCount32}
use wdt.Protocol.{Checkpoint, varint_change, checkpoint_seq_id_version, checkpoint_offset_version}
use wdt.Protocol.CheckpointList.{
  decode_seq_id, all_ones, decode_checkpoint, decode_each, decode_checkpoints,
}

-- The varint of ten bytes that -1 takes with seven bits to each byte.
abbrev pub ten_byte_minus_one : List ℕ
ten_byte_minus_one = replicate 9 255 ++ 1 ∷ []

nine_bytes : varint all_ones ≡ replicate 9 255
unfolding groups
nine_bytes = refl

seq_id_minus_one :
    (version : ℕ) (rest : List ℕ)
    → version < varint_change
    → decode_seq_id version (ten_byte_minus_one ++ rest) ≡ (ok (negsuc 0), rest)
unfolding decode_seq_id
seq_id_minus_one version rest h =
    rw (
      rw nine_bytes at ((Reads-uint64 all_ones (omega arith)).whole (1 ∷ rest)),
      lt→ltb version 27 h,
    )

-- A checkpoint of versions 21 to 26 in which the sender put -1 as the seq-id, in ten bytes, is
-- decoded with the seq-id -1 and the other fields as they were sent, whatever follows it.
pub decode_checkpoints_minus_one :
    (version : ℕ) (c : Checkpoint) (rest : List ℕ)
    → checkpoint_seq_id_version ≤ version
    → version < varint_change
    → IsCount32 c.port
    → IsCount c.num_blocks
    → IsCount c.last_block_received_bytes
    → IsCount c.last_block_offset
    → decode_checkpoints version (
        varint 1
        ++ (varint (pos_part c.port)
            ++ (varint (pos_part c.num_blocks)
                ++ (varint (pos_part c.last_block_received_bytes)
                    ++ (ten_byte_minus_one ++ (varint (pos_part c.last_block_offset) ++ rest))))))
      ≡ (ok (record c { last_block_seq_id = negsuc 0; has_seq_id = true } ∷ []), rest)
unfolding decode_checkpoints decode_each decode_checkpoint
decode_checkpoints_minus_one version c rest lo hi hp hn hr ho = rw (
  (Reads-uint64 1 (omega arith)).whole _,
  (Reads-int32c c.port hp).whole _,
  (Reads-int64c c.num_blocks hn).whole _,
  le→leb checkpoint_offset_version version (omega arith),
  (Reads-int64c c.last_block_received_bytes hr).whole _,
  le→leb checkpoint_seq_id_version version lo,
  seq_id_minus_one version _ hi,
  (Reads-int64c c.last_block_offset ho).whole rest,
)
