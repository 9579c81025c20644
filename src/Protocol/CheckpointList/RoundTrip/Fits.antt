-- ===== src/Protocol/CheckpointList/RoundTrip/Fits.antt =====
-- The room that encodeCheckpoints of Protocol.cpp needs for a local checkpoint.
use wdt.Common.{ℕ, ◌+◌, ◌*◌, ◌≤◌, ◌≡◌, List, [], ◌∷◌, ◌++◌}
use wdt.Common.{leb, arith, length, length-append, length-if_le}
use wdt.Common.Int.{pos_part}
use wdt.Wire.Types.{Status, Buffer}
use wdt.Wire.Exchange.{IsRoom, succeeds}
use wdt.Varint.Groups.{varint, length-groups}
use wdt.Protocol.{Checkpoint, checkpoint_offset_version, checkpoint_seq_id_version}
use wdt.Protocol.{get_max_local_checkpoint_length}
use wdt.Protocol.CheckpointList.{encode_checkpoints}
use wdt.Protocol.CheckpointList.RoundTrip.{
  IsCheckpoint, checkpoint_bytes, each_bytes, checkpoints-Writes,
}

module _ (version : ℕ) where
  length-checkpoint_bytes :
      (c : Checkpoint)
      → length (checkpoint_bytes version c) + 10 ≤ get_max_local_checkpoint_length version
  unfolding checkpoint_bytes get_max_local_checkpoint_length
  length-checkpoint_bytes c =
      let bytes : List ℕ = varint (pos_part c.last_block_received_bytes) in
      let place : List ℕ =
        varint (pos_part c.last_block_seq_id) ++ varint (pos_part c.last_block_offset) in
      omega (
        arith,
        length-append {0},
        length-groups 8 (pos_part c.port),
        length-groups 8 (pos_part c.num_blocks),
        length-if_le (leb checkpoint_offset_version version) bytes 10
            (omega (arith, length-groups 8 (pos_part c.last_block_received_bytes))),
        length-if_le (leb checkpoint_seq_id_version version) place (2 * 10) (
            omega (
              arith,
              length-append {0},
              length-groups 8 (pos_part c.last_block_seq_id),
              length-groups 8 (pos_part c.last_block_offset),
            )),
      )

  -- A vector of one checkpoint fits the length that `getMaxLocalCheckpointLength` gives for the
  -- version: with that much room `encodeCheckpoints` returns true.
  pub local_checkpoint_fits :
      (max : ℕ) (c : Checkpoint) (b : Buffer)
      → IsCheckpoint c
      → IsRoom max b
      → b.off + get_max_local_checkpoint_length version ≤ max
      → (encode_checkpoints version max (c ∷ []) b).0 ≡ Status.done
  unfolding each_bytes
  local_checkpoint_fits max c b v r h =
      succeeds max (checkpoints-Writes version max (c ∷ []) (v, tt)) b r
        (omega (arith, length-append {0}, length-groups 8 1, length-checkpoint_bytes c))
