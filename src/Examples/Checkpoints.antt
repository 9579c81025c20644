-- ===== src/Examples/Checkpoints.antt =====
-- The theorems on checkpoints at concrete inputs.
use wdt.Common.{◌+◌, ◌≤◌, ◌≡◌, [], ◌∷◌, map, arith}
use wdt.Common.{true}
use wdt.Common.Int.{pos}
use wdt.Wire.Types.{Status, ok}
use wdt.Wire.Decoder.{decode_at, IsFalse}
use wdt.Protocol.{Checkpoint}
use wdt.Examples.Headers.{after_command, after_command-IsRoom}
use wdt.Protocol.{get_max_local_checkpoint_length}
use wdt.Protocol.CheckpointList.{encode_checkpoints, decode_checkpoints}
use wdt.Protocol.CheckpointList.RoundTrip.{
  IsCheckpoint, decode_checkpoints-encode_checkpoints, decode_checkpoints_short,
  encode_checkpoints_advances,
}
use wdt.Protocol.CheckpointList.RoundTrip.Fits.{local_checkpoint_fits}
use wdt.Protocol.CheckpointList.RoundTrip as CheckpointList

abbrev checkpoint : Checkpoint
checkpoint = record {
  port = pos 22356;
  num_blocks = pos 7;
  last_block_seq_id = pos 300;
  last_block_offset = pos 65536;
  last_block_received_bytes = pos 1000;
  has_seq_id = true;
}

checkpoint-IsCheckpoint : IsCheckpoint checkpoint
checkpoint-IsCheckpoint = record {
  port = omega arith;
  num_blocks = omega arith;
  seq_id = omega arith;
  offset = omega arith;
  received = omega arith;
}

enough : 1 + get_max_local_checkpoint_length 27 ≤ 100
unfolding get_max_local_checkpoint_length
enough = omega arith

checkpoints_sent : (encode_checkpoints 27 100 (checkpoint ∷ []) (after_command 100)).0 ≡ Status.done
checkpoints_sent =
    local_checkpoint_fits 27 100 checkpoint (after_command 100) checkpoint-IsCheckpoint
      (after_command-IsRoom 100 (omega arith)) enough

local_checkpoint_fits_example :
    (encode_checkpoints 27 100 (checkpoint ∷ []) (after_command 100)).0 ≡ Status.done
local_checkpoint_fits_example =
    local_checkpoint_fits 27 100 checkpoint (after_command 100) checkpoint-IsCheckpoint
      (after_command-IsRoom 100 (omega arith)) enough

decode_checkpoints-encode_checkpoints_example :
    decode_at
      (decode_checkpoints 27)
      (encode_checkpoints 27 100 (checkpoint ∷ []) (after_command 100)).1.dest
      100
      1
    ≡ (
      ok (map (CheckpointList.carried 27) (checkpoint ∷ [])),
      (encode_checkpoints 27 100 (checkpoint ∷ []) (after_command 100)).1.off,
    )
decode_checkpoints-encode_checkpoints_example =
    decode_checkpoints-encode_checkpoints 27 100 (checkpoint ∷ []) (after_command 100) (omega arith)
      (checkpoint-IsCheckpoint, tt) (after_command-IsRoom 100 (omega arith)) checkpoints_sent

decode_checkpoints_short_example :
    IsFalse
      (decode_at
        (decode_checkpoints 27)
        (encode_checkpoints 27 100 (checkpoint ∷ []) (after_command 100)).1.dest
        1
        1).0
decode_checkpoints_short_example =
    decode_checkpoints_short 27 100 (checkpoint ∷ []) (after_command 100) 1 (omega arith)
      (checkpoint-IsCheckpoint, tt) (after_command-IsRoom 100 (omega arith)) checkpoints_sent
      (omega arith)
      (encode_checkpoints_advances 27 100 (checkpoint ∷ []) (after_command 100)
        (checkpoint-IsCheckpoint, tt) (after_command-IsRoom 100 (omega arith)) checkpoints_sent)
