-- ===== src/Protocol/CheckpointList.antt =====
-- `encodeCheckpoints` and `decodeCheckpoints` of Protocol.cpp.
pub mod RoundTrip
pub mod Total
pub mod Legacy
use wdt.Common.{
  ℕ, zero, suc, ◌+◌, ◌-◌, ◌^◌, Bool, true, false, List, [], ◌∷◌, leb, ltb, ◌==◌, length,
}
use wdt.Common.{if◌then◌else◌, ◌&&◌}
use wdt.Common.Int.{ℤ, pos, negsuc}
use wdt.Wire.Types.{Encoder, Result, ok, refused, Decoder}
use wdt.Wire.Encoder.{◌>>◌, when, skip}
use wdt.Wire.Decoder.{◌>>=◌, pure, when_or}
use wdt.Varint.{encode_var_u64, encode_var_i64c, to_i64}
use wdt.Serial.{decode_int64c, decode_int32c, decode_uint64}
use wdt.Protocol.{Checkpoint, new_checkpoint, checkpoint_offset_version, checkpoint_seq_id_version}
use wdt.Protocol.{varint_change}

encode_checkpoint : ℕ → ℕ → Checkpoint → Encoder
encode_checkpoint version max c =
    encode_var_i64c max c.port
    >> encode_var_i64c max c.num_blocks
    >> when (leb checkpoint_offset_version version)
        (encode_var_i64c max c.last_block_received_bytes)
    >> when (leb checkpoint_seq_id_version version)
        (encode_var_i64c max c.last_block_seq_id >> encode_var_i64c max c.last_block_offset)

encode_each : ℕ → ℕ → List Checkpoint → Encoder
encode_each version max [] = skip
encode_each version max (c ∷ cs) = encode_checkpoint version max c >> encode_each version max cs

pub encode_checkpoints : ℕ → ℕ → List Checkpoint → Encoder
unfolding encode_each encode_checkpoint
encode_checkpoints version max cs = encode_var_u64 max (length cs) >> encode_each version max cs

-- A sender before version 27 encodes a seq-id of -1 in ten bytes, of which `decodeUInt64` takes the
-- first nine: the tenth, 0x01, is consumed here.
abbrev legacy_seq_id : ℕ → List ℕ → Result ℤ × List ℕ
legacy_seq_id uv [] = (ok (to_i64 uv), [])
legacy_seq_id uv (c ∷ br) = if c == 1 then (ok (negsuc 0), br) else (refused, br)

abbrev pub all_ones : ℕ
all_ones = 2 ^ 64 - 1

decode_seq_id : ℕ → Decoder ℤ
decode_seq_id version = decode_uint64 >>= λ uv.
    if ltb version varint_change && uv == all_ones then legacy_seq_id uv else pure (to_i64 uv)

abbrev decode_last_block : ℕ → Checkpoint → Decoder Checkpoint
decode_last_block version c = do
  seq_id ← decode_seq_id version
  offset ← decode_int64c
  pure (record c { last_block_seq_id = seq_id; last_block_offset = offset; has_seq_id = true })

decode_checkpoint : ℕ → Decoder Checkpoint
decode_checkpoint version = do
  port ← decode_int32c
  num_blocks ← decode_int64c
  received ← when_or (leb checkpoint_offset_version version) (pos 0) decode_int64c
  let c : Checkpoint = record new_checkpoint {
    port = port;
    num_blocks = num_blocks;
    last_block_received_bytes = received;
  }
  when_or (leb checkpoint_seq_id_version version) c (decode_last_block version c)

decode_each : ℕ → ℕ → Decoder (List Checkpoint)
decode_each version zero = pure []
decode_each version (suc n) =
    decode_checkpoint version >>= λ c. decode_each version n >>= λ cs. pure (c ∷ cs)

-- Into an empty vector of checkpoints.
pub decode_checkpoints : ℕ → Decoder (List Checkpoint)
unfolding decode_each decode_checkpoint decode_seq_id
decode_checkpoints version = decode_uint64 >>= decode_each version
