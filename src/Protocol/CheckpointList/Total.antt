-- ===== src/Protocol/CheckpointList/Total.antt =====
-- `decodeCheckpoints` on any input.
use wdt.Common.{
  ℕ, zero, suc, [], ◌∷◌, leb, ltb, ◌==◌, ◌&&◌, arith, if◌then◌else◌, Bool-cases, inl, inr,
}
use wdt.Wire.Decoder.{pure, when_or}
use wdt.Wire.Sound.{IsSound, IsSound-bind, IsSound-when_or, IsSound-pure, IsSound-less}
use wdt.Serial.{decode_int64c, decode_int32c}
use wdt.Serial.Total.{IsSound-int64c, IsSound-uint64, decode_int64c-IsSound, decode_int32c-IsSound}
use wdt.Varint.{to_i64}
use wdt.Common.Int.{pos}
use wdt.Protocol.{
  Checkpoint, new_checkpoint, varint_change, checkpoint_offset_version, checkpoint_seq_id_version,
}
use wdt.Protocol.CheckpointList.{
  decode_checkpoints, decode_each, decode_checkpoint, decode_last_block,
}
use wdt.Protocol.CheckpointList.{decode_seq_id, legacy_seq_id, all_ones}

legacy_seq_id-IsSound : (uv : ℕ) → IsSound 0 (legacy_seq_id uv)
unfolding IsSound
legacy_seq_id-IsSound uv [] = omega arith
legacy_seq_id-IsSound uv (c ∷ br) = elim (Bool-cases (c == 1)) [
  | inl one ↦ rw one (omega arith)
  | inr other ↦ rw other (omega arith)
]

decode_seq_id-IsSound : (version : ℕ) → IsSound 0 (decode_seq_id version)
unfolding decode_seq_id IsSound
decode_seq_id-IsSound version = IsSound-uint64 _ by_version
  where
    by_version :
        (uv : ℕ)
        → IsSound 0 (
            if ltb version varint_change && uv == all_ones
            then legacy_seq_id uv
            else pure (to_i64 uv))
    by_version uv br = elim (Bool-cases (ltb version varint_change && uv == all_ones)) [
      | inl old ↦ rw old (legacy_seq_id-IsSound uv br)
      | inr new ↦ rw new (omega arith)
    ]

decode_last_block-IsSound : (version : ℕ) (c : Checkpoint) → IsSound 0 (decode_last_block version c)
decode_last_block-IsSound version c =
    IsSound-bind 0 _ _ (decode_seq_id-IsSound version)
      (λ seq_id. IsSound-int64c _ (λ offset. IsSound-pure _))

decode_checkpoint-IsSound : (version : ℕ) → IsSound 0 (decode_checkpoint version)
unfolding decode_checkpoint
decode_checkpoint-IsSound version =
    IsSound-bind 0 decode_int32c _
      (IsSound-less 1 0 decode_int32c (omega arith) decode_int32c-IsSound)
      (λ port. IsSound-int64c _ (λ num_blocks.
        IsSound-bind 0 _ _
          (IsSound-when_or (leb checkpoint_offset_version version) (pos 0) decode_int64c
            (IsSound-less 1 0 decode_int64c (omega arith) decode_int64c-IsSound))
          (λ received. last_block (record new_checkpoint {
            port = port;
            num_blocks = num_blocks;
            last_block_received_bytes = received;
          }))))
  where
    last_block :
        (c : Checkpoint)
        → IsSound 0
            (when_or (leb checkpoint_seq_id_version version) c (decode_last_block version c))
    last_block c =
        IsSound-when_or _ c (decode_last_block version c) (decode_last_block-IsSound version c)

decode_each-IsSound : (version n : ℕ) → IsSound 0 (decode_each version n)
unfolding decode_each
decode_each-IsSound version zero = IsSound-pure []
decode_each-IsSound version (suc n) =
    IsSound-bind 0 _ _ (decode_checkpoint-IsSound version)
      (λ c. IsSound-bind 0 _ _ (decode_each-IsSound version n) (λ cs. IsSound-pure _))

pub decode_checkpoints-IsSound : (version : ℕ) → IsSound 0 (decode_checkpoints version)
unfolding decode_checkpoints
decode_checkpoints-IsSound version = IsSound-uint64 _ (decode_each-IsSound version)
