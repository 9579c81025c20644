-- ===== src/Protocol/CheckpointList/RoundTrip.antt =====
-- The checkpoints that the receiver encodes are those that the sender decodes.
pub mod Fits
use wdt.Common.{ℕ, ◌+◌, ◌*◌, ◌^◌, ◌≤◌, ◌<◌, ◌≡◌, true, false, List, [], ◌∷◌, ◌++◌}
use wdt.Common.{
  leb, ltb, if◌then◌else◌, arith, length, length-append, length-if_le, append-nil, map, All, ◌&&◌,
  ◌==◌,
}
use wdt.Common.Int.{ℤ, pos, negsuc, pos_part}
use wdt.Wire.Types.{Status, Buffer, ok}
use wdt.Wire.Encoder.{Writes, Writes-seq, Writes-when, Writes-skip}
use wdt.Wire.Decoder.{
  Reads, Reads-bind, Reads-when_or, Reads-map, Reads-pure, decode_at, IsFalse, pure,
}
use wdt.Wire.Exchange.{IsRoom, decodes_back, advances, refuses_short, succeeds}
use wdt.Varint.{to_i64}
use wdt.Varint.ZigZag.{to_i64_small}
use wdt.Varint.Groups.{varint, length-groups}
use wdt.Varint.Encode.{IsCount, encode_var_i64c-Writes, encode_var_u64-Writes}
use wdt.Serial.Reading.{Reads-int64c, Reads-int32c, Reads-uint64, IsCount32, IsCount32-IsCount}
use wdt.Protocol.{Checkpoint, new_checkpoint, checkpoint_offset_version, checkpoint_seq_id_version}
use wdt.Protocol.{get_max_local_checkpoint_length, varint_change}
use wdt.Protocol.CheckpointList.{encode_checkpoint, encode_each, encode_checkpoints, legacy_seq_id}
use wdt.Protocol.CheckpointList.{decode_seq_id, decode_checkpoint, decode_each}
use wdt.Protocol.CheckpointList.{decode_checkpoints, all_ones}

-- A checkpoint with no negative field.
pub record IsCheckpoint (c : Checkpoint) : Type 0 where
  pub port : IsCount32 c.port
  pub num_blocks : IsCount c.num_blocks
  pub seq_id : IsCount c.last_block_seq_id
  pub offset : IsCount c.last_block_offset
  pub received : IsCount c.last_block_received_bytes

module _ (version : ℕ) where
  checkpoint_bytes : Checkpoint → List ℕ
  checkpoint_bytes c =
      varint (pos_part c.port)
      ++ (varint (pos_part c.num_blocks)
          ++ ((if leb checkpoint_offset_version version
                then varint (pos_part c.last_block_received_bytes)
                else [])
              ++ (if leb checkpoint_seq_id_version version
                  then varint (pos_part c.last_block_seq_id)
                    ++ varint (pos_part c.last_block_offset)
                  else [])))

  each_bytes : List Checkpoint → List ℕ
  each_bytes [] = []
  each_bytes (c ∷ cs) = checkpoint_bytes c ++ each_bytes cs

  -- The fields that a version does not carry come out as a new checkpoint has them.
  abbrev pub carried : Checkpoint → Checkpoint
  carried c =
      let c' : Checkpoint = record new_checkpoint {
        port = c.port;
        num_blocks = c.num_blocks;
        last_block_received_bytes =
            if leb checkpoint_offset_version version then c.last_block_received_bytes else pos 0;
      } in
      if leb checkpoint_seq_id_version version
      then record c' {
        last_block_seq_id = c.last_block_seq_id;
        last_block_offset = c.last_block_offset;
        has_seq_id = true;
      }
      else c'

  seq_id-Reads : (v : ℤ) → IsCount v → Reads (decode_seq_id version) (varint (pos_part v)) v
  unfolding decode_seq_id
  seq_id-Reads (negsuc n) h = absurd h
  seq_id-Reads (pos n) h =
      rw (← append-nil (varint n)) (Reads-bind _ (Reads-uint64 n (omega arith)) taken)
    where
      taken :
          Reads
            (if ltb version varint_change && n == all_ones
              then legacy_seq_id n
              else pure (to_i64 n))
            []
            (pos n)
      taken =
          let usual : ltb version varint_change && n == all_ones ≡ false = ground arith in
          rw (usual, to_i64_small n h) (Reads-pure (pos n))

  decode_checkpoint-Reads :
      (c : Checkpoint)
      → IsCheckpoint c
      → Reads (decode_checkpoint version) (checkpoint_bytes c) (carried c)
  unfolding decode_checkpoint checkpoint_bytes
  decode_checkpoint-Reads c v = Reads-bind _ (Reads-int32c c.port v.port) (
      Reads-bind _ (Reads-int64c c.num_blocks v.num_blocks) (
        Reads-bind _
          (Reads-when_or (leb checkpoint_offset_version version)
            (Reads-int64c c.last_block_received_bytes v.received) (pos 0))
          (Reads-when_or (leb checkpoint_seq_id_version version)
            (Reads-bind _ (seq_id-Reads c.last_block_seq_id v.seq_id)
              (Reads-map _ (Reads-int64c c.last_block_offset v.offset)))
            _)))

  decode_each-Reads :
      (cs : List Checkpoint)
      → All IsCheckpoint cs
      → Reads (decode_each version (length cs)) (each_bytes cs) (map carried cs)
  unfolding decode_each each_bytes
  decode_each-Reads [] v = Reads-pure []
  decode_each-Reads (c ∷ cs) v =
      Reads-bind _ (decode_checkpoint-Reads c v.0) (Reads-map _ (decode_each-Reads cs v.1))

  checkpoint-Writes :
      (max : ℕ) (c : Checkpoint)
      → IsCheckpoint c
      → Writes max (encode_checkpoint version max c) (checkpoint_bytes c)
  unfolding encode_checkpoint checkpoint_bytes
  checkpoint-Writes max c v =
      Writes-seq max (encode_var_i64c-Writes max c.port (IsCount32-IsCount c.port v.port)) (
        Writes-seq max (encode_var_i64c-Writes max c.num_blocks v.num_blocks) (
          Writes-seq max
            (Writes-when max (leb checkpoint_offset_version version)
              (encode_var_i64c-Writes max c.last_block_received_bytes v.received))
            (Writes-when max (leb checkpoint_seq_id_version version) (
              Writes-seq max (encode_var_i64c-Writes max c.last_block_seq_id v.seq_id)
                (encode_var_i64c-Writes max c.last_block_offset v.offset)))))

  each-Writes :
      (max : ℕ) (cs : List Checkpoint)
      → All IsCheckpoint cs
      → Writes max (encode_each version max cs) (each_bytes cs)
  unfolding encode_each each_bytes
  each-Writes max [] v = Writes-skip max
  each-Writes max (c ∷ cs) v = Writes-seq max (checkpoint-Writes max c v.0) (each-Writes max cs v.1)

  checkpoints-Writes :
      (max : ℕ) (cs : List Checkpoint)
      → All IsCheckpoint cs
      → Writes max (encode_checkpoints version max cs) (varint (length cs) ++ each_bytes cs)
  unfolding encode_checkpoints
  checkpoints-Writes max cs v =
      Writes-seq max (encode_var_u64-Writes max (length cs)) (each-Writes max cs v)

  checkpoints-Reads :
      (cs : List Checkpoint)
      → length cs < 2 ^ 64
      → All IsCheckpoint cs
      → Reads (decode_checkpoints version) (varint (length cs) ++ each_bytes cs) (map carried cs)
  unfolding decode_checkpoints
  checkpoints-Reads cs small v =
      Reads-bind _ (Reads-uint64 (length cs) small) (decode_each-Reads cs v)

  -- Where `encodeCheckpoints` returns true, for checkpoints with no negative field,
  -- `decodeCheckpoints` of the same version returns true with the same list, each checkpoint with the
  -- fields that the version carries (the received bytes from version 16, the seq-id and offset of the
  -- last block from 21), and ends at the same offset.
  pub decode_checkpoints-encode_checkpoints :
      (max : ℕ) (cs : List Checkpoint) (b : Buffer)
      → length cs < 2 ^ 64
      → All IsCheckpoint cs
      → IsRoom max b
      → (encode_checkpoints version max cs b).0 ≡ Status.done
      → let b' = (encode_checkpoints version max cs b).1 in
        decode_at (decode_checkpoints version) b'.dest max b.off ≡ (ok (map carried cs), b'.off)
  decode_checkpoints-encode_checkpoints max cs b small v r d =
      decodes_back max (checkpoints-Writes max cs v) (checkpoints-Reads cs small v) b r d

  -- `decodeCheckpoints` returns false wherever its limit falls short of the end of the checkpoints
  -- that `encodeCheckpoints` wrote.
  pub decode_checkpoints_short :
      (max : ℕ) (cs : List Checkpoint) (b : Buffer) (m : ℕ)
      → length cs < 2 ^ 64
      → All IsCheckpoint cs
      → IsRoom max b
      → (encode_checkpoints version max cs b).0 ≡ Status.done
      → b.off ≤ m
      → m < (encode_checkpoints version max cs b).1.off
      → IsFalse
          (decode_at
            (decode_checkpoints version)
            (encode_checkpoints version max cs b).1.dest
            m
            b.off).0
  decode_checkpoints_short max cs b m small v r d lo hi =
      refuses_short max (checkpoints-Writes max cs v) (checkpoints-Reads cs small v) b m r d lo hi

  pub encode_checkpoints_advances :
      (max : ℕ) (cs : List Checkpoint) (b : Buffer)
      → All IsCheckpoint cs
      → IsRoom max b
      → (encode_checkpoints version max cs b).0 ≡ Status.done
      → b.off < (encode_checkpoints version max cs b).1.off
  encode_checkpoints_advances max cs b v r d = advances max (checkpoints-Writes max cs v) b r d (
      omega
        (arith, length-append (varint (length cs)) (each_bytes cs), length-groups 8 (length cs)))
