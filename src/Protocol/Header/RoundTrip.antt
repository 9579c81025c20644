-- ===== src/Protocol/Header/RoundTrip.antt =====
-- A header that was encoded is decoded to the same block, and a header cut short is refused.
use wdt.Common.{ℕ, ◌%◌, ◌≤◌, ◌<◌, ◌≡◌, ◌^◌, List, [], ◌∷◌, ◌++◌, length}
use wdt.Common.{leb, if◌then◌else◌, arith, length-append, length-if}
use wdt.Common.Int.{ℤ, pos_part}
use wdt.Wire.Types.{Status, Buffer, ok}
use wdt.Wire.Encoder.{Writes, Writes-seq, Writes-when}
use wdt.Wire.Decoder.{IsFalse, Reads, Reads-bind, Reads-when_or, Reads-map, Reads-pure, decode_at}
use wdt.Wire.Exchange.{IsRoom, succeeds, decodes_back, advances, refuses_short}
use wdt.Varint.Groups.{varint, length-groups, length-groups_small}
use wdt.Varint.Encode.{IsCount, encode_var_i64c-Writes}
use wdt.Serial.Writing.{encode_string-Writes, encode_byte-Writes}
use wdt.Serial.Reading.{Reads-string, Reads-int64c, Reads-byte_or_bail}
use wdt.Protocol.{BlockDetails, FileAllocationStatus, not_exists, exists_correct_size}
use wdt.Protocol.{exists_too_large, exists_too_small, to_be_deleted, unnamed, status_code}
use wdt.Protocol.{header_flag_and_prev_seq_id_version, max_header, path_max}
use wdt.Protocol.Header.{is_size_mismatch, flags_of, encode_header}
use wdt.Protocol.Header.{decode_flags, decode_prev, decode_header}

flag_bytes : BlockDetails → List ℕ
flag_bytes d =
    flags_of d ∷ []
    ++ (if is_size_mismatch (flags_of d) then varint (pos_part d.prev_seq_id) else [])

-- The bytes of a header.
pub header_bytes : ℕ → BlockDetails → List ℕ
header_bytes version d =
    (varint (length d.file_name) ++ d.file_name)
    ++ (varint (pos_part d.seq_id)
        ++ (varint (pos_part d.data_size)
            ++ (varint (pos_part d.offset)
                ++ (varint (pos_part d.file_size)
                    ++ (if leb header_flag_and_prev_seq_id_version version
                        then flag_bytes d
                        else [])))))

abbrev IsNamed : FileAllocationStatus → Type 0
IsNamed (unnamed n) = ⊥
IsNamed _ = Unit

-- A block that the sender may announce: no field is negative.
pub record IsBlock (d : BlockDetails) : Type 0 where
  pub name_size : length d.file_name < 2 ^ 64
  pub seq_id : IsCount d.seq_id
  pub file_size : IsCount d.file_size
  pub offset : IsCount d.offset
  pub data_size : IsCount d.data_size
  pub status : IsNamed d.allocation_status
  pub prev_seq_id : IsCount d.prev_seq_id

-- What the receiver's `BlockDetails`, which held `old`, holds after the header of `d`: the status
-- comes with version 13, and the previous seq-id only with a size mismatch.
abbrev filled : BlockDetails → BlockDetails → BlockDetails
filled old d = record d { allocation_status = old.allocation_status; prev_seq_id = old.prev_seq_id }

abbrev pub received : ℕ → BlockDetails → BlockDetails → BlockDetails
received version old d =
    if leb header_flag_and_prev_seq_id_version version
    then record d {
      prev_seq_id = if is_size_mismatch (flags_of d) then d.prev_seq_id else old.prev_seq_id;
    }
    else filled old d

encode_header-Writes :
    (version max : ℕ) (d : BlockDetails)
    → IsBlock d
    → Writes max (encode_header version max d) (header_bytes version d)
unfolding encode_header header_bytes flag_bytes
encode_header-Writes version max d v = Writes-seq max (encode_string-Writes max d.file_name) (
    Writes-seq max (encode_var_i64c-Writes max d.seq_id v.seq_id) (
      Writes-seq max (encode_var_i64c-Writes max d.data_size v.data_size) (
        Writes-seq max (encode_var_i64c-Writes max d.offset v.offset) (
          Writes-seq max (encode_var_i64c-Writes max d.file_size v.file_size) (
            Writes-when max (leb header_flag_and_prev_seq_id_version version) (
              Writes-seq max (encode_byte-Writes max (flags_of d)) (
                Writes-when max (is_size_mismatch (flags_of d))
                  (encode_var_i64c-Writes max d.prev_seq_id v.prev_seq_id))))))))

-- The flags are read back: the status, and the previous seq-id where there is one.
flags-Reads :
    (old : BlockDetails) (s : FileAllocationStatus) (prev : ℤ)
    → IsNamed s
    → IsCount prev
    → let sized = is_size_mismatch (status_code s % 256) in
      Reads
        (decode_flags old)
        (status_code s % 256 ∷ [] ++ (if sized then varint (pos_part prev) else []))
        (record old {
          allocation_status = s;
          prev_seq_id = if sized then prev else old.prev_seq_id;
        })
unfolding decode_flags
flags-Reads old not_exists prev h k =
    Reads-bind (decode_prev old) (Reads-byte_or_bail 0) (Reads-pure _)
flags-Reads old exists_correct_size prev h k =
    Reads-bind (decode_prev old) (Reads-byte_or_bail 1) (Reads-pure _)
flags-Reads old exists_too_large prev h k =
    Reads-bind (decode_prev old) (Reads-byte_or_bail 2) (Reads-map _ (Reads-int64c prev k))
flags-Reads old exists_too_small prev h k =
    Reads-bind (decode_prev old) (Reads-byte_or_bail 3) (Reads-map _ (Reads-int64c prev k))
flags-Reads old to_be_deleted prev h k =
    Reads-bind (decode_prev old) (Reads-byte_or_bail 4) (Reads-pure _)
flags-Reads old (unnamed n) prev h k = absurd h

decode_header-Reads :
    (version : ℕ) (old d : BlockDetails)
    → IsBlock d
    → Reads (decode_header version old) (header_bytes version d) (received version old d)
unfolding decode_header header_bytes flag_bytes
decode_header-Reads version old d v = Reads-bind _ (Reads-string d.file_name v.name_size) (
    Reads-bind _ (Reads-int64c d.seq_id v.seq_id) (
      Reads-bind _ (Reads-int64c d.data_size v.data_size) (
        Reads-bind _ (Reads-int64c d.offset v.offset) (
          Reads-bind _ (Reads-int64c d.file_size v.file_size) (
            Reads-when_or (leb header_flag_and_prev_seq_id_version version)
              (flags-Reads (filled old d) d.allocation_status d.prev_seq_id v.status v.prev_seq_id)
              (filled old d))))))

module _ (version max : ℕ) (old d : BlockDetails) (b : Buffer) (valid : IsBlock d)
    (room : IsRoom max b) (sent : (encode_header version max d b).0 ≡ Status.done) where
  -- Where `encodeHeader` returns true for a block with no negative field, `decodeHeader` of the same
  -- version, from the offset at which the header begins, returns true with the same block and ends
  -- at the offset that `encodeHeader` left. Below version 13 the allocation status, and below it or
  -- without a size mismatch the previous seq-id, stay what the receiver's structure held.
  pub decode_header-encode_header :
      decode_at (decode_header version old) (encode_header version max d b).1.dest max b.off
      ≡ (ok (received version old d), (encode_header version max d b).1.off)
  decode_header-encode_header =
      decodes_back max (encode_header-Writes version max d valid)
        (decode_header-Reads version old d valid) b room sent

  -- `decodeHeader` returns false wherever its limit falls short of the end of the header that
  -- `encodeHeader` wrote.
  pub decode_header_short :
      (m : ℕ)
      → b.off ≤ m
      → m < (encode_header version max d b).1.off
      → IsFalse
          (decode_at (decode_header version old) (encode_header version max d b).1.dest m b.off).0
  decode_header_short m lo hi =
      refuses_short max (encode_header-Writes version max d valid)
        (decode_header-Reads version old d valid) b m room sent lo hi

  pub encode_header_advances : b.off < (encode_header version max d b).1.off
  unfolding header_bytes
  encode_header_advances =
      advances max (encode_header-Writes version max d valid) b room sent
        (omega (arith, length-append {0}, length-groups 8 (length d.file_name)))

length-flag_bytes : (d : BlockDetails) → length (flag_bytes d) ≤ 10
unfolding flag_bytes
length-flag_bytes d = ground (arith, length-groups 8 (pos_part d.prev_seq_id))

length-header_bytes :
    (version : ℕ) (d : BlockDetails)
    → length d.file_name ≤ path_max
    → length (header_bytes version d) < max_header
unfolding header_bytes
length-header_bytes version d h = omega (
  arith,
  length-append {0},
  length-groups_small 1 8 (length d.file_name) (omega arith),
  length-groups 8 (pos_part d.seq_id),
  length-groups 8 (pos_part d.data_size),
  length-groups 8 (pos_part d.offset),
  length-groups 8 (pos_part d.file_size),
  length-if (leb header_flag_and_prev_seq_id_version version) (flag_bytes d),
  length-flag_bytes d,
)

-- A header whose file name is at most `PATH_MAX` bytes long fits the `kMaxHeader` bytes that the
-- sender reserves, behind the command byte: `encodeHeader` at offset 1 returns true.
pub encode_header_fits :
    (version : ℕ) (d : BlockDetails) (mem : List ℕ)
    → IsBlock d
    → length d.file_name ≤ path_max
    → max_header ≤ length mem
    → (encode_header version max_header d (record { dest = mem; off = 1 })).0 ≡ Status.done
encode_header_fits version d mem v h k =
    succeeds max_header (encode_header-Writes version max_header d v)
      (record { dest = mem; off = 1 }) (record { start = omega arith; size = k })
      (omega (arith, length-header_bytes version d h))
