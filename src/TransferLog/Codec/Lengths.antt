-- ===== src/TransferLog/Codec/Lengths.antt =====
-- How long the entries that the receiver logs are.
use wdt.Common.{ℕ, ◌+◌, ◌≤◌, ◌<◌, ◌≡◌, arith}
use wdt.Common.{List, length, length-append}
use wdt.Common.Int.{ℤ, pos, pos_part}
use wdt.Wire.Types.{Status}
use wdt.Wire.Encoder.{Writes-seq}
use wdt.Varint.Groups.{varint, length-groups, length-groups_small}
use wdt.Varint.Encode.{IsCount, encode_var_i64c-Writes}
use wdt.Serial.{FixedInt}
use wdt.Serial.Writing.{encode_string-Writes}
use wdt.TransferLog.{header}
use wdt.TransferLog.{max_entry_length, wlog_version}
use wdt.TransferLog.Codec.{encode_log_header}
use wdt.TransferLog.Codec.Written.{encode_entry-refused}
use wdt.TransferLog.Codec.Logged.{
  LogEntry, started, file_created, file_invalidated, directory_invalidated, payload, number,
}

-- Every entry whose texts are not too long together fits an entry of the log: an entry of a file
-- whose name has at most PATH_MAX bytes does.
abbrev pub text_size : LogEntry → ℕ
text_size (started now recovery_id sender_ip config) = length recovery_id + length sender_ip + 18
text_size (file_created now file_name seq_id file_size) = length file_name
text_size _ = 0

pub length-varint_short : (n : ℕ) → n < 16384 → length (varint n) ≤ 2
length-varint_short n h = length-groups_small 1 8 n (omega arith)

-- An invalidation entry has twenty-one bytes at most.
pub length-payload_invalidated :
    (now seq_id : ℤ) → length (payload (file_invalidated now seq_id)) ≤ 18
unfolding payload
length-payload_invalidated now seq_id = omega (
  arith,
  length-append (number now) (number seq_id),
  length-groups 8 (pos_part now),
  length-groups 8 (pos_part seq_id),
)

-- The entry of a file with a name of at most PATH_MAX bytes fits an entry of the log.
pub length-payload_created :
    (now : ℤ) (file_name : List ℕ) (seq_id file_size : ℤ)
    → length file_name ≤ 4096
    → length (payload (file_created now file_name seq_id file_size)) + 3 ≤ max_entry_length
unfolding payload
length-payload_created now file_name seq_id file_size h = omega (
  arith,
  length-append {0},
  length-groups 8 (pos_part now),
  length-groups 8 (pos_part seq_id),
  length-groups 8 (pos_part file_size),
  length-varint_short (length file_name) (omega arith),
)

pub length-payload_directory : (now : ℤ) → length (payload (directory_invalidated now)) ≤ 9
unfolding payload
length-payload_directory now = omega (arith, length-groups 8 (pos_part now))

-- A header that does not fit is refused.
pub encode_log_header-refused :
    (f : FixedInt) (now : ℤ) (dest recovery_id sender_ip : List ℕ) (config : ℤ)
    → IsCount now
    → IsCount config
    → max_entry_length ≤ length dest
    → max_entry_length ≤ length recovery_id + length sender_ip
    → (encode_log_header f now max_entry_length dest recovery_id sender_ip config).0
      ≡ Status.refused
unfolding encode_log_header
encode_log_header-refused f now dest recovery_id sender_ip config hn hc room long =
    encode_entry-refused f max_entry_length header _ _ dest
      (Writes-seq max_entry_length (encode_var_i64c-Writes max_entry_length now hn) (
        Writes-seq max_entry_length
          (encode_var_i64c-Writes max_entry_length (pos wlog_version) (omega arith))
          (Writes-seq max_entry_length (encode_string-Writes max_entry_length recovery_id) (
            Writes-seq max_entry_length (encode_string-Writes max_entry_length sender_ip)
              (encode_var_i64c-Writes max_entry_length config hc)))))
      (omega arith) room (omega (arith, length-append {0}))
