-- ===== src/TransferLog/Codec/Logged.antt =====
-- The entries that the receiver logs, as values: what LogEncoderDecoder writes for each, and reads.
use wdt.Common.{ℕ, ◌+◌, ◌^◌, ◌≤◌, ◌<◌, ◌≡◌, refl, arith}
use wdt.Common.{List, [], ◌++◌, append-nil, append_assoc, length, take}
use wdt.Common.Int.{ℤ, pos, pos_part}
use wdt.Wire.Types.{Status, Buffer, ok, Decoder}
use wdt.Wire.Encoder.{Writes-seq}
use wdt.Wire.Decoder.{Reads, Reads-bind, Reads-map}
use wdt.Varint.Groups.{varint}
use wdt.Varint.Encode.{IsCount, encode_var_i64c-Writes}
use wdt.Serial.{FixedInt, FixedIntLaws, decode_int64c}
use wdt.Serial.Reading.{Reads-int64c, Reads-int32c, Reads-string}
use wdt.Serial.Writing.{encode_string-Writes}
use wdt.TransferLog.{EntryType, header, file_creation, block_write}
use wdt.TransferLog.{file_invalidation, file_resize, directory_invalidation, entry_code}
use wdt.TransferLog.{wlog_version}
use wdt.TransferLog.Codec.{
  encode_log_header, encode_file_creation_entry, encode_block_write_entry, encode_file_resize_entry,
  encode_file_invalidation_entry, encode_directory_invalidation_entry, header_fields, header_front,
  creation_fields, block_fields, resize_fields, invalidation_fields, to_the_end,
  decode_file_creation_entry, decode_log_header, decode_block_write_entry, decode_file_resize_entry,
  decode_file_invalidation_entry, decode_directory_invalidation_entry,
}
use wdt.TransferLog.Codec.Written.{encode_entry-frame}
use wdt.TransferLog.Parse.Frames.{frame}

-- The first argument is the time.
pub data LogEntry : Type 0 where
  started : ℤ → List ℕ → List ℕ → ℤ → LogEntry
  file_created : ℤ → List ℕ → ℤ → ℤ → LogEntry
  block_written : ℤ → ℤ → ℤ → ℤ → LogEntry
  file_resized : ℤ → ℤ → ℤ → LogEntry
  file_invalidated : ℤ → ℤ → LogEntry
  directory_invalidated : ℤ → LogEntry

abbrev pub type_of : LogEntry → EntryType
type_of (started now recovery_id sender_ip config) = header
type_of (file_created now file_name seq_id file_size) = file_creation
type_of (block_written now seq_id offset block_size) = block_write
type_of (file_resized now seq_id file_size) = file_resize
type_of (file_invalidated now seq_id) = file_invalidation
type_of (directory_invalidated now) = directory_invalidation

abbrev pub number : ℤ → List ℕ
number v = varint (pos_part v)

abbrev pub text : List ℕ → List ℕ
text s = varint (length s) ++ s

unfoldable pub payload : LogEntry → List ℕ
payload (started now recovery_id sender_ip config) =
    number now
    ++ (number (pos wlog_version) ++ (text recovery_id ++ (text sender_ip ++ number config)))
payload (file_created now file_name seq_id file_size) =
    number now ++ (text file_name ++ (number seq_id ++ number file_size))
payload (block_written now seq_id offset block_size) =
    number now ++ (number seq_id ++ (number offset ++ number block_size))
payload (file_resized now seq_id file_size) = number now ++ (number seq_id ++ number file_size)
payload (file_invalidated now seq_id) = number now ++ number seq_id
payload (directory_invalidated now) = number now

-- The bytes of an entry in the log: its type and its fields.
abbrev pub logged : LogEntry → ℕ × List ℕ
logged e = (entry_code (type_of e), payload e)

-- No number is negative, and no text too long for a length.
abbrev pub IsLoggable : LogEntry → Type 0
IsLoggable (started now recovery_id sender_ip config) =
    IsCount now × (length recovery_id < 2 ^ 64) × (length sender_ip < 2 ^ 64) × IsCount config
IsLoggable (file_created now file_name seq_id file_size) =
    IsCount now × (length file_name < 2 ^ 64) × IsCount seq_id × IsCount file_size
IsLoggable (block_written now seq_id offset block_size) =
    IsCount now × IsCount seq_id × IsCount offset × IsCount block_size
IsLoggable (file_resized now seq_id file_size) = IsCount now × IsCount seq_id × IsCount file_size
IsLoggable (file_invalidated now seq_id) = IsCount now × IsCount seq_id
IsLoggable (directory_invalidated now) = IsCount now

-- The call of LogEncoderDecoder for the entry.
abbrev pub encode_logged : FixedInt → ℕ → List ℕ → LogEntry → Status × Buffer
encode_logged f max dest (started now recovery_id sender_ip config) =
    encode_log_header f now max dest recovery_id sender_ip config
encode_logged f max dest (file_created now file_name seq_id file_size) =
    encode_file_creation_entry f now max dest file_name seq_id file_size
encode_logged f max dest (block_written now seq_id offset block_size) =
    encode_block_write_entry f now max dest seq_id offset block_size
encode_logged f max dest (file_resized now seq_id file_size) =
    encode_file_resize_entry f now max dest seq_id file_size
encode_logged f max dest (file_invalidated now seq_id) =
    encode_file_invalidation_entry f now max dest seq_id
encode_logged f max dest (directory_invalidated now) =
    encode_directory_invalidation_entry f now max dest

-- The decoder takes the entry to its end.
whole {ℓ} : {A : Type ℓ} {d : Decoder A} {bs : List ℕ} {a : A} → Reads d bs a → d bs ≡ (ok a, [])
whole {d} {bs} {a} r = rw (append-nil bs) at (r.whole [])

to_the_end-Reads {ℓ} :
    {A : Type ℓ} (d : Decoder A) {bs : List ℕ} {a : A} → Reads d bs a → to_the_end (d bs) ≡ ok a
to_the_end-Reads d r = rw (whole r) refl

regroup :
    (as' bs cs ds es : List ℕ)
    → as' ++ (bs ++ (cs ++ (ds ++ es))) ≡ (as' ++ (bs ++ (cs ++ ds))) ++ es
regroup as' bs cs ds es = simp append_assoc

pub decode_log_header-payload :
    (now : ℤ) (recovery_id sender_ip : List ℕ) (config : ℤ) (old : List ℕ)
    → IsLoggable (started now recovery_id sender_ip config)
    → decode_log_header old (payload (started now recovery_id sender_ip config)) ≡ (
      ok (record {
        timestamp = now;
        version = pos wlog_version;
        recovery_id = recovery_id;
        sender_ip = sender_ip;
        config = config;
      }),
      sender_ip,
    )
unfolding decode_log_header payload
decode_log_header-payload now recovery_id sender_ip config old (hn, hr, hs, hc) =
    rw (header, front) refl
  where
    fields :
        Reads header_front
          (number now ++ (number (pos wlog_version) ++ (text recovery_id ++ text sender_ip)))
          (now, pos wlog_version, recovery_id, sender_ip)
    fields = Reads-bind _ (Reads-int64c now hn) (
        Reads-bind _ (Reads-int32c (pos wlog_version) (omega arith))
          (Reads-bind _ (Reads-string recovery_id hr) (Reads-map _ (Reads-string sender_ip hs))))

    front :
        header_front (
          number now
          ++ (number (pos wlog_version) ++ (text recovery_id ++ (text sender_ip ++ number config))))
        ≡ (ok (now, pos wlog_version, recovery_id, sender_ip), number config)
    front =
        rw
          (regroup (number now) (number (pos wlog_version)) (text recovery_id) (text sender_ip)
            (number config))
          (fields.whole (number config))

    header :
        header_fields (
          number now
          ++ (number (pos wlog_version) ++ (text recovery_id ++ (text sender_ip ++ number config))))
        ≡ (
          ok (record {
            timestamp = now;
            version = pos wlog_version;
            recovery_id = recovery_id;
            sender_ip = sender_ip;
            config = config;
          }),
          [],
        )
    header = rw front (whole (Reads-map _ (Reads-int64c config hc)))

pub decode_file_creation_entry-payload :
    (now : ℤ) (file_name : List ℕ) (seq_id file_size : ℤ)
    → IsLoggable (file_created now file_name seq_id file_size)
    → decode_file_creation_entry (payload (file_created now file_name seq_id file_size))
      ≡ ok (now, file_name, seq_id, file_size)
unfolding decode_file_creation_entry payload
decode_file_creation_entry-payload now file_name seq_id file_size (hn, hf, hs, hz) =
    to_the_end-Reads creation_fields (
      Reads-bind _ (Reads-int64c now hn) (
        Reads-bind _ (Reads-string file_name hf)
          (Reads-bind _ (Reads-int64c seq_id hs) (Reads-map _ (Reads-int64c file_size hz)))))

pub decode_block_write_entry-payload :
    (now seq_id offset block_size : ℤ)
    → IsLoggable (block_written now seq_id offset block_size)
    → decode_block_write_entry (payload (block_written now seq_id offset block_size))
      ≡ ok (now, seq_id, offset, block_size)
unfolding decode_block_write_entry payload
decode_block_write_entry-payload now seq_id offset block_size (hn, hs, ho, hb) =
    to_the_end-Reads block_fields (
      Reads-bind _ (Reads-int64c now hn) (
        Reads-bind _ (Reads-int64c seq_id hs)
          (Reads-bind _ (Reads-int64c offset ho) (Reads-map _ (Reads-int64c block_size hb)))))

pub decode_file_resize_entry-payload :
    (now seq_id file_size : ℤ)
    → IsLoggable (file_resized now seq_id file_size)
    → decode_file_resize_entry (payload (file_resized now seq_id file_size))
      ≡ ok (now, seq_id, file_size)
unfolding decode_file_resize_entry payload
decode_file_resize_entry-payload now seq_id file_size (hn, hs, hz) =
    to_the_end-Reads resize_fields (
      Reads-bind _ (Reads-int64c now hn)
        (Reads-bind _ (Reads-int64c seq_id hs) (Reads-map _ (Reads-int64c file_size hz))))

pub decode_file_invalidation_entry-payload :
    (now seq_id : ℤ)
    → IsLoggable (file_invalidated now seq_id)
    → decode_file_invalidation_entry (payload (file_invalidated now seq_id)) ≡ ok (now, seq_id)
unfolding decode_file_invalidation_entry payload
decode_file_invalidation_entry-payload now seq_id (hn, hs) =
    to_the_end-Reads invalidation_fields
      (Reads-bind _ (Reads-int64c now hn) (Reads-map _ (Reads-int64c seq_id hs)))

pub decode_directory_invalidation_entry-payload :
    (now : ℤ)
    → IsCount now
    → decode_directory_invalidation_entry (payload (directory_invalidated now)) ≡ ok now
unfolding decode_directory_invalidation_entry payload
decode_directory_invalidation_entry-payload now hn =
    to_the_end-Reads decode_int64c (Reads-int64c now hn)

-- What it is to have written the entry.
abbrev pub IsFramed : FixedInt → LogEntry → Status × Buffer → Type 0
IsFramed f e r =
    (r.0 ≡ Status.done)
    × (r.1.off ≡ length (payload e) + 3)
    × (take (length (payload e) + 3) r.1.dest ≡ frame f (entry_code (type_of e), payload e))

module _ (f : FixedInt) (laws : FixedIntLaws f) (max : ℕ) (small : max < 2 ^ 15) where
  pub encode_logged-IsFramed :
      (e : LogEntry) (dest : List ℕ)
      → IsLoggable e
      → max ≤ length dest
      → length (payload e) + 3 ≤ max
      → IsFramed f e (encode_logged f max dest e)
  unfolding payload
  encode_logged-IsFramed (started now recovery_id sender_ip config) dest (hn, hr, hs, hc) room
        fits =
      unfold encode_log_header in
      encode_entry-frame f laws max small header _ _ dest
        (Writes-seq max (encode_var_i64c-Writes max now hn) (
          Writes-seq max (encode_var_i64c-Writes max (pos wlog_version) (omega arith)) (
            Writes-seq max (encode_string-Writes max recovery_id) (
              Writes-seq max (encode_string-Writes max sender_ip)
                (encode_var_i64c-Writes max config hc)))))
        room fits
  encode_logged-IsFramed (file_created now file_name seq_id file_size) dest (hn, hf, hs, hz) room
        fits =
      unfold encode_file_creation_entry in
      encode_entry-frame f laws max small file_creation _ _ dest
        (Writes-seq max (encode_var_i64c-Writes max now hn) (
          Writes-seq max (encode_string-Writes max file_name) (
            Writes-seq max (encode_var_i64c-Writes max seq_id hs)
              (encode_var_i64c-Writes max file_size hz))))
        room fits
  encode_logged-IsFramed (block_written now seq_id offset block_size) dest (hn, hs, ho, hb) room
        fits =
      unfold encode_block_write_entry in
      encode_entry-frame f laws max small block_write _ _ dest
        (Writes-seq max (encode_var_i64c-Writes max now hn) (
          Writes-seq max (encode_var_i64c-Writes max seq_id hs) (
            Writes-seq max (encode_var_i64c-Writes max offset ho)
              (encode_var_i64c-Writes max block_size hb))))
        room fits
  encode_logged-IsFramed (file_resized now seq_id file_size) dest (hn, hs, hz) room fits =
      unfold encode_file_resize_entry in
      encode_entry-frame f laws max small file_resize _ _ dest
        (Writes-seq max (encode_var_i64c-Writes max now hn) (
          Writes-seq max (encode_var_i64c-Writes max seq_id hs)
            (encode_var_i64c-Writes max file_size hz)))
        room fits
  encode_logged-IsFramed (file_invalidated now seq_id) dest (hn, hs) room fits =
      unfold encode_file_invalidation_entry in
      encode_entry-frame f laws max small file_invalidation _ _ dest
        (Writes-seq max (encode_var_i64c-Writes max now hn) (encode_var_i64c-Writes max seq_id hs))
        room fits
  encode_logged-IsFramed (directory_invalidated now) dest hn room fits =
      unfold encode_directory_invalidation_entry in
      encode_entry-frame f laws max small directory_invalidation _ _ dest
        (encode_var_i64c-Writes max now hn) room fits
