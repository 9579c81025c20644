-- ===== src/Protocol/SettingsCmd/RoundTrip.antt =====
-- The settings that the sender encodes are those that the receiver decodes.
use wdt.Common.{ℕ, ◌+◌, ◌*◌, ◌^◌, ◌≤◌, ◌<◌, ◌≡◌, Bool, false, List, [], ◌∷◌, ◌++◌}
use wdt.Common.{leb, if◌then◌else◌, arith, length, length-append, length-if, lt→leb}
use mathlib.Core.Path.{subst}
use wdt.Common.Int.{pos, pos_part}
use wdt.Wire.Types.{Status, Buffer, ok}
use wdt.Wire.Memory.{length-copy}
use wdt.Wire.Encoder.{Writes, Writes-seq, Writes-when, put, put-put}
use wdt.Wire.Decoder.{
  Reads, Reads-bind, Reads-when_or, Reads-map, decode_at, decode_at-put, decode_at-put_front,
}
use wdt.Wire.Exchange.{IsRoom, succeeds, success}
use wdt.Varint.Groups.{varint, length-groups, length-groups_small}
use wdt.Varint.Encode.{encode_var_i64c-Writes}
use wdt.Serial.Writing.{encode_string-Writes, encode_byte-Writes}
use wdt.Serial.{decode_int32c}
use wdt.Serial.Reading.{
  Reads-string, Reads-int32c, IsCount32, IsCount32-IsCount, Reads-byte_or_bail,
}
use wdt.Protocol.{Settings, settings_flag_version, max_settings, max_transfer_id_length}
use wdt.Protocol.SettingsCmd.{
  set_flag, has_flag, settings_flags, encode_settings, decode_version, with_flags,
}
use wdt.Protocol.SettingsCmd.{settings_fields, decode_settings}

-- Timeouts that an `int` holds and that are not negative.
pub record IsSettings (s : Settings) : Type 0 where
  pub read : IsCount32 s.read_timeout_millis
  pub write : IsCount32 s.write_timeout_millis
  pub id : length s.transfer_id < 2 ^ 64

-- Behind the version.
fields_bytes : ℕ → Settings → List ℕ
fields_bytes version s =
    varint (pos_part s.read_timeout_millis)
    ++ (varint (pos_part s.write_timeout_millis)
        ++ ((varint (length s.transfer_id) ++ s.transfer_id)
            ++ (if leb settings_flag_version version then settings_flags s ∷ [] else [])))

-- What the receiver's `Settings`, which held `old`, holds after the settings `s`.
abbrev pub received : ℕ → Settings → Settings → Settings
received version old s = if leb settings_flag_version version then s else record s {
  enable_checksum = false;
  send_file_chunks = false;
  block_mode_disabled = old.block_mode_disabled;
  enable_heart_beat = old.enable_heart_beat;
}

-- Each flag is read back from its own bit.
flags_back :
    (checksum chunks block beat : Bool)
    → let flags = set_flag beat 8 (set_flag block 4 (set_flag chunks 2 (set_flag checksum 1 0))) in
      (has_flag flags 1 ≡ checksum)
      × (has_flag flags 2 ≡ chunks)
      × (has_flag flags 4 ≡ block)
      × (has_flag flags 8 ≡ beat)
flags_back checksum chunks block beat = ground arith

abbrev named : Settings → Settings → Settings
named old s = record old {
  read_timeout_millis = s.read_timeout_millis;
  write_timeout_millis = s.write_timeout_millis;
  transfer_id = s.transfer_id;
  enable_checksum = false;
  send_file_chunks = false;
}

with_flags-settings_flags : (old s : Settings) → with_flags (named old s) (settings_flags s) ≡ s
unfolding settings_flags
with_flags-settings_flags old s =
    let back =
      flags_back s.enable_checksum s.send_file_chunks s.block_mode_disabled s.enable_heart_beat in
    λ i. record s {
      enable_checksum = back.0 i;
      send_file_chunks = back.1 i;
      block_mode_disabled = back.2 i;
      enable_heart_beat = back.3 i;
    }

module _ (version : ℕ) (s : Settings) (valid : IsSettings s) where
  fields-Reads :
      (old : Settings)
      → Reads (settings_fields version old) (fields_bytes version s) (received version old s)
  unfolding settings_fields fields_bytes
  fields-Reads old = Reads-bind _ (Reads-int32c s.read_timeout_millis valid.read) (
      Reads-bind _ (Reads-int32c s.write_timeout_millis valid.write) (
        Reads-bind _ (Reads-string s.transfer_id valid.id) (
          Reads-when_or (leb settings_flag_version version)
            (rw (with_flags-settings_flags old s) at
              (Reads-map (with_flags (named old s)) (Reads-byte_or_bail (settings_flags s))))
            (named old s))))

  encode_settings-Writes :
      (max : ℕ)
      → version < 2 ^ 31
      → Writes max (encode_settings version max s) (varint version ++ fields_bytes version s)
  unfolding encode_settings fields_bytes
  encode_settings-Writes max small =
      Writes-seq max (encode_var_i64c-Writes max (pos version) (omega arith)) (
        Writes-seq max
          (encode_var_i64c-Writes max s.read_timeout_millis (IsCount32-IsCount _ valid.read))
          (Writes-seq max
            (encode_var_i64c-Writes max s.write_timeout_millis (IsCount32-IsCount _ valid.write))
            (Writes-seq max (encode_string-Writes max s.transfer_id) (
              Writes-when max (leb settings_flag_version version)
                (encode_byte-Writes max (settings_flags s))))))

  fields_nonempty : 1 ≤ length (fields_bytes version s)
  unfolding fields_bytes
  fields_nonempty =
      omega (arith, length-append {0}, length-groups 8 (pos_part s.read_timeout_millis))

  length-fields_bytes :
      length s.transfer_id ≤ max_transfer_id_length
      → length (fields_bytes version s) ≤ 2 * 9 + 2 + max_transfer_id_length + 1
  unfolding fields_bytes
  length-fields_bytes id = omega (
    arith,
    length-append {0},
    length-groups 8 (pos_part s.read_timeout_millis),
    length-groups 8 (pos_part s.write_timeout_millis),
    length-groups_small 1 8 (length s.transfer_id) (omega arith),
    length-if (leb settings_flag_version version) (settings_flags s ∷ []),
  )

  -- Where `encodeSettings` of a protocol version returns true, `decodeVersion` returns true with that
  -- version, and `decodeSettings` of that version, from where `decodeVersion` stopped, returns true
  -- with the same settings and ends at the offset that `encodeSettings` left. Below version 12 the
  -- checksum and chunk flags come out false, and the other two flags stay what the receiver held.
  pub decode_settings-encode_settings :
      (max : ℕ) (old : Settings) (b : Buffer)
      → version < 2 ^ 31
      → IsRoom max b
      → (encode_settings version max s b).0 ≡ Status.done
      → let b' = (encode_settings version max s b).1 in
        (o : ℕ) × (decode_at decode_version b'.dest max b.off ≡ (ok (pos version), o))
        × (decode_settings version old b'.dest max o ≡ (ok (received version old s), b'.off))
  unfolding decode_version decode_settings
  decode_settings-encode_settings max old b small r sent =
      let w = encode_settings-Writes max small in
      let (room, written) = success max w b r sent in
      let vs : List ℕ = varint version in
      let fs : List ℕ = fields_bytes version s in
      let b₁ : Buffer = put b vs in
      let roomy : b₁.off + length fs ≤ max = omega (arith, length-append vs fs) in
      let sized : max ≤ length b₁.dest = omega (arith, length-copy b.dest b.off vs, r.size) in
      let inside : leb max b₁.off ≡ false = lt→leb max b₁.off (omega (arith, fields_nonempty)) in
      (
        b₁.off,
        rw written (
            decode_at-put_front decode_int32c vs fs max b (Reads-int32c (pos version) small) room
              r.size),
        rw (written, inside)
            (subst
              (λ (c : Buffer).
                decode_at (settings_fields version old) c.dest max b₁.off
                ≡ (ok (received version old s), c.off))
              (put-put b vs fs)
              (decode_at-put (settings_fields version old) fs max b₁ (fields-Reads old).whole roomy
                sized)),
      )

  -- Settings with a transfer id of at most `kMaxTransferIdLength` bytes fit the `kMaxSettings` bytes
  -- that the sender reserves, behind the command byte.
  pub encode_settings_fits :
      (mem : List ℕ)
      → version < 2 ^ 31
      → length s.transfer_id ≤ max_transfer_id_length
      → max_settings ≤ length mem
      → (encode_settings version max_settings s (record { dest = mem; off = 1 })).0 ≡ Status.done
  encode_settings_fits mem small id k =
      succeeds max_settings (encode_settings-Writes max_settings small)
        (record { dest = mem; off = 1 }) (record { start = omega arith; size = k })
        (omega (
          arith,
          length-append (varint version) (fields_bytes version s),
          length-groups 8 version,
          length-fields_bytes id,
        ))
