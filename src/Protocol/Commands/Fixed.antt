-- ===== src/Protocol/Commands/Fixed.antt =====
-- The messages with integers of fixed length: chunks and encryption settings.
use wdt.Common.{ℕ, ◌-◌, ◌^◌, ◌+◌, ◌≤◌, ◌<◌, ◌≡◌, refl, List, ◌++◌, length, arith, ◌∙◌}
use wdt.Common.{length-append, ◌⊎◌, inl, inr}
use mathlib.Core.Path.{subst}
use wdt.Common.Int.{ℤ, pos_part}
use wdt.Wire.Types.{Status, Buffer, ok}
use wdt.Wire.Encoder.{Writes, Writes-seq}
use wdt.Wire.Decoder.{Reads, Reads-bind, Reads-map, decode_at}
use wdt.Wire.Exchange.{IsRoom, decodes_back, succeeds, fits_exactly}
use wdt.Varint.Groups.{varint, length-groups_small}
use wdt.Varint.Encode.{IsCount, encode_var_i64c-Writes}
use wdt.Serial.{FixedInt, FixedIntLaws, FitsBytes}
use wdt.Serial.Writing.{encode_int32_fixed_length-Writes, encode_int64_fixed_length-Writes}
use wdt.Serial.Writing.{encode_string-Writes}
use wdt.Serial.Reading.{Reads-int64c, Reads-string, Reads-int32_fixed, Reads-int64_fixed}
use wdt.Protocol.{aes_block_size, encryption_cmd_len}
use wdt.Protocol.Commands.{EncryptionType, enc_none, enc_aes128_ctr, enc_aes128_gcm, num_enc_types}
use wdt.Protocol.Commands.{encryption_code, to_encryption_type, unnamed}
use wdt.Protocol.Commands.{encode_chunks_cmd, decode_chunks_cmd}
use wdt.Protocol.Commands.{encode_encryption_settings, decode_encryption_settings}

module _ (f : FixedInt) (laws : FixedIntLaws f) (max : ℕ) where
  chunks_cmd_bytes : ℤ → ℤ → List ℕ
  chunks_cmd_bytes buf_size num_files = f.store 8 buf_size ++ f.store 8 num_files

  encode_chunks_cmd-Writes :
      (s n : ℤ) → Writes max (encode_chunks_cmd f max s n) (chunks_cmd_bytes s n)
  unfolding encode_chunks_cmd chunks_cmd_bytes
  encode_chunks_cmd-Writes s n =
      Writes-seq max (encode_int64_fixed_length-Writes f laws max s)
        (encode_int64_fixed_length-Writes f laws max n)

  decode_chunks_cmd-Reads :
      (s n : ℤ)
      → FitsBytes 8 s
      → FitsBytes 8 n
      → Reads (decode_chunks_cmd f) (chunks_cmd_bytes s n) (s, n)
  unfolding decode_chunks_cmd chunks_cmd_bytes
  decode_chunks_cmd-Reads s n hs hn =
      Reads-bind _ (Reads-int64_fixed f laws s hs) (Reads-map _ (Reads-int64_fixed f laws n hn))

  -- With 16 bytes of room `encodeChunksCmd` returns true, and `decodeChunksCmd` returns true with the
  -- same two numbers, neither negative, and ends at the same offset; with less room it returns false.
  pub decode_chunks_cmd-encode_chunks_cmd :
      (s n : ℤ) (b : Buffer)
      → FitsBytes 8 s
      → FitsBytes 8 n
      → IsRoom max b
      → let (status, b') = encode_chunks_cmd f max s n b in
        ((b.off + 16 ≤ max)
          × (status ≡ Status.done)
          × (decode_at (decode_chunks_cmd f) b'.dest max b.off ≡ (ok (s, n), b'.off))
          × (b'.off ≡ b.off + 16))
        ⊎ ((max < b.off + 16) × (status ≡ Status.refused))
  decode_chunks_cmd-encode_chunks_cmd s n b hs hn r =
      elim (fits_exactly max (encode_chunks_cmd-Writes s n) b r) [
        | inl (room, d, there) ↦ inl (
          omega (arith, size),
          d,
          decodes_back max (encode_chunks_cmd-Writes s n) (decode_chunks_cmd-Reads s n hs hn) b r d,
          there ∙ omega (arith, size),
        )
        | inr (tight, failed) ↦ inr (omega (arith, size), failed)
      ]
    where
      size : length (chunks_cmd_bytes s n) ≡ 16
      size =
          unfold chunks_cmd_bytes in
          omega (
            arith,
            length-append (f.store 8 s) (f.store 8 n),
            laws.length-store 8 s,
            laws.length-store 8 n,
          )

  encryption_bytes : EncryptionType → List ℕ → ℤ → List ℕ
  encryption_bytes t iv tag =
      varint (pos_part (encryption_code t)) ++ ((varint (length iv) ++ iv) ++ f.store 4 tag)

  abbrev IsNamedType : EncryptionType → Type 0
  IsNamedType (unnamed v) = ⊥
  IsNamedType _ = Unit

  type_code :
      (t : EncryptionType)
      → IsNamedType t
      → IsCount (encryption_code t) × (to_encryption_type (encryption_code t) ≡ t)
  type_code (unnamed v) h = absurd h
  type_code enc_none h = (omega arith, refl)
  type_code enc_aes128_ctr h = (omega arith, refl)
  type_code enc_aes128_gcm h = (omega arith, refl)
  type_code num_enc_types h = (omega arith, refl)

  encode_encryption_settings-Writes :
      (t : EncryptionType) (iv : List ℕ) (tag : ℤ)
      → IsNamedType t
      → Writes max (encode_encryption_settings f max t iv tag) (encryption_bytes t iv tag)
  unfolding encode_encryption_settings encryption_bytes
  encode_encryption_settings-Writes t iv tag h =
      Writes-seq max (encode_var_i64c-Writes max (encryption_code t) (type_code t h).0) (
        Writes-seq max (encode_string-Writes max iv)
          (encode_int32_fixed_length-Writes f laws max tag))

  decode_encryption_settings-Reads :
      (t : EncryptionType) (iv : List ℕ) (tag : ℤ)
      → IsNamedType t
      → length iv < 2 ^ 64
      → FitsBytes 4 tag
      → Reads (decode_encryption_settings f) (encryption_bytes t iv tag) (t, iv, tag)
  unfolding decode_encryption_settings encryption_bytes
  decode_encryption_settings-Reads t iv tag h hi ht =
      subst (λ x. Reads (decode_encryption_settings f) (encryption_bytes t iv tag) (x, iv, tag))
        (type_code t h).1
        (Reads-bind _ (Reads-int64c (encryption_code t) (type_code t h).0)
          (Reads-bind _ (Reads-string iv hi) (Reads-map _ (Reads-int32_fixed f laws tag ht))))

  -- Where `encodeEncryptionSettings` returns true, for a named encryption type and a tag interval
  -- that is not negative, `decodeEncryptionSettings` returns true with the same type, initialisation
  -- vector and tag interval, and ends at the same offset.
  pub decode_encryption_settings-encode_encryption_settings :
      (t : EncryptionType) (iv : List ℕ) (tag : ℤ) (b : Buffer)
      → IsNamedType t
      → length iv < 2 ^ 64
      → FitsBytes 4 tag
      → IsRoom max b
      → (encode_encryption_settings f max t iv tag b).0 ≡ Status.done
      → let b' = (encode_encryption_settings f max t iv tag b).1 in
        decode_at (decode_encryption_settings f) b'.dest max b.off ≡ (ok (t, iv, tag), b'.off)
  decode_encryption_settings-encode_encryption_settings t iv tag b h hi ht r d =
      decodes_back max (encode_encryption_settings-Writes t iv tag h)
        (decode_encryption_settings-Reads t iv tag h hi ht) b r d

  -- Encryption settings with a vector of 16 bytes, which is what the kinds in use take, fit the
  -- `kEncryptionCmdLen` bytes behind the command byte.
  pub encode_encryption_settings_fits :
      (t : EncryptionType) (iv : List ℕ) (tag : ℤ) (b : Buffer)
      → IsNamedType t
      → length iv ≤ aes_block_size
      → IsRoom max b
      → b.off + (encryption_cmd_len - 1) ≤ max
      → (encode_encryption_settings f max t iv tag b).0 ≡ Status.done
  unfolding encryption_bytes
  encode_encryption_settings_fits t iv tag b h hi r room =
      succeeds max (encode_encryption_settings-Writes t iv tag h) b r (
        omega (
          arith,
          length-append {0},
          length-groups_small 0 8 (pos_part (encryption_code t)) (small t h),
          length-groups_small 0 8 (length iv) (omega arith),
          laws.length-store 4 tag,
        ))
    where
      small : (t : EncryptionType) → IsNamedType t → pos_part (encryption_code t) < 128 ^ 1
      small (unnamed v) h = absurd h
      small enc_none h = omega arith
      small enc_aes128_ctr h = omega arith
      small enc_aes128_gcm h = omega arith
      small num_enc_types h = omega arith
