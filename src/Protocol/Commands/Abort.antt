-- ===== src/Protocol/Commands/Abort.antt =====
-- The abort message: 13 bytes, checked as a whole by both ends.
use wdt.Common.{ℕ, ◌+◌, ◌≤◌, ◌<◌, ◌≡◌, refl, ap, List, [], ◌∷◌, ◌++◌, length, arith, ◌∙◌}
use wdt.Common.{length-append, append_assoc, le→ltb, lt→ltb, ◌%◌, ◌⊎◌, inl, inr, order_cases}
use wdt.Common.Int.{ℤ}
use wdt.ErrorCodes.{ErrorCode, code, IsNamedError, to_error_code, to_error_code-code, code-lt}
use wdt.Wire.Types.{Status, Buffer, ok, bailed, Result}
use wdt.Wire.Memory.{copy-one, length-copy}
use wdt.Wire.Encoder.{Writes, put, put-put, Confined-refl}
use wdt.Wire.Exchange.{IsRoom, decodes_whole, succeeds}
use wdt.Serial.{FixedInt, FixedIntLaws, FitsBytes}
use wdt.Serial.Writing.{encode_int32_fixed_length-Writes, encode_int64_fixed_length-Writes}
use wdt.Serial.Reading.{Reads-int32_fixed, Reads-int64_fixed}
use wdt.Protocol.Commands.{abort_fields, encode_abort, decode_abort_fields, decode_abort}

module _ (f : FixedInt) (laws : FixedIntLaws f) (max : ℕ) where
  abort_bytes : ℤ → ErrorCode → ℤ → List ℕ
  abort_bytes version err checkpoint =
      f.store 4 version ++ (code err % 256 ∷ [] ++ f.store 8 checkpoint)

  length-abort_bytes :
      (version : ℤ) (err : ErrorCode) (checkpoint : ℤ)
      → length (abort_bytes version err checkpoint) ≡ 13
  unfolding abort_bytes
  length-abort_bytes version err checkpoint = omega (
    arith,
    length-append (f.store 4 version) (code err % 256 ∷ [] ++ f.store 8 checkpoint),
    laws.length-store 4 version,
    laws.length-store 8 checkpoint,
  )

  encode_abort-Writes :
      (version : ℤ) (err : ErrorCode) (checkpoint : ℤ)
      → Writes max (encode_abort f max version err checkpoint) (abort_bytes version err checkpoint)
  unfolding encode_abort
  encode_abort-Writes version err checkpoint = record {
    fits = λ b h k. rw (le→ltb max (b.off + 13) (omega (arith, size))) (fields b h k);
    short =
        λ b l h k. rw (lt→ltb max (b.off + 13) (omega (arith, size))) (refl, Confined-refl max b);
  }
    where
      size : length (abort_bytes version err checkpoint) ≡ 13
      size = length-abort_bytes version err checkpoint

      fields :
          (b : Buffer)
          → b.off + length (abort_bytes version err checkpoint) ≤ max
          → max ≤ length b.dest
          → abort_fields f max version err checkpoint b
            ≡ (Status.done, put b (abort_bytes version err checkpoint))
      fields b h k =
          let c = code err % 256 in
          let b₁ : Buffer = put b (f.store 4 version) in
          let b₂ : Buffer = put b₁ (c ∷ []) in
          let w₁ = encode_int32_fixed_length-Writes f laws max version in
          let w₃ = encode_int64_fixed_length-Writes f laws max checkpoint in
          let room : b₂.off + length (f.store 8 checkpoint) ≤ max =
            omega (arith, size, laws.length-store 4 version, laws.length-store 8 checkpoint) in
          let size₂ : max ≤ length b₂.dest = omega (
            arith,
            length-copy b₁.dest b₁.off (c ∷ []),
            length-copy b.dest b.off (f.store 4 version),
          ) in
          let joined : put b₂ (f.store 8 checkpoint) ≡ put b (abort_bytes version err checkpoint) =
            unfold abort_bytes in
            put-put b₁ (c ∷ []) (f.store 8 checkpoint)
            ∙ put-put b (f.store 4 version) (c ∷ [] ++ f.store 8 checkpoint) in
          rw
            (
              w₁.fits b (omega (arith, size, laws.length-store 4 version)) k,
              ← copy-one b₁.dest b₁.off c,
            )
            (w₃.fits b₂ room size₂ ∙ ap (λ (x : Buffer). (Status.done, x)) joined)

  decode_abort_fields_whole :
      (version : ℤ) (err : ErrorCode) (checkpoint : ℤ) (rest : List ℕ)
      → FitsBytes 4 version
      → IsNamedError err
      → FitsBytes 8 checkpoint
      → decode_abort_fields f (abort_bytes version err checkpoint ++ rest)
        ≡ (ok (version, err, checkpoint), rest)
  unfolding abort_bytes
  decode_abort_fields_whole version err checkpoint rest hv he hc =
      rw
        (
          append_assoc,
          (Reads-int32_fixed f laws version hv).whole
              (code err % 256 ∷ f.store 8 checkpoint ++ rest),
          (Reads-int64_fixed f laws checkpoint hc).whole rest,
        )
        (ap {B = Result (ℤ × ErrorCode × ℤ) × List ℕ} (λ e. (ok (version, e, checkpoint), rest))
          byte)
    where
      byte : to_error_code (code err % 256) ≡ err
      byte =
          let small : code err % 256 ≡ code err = omega (arith, code-lt err he) in
          rw small (to_error_code-code err he)

  -- With 13 bytes of room `encodeAbort` returns true, and `decodeAbort` returns true with the same
  -- protocol version, error code and checkpoint, none of them negative, and ends at the same offset.
  -- With less room `encodeAbort` returns false and changes nothing, and `decodeAbort` returns false
  -- and leaves its offset.
  pub decode_abort-encode_abort :
      (version : ℤ) (err : ErrorCode) (checkpoint : ℤ) (b : Buffer)
      → FitsBytes 4 version
      → IsNamedError err
      → FitsBytes 8 checkpoint
      → IsRoom max b
      → let (status, b') = encode_abort f max version err checkpoint b in
        ((b.off + 13 ≤ max)
          × (status ≡ Status.done)
          × (decode_abort f b'.dest max b.off ≡ (ok (version, err, checkpoint), b'.off)))
        ⊎ ((max < b.off + 13)
            × (encode_abort f max version err checkpoint b ≡ (Status.refused, b))
            × (decode_abort f b.dest max b.off ≡ (bailed, b.off)))
  unfolding decode_abort
  decode_abort-encode_abort version err checkpoint b hv he hc r =
      elim (order_cases (b.off + 13) max) [
        | inl room ↦
            let w = encode_abort-Writes version err checkpoint in
            let d = succeeds max w b r (omega (arith, length-abort_bytes version err checkpoint)) in
            inl (
              room,
              d,
              rw (le→ltb max (b.off + 13) room) (
                  decodes_whole max w (decode_abort_fields f)
                    (λ rest. decode_abort_fields_whole version err checkpoint rest hv he hc) b r d),
            )
        | inr tight ↦ inr (
          tight,
          unfold encode_abort in rw (lt→ltb max (b.off + 13) tight),
          rw (lt→ltb max (b.off + 13) tight),
        )
      ]
