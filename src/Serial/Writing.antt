-- ===== src/Serial/Writing.antt =====
-- The encoders of strings and of integers of fixed length write what they say.
use wdt.Common.{ℕ, ◌+◌, refl, List, [], ◌∷◌, ◌++◌, length}
use wdt.Common.{arith, le→leb, lt→ltb, le→ltb}
use wdt.Common.Int.{ℤ}
use wdt.Wire.Memory.{copy-one}
use wdt.Wire.Encoder.{Writes, Writes-seq, Confined-refl}
use wdt.Varint.Groups.{varint}
use wdt.Varint.Encode.{encode_var_u64-Writes}
use wdt.Serial.{encode_byte, encode_bytes, encode_string, FixedInt, FixedIntLaws}
use wdt.Serial.{encode_int_fixed_length, encode_int32_fixed_length, encode_int64_fixed_length}

encode_bytes-Writes : (sz : ℕ) (str : List ℕ) → Writes sz (encode_bytes sz str) str
encode_bytes-Writes sz str = record {
  fits = λ b h k. rw (le→ltb sz (b.off + length str) h);
  short = λ b l h k. rw (lt→ltb sz (b.off + length str) h) (refl, Confined-refl sz b);
}

-- A string is written as its length and its bytes.
pub encode_string-Writes :
    (sz : ℕ) (str : List ℕ) → Writes sz (encode_string sz str) (varint (length str) ++ str)
unfolding encode_string
encode_string-Writes sz str =
    Writes-seq sz (encode_var_u64-Writes sz (length str)) (encode_bytes-Writes sz str)

module _ (f : FixedInt) (laws : FixedIntLaws f) where
  encode_int_fixed_length-Writes :
      (n sz : ℕ) (v : ℤ) → Writes sz (encode_int_fixed_length f n sz v) (f.store n v)
  unfolding encode_int_fixed_length
  encode_int_fixed_length-Writes n sz v = record {
    fits = λ b h k. ground (arith, laws.length-store n v);
    short = λ b l h k.
        rw (lt→ltb sz (b.off + n) (omega (arith, laws.length-store n v)))
          (refl, Confined-refl sz b);
  }

  pub encode_int32_fixed_length-Writes :
      (sz : ℕ) (v : ℤ) → Writes sz (encode_int32_fixed_length f sz v) (f.store 4 v)
  unfolding encode_int32_fixed_length
  encode_int32_fixed_length-Writes = encode_int_fixed_length-Writes 4

  pub encode_int64_fixed_length-Writes :
      (sz : ℕ) (v : ℤ) → Writes sz (encode_int64_fixed_length f sz v) (f.store 8 v)
  unfolding encode_int64_fixed_length
  encode_int64_fixed_length-Writes = encode_int_fixed_length-Writes 8

-- A single byte, behind its check.
pub encode_byte-Writes : (max c : ℕ) → Writes max (encode_byte max c) (c ∷ [])
encode_byte-Writes max c = record {
  fits = λ b h k. ground (arith, copy-one b.dest b.off c);
  short = λ b l h k. rw (le→leb max b.off (omega arith)) (refl, Confined-refl max b);
}
