-- ===== src/Serial/Reading.antt =====
-- The decoders read what the encoders wrote, and refuse every proper prefix of it.
use wdt.Common.{ℕ, ◌-◌, ◌^◌, ◌<◌, ◌≡◌, refl}
use wdt.Common.{List, [], ◌∷◌, ◌++◌, length, take, drop, take-length-append}
use wdt.Common.{
  Bool, false, length-prefix, arith, lt→ltb, le→ltb, length-append, drop-length-append,
}
use wdt.Common.{append_cons-ne-nil, append-nil, ◌||◌}
use mathlib.Core.Path.{subst}
use wdt.Common.Int.{ℤ, pos, negsuc, pos_part, ltb_ℤ}
use wdt.Wire.Types.{Decoder, Result, ok, refused, bailed, crashed}
use wdt.Wire.Decoder.{Reads, Reads-bind, IsFalse}
use wdt.Varint.{encode_zig_zag}
use wdt.Varint.Groups.{varint, length-groups}
use wdt.Varint.Decode.{
  decode_var_u64-varint, decode_var_u64_cut, decode_var_i64-varint, decode_var_i64_cut,
}
use wdt.Varint.Encode.{IsCount}
use wdt.Varint.ZigZag.{IsI64}
use wdt.Serial.{decode_uint64, to_signed, decode_int64c, decode_int32c, decode_bytes, decode_string}
use wdt.Serial.{FixedInt, FixedIntLaws, FitsBytes, decode_int_fixed_length, narrow}
use wdt.Serial.{decode_int32_fixed_length, decode_int64_fixed_length, decode_int64, decode_int32}
use wdt.Serial.{int32_max, int32_min, decode_byte_or_bail}

pub Reads-uint64 : (v : ℕ) → v < 2 ^ 64 → Reads decode_uint64 (varint v) v
unfolding decode_uint64
Reads-uint64 v h = record {
  whole = λ rest.
      rw (decode_var_u64-varint v rest h)
        (ground (arith, length-groups 8 v, drop-length-append (varint v) rest));
  cut = λ p x q e. rw (decode_var_u64_cut v p x q e) tt;
}

to_signed-Reads : (n : ℕ) → n < 2 ^ 63 → Reads (to_signed n) [] (pos n)
to_signed-Reads n h = record {
  whole = λ rest. rw (le→ltb (2 ^ 63 - 1) n (omega arith));
  cut = λ p x q e. absurd (append_cons-ne-nil p x q e);
}

-- A non-negative `int64_t`.
pub Reads-int64c : (v : ℤ) → IsCount v → Reads decode_int64c (varint (pos_part v)) v
unfolding decode_int64c
Reads-int64c (negsuc n) h = absurd h
Reads-int64c (pos n) h =
    rw (← append-nil (varint n))
      (Reads-bind to_signed (Reads-uint64 n (omega arith)) (to_signed-Reads n h))

-- A narrowing that the value passes.
Reads-narrow :
    (too_big : ℤ → Bool) (d : Decoder ℤ) (bs : List ℕ) (v : ℤ)
    → too_big v ≡ false
    → Reads d bs v
    → Reads (λ br. narrow too_big br (d br)) bs v
Reads-narrow too_big d bs v fits r = record {
  whole = λ rest. rw (r.whole rest, fits);
  cut = λ p x q e. narrow-IsFalse p (d p) (r.cut p x q e);
}
  where
    narrow-IsFalse :
        (p : List ℕ) (r : Result ℤ × List ℕ) → IsFalse r.0 → IsFalse (narrow too_big p r).0
    narrow-IsFalse p (ok v, br) h = absurd h
    narrow-IsFalse p (refused, br) h = h
    narrow-IsFalse p (bailed, br) h = h
    narrow-IsFalse p (crashed, br) h = absurd h

-- A non-negative `int32_t`.
abbrev pub IsCount32 : ℤ → Type 0
IsCount32 (pos n) = n < 2 ^ 31
IsCount32 (negsuc n) = ⊥

pub IsCount32-IsCount : (v : ℤ) → IsCount32 v → IsCount v
IsCount32-IsCount (pos n) h = omega arith
IsCount32-IsCount (negsuc n) h = h

pub Reads-int32c : (v : ℤ) → IsCount32 v → Reads decode_int32c (varint (pos_part v)) v
unfolding decode_int32c
Reads-int32c v h =
    Reads-narrow _ decode_int64c _ v (fits v h) (Reads-int64c v (IsCount32-IsCount v h))
  where
    fits : (v : ℤ) → IsCount32 v → ltb_ℤ int32_max v || ltb_ℤ v (pos 0) ≡ false
    fits (pos n) h = ground arith
    fits (negsuc n) h = absurd h

pub Reads-int64 : (v : ℤ) → IsI64 v → Reads decode_int64 (varint (encode_zig_zag v)) v
unfolding decode_int64
Reads-int64 v h = record {
  whole = λ rest. rw (decode_var_i64-varint v rest h) (
      ground (
        arith,
        length-groups 8 (encode_zig_zag v),
        drop-length-append (varint (encode_zig_zag v)) rest,
      ));
  cut = λ p x q e. rw (decode_var_i64_cut (encode_zig_zag v) p x q e) tt;
}

abbrev pub IsI32 : ℤ → Type 0
IsI32 (pos n) = n < 2 ^ 31
IsI32 (negsuc n) = n < 2 ^ 31

-- A signed `int32_t`.
pub Reads-int32 : (v : ℤ) → IsI32 v → Reads decode_int32 (varint (encode_zig_zag v)) v
unfolding decode_int32
Reads-int32 v h = Reads-narrow _ decode_int64 _ v (fits v h) (Reads-int64 v (wide v h))
  where
    fits : (v : ℤ) → IsI32 v → ltb_ℤ int32_max v || ltb_ℤ v int32_min ≡ false
    fits (pos n) h = ground arith
    fits (negsuc n) h = ground arith

    wide : (v : ℤ) → IsI32 v → IsI64 v
    wide (pos n) h = omega arith
    wide (negsuc n) h = omega arith

-- A counted run of bytes.
decode_bytes-Reads : (s : List ℕ) → Reads (decode_bytes (length s)) s s
decode_bytes-Reads s = record {
  whole = λ rest. rw (
    le→ltb (length (s ++ rest)) (length s) (omega (arith, length-append s rest)),
    take-length-append s rest,
    drop-length-append s rest,
  );
  cut = λ p x q e. rw (lt→ltb (length p) (length s) (length-prefix p x q s e)) tt;
}

pub Reads-string : (s : List ℕ) → length s < 2 ^ 64 → Reads decode_string (varint (length s) ++ s) s
unfolding decode_string
Reads-string s h = Reads-bind decode_bytes (Reads-uint64 (length s) h) (decode_bytes-Reads s)

module _ (f : FixedInt) (laws : FixedIntLaws f) where
  decode_int_fixed_length-Reads :
      (n : ℕ) (v : ℤ) → FitsBytes n v → Reads (decode_int_fixed_length f n) (f.store n v) v
  unfolding decode_int_fixed_length
  decode_int_fixed_length-Reads n v h = record { whole = all; cut = short }
    where
      size : length (f.store n v) ≡ n
      size = laws.length-store n v

      all : (rest : List ℕ) → decode_int_fixed_length f n (f.store n v ++ rest) ≡ (ok v, rest)
      all rest = rw (
        le→ltb (length (f.store n v ++ rest)) n (omega (arith, length-append (f.store n v) rest)),
        front rest,
        back rest,
        laws.load-store n v h,
        positive v h,
      )
        where
          front : (rest : List ℕ) → take n (f.store n v ++ rest) ≡ f.store n v
          front rest =
              subst (λ k. take k (f.store n v ++ rest) ≡ f.store n v) size
                (take-length-append (f.store n v) rest)

          back : (rest : List ℕ) → drop n (f.store n v ++ rest) ≡ rest
          back rest =
              subst (λ k. drop k (f.store n v ++ rest) ≡ rest) size
                (drop-length-append (f.store n v) rest)

          positive : (v : ℤ) → FitsBytes n v → ltb_ℤ v (pos 0) ≡ false
          positive (pos m) h = ground arith
          positive (negsuc m) h = absurd h

      short :
          (p : List ℕ) (x : ℕ) (q : List ℕ)
          → p ++ x ∷ q ≡ f.store n v
          → IsFalse (decode_int_fixed_length f n p).0
      short p x q e =
          rw (lt→ltb (length p) n (omega (arith, size, length-prefix p x q (f.store n v) e))) tt

  pub Reads-int32_fixed :
      (v : ℤ) → FitsBytes 4 v → Reads (decode_int32_fixed_length f) (f.store 4 v) v
  unfolding decode_int32_fixed_length
  Reads-int32_fixed = decode_int_fixed_length-Reads 4

  pub Reads-int64_fixed :
      (v : ℤ) → FitsBytes 8 v → Reads (decode_int64_fixed_length f) (f.store 8 v) v
  unfolding decode_int64_fixed_length
  Reads-int64_fixed = decode_int_fixed_length-Reads 8

pub Reads-byte_or_bail : (c : ℕ) → Reads decode_byte_or_bail (c ∷ []) c
Reads-byte_or_bail c = record { whole = λ rest. refl; cut = no_prefix }
  where
    no_prefix :
        (p : List ℕ) (x : ℕ) (q : List ℕ) → p ++ x ∷ q ≡ c ∷ [] → IsFalse (decode_byte_or_bail p).0
    no_prefix [] x q e = tt
    no_prefix (y ∷ p) x q e = absurd (append_cons-ne-nil p x q (cc))
