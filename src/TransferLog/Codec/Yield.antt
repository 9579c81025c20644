-- ===== src/TransferLog/Codec/Yield.antt =====
-- What the decoders of LogEncoderDecoder yield on any bytes: no failed WDT_CHECK, and no negative
-- numbers.
use wdt.Common.{ℕ, List, [], ◌∷◌}
use wdt.Common.Int.{ℤ}
use wdt.Wire.Types.{Result, ok, refused, bailed, crashed, Decoder}
use wdt.Wire.Decoder.{◌>>=◌}
use wdt.Wire.Yields.{YieldsAt, Yields, Yields-pure, Yields-bind, Yields-IsSound}
use wdt.Varint.Encode.{IsCount}
use wdt.Serial.{decode_int64c, decode_int32c, decode_string}
use wdt.Serial.Total.{decode_int32c-IsSound, decode_string-IsSound, decode_int64c-Yields}
use wdt.TransferLog.Codec.{
  to_the_end, header_front, header_fields, decode_log_header, decode_file_creation_entry,
  decode_block_write_entry, decode_file_resize_entry, decode_file_invalidation_entry,
  decode_directory_invalidation_entry, creation_fields, block_fields, resize_fields,
  invalidation_fields,
}

abbrev Anything {ℓ} : {A : Type ℓ} → A → Type 0
Anything a = Unit

to_the_end-Yields {ℓ} :
    {A : Type ℓ} (P : A → Type 0) (r : Result A × List ℕ)
    → YieldsAt P r.0
    → YieldsAt P (to_the_end r)
to_the_end-Yields P (ok a, []) h = h
to_the_end-Yields P (ok a, b ∷ br) h = tt
to_the_end-Yields P (refused, br) h = tt
to_the_end-Yields P (bailed, br) h = tt
to_the_end-Yields P (crashed, br) h = h

-- The first field of every entry but the header's is a time, and then what follows.
after_int64c {ℓ} :
    {B : Type ℓ} (Q : B → Type 0) (k : ℤ → Decoder B)
    → ((v : ℤ) → IsCount v → Yields Q (k v))
    → Yields Q (decode_int64c >>= k)
after_int64c Q k h = Yields-bind IsCount Q decode_int64c k decode_int64c-Yields h

after_string {ℓ} :
    {B : Type ℓ} (Q : B → Type 0) (k : List ℕ → Decoder B)
    → ((s : List ℕ) → Yields Q (k s))
    → Yields Q (decode_string >>= k)
after_string Q k h =
    Yields-bind Anything Q decode_string k (Yields-IsSound 1 decode_string decode_string-IsSound)
      (λ s u. h s)

header_front-Yields : Yields Anything header_front
header_front-Yields = after_int64c Anything _ (λ now hn.
    Yields-bind Anything Anything decode_int32c _
      (Yields-IsSound 1 decode_int32c decode_int32c-IsSound)
      (λ v u.
        after_string Anything _ (λ id. after_string Anything _ (λ ip. Yields-pure Anything _ tt))))

header_fields-Yields : Yields Anything header_fields
header_fields-Yields =
    Yields-bind Anything Anything header_front _ header_front-Yields
      (λ h u. after_int64c Anything _ (λ config hc. Yields-pure Anything _ tt))

pub decode_log_header-Yields : (old br : List ℕ) → YieldsAt Anything (decode_log_header old br).0
unfolding decode_log_header Yields
decode_log_header-Yields old br =
    to_the_end-Yields Anything (header_fields br) (header_fields-Yields br)

creation_fields-Yields : Yields (λ (x : ℤ × List ℕ × ℤ × ℤ). IsCount x.2) creation_fields
creation_fields-Yields = after_int64c _ _ (λ now hn.
    after_string _ _
      (λ name. after_int64c _ _ (λ k hk. after_int64c _ _ (λ size hs. Yields-pure _ _ hk))))

pub decode_file_creation_entry-Yields :
    (br : List ℕ)
    → YieldsAt (λ (x : ℤ × List ℕ × ℤ × ℤ). IsCount x.2) (decode_file_creation_entry br)
unfolding decode_file_creation_entry Yields
decode_file_creation_entry-Yields br =
    to_the_end-Yields _ (creation_fields br) (creation_fields-Yields br)

block_fields-Yields : Yields (λ (x : ℤ × ℤ × ℤ × ℤ). IsCount x.2 × IsCount x.3) block_fields
block_fields-Yields = after_int64c _ _ (λ now hn.
    after_int64c _ _
      (λ k hk. after_int64c _ _ (λ o ho. after_int64c _ _ (λ size hs. Yields-pure _ _ (ho, hs)))))

pub decode_block_write_entry-Yields :
    (br : List ℕ)
    → YieldsAt (λ (x : ℤ × ℤ × ℤ × ℤ). IsCount x.2 × IsCount x.3) (decode_block_write_entry br)
unfolding decode_block_write_entry Yields
decode_block_write_entry-Yields br = to_the_end-Yields _ (block_fields br) (block_fields-Yields br)

resize_fields-Yields : Yields Anything resize_fields
resize_fields-Yields =
    after_int64c _ _
      (λ now hn. after_int64c _ _ (λ k hk. after_int64c _ _ (λ size hs. Yields-pure Anything _ tt)))

pub decode_file_resize_entry-Yields :
    (br : List ℕ) → YieldsAt Anything (decode_file_resize_entry br)
unfolding decode_file_resize_entry Yields
decode_file_resize_entry-Yields br =
    to_the_end-Yields _ (resize_fields br) (resize_fields-Yields br)

invalidation_fields-Yields : Yields Anything invalidation_fields
invalidation_fields-Yields =
    after_int64c _ _ (λ now hn. after_int64c _ _ (λ k hk. Yields-pure Anything _ tt))

pub decode_file_invalidation_entry-Yields :
    (br : List ℕ) → YieldsAt Anything (decode_file_invalidation_entry br)
unfolding decode_file_invalidation_entry Yields
decode_file_invalidation_entry-Yields br =
    to_the_end-Yields _ (invalidation_fields br) (invalidation_fields-Yields br)

pub decode_directory_invalidation_entry-Yields :
    (br : List ℕ) → YieldsAt IsCount (decode_directory_invalidation_entry br)
unfolding decode_directory_invalidation_entry Yields
decode_directory_invalidation_entry-Yields br =
    to_the_end-Yields _ (decode_int64c br) (unfold Yields in decode_int64c-Yields br)
