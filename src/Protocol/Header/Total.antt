-- ===== src/Protocol/Header/Total.antt =====
-- `decodeHeader` on any input.
use wdt.Common.{ℕ}
use wdt.Wire.Sound.{IsSound, IsSound-pure, IsSound-when_or}
use wdt.Serial.Total.{IsSound-string, IsSound-int64c, IsSound-byte_or_bail}
use wdt.Protocol.{BlockDetails}
use wdt.Protocol.Header.{decode_header, decode_flags, decode_prev}

decode_flags-IsSound : (d : BlockDetails) → IsSound 0 (decode_flags d)
unfolding decode_flags
decode_flags-IsSound d =
    IsSound-byte_or_bail (decode_prev d)
      (λ flags. IsSound-when_or _ _ _ (IsSound-int64c _ (λ prev. IsSound-pure _)))

pub decode_header-IsSound :
    (version : ℕ) (old : BlockDetails) → IsSound 0 (decode_header version old)
unfolding decode_header
decode_header-IsSound version old = IsSound-string _ (λ name. IsSound-int64c _ (λ seq_id.
    IsSound-int64c _ (λ data_size. IsSound-int64c _ (λ offset. IsSound-int64c _ (λ file_size.
      IsSound-when_or _ _ _ (
        decode_flags-IsSound (record old {
          file_name = name;
          seq_id = seq_id;
          data_size = data_size;
          offset = offset;
          file_size = file_size;
        })))))))
