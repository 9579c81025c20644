-- ===== src/Protocol/Commands/Total.antt =====
-- The decoders of the done, size and footer messages on any input.
use wdt.Common.{ℕ}
use wdt.Common.Int.{ℤ}
use wdt.Wire.Sound.{IsSound, IsSound-when_or, IsSound-pure}
use wdt.Serial.Total.{IsSound-int64c, decode_int64c-IsSound, decode_int32-IsSound}
use wdt.Protocol.Commands.{decode_done, decode_size, decode_footer}

pub decode_done-IsSound : (version : ℕ) (old : ℤ) → IsSound 0 (decode_done version old)
unfolding decode_done
decode_done-IsSound version old =
    IsSound-int64c _ (λ n. IsSound-when_or _ _ _ (IsSound-int64c _ (λ sent. IsSound-pure _)))

pub decode_size-IsSound : IsSound 1 decode_size
unfolding decode_size
decode_size-IsSound = decode_int64c-IsSound

pub decode_footer-IsSound : IsSound 1 decode_footer
unfolding decode_footer
decode_footer-IsSound = decode_int32-IsSound
