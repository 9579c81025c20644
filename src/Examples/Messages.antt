-- ===== src/Examples/Messages.antt =====
-- The theorems on the smaller messages at concrete inputs.
use wdt.Common.{ℕ, ◌+◌, ◌<◌, ◌≤◌, ◌≡◌, ◌⊎◌, List, replicate, arith}
use wdt.Common.Int.{pos, negsuc}
use wdt.ErrorCodes.{ErrorCode}
use wdt.Wire.Types.{Status, ok, bailed}
use wdt.Wire.Exchange.{succeeds}
use wdt.Varint.Encode.{encode_var_i64-Writes, encode_var_i64c-Writes}
use wdt.Varint.{encode_zig_zag}
use wdt.Varint.Groups.{length-groups}
use wdt.Protocol.Commands.{encode_done, encode_size, encode_footer}
use wdt.Protocol.Commands.{encode_abort, decode_abort}
use wdt.Protocol.Commands.{EncryptionType, encode_encryption_settings}
use wdt.Protocol.Commands.Replies.{encode_done_fits}
use wdt.Protocol.Commands.Fixed.{encode_encryption_settings_fits}
use wdt.Protocol.Commands.Abort.{decode_abort-encode_abort}
use wdt.Examples.Endian.{little_endian, little_endian-FixedIntLaws}
use wdt.Examples.Headers.{after_command, after_command-IsRoom}

done_sent : (encode_done 27 100 (pos 300) (pos 70000) (after_command 100)).0 ≡ Status.done
done_sent =
    encode_done_fits 27 100 (pos 300) (pos 70000) (omega arith) (omega arith) (after_command 100)
      (after_command-IsRoom 100 (omega arith)) (omega arith)

size_sent : (encode_size 100 (pos 70000) (after_command 100)).0 ≡ Status.done
unfolding encode_size
size_sent =
    succeeds 100 (encode_var_i64c-Writes 100 (pos 70000) (omega arith)) (after_command 100)
      (after_command-IsRoom 100 (omega arith)) (omega (arith, length-groups 8 70000))

footer_sent : (encode_footer 100 (negsuc 299) (after_command 100)).0 ≡ Status.done
unfolding encode_footer
footer_sent =
    succeeds 100 (encode_var_i64-Writes 100 (negsuc 299)) (after_command 100)
      (after_command-IsRoom 100 (omega arith))
      (omega (arith, length-groups 8 (encode_zig_zag (negsuc 299))))

abbrev vector : List ℕ
vector = replicate 16 7

encryption_sent :
    (encode_encryption_settings little_endian 100 EncryptionType.enc_aes128_ctr vector
      (pos 4096)
      (after_command 100)).0
    ≡ Status.done
encryption_sent =
    encode_encryption_settings_fits little_endian little_endian-FixedIntLaws 100
      EncryptionType.enc_aes128_ctr vector (pos 4096) (after_command 100) tt (omega arith)
      (after_command-IsRoom 100 (omega arith)) (omega arith)

decode_abort-encode_abort_example :
    let (status, b') =
      encode_abort little_endian 100 (pos 27) ErrorCode.conn_error (pos 4096) (after_command 100) in
    ((1 + 13 ≤ 100)
      × (status ≡ Status.done)
      × (decode_abort little_endian b'.dest 100 1
          ≡ (ok (pos 27, ErrorCode.conn_error, pos 4096), b'.off)))
    ⊎ ((100 < 1 + 13)
        × (encode_abort little_endian 100
              (pos 27)
              ErrorCode.conn_error
              (pos 4096)
              (after_command 100)
            ≡ (Status.refused, after_command 100))
        × (decode_abort little_endian (after_command 100).dest 100 1 ≡ (bailed, 1)))
decode_abort-encode_abort_example =
    decode_abort-encode_abort little_endian little_endian-FixedIntLaws 100 (pos 27)
      ErrorCode.conn_error (pos 4096) (after_command 100) (omega arith) tt (omega arith)
      (after_command-IsRoom 100 (omega arith))
