-- ===== src/TransferLog/Entries/Safe.antt =====
-- The handlers of LogParser on any bytes.
use wdt.Common.{
  ℕ, ◌-◌, ◌≡◌, refl, not, Bool, true, false, Option, some, List, length, ltb, if◌then◌else◌,
}
use wdt.Common.Int.{ℤ}
use wdt.ErrorCodes.{ErrorCode, invalid_log}
use wdt.Wire.Types.{Result}
use wdt.Wire.Yields.{YieldsAt}
use wdt.Varint.Encode.{IsCount}
use wdt.TransferLog.{Parser, ParserConfig, Disk, EntryType, header, file_creation, block_write}
use wdt.TransferLog.{
  file_invalidation, file_resize, directory_invalidation, unnamed, max_entry_length,
}
use wdt.TransferLog.Codec.{
  LogHeader, decode_log_header, decode_file_creation_entry, decode_block_write_entry,
  decode_file_resize_entry, decode_file_invalidation_entry, decode_directory_invalidation_entry,
}
use wdt.TransferLog.Codec.Yield.{
  decode_log_header-Yields, decode_file_creation_entry-Yields, decode_block_write_entry-Yields,
  decode_file_resize_entry-Yields, decode_file_invalidation_entry-Yields,
  decode_directory_invalidation_entry-Yields,
}
use wdt.TransferLog.Entries.{
  header_decoded, process_entry, process_header_entry, process_file_creation_entry,
  process_file_resize_entry, process_block_write_entry, process_file_invalidation_entry,
  process_directory_invalidation_entry, on_creation, on_resize, on_block, on_invalidation,
  on_directory_invalidation,
}
use wdt.TransferLog.Entries.WellFormed.{
  IsWellFormed, IsSafe, IsSafe-if, IsSafe-invalid, IsSafe-decoded, header_checks-IsSafe,
  on_creation-IsSafe,
}
use wdt.TransferLog.Entries.Changes.{
  on_resize-IsSafe, on_block-IsSafe, on_invalidation-IsSafe, on_directory_invalidation-IsSafe,
}

module _ (d : Disk) (c : ParserConfig) (p : Parser) (w : IsWellFormed d c p) where
  sent-IsWellFormed : (sender_ip : List ℕ) → IsWellFormed d c (record p { sender_ip = sender_ip })
  sent-IsWellFormed sender_ip = record {
    sizes = w.sizes;
    apart = w.apart;
    files = w.files;
    counts = w.counts;
    distinct = w.distinct;
    fixable = w.fixable;
  }

  header_decoded-IsSafe :
      (r : Result LogHeader × List ℕ) → YieldsAt (λ h. Unit) r.0 → IsSafe d c (header_decoded c p r)
  header_decoded-IsSafe (r, sender_ip) y =
      IsSafe-decoded d c (λ h. Unit) _ r _ y
        (λ h u. header_checks-IsSafe d c _ (sent-IsWellFormed sender_ip) h)

  -- A handler that wants a header first.
  headed-IsSafe :
      (r : Option (ErrorCode × Parser))
      → (p.header_parsed ≡ true → IsSafe d c r)
      → IsSafe d c (if not p.header_parsed then some (invalid_log, p) else r)
  headed-IsSafe r h = by_flag p.header_parsed refl
    where
      by_flag :
          (b : Bool) → p.header_parsed ≡ b → IsSafe d c (if not b then some (invalid_log, p) else r)
      by_flag true e = h e
      by_flag false e = IsSafe-invalid d c p

module _ (d : Disk) (c : ParserConfig) where
  pub process_entry-IsSafe :
      (type : EntryType) (payload : List ℕ) (p : Parser)
      → IsWellFormed d c p
      → IsSafe d c (process_entry d c type payload p)
  unfolding process_entry
  process_entry-IsSafe header payload p w =
      unfold process_header_entry in
      IsSafe-if d c (ltb (max_entry_length - 1) (length payload)) _ _ (λ long. IsSafe-invalid d c p)
        (λ short.
          header_decoded-IsSafe d c p w (decode_log_header p.sender_ip payload)
            (decode_log_header-Yields p.sender_ip payload))
  process_entry-IsSafe file_creation payload p w =
      unfold process_file_creation_entry in
      headed-IsSafe d c p w _ (λ e.
        IsSafe-decoded d c (λ (x : ℤ × List ℕ × ℤ × ℤ). IsCount x.2) p
          (decode_file_creation_entry payload) (on_creation d c p)
          (decode_file_creation_entry-Yields payload)
          (λ (now, name, k, size) hk. on_creation-IsSafe d c p w now name k size hk e))
  process_entry-IsSafe block_write payload p w =
      unfold process_block_write_entry in
      headed-IsSafe d c p w _ (λ e.
        IsSafe-decoded d c (λ (x : ℤ × ℤ × ℤ × ℤ). IsCount x.2 × IsCount x.3) p
          (decode_block_write_entry payload) (on_block c p)
          (decode_block_write_entry-Yields payload)
          (λ (now, k, start, size) (hs, hz). on_block-IsSafe d c p w now k start size hs hz))
  process_entry-IsSafe file_resize payload p w =
      unfold process_file_resize_entry in
      headed-IsSafe d c p w _ (λ e.
        IsSafe-decoded d c (λ (x : ℤ × ℤ × ℤ). Unit) p (decode_file_resize_entry payload)
          (on_resize c p) (decode_file_resize_entry-Yields payload)
          (λ (now, k, size) u. on_resize-IsSafe d c p w now k size))
  process_entry-IsSafe file_invalidation payload p w =
      unfold process_file_invalidation_entry in
      headed-IsSafe d c p w _ (λ e.
        IsSafe-decoded d c (λ (x : ℤ × ℤ). Unit) p (decode_file_invalidation_entry payload)
          (on_invalidation c p) (decode_file_invalidation_entry-Yields payload)
          (λ (now, k) u. on_invalidation-IsSafe d c p w now k))
  process_entry-IsSafe directory_invalidation payload p w =
      unfold process_directory_invalidation_entry in
      IsSafe-decoded d c IsCount p (decode_directory_invalidation_entry payload)
        (on_directory_invalidation c p) (decode_directory_invalidation_entry-Yields payload)
        (λ now u. on_directory_invalidation-IsSafe d c p w now)
  process_entry-IsSafe (unnamed n) payload p w = IsSafe-invalid d c p
