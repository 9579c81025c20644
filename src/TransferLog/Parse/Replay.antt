-- ===== src/TransferLog/Parse/Replay.antt =====
-- Parsing a log of whole entries as the handling of the entries, in their order.
use wdt.Common.{ℕ, zero, suc, ◌+◌, ◌<◌, ◌≡◌, refl, ap, ◌∙◌, arith, not, ◌&&◌}
use wdt.Common.{
  false, Option, none, some, List, [], ◌∷◌, map, length, All, Bool-cases, inl, inr, length-append,
  if◌then◌else◌,
}
use wdt.Common.Int.{ℤ}
use wdt.ErrorCodes.{ErrorCode, ok_code, invalid_log, inconsistent_directory}
use wdt.Serial.{FixedInt, FixedIntLaws}
use wdt.Protocol.{Interval}
use wdt.TransferLog.{Parser, ParserConfig, Disk, max_entry_length, entry_code, to_entry_type}
use wdt.TransferLog.Codec.Logged.{
  LogEntry, started, file_created, block_written, file_resized, file_invalidated,
  directory_invalidated, type_of, payload, IsLoggable, logged,
}
use wdt.TransferLog.Entries.Applied.{apply_entry, process_entry-payload}
use wdt.TransferLog.Parse.{
  Scan, ended, scan, parse_log, after_scan, new_parser, next_round, handle_entry, after_entry,
  is_header, same_code, round, read_chunk,
}
use wdt.TransferLog.Parse.Frames.{frames, length-frame, read_frame}

-- The entries are short enough for the parser.
abbrev pub IsShort : LogEntry → Type 0
IsShort e = IsLoggable e × (length (payload e) < max_entry_length)

-- An entry at a time: all but a header are skipped while the directory is invalid.
abbrev handled : Disk → ParserConfig → ErrorCode → LogEntry → Parser → Option (ErrorCode × Parser)
handled d c status e p =
    let applied = after_entry d c (apply_entry d c e p) in
    if same_code status inconsistent_directory && not (is_header (type_of e))
    then some (status, p)
    else applied

-- The entries in their order, up to one that is invalid.
abbrev pub replay : Disk → ParserConfig → List LogEntry → ErrorCode → Parser → Scan
replay d c [] status p = ended status p 0
replay d c (e ∷ es) status p =
    next_round (λ (i : ℕ) (rest : List ℕ). replay d c es) 0 [] (handled d c status e p)

to_entry_type-entry_code : (e : LogEntry) → to_entry_type (entry_code (type_of e)) ≡ type_of e
to_entry_type-entry_code (started now recovery_id sender_ip config) = refl
to_entry_type-entry_code (file_created now file_name seq_id file_size) = refl
to_entry_type-entry_code (block_written now seq_id offset block_size) = refl
to_entry_type-entry_code (file_resized now seq_id file_size) = refl
to_entry_type-entry_code (file_invalidated now seq_id) = refl
to_entry_type-entry_code (directory_invalidated now) = refl

next_round-eq :
    (loop loop' : ℕ → List ℕ → ErrorCode → Parser → Scan) (i j : ℕ) (rest rest' : List ℕ)
    (r : Option (ErrorCode × Parser))
    → ((s : ErrorCode) (p : Parser) → loop i rest s p ≡ loop' j rest' s p)
    → next_round loop i rest r ≡ next_round loop' j rest' r
next_round-eq loop loop' i j rest rest' none same = refl
next_round-eq loop loop' i j rest rest' (some (s, p)) same =
    elim (Bool-cases (same_code s invalid_log)) [ inl e ↦ rw e refl | inr e ↦ rw e (same s p) ]

module _ (f : FixedInt) (laws : FixedIntLaws f) (d : Disk)
    (reads : (n : ℕ) → d.read_error n ≡ false) (c : ParserConfig) where
  handle_entry-payload :
      (e : LogEntry) (status : ErrorCode) (p : Parser)
      → IsShort e
      → handle_entry d c status (to_entry_type (entry_code (type_of e))) (payload e) p
        ≡ handled d c status e p
  unfolding handle_entry
  handle_entry-payload e status p (v, short) =
      rw (to_entry_type-entry_code e, process_entry-payload d c e p v short) refl

  pub scan-replay :
      (es : List LogEntry) (fuel i : ℕ) (status : ErrorCode) (p : Parser)
      → All IsShort es
      → length (frames f (map logged es)) < fuel
      → scan f d c fuel i (frames f (map logged es)) status p ≡ replay d c es status p
  unfolding scan
  scan-replay es zero i status p h le = absurd (omega arith)
  scan-replay [] (suc fuel) i status p h le = unfold read_chunk in rw (reads i) refl
  scan-replay (e ∷ es) (suc fuel) i status p h le =
      let more = frames f (map logged es) in
      let at : ℕ = i + length (payload e) + 3 in
      ap (round d c (scan f d c fuel) i status p)
        (read_frame f laws d reads (logged e) i more h.0.1)
      ∙ ap (next_round (scan f d c fuel) at more) (handle_entry-payload e status p h.0)
      ∙ next_round-eq (scan f d c fuel) (λ (i : ℕ) (rest : List ℕ). replay d c es) at 0 more []
          (handled d c status e p)
          (λ s p'.
            scan-replay es fuel at s p' h.1
              (omega (arith, length-append {0}, length-frame f laws (logged e))))

  -- A log of whole entries, each as its encoder writes it, is parsed by handling the entries in their
  -- order, each as it was logged, where the reads succeed.
  pub parse_log-replay :
      (sort : List Interval → List Interval) (now : ℤ) (sender_ip : List ℕ) (es : List LogEntry)
      → All IsShort es
      → parse_log f d c sort now sender_ip (frames f (map logged es))
        ≡ after_scan f d c sort now
            (frames f (map logged es))
            (replay d c es ok_code (new_parser sender_ip))
  unfolding parse_log
  parse_log-replay sort now sender_ip es h =
      let log = frames f (map logged es) in
      ap (after_scan f d c sort now log)
        (scan-replay es (suc (length log)) 0 ok_code (new_parser sender_ip) h (omega arith))
