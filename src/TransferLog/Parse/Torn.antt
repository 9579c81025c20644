-- ===== src/TransferLog/Parse/Torn.antt =====
-- A log whose last write was cut short, as LogParser::parseLog finds it.
use wdt.Common.{ℕ, zero, suc, ◌+◌, ◌-◌, ◌<◌, ◌≡◌, ◌≢◌, refl, inl, inr, arith}
use wdt.Common.{true, false, Option, none, some, List, [], ◌∷◌, ◌++◌, append_assoc}
use wdt.Common.{All, length, take, length-append, take-length-append, Bool-cases, ◌==◌}
use wdt.Common.Int.{ℤ}
use wdt.ErrorCodes.{ErrorCode, ok_code, invalid_log}
use wdt.Serial.{FixedInt, FixedIntLaws}
use wdt.Protocol.{Interval}
use wdt.TransferLog.{Parser, ParserConfig, Disk, to_entry_type}
use wdt.TransferLog.Parse.{
  Scan, returned, ended, crashed, out_of_fuel, scan, next_round, read_chunk, handle_entry,
  same_code, parse_log, Parsed, new_parser, after_scan, truncate_extra_bytes_at_end,
}
use wdt.TransferLog.Parse.Frames.{frame, frames, Fits, read_frame, read_torn, length-frame}

-- The same, with extra bytes at the end.
abbrev with_extra : ℕ → Scan → Scan
with_extra n (returned p) = returned p
with_extra n (ended status p k) = ended status p n
with_extra n crashed = crashed
with_extra n out_of_fuel = out_of_fuel

module _ (f : FixedInt) (laws : FixedIntLaws f) (d : Disk)
    (reads : (n : ℕ) → d.read_error n ≡ false) (c : ParserConfig) where
  next_round-torn :
      (loop loop' : ℕ → List ℕ → ErrorCode → Parser → Scan) (i n : ℕ) (rest rest' : List ℕ)
      (r : Option (ErrorCode × Parser))
      → ((s : ErrorCode) (p : Parser) → loop i rest s p ≡ with_extra n (loop' i rest' s p))
      → next_round loop i rest r ≡ with_extra n (next_round loop' i rest' r)
  next_round-torn loop loop' i n rest rest' none same = refl
  next_round-torn loop loop' i n rest rest' (some (s, p)) same =
      elim (Bool-cases (same_code s invalid_log)) [ inl e ↦ rw e refl | inr e ↦ rw e (same s p) ]

  -- The loop ends as it would without the torn entry, with its bytes left over.
  scan_torn :
      (e : ℕ × List ℕ) (q : List ℕ) (x : ℕ) (r : List ℕ)
      → Fits e
      → q ++ x ∷ r ≡ frame f e
      → q ≢ []
      → (es : List (ℕ × List ℕ)) (fuel more i : ℕ) (status : ErrorCode) (p : Parser) → All Fits es
      → length (frames f es ++ q) < fuel
      → length (frames f es) < more
      → scan f d c fuel i (frames f es ++ q) status p
        ≡ with_extra (length q) (scan f d c more i (frames f es) status p)
  unfolding scan
  scan_torn e q x r fits split ne es zero more i status p h le le' = absurd (omega arith)
  scan_torn e q x r fits split ne es (suc fuel) zero i status p h le le' = absurd (omega arith)
  scan_torn e q x r fits split ne [] (suc fuel) (suc more) i status p h le le' =
      rw (read_torn f laws d reads e i q x r fits split ne) (unfold read_chunk in rw (reads i) refl)
  scan_torn e q x r fits split ne (e' ∷ es) (suc fuel) (suc more) i status p h le le' =
      rw
        (
          append_assoc,
          read_frame f laws d reads e' i (frames f es ++ q) h.0,
          read_frame f laws d reads e' i (frames f es) h.0,
        )
        (next_round-torn (scan f d c fuel) (scan f d c more) (i + length e'.1 + 3) (length q) _ _
          (handle_entry d c status (to_entry_type e'.0) e'.1 p)
          (λ s p'.
            scan_torn e q x r fits split ne es fuel more (i + length e'.1 + 3) s p' h.1
              (omega (
                arith,
                length-append (frame f e') (frames f es ++ q),
                length-append (frame f e' ++ frames f es) q,
                length-append (frames f es) q,
                length-append (frame f e') (frames f es),
                length-frame f laws e',
              ))
              (omega (arith, length-append (frame f e') (frames f es), length-frame f laws e'))))

  -- Without it nothing is left over.
  abbrev IsWhole : Scan → Type 0
  IsWhole (ended status p n) = n ≡ 0
  IsWhole _ = Unit

  next_round-IsWhole :
      (loop : ℕ → List ℕ → ErrorCode → Parser → Scan) (i : ℕ) (rest : List ℕ)
      (r : Option (ErrorCode × Parser))
      → ((s : ErrorCode) (p : Parser) → IsWhole (loop i rest s p))
      → IsWhole (next_round loop i rest r)
  next_round-IsWhole loop i rest none whole = tt
  next_round-IsWhole loop i rest (some (s, p)) whole = elim (Bool-cases (same_code s invalid_log)) [
    | inl e ↦ rw e tt
    | inr e ↦ rw e (whole s p)
  ]

  scan-IsWhole :
      (es : List (ℕ × List ℕ)) (fuel i : ℕ) (status : ErrorCode) (p : Parser)
      → All Fits es
      → IsWhole (scan f d c fuel i (frames f es) status p)
  unfolding scan
  scan-IsWhole es zero i status p h = tt
  scan-IsWhole [] (suc fuel) i status p h = unfold read_chunk in rw (reads i) refl
  scan-IsWhole (e ∷ es) (suc fuel) i status p h =
      rw (read_frame f laws d reads e i (frames f es) h.0) (
        next_round-IsWhole (scan f d c fuel) (i + length e.1 + 3) (frames f es)
          (handle_entry d c status (to_entry_type e.0) e.1 p)
          (λ s p'. scan-IsWhole es fuel (i + length e.1 + 3) s p' h.1))

  module _ (sort : List Interval → List Interval) (now : ℤ) (can : d.can_truncate ≡ true)
      (fix : c.parse_only ≡ false) where
    after_scan-torn :
        (log q : List ℕ) (s : Scan) (r : Parsed)
        → IsWhole s
        → q ≢ []
        → after_scan f d c sort now log s ≡ some r
        → r.status ≢ invalid_log
        → after_scan f d c sort now (log ++ q) (with_extra (length q) s)
          ≡ after_scan f d c sort now log s
    unfolding truncate_extra_bytes_at_end
    after_scan-torn log q (returned p) r w ne h good = absurd (good (cc h))
    after_scan-torn log q (ended status p n) r w ne h good =
        rw (w, counted q ne, fix, can, front) refl
      where
        counted : (q : List ℕ) → q ≢ [] → (length q == 0) ≡ false
        counted [] ne = absurd (ne refl)
        counted (x ∷ q) ne = ground arith

        front : take (length (log ++ q) - length q) (log ++ q) ≡ log
        front =
            let sum : length (log ++ q) - length q ≡ length log =
              omega (arith, length-append log q) in
            rw sum (take-length-append log q)
    after_scan-torn log q crashed r w ne h good = refl
    after_scan-torn log q out_of_fuel r w ne h good = refl

    -- Where the writer was stopped inside of its last entry, parsing the log gives exactly what it
    -- gives for the whole entries before, and leaves exactly the log that it leaves for them: for any
    -- entries, known or not, whose log is not invalid, outside of parse-only mode, where reads and the
    -- truncation succeed.
    pub parse_log_torn :
        (es : List (ℕ × List ℕ)) (e : ℕ × List ℕ) (q : List ℕ) (x : ℕ) (rest sender_ip : List ℕ)
        (r : Parsed)
        → All Fits es
        → Fits e
        → q ++ x ∷ rest ≡ frame f e
        → q ≢ []
        → parse_log f d c sort now sender_ip (frames f es) ≡ some r
        → r.status ≢ invalid_log
        → parse_log f d c sort now sender_ip (frames f es ++ q)
          ≡ parse_log f d c sort now sender_ip (frames f es)
    unfolding parse_log
    parse_log_torn es e q x rest sender_ip r all fits split ne h good =
        let log = frames f es in
        let start = new_parser sender_ip in
        rw
          (scan_torn e q x rest fits split ne es (suc (length (log ++ q))) (suc (length log)) 0
            ok_code start all (omega arith) (omega arith))
          (after_scan-torn log q (scan f d c (suc (length log)) 0 log ok_code start) r
            (scan-IsWhole es (suc (length log)) 0 ok_code start all) ne h good)
