-- ===== src/TransferLog/Parse/Fixed.antt =====
-- LogParser::parseLog on the log that it has left: invalid files are invalidated once.
use wdt.Common.{ℕ, zero, suc, ◌+◌, ◌-◌, ◌<◌, ◌≡◌, refl, ap, ◌∙◌, inl, inr, arith}
use wdt.Common.{Bool, true, false, Option, none, some, List, [], ◌∷◌, ◌++◌, append-nil, map, All}
use wdt.Common.{length, take, length-append, take-length-append, if◌then◌else◌, ◌==◌}
use wdt.Common.Int.{ℤ}
use wdt.Common.SortedMap.{Map, find, is_some, IsDistinct, erase-absent, erase-first, find-first}
use wdt.ErrorCodes.{ErrorCode, ok_code, invalid_log, inconsistent_directory, code}
use wdt.Serial.{FixedInt, FixedIntLaws}
use wdt.Varint.Encode.{IsCount}
use wdt.Protocol.{Interval, FileChunksInfo}
use wdt.TransferLog.{Parser, ParserConfig, Disk, file_invalidation, max_entry_length}
use wdt.TransferLog.Codec.Logged.{file_invalidated, payload}
use wdt.TransferLog.Codec.Lengths.{length-payload_invalidated}
use wdt.TransferLog.Entries.Applied.{process_entry-payload}
use wdt.TransferLog.Entries.WellFormed.{IsWellFormed}
use wdt.TransferLog.Parse.{
  Scan, returned, ended, crashed, out_of_fuel, scan, read_chunk, handle_entry, parse_log, Parsed,
  new_parser, after_scan, stopped, close_scan, truncated, truncate_extra_bytes_at_end,
  merged_chunks, write_file_invalidation_entries,
}
use wdt.TransferLog.Parse.Frames.{frame, frames, read_frame, length-frame}
use wdt.TransferLog.Parse.Safe.{IsScanned, scan-IsScanned, empty-IsWellFormed}
use wdt.TransferLog.Parse.Returned.{invalidated, write_entries_lem}
use wdt.TransferLog.Parse.Resume.{scan-Resumes}

is_none : {A : Type 0} (o : Option A) → is_some o ≡ false → o ≡ none
is_none none h = refl
is_none (some a) h = absurd (cc)

module _ (f : FixedInt) (laws : FixedIntLaws f) (d : Disk)
    (reads : (n : ℕ) → d.read_error n ≡ false) (c : ParserConfig) (only : c.parse_only ≡ false)
    (now : ℤ) (hn : IsCount now) where
  -- The state with so many invalid seq-ids left.
  abbrev with_invalid : Parser → Map (Unit {0}) → Parser
  with_invalid p ids = record p { invalid_seq_ids = ids }

  handle_invalidation :
      (p : Parser) (k : ℤ) (u : Unit {0}) (ids : Map (Unit {0}))
      → c.resume_using_dir_tree ≡ false
      → p.header_parsed ≡ true
      → IsCount k
      → find k p.file_info ≡ none
      → find k ids ≡ none
      → handle_entry d c ok_code file_invalidation
          (payload (file_invalidated now k))
          (with_invalid p ((k, u) ∷ ids))
        ≡ some (ok_code, with_invalid p ids)
  unfolding handle_entry code
  handle_invalidation p k u ids tree header hk new new' =
      rw
        (
          process_entry-payload d c (file_invalidated now k) (with_invalid p ((k, u) ∷ ids))
              (hn, hk) (omega (arith, length-payload_invalidated now k)),
          header,
          only,
          tree,
          new,
          find-first k u ids,
          erase-absent k p.file_info new,
          erase-first k u ids new',
        )
        refl

  -- The entries for all of them leave none.
  scan_invalidations :
      (p : Parser) (ids : Map (Unit {0})) (fuel i : ℕ)
      → c.resume_using_dir_tree ≡ false
      → p.header_parsed ≡ true
      → ((k : ℤ) → is_some (find k p.file_info) ≡ true → is_some (find k ids) ≡ false)
      → IsDistinct ids
      → All (λ (x : ℤ × Unit {0}). IsCount x.0) ids
      → length (frames f (map (invalidated f laws d c now) ids)) < fuel
      → scan f d c fuel i
          (frames f (map (invalidated f laws d c now) ids))
          ok_code
          (with_invalid p ids)
        ≡ ended ok_code (with_invalid p []) 0
  unfolding scan code
  scan_invalidations p ids zero i tree header apart distinct counts le = absurd (omega arith)
  scan_invalidations p [] (suc fuel) i tree header apart distinct counts le =
      unfold read_chunk in rw (reads i) refl
  scan_invalidations p ((k, u) ∷ ids) (suc fuel) i tree header apart distinct counts le =
      let e = invalidated f laws d c now (k, u) in
      let rest = frames f (map (invalidated f laws d c now) ids) in
      let fits : length (payload (file_invalidated now k)) < max_entry_length =
        omega (arith, length-payload_invalidated now k) in
      rw
        (
          read_frame f laws d reads e i rest fits,
          handle_invalidation p k u ids tree header counts.0 (absent (find k p.file_info) refl)
              distinct.0,
        )
        (scan_invalidations p ids fuel (i + length e.1 + 3) tree header later distinct.1 counts.1
          (omega (arith, length-append (frame f e) rest, length-frame f laws e)))
    where
      absent : (o : Option FileChunksInfo) → find k p.file_info ≡ o → find k p.file_info ≡ none
      absent none e = e
      absent (some info) e =
          let here : is_some (find k ((k, u) ∷ ids)) ≡ false = apart k (rw e refl) in
          absurd (cc (rw (find-first k u ids) at here))

      later : (j : ℤ) → is_some (find j p.file_info) ≡ true → is_some (find j ids) ≡ false
      later j h = unfold find in ground (arith, apart j h)

  scan_added :
      (p : Parser)
      → IsWellFormed d c p
      → (ids : Map (Unit {0})) (fuel i : ℕ) → p.invalid_seq_ids ≡ ids
      → length (frames f (map (invalidated f laws d c now) ids)) < fuel
      → scan f d c fuel i (frames f (map (invalidated f laws d c now) ids)) ok_code p
        ≡ ended ok_code (with_invalid p []) 0
  scan_added p w ids zero i e le = absurd (omega arith)
  scan_added p w [] (suc fuel) i e le =
      unfold scan read_chunk in
      rw (reads i)
        (ap {A = Parser} (λ q. ended ok_code q 0) (λ j. record p { invalid_seq_ids = e j }))
  scan_added p w (x ∷ ids) (suc fuel) i e le = elim w.fixable [
    | inl nothing ↦ absurd (cc)
    | inr (header, o, tree) ↦
        let same : p ≡ with_invalid p (x ∷ ids) = λ j. record p { invalid_seq_ids = e j } in
        let bytes = frames f (map (invalidated f laws d c now) (x ∷ ids)) in
        ap (scan f d c (suc fuel) i bytes ok_code) same
        ∙ scan_invalidations p (x ∷ ids) (suc fuel) i tree header (λ k h. rw e at (w.apart k h))
            (rw e at w.distinct) (rw e at w.counts) le
  ]

  module _ (sort : List Interval → List Interval) (sender_ip : List ℕ) where
    -- The second parse, from what the first one left.
    again :
        (front : List ℕ) (p : Parser)
        → IsWellFormed d c p
        → ((more : List ℕ) (fuel enough : ℕ)
            → length (front ++ more) < fuel
            → length more < enough
            → scan f d c fuel 0 (front ++ more) ok_code (new_parser sender_ip)
              ≡ scan f d c enough (0 + length front) more ok_code p)
        → (r : Parsed) → close_scan f d c sort now ok_code p front ≡ some r
        → r.status ≡ ok_code
        → parse_log f d c sort now sender_ip r.log ≡ some r
    unfolding parse_log code
    again front p w goes_on r closed good =
        by_write (write_entries_lem f laws d c now p.invalid_seq_ids front hn w.counts)
      where
        entries : List ℕ
        entries = frames f (map (invalidated f laws d c now) p.invalid_seq_ids)

        r' : Parsed
        r' = record {
          status = ok_code;
          log = front ++ entries;
          sender_ip = p.sender_ip;
          chunks = merged_chunks f d c sort p.file_info;
        }

        parsed :
            after_scan f d c sort now (front ++ entries) (
              scan f d c
                (suc (length (front ++ entries)))
                0
                (front ++ entries)
                ok_code
                (new_parser sender_ip))
            ≡ some r'
        parsed =
            rw
              (
                goes_on entries (suc (length (front ++ entries))) (suc (length entries))
                    (omega arith) (omega arith),
                scan_added p w p.invalid_seq_ids (suc (length entries)) (0 + length front) refl
                    (omega arith),
              )
              (unfold write_file_invalidation_entries in refl)

        by_write :
            ((b : Bool) × (log' : List ℕ) × (write_file_invalidation_entries f d now
                  p.invalid_seq_ids front
                ≡ some (b, log'))
              × (b ≡ true → log' ≡ front ++ entries))
            → parse_log f d c sort now sender_ip r.log ≡ some r
        by_write (true, log', e, whole) =
            let same : r ≡ r' = cc (rw (e, whole refl) at closed) in rw same parsed
        by_write (false, log', e, whole) = absurd (cc (rw e at closed))

    -- Behind the loop the log is the front.
    closed_front :
        (log front tail : List ℕ) (status : ErrorCode) (p : Parser) (n : ℕ) (r : Parsed)
        → log ≡ front ++ tail
        → length tail ≡ n
        → after_scan f d c sort now log (ended status p n) ≡ some r
        → r.status ≡ ok_code
        → close_scan f d c sort now status p front ≡ some r
    unfolding truncate_extra_bytes_at_end
    closed_front log front [] status p n r whole size e good =
        let same : log ≡ front = whole ∙ append-nil front in rw (← same) (rw (← size) at e)
    closed_front log front (x ∷ tail) status p n r whole size e good =
        by_end c.parse_only d.can_truncate only (rw some_extra at e)
      where
        by_end :
            (b can : Bool)
            → b ≡ false
            → (if b
                then close_scan f d c sort now status p log
                else truncated f d c sort now status p
                    (if can then (true, take (length log - n) log) else (false, log)))
              ≡ some r
            → close_scan f d c sort now status p front ≡ some r
        by_end true can h g = absurd (cc)
        by_end false true h g =
            let left : length (front ++ x ∷ tail) - length (x ∷ tail) ≡ length front =
              omega (arith, length-append front (x ∷ tail)) in
            let front_of : take (length log - n) log ≡ front =
              rw (whole, ← size, left) (take-length-append front (x ∷ tail)) in
            rw front_of at g
        by_end false false h g =
            let failed : stopped f d c sort invalid_log p log ≡ r = cc g in
            let bad : invalid_log ≡ ok_code = ap (λ (y : Parsed). y.status) failed ∙ good in
            absurd (cc)

        some_extra : (n == 0) ≡ false
        some_extra = ground arith

    from_scan :
        (log : List ℕ) (r : Parsed) (s : Scan)
        → scan f d c (suc (length log)) 0 log ok_code (new_parser sender_ip) ≡ s
        → IsScanned d c s
        → after_scan f d c sort now log s ≡ some r
        → r.status ≡ ok_code
        → parse_log f d c sort now sender_ip r.log ≡ some r
    from_scan log r (returned p) e h g good =
        let failed : stopped f d c sort invalid_log p log ≡ r = cc g in
        let wrong : invalid_log ≡ ok_code = ap (λ (y : Parsed). y.status) failed ∙ good in
        absurd (cc)
    from_scan log r (ended status p n) e (inl ok, w) g good =
        let resumed =
          scan-Resumes f d c (suc (length log)) 0 log ok_code (new_parser sender_ip) status p n
            (omega arith) e in
        let closed =
          closed_front log resumed.front resumed.tail status p n r resumed.whole resumed.size g
            good in
        again resumed.front p w
          (λ more fuel enough le le'. rw ok at (resumed.goes_on more fuel enough le le')) r
          (rw ok at closed) good
    from_scan log r (ended status p n) e (inr bad, w) g good =
        let resumed =
          scan-Resumes f d c (suc (length log)) 0 log ok_code (new_parser sender_ip) status p n
            (omega arith) e in
        let closed =
          closed_front log resumed.front resumed.tail status p n r resumed.whole resumed.size g
            good in
        let ended_bad : stopped f d c sort inconsistent_directory p resumed.front ≡ r =
          unfold code in cc (rw bad at closed) in
        let wrong : inconsistent_directory ≡ ok_code =
          ap (λ (y : Parsed). y.status) ended_bad ∙ good in
        absurd (cc)
    from_scan log r crashed e h g good = absurd h
    from_scan log r out_of_fuel e h g good = absurd h

    -- Where `parseLog` returns that the log is valid, for any bytes of the log, parsing the log that it
    -- leaves, with the extra bytes cut off and the invalid files invalidated, gives the same chunks and
    -- sender address, and leaves that log as it is: outside of parse-only mode, where reads succeed.
    pub parse_log_again :
        (log : List ℕ) (r : Parsed)
        → parse_log f d c sort now sender_ip log ≡ some r
        → r.status ≡ ok_code
        → parse_log f d c sort now sender_ip r.log ≡ some r
    parse_log_again log r e good =
        let start = new_parser sender_ip in
        from_scan log r (scan f d c (suc (length log)) 0 log ok_code start) refl
          (scan-IsScanned f d c (suc (length log)) 0 log ok_code start (omega arith) (inl refl)
            (empty-IsWellFormed d c false sender_ip))
          (unfold parse_log in e) good
