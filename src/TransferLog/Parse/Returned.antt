-- ===== src/TransferLog/Parse/Returned.antt =====
-- What LogParser::parseLog returns for any bytes of a log.
use wdt.Common.{ℕ, suc, ◌+◌, ◌-◌, ◌≡◌, refl, sym, ap, ◌∙◌, ◌⊎◌, inl, inr, arith, ◌&&◌}
use wdt.Common.{append-nil, append_assoc, take-all, ==_iff}
use wdt.Common.{
  Bool, true, false, Option, some, List, [], ◌∷◌, ◌++◌, All, length, take, map, replicate,
  length-replicate, if◌then◌else◌, Bool-cases, ◌==◌,
}
use wdt.Common.Int.{ℤ, pos, ◌≤ℤ◌, leb_ℤ, ltb_ℤ}
use wdt.Common.SortedMap.{Map}
use wdt.ErrorCodes.{ErrorCode, ok_code, invalid_log, inconsistent_directory, code}
use wdt.Wire.Types.{Status, Buffer}
use wdt.Serial.{FixedInt, FixedIntLaws}
use wdt.Varint.Encode.{IsCount}
use wdt.Protocol.{FileChunksInfo, Interval}
use wdt.Protocol.Chunks.{merge_chunks}
use wdt.Protocol.Chunks.Coverage.{
  Sorts, IsChunk, IsApart, covered, covered-merge_chunks, merge_chunks_keeps, ◌<ℤ◌,
}
use wdt.TransferLog.{Parser, ParserConfig, Disk, max_entry_length}
use wdt.TransferLog.Codec.{encode_file_invalidation_entry}
use wdt.TransferLog.Parse.Frames.{frame, frames, length-frame}
use wdt.TransferLog.{entry_code, file_invalidation}
use wdt.TransferLog.Codec.Logged.{file_invalidated, payload, encode_logged-IsFramed}
use wdt.TransferLog.Codec.Lengths.{length-payload_invalidated}
use wdt.TransferLog.Entries.WellFormed.{IsWellFormed, IsOnDisk, IsWithin}
use wdt.TransferLog.Parse.{
  Scan, returned, ended, crashed, out_of_fuel, scan, parse_log, Parsed, new_parser, after_scan,
  stopped, truncate_extra_bytes_at_end, write_entry, write_rest, write_file_invalidation_entries,
  merged_chunks, close_scan, truncated,
}
use wdt.TransferLog.Parse.Safe.{GoesOn, IsScanned, scan-IsScanned, empty-IsWellFormed}

-- What is known of a file whose chunks are given: its size is that on the disk, and the chunks are in
-- order, apart from one another, and cover offsets of the file only.
pub record IsRestorable (d : Disk) (c : ParserConfig) (info : FileChunksInfo) : Type 0 where
  pub sized : d.stat (c.root_dir ++ info.file_name) ≡ some info.file_size
  pub apart : IsApart info.chunks
  pub inside : (x : ℤ) → covered x info.chunks ≡ true → (pos 0 ≤ℤ x) × (x <ℤ info.file_size)

-- `std::sort` sorts chunks that start at no negative offset.
abbrev pub IsSorting : (List Interval → List Interval) → Type 0
IsSorting sort = (cs : List Interval) → All (λ (k : Interval). pos 0 ≤ℤ k.start) cs → Sorts sort cs

covered-within :
    (size x : ℤ) (cs : List Interval)
    → All (IsWithin size) cs
    → covered x cs ≡ true
    → (pos 0 ≤ℤ x) × (x <ℤ size)
covered-within size x [] h e = absurd (cc)
covered-within size x (k ∷ cs) h e = elim (Bool-cases (leb_ℤ k.start x && ltb_ℤ x k.stop)) [
  | inl here ↦ ground arith
  | inr other ↦ covered-within size x cs h.1 (rw other at e)
]

module _ (f : FixedInt) (laws : FixedIntLaws f) (d : Disk) where
  -- The write of an entry that its encoder framed.
  pub write_entry-IsFramed :
      (now : ℤ) (e : ℕ × List ℕ) (r : Status × Buffer) (log : List ℕ)
      → r.0 ≡ Status.done
      → r.1.off ≡ length e.1 + 3
      → take (length e.1 + 3) r.1.dest ≡ frame f e
      → write_entry f d now r log
        ≡ some (
          d.accepted (frame f e) == length (frame f e),
          log ++ take (d.accepted (frame f e)) (frame f e),
        )
  write_entry-IsFramed now e (status, b) log done size bytes =
      let whole : take b.off b.dest ≡ frame f e = rw size bytes in
      let same : b.off ≡ length (frame f e) = size ∙ sym (length-frame f laws e) in
      rw (done, whole, same) refl

module _ (f : FixedInt) (laws : FixedIntLaws f) (d : Disk) (c : ParserConfig) where
  module _ (sort : List Interval → List Interval) (sorting : IsSorting sort) where
    restorable :
        (info : FileChunksInfo) → IsOnDisk d c info → IsRestorable d c (merge_chunks sort info)
    restorable info on = record {
      sized = rw ((merge_chunks_keeps sort info).0, (merge_chunks_keeps sort info).1) on.sized;
      apart = (merged (pos 0)).0;
      inside = λ x e. rw (merge_chunks_keeps sort info).1 (in_file x e);
    }
      where
        starts :
            (cs : List Interval)
            → All (IsWithin info.file_size) cs
            → All (λ (k : Interval). pos 0 ≤ℤ k.start) cs
        starts [] h = tt
        starts (k ∷ cs) h = (h.0.0, starts cs h.1)

        chunks : (cs : List Interval) → All (IsWithin info.file_size) cs → All IsChunk cs
        chunks [] h = tt
        chunks (k ∷ cs) h = (h.0.1, chunks cs h.1)

        merged :
            (x : ℤ)
            → IsApart (merge_chunks sort info).chunks
              × (covered x (merge_chunks sort info).chunks ≡ covered x info.chunks)
        merged x =
            covered-merge_chunks sort info x (sorting info.chunks (starts info.chunks on.within))
              (chunks info.chunks on.within)

        in_file :
            (x : ℤ)
            → covered x (merge_chunks sort info).chunks ≡ true
            → (pos 0 ≤ℤ x) × (x <ℤ info.file_size)
        in_file x e = covered-within info.file_size x info.chunks on.within (sym (merged x).1 ∙ e)

    All-IsRestorable :
        (m : Map FileChunksInfo)
        → All (λ (x : ℤ × FileChunksInfo). IsOnDisk d c x.1) m
        → All (IsRestorable d c) (merged_chunks f d c sort m)
    All-IsRestorable [] h = tt
    All-IsRestorable (x ∷ m) h = (restorable x.1 h.0, All-IsRestorable m h.1)

  -- The entry for an invalid seq-id.
  abbrev pub invalidated : ℤ → ℤ × Unit {0} → ℕ × List ℕ
  invalidated now (k, u) = (entry_code file_invalidation, payload (file_invalidated now k))

  -- The entries for the invalid seq-ids are written, all of them where every write is whole.
  pub write_entries_lem :
      (now : ℤ) (ids : Map (Unit {0})) (log : List ℕ)
      → IsCount now
      → All (λ (x : ℤ × Unit {0}). IsCount x.0) ids
      → (b : Bool) × (log' : List ℕ) × (write_file_invalidation_entries f d now ids log
          ≡ some (b, log'))
        × (b ≡ true → log' ≡ log ++ frames f (map (invalidated now) ids))
  unfolding write_file_invalidation_entries
  write_entries_lem now [] log hn h = (true, log, refl, λ e. sym (append-nil log))
  write_entries_lem now ((k, u) ∷ ids) log hn h =
      elim (Bool-cases (d.accepted bytes == length bytes)) [
        | inl all ↦
            let (b, log', e, g) = write_entries_lem now ids (log ++ bytes) hn h.1 in
            (
              b,
              log',
              ap (write_rest f d now rest) step ∙ rw (all, take_whole all) e,
              λ x. g x ∙ append_assoc log bytes _,
            )
        | inr part ↦ (
          false,
          log ++ take (d.accepted bytes) bytes,
          ap (write_rest f d now rest) step ∙ rw part refl,
          λ x. absurd (cc),
        )
      ]
    where
      e₀ : ℕ × List ℕ
      e₀ = invalidated now (k, u)

      bytes : List ℕ
      bytes = frame f e₀

      rest : List ℕ → Option (Bool × List ℕ)
      rest = write_file_invalidation_entries f d now ids

      step :
          write_entry f d now
            (encode_file_invalidation_entry f now max_entry_length (replicate max_entry_length 0) k)
            log
          ≡ some (d.accepted bytes == length bytes, log ++ take (d.accepted bytes) bytes)
      step =
          let size : length (replicate {A = ℕ} max_entry_length 0) ≡ max_entry_length =
            length-replicate {A = ℕ} max_entry_length 0 in
          let (done, off, front) =
            encode_logged-IsFramed f laws max_entry_length (omega arith) (file_invalidated now k)
              (replicate max_entry_length 0) (hn, h.0) (omega (arith, size))
              (omega (arith, length-payload_invalidated now k)) in
          write_entry-IsFramed f laws d now e₀ _ log done off front

      take_whole : (d.accepted bytes == length bytes) ≡ true → take (d.accepted bytes) bytes ≡ bytes
      take_whole all =
          take-all (d.accepted bytes) bytes
            (omega (arith, (==_iff (d.accepted bytes) (length bytes)).0 all))

module _ (f : FixedInt) (laws : FixedIntLaws f) (d : Disk) (c : ParserConfig)
    (sort : List Interval → List Interval) (sorting : IsSorting sort) where
  -- Parsing ends with one of its three results, and with chunks that fit the files on the disk.
  abbrev HasResult : Option Parsed → Type 0
  HasResult o =
      (r : Parsed) × (o ≡ some r)
      × ((r.status ≡ ok_code)
          ⊎ ((r.status ≡ inconsistent_directory) × (r.chunks ≡ []))
          ⊎ (r.status ≡ invalid_log))
      × All (IsRestorable d c) r.chunks

  HasResult-invalid :
      (p : Parser) (log : List ℕ) → HasResult (some (stopped f d c sort invalid_log p log))
  HasResult-invalid p log = (stopped f d c sort invalid_log p log, refl, inr (inr refl), tt)

  module _ (now : ℤ) (hn : IsCount now) where
    HasResult-close :
        (status : ErrorCode) (p : Parser) (log : List ℕ)
        → GoesOn status
        → IsWellFormed d c p
        → HasResult (close_scan f d c sort now status p log)
    unfolding code
    HasResult-close status p log (inl e) w =
        let (b, log', g, whole) =
          write_entries_lem f laws d c now p.invalid_seq_ids log hn w.counts in
        let chunks = merged_chunks f d c sort p.file_info in
        let r : Parsed = record {
          status = if b then ok_code else invalid_log;
          log = log';
          sender_ip = p.sender_ip;
          chunks = chunks;
        } in
        rw (e, g)
          (r, refl, by_write b, All-IsRestorable f laws d c sort sorting p.file_info w.files)
      where
        by_write :
            (b : Bool)
            → ((if b then ok_code else invalid_log) ≡ ok_code)
              ⊎ (((if b then ok_code else invalid_log) ≡ inconsistent_directory)
                  × (merged_chunks f d c sort p.file_info ≡ []))
              ⊎ ((if b then ok_code else invalid_log) ≡ invalid_log)
        by_write true = inl refl
        by_write false = inr (inr refl)
    HasResult-close status p log (inr e) w =
        rw e (stopped f d c sort inconsistent_directory p log, refl, inr (inl (refl, refl)), tt)

    HasResult-after :
        (log : List ℕ) (s : Scan) → IsScanned d c s → HasResult (after_scan f d c sort now log s)
    unfolding truncate_extra_bytes_at_end
    HasResult-after log (returned p) h = HasResult-invalid p log
    HasResult-after log (ended status p n) (g, w) = by_end (n == 0) c.parse_only d.can_truncate
      where
        closed : (l : List ℕ) → HasResult (close_scan f d c sort now status p l)
        closed l = HasResult-close status p l g w

        by_end :
            (none_left only can : Bool)
            → HasResult (
                let kept = close_scan f d c sort now status p log in
                if none_left
                then kept
                else if only
                then kept
                else truncated f d c sort now status p
                    (if can then (true, take (length log - n) log) else (false, log)))
        by_end true only can = closed log
        by_end false true can = closed log
        by_end false false true = closed (take (length log - n) log)
        by_end false false false = HasResult-invalid p log
    HasResult-after log crashed h = absurd h
    HasResult-after log out_of_fuel h = absurd h

    -- For any bytes of a log, `parseLog` returns, with no failed WDT_CHECK: that the log is valid,
    -- that the directory is not and no chunks, or that the log is invalid. For each file whose chunks
    -- are given, the size is that of the file on the disk, and the chunks are in order with gaps
    -- between them and cover no offset outside of the file. The time is not negative, `std::sort`
    -- sorts, and the end of a block is the sum of its offset and its size without overflow.
    pub parse_log_returns :
        (sender_ip log : List ℕ)
        → (r : Parsed) × (parse_log f d c sort now sender_ip log ≡ some r)
          × ((r.status ≡ ok_code)
              ⊎ ((r.status ≡ inconsistent_directory) × (r.chunks ≡ []))
              ⊎ (r.status ≡ invalid_log))
          × All (IsRestorable d c) r.chunks
    unfolding parse_log
    parse_log_returns sender_ip log =
        HasResult-after log (scan f d c (suc (length log)) 0 log ok_code (new_parser sender_ip)) (
          scan-IsScanned f d c (suc (length log)) 0 log ok_code (new_parser sender_ip) (omega arith)
            (inl refl) (empty-IsWellFormed d c false sender_ip))
