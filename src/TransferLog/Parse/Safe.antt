-- ===== src/TransferLog/Parse/Safe.antt =====
-- LogParser::parseLog on any bytes: it returns, no WDT_CHECK fails, and the chunks that it gives are
-- within the files on the disk.
use wdt.Common.{ℕ, zero, suc, ◌+◌, ◌≤◌, ◌<◌, ◌≡◌, refl, ◌⊎◌, inl, inr, arith, not, ◌&&◌}
use wdt.Common.{Bool, false, Option, some, List, [], length, Bool-cases}
use wdt.Common.SortedMap.{find}
use wdt.ErrorCodes.{ErrorCode, ok_code, invalid_log, inconsistent_directory, code}
use wdt.Serial.{FixedInt}
use wdt.TransferLog.{Parser, ParserConfig, Disk, EntryType, to_entry_type}
use wdt.TransferLog.Entries.{process_entry}
use wdt.TransferLog.Entries.WellFormed.{IsWellFormed, IsSafe, good, invalid, inconsistent}
use wdt.TransferLog.Entries.Safe.{process_entry-IsSafe}
use wdt.TransferLog.Parse.{
  Chunk, eof, extra, bad, entry, Scan, returned, ended, crashed, out_of_fuel, scan, round,
  next_round, read_chunk, handle_entry, after_entry, same_code, is_header,
}
use wdt.TransferLog.Parse.Frames.{IsShorter, read_chunk-IsShorter}

-- The status with which the loop goes on.
abbrev pub GoesOn : ErrorCode → Type 0
GoesOn status = (status ≡ ok_code) ⊎ (status ≡ inconsistent_directory)

-- How a round ends.
data IsHandled (d : Disk) (c : ParserConfig) (r : Option (ErrorCode × Parser)) : Type 0 where
  goes_on :
      {status : ErrorCode} {p : Parser}
      → r ≡ some (status, p)
      → GoesOn status
      → IsWellFormed d c p
      → IsHandled d c r
  stops : {p : Parser} → r ≡ some (invalid_log, p) → IsHandled d c r

abbrev pub IsScanned : Disk → ParserConfig → Scan → Type 0
IsScanned d c (returned p) = Unit
IsScanned d c (ended status p n) = GoesOn status × IsWellFormed d c p
IsScanned d c crashed = ⊥
IsScanned d c out_of_fuel = ⊥

module _ (d : Disk) (c : ParserConfig) where
  -- With nothing parsed.
  pub empty-IsWellFormed :
      (header_parsed : Bool) (sender_ip : List ℕ)
      → IsWellFormed d c (record {
        header_parsed = header_parsed;
        file_info = [];
        seq_id_to_size = [];
        invalid_seq_ids = [];
        sender_ip = sender_ip;
      })
  unfolding find
  empty-IsWellFormed header_parsed sender_ip = record {
    sizes = λ k e. e;
    apart = λ k e. refl;
    files = tt;
    counts = tt;
    distinct = tt;
    fixable = inl refl;
  }

  after_entry-IsHandled :
      (r : Option (ErrorCode × Parser)) → IsSafe d c r → IsHandled d c (after_entry d c r)
  unfolding code
  after_entry-IsHandled r (good e w) = rw e (goes_on refl (inl refl) w)
  after_entry-IsHandled r (invalid e) = rw e (stops refl)
  after_entry-IsHandled r (inconsistent {p} e) =
      rw e (goes_on refl (inr refl) (empty-IsWellFormed p.header_parsed p.sender_ip))

  handle_entry-IsHandled :
      (status : ErrorCode) (type : EntryType) (payload : List ℕ) (p : Parser)
      → GoesOn status
      → IsWellFormed d c p
      → IsHandled d c (handle_entry d c status type payload p)
  unfolding handle_entry
  handle_entry-IsHandled status type payload p g w =
      elim (Bool-cases (same_code status inconsistent_directory && not (is_header type))) [
        | inl skip ↦ rw skip (goes_on refl g w)
        | inr read ↦ rw read (
            after_entry-IsHandled (process_entry d c type payload p)
              (process_entry-IsSafe d c type payload p w))
      ]

  GoesOn-same_code : (status : ErrorCode) → GoesOn status → same_code status invalid_log ≡ false
  unfolding code
  GoesOn-same_code status (inl e) = rw e refl
  GoesOn-same_code status (inr e) = rw e refl

  next_round-IsScanned :
      (loop : ℕ → List ℕ → ErrorCode → Parser → Scan) (i : ℕ) (rest : List ℕ)
      (r : Option (ErrorCode × Parser))
      → IsHandled d c r
      → ((s : ErrorCode) (p : Parser)
          → GoesOn s
          → IsWellFormed d c p
          → IsScanned d c (loop i rest s p))
      → IsScanned d c (next_round loop i rest r)
  next_round-IsScanned loop i rest r (goes_on {status} {p} e g w) later =
      rw (e, GoesOn-same_code status g) (later status p g w)
  next_round-IsScanned loop i rest r (stops e) later = rw e (unfold code in tt)

module _ (f : FixedInt) (d : Disk) (c : ParserConfig) where
  round-IsScanned :
      (loop : ℕ → List ℕ → ErrorCode → Parser → Scan) (n i : ℕ) (status : ErrorCode) (p : Parser)
      (k : Chunk)
      → IsShorter n k
      → GoesOn status
      → IsWellFormed d c p
      → ((j : ℕ) (rest : List ℕ) (s : ErrorCode) (q : Parser)
          → length rest + 3 ≤ n
          → GoesOn s
          → IsWellFormed d c q
          → IsScanned d c (loop j rest s q))
      → IsScanned d c (round d c loop i status p k)
  round-IsScanned loop n i status p eof h g w later = (g, w)
  round-IsScanned loop n i status p (extra k) h g w later = (g, w)
  round-IsScanned loop n i status p bad h g w later = tt
  round-IsScanned loop n i status p (entry type payload rest) h g w later =
      next_round-IsScanned d c loop (i + length payload + 3) rest
        (handle_entry d c status (to_entry_type type) payload p)
        (handle_entry-IsHandled d c status (to_entry_type type) payload p g w)
        (λ s q. later (i + length payload + 3) rest s q (omega arith))

  pub scan-IsScanned :
      (fuel i : ℕ) (log : List ℕ) (status : ErrorCode) (p : Parser)
      → length log < fuel
      → GoesOn status
      → IsWellFormed d c p
      → IsScanned d c (scan f d c fuel i log status p)
  unfolding scan
  scan-IsScanned zero i log status p le g w = absurd (omega arith)
  scan-IsScanned (suc fuel) i log status p le g w =
      round-IsScanned (scan f d c fuel) (length log) i status p (read_chunk f d i log)
        (read_chunk-IsShorter f d i log) g w
        (λ j rest s q h. scan-IsScanned fuel j rest s q (omega arith))
