-- ===== src/TransferLog/Manager/Faults.antt =====
-- TransferLogManager where a write fails, or an entry does not fit its buffer.
use wdt.Common.{ℕ, ◌+◌, ◌≤◌, ◌<◌, ◌≡◌, refl, ap, ◌∙◌, arith}
use wdt.Common.{
  Bool, true, false, none, some, List, [], ◌∷◌, ◌++◌, length, take, length-replicate, if◌then◌else◌,
  ◌==◌,
}
use wdt.Common.Int.{ℤ}
use wdt.ErrorCodes.{ok_code, inconsistent_directory}
use wdt.Wire.Types.{Status, Buffer}
use wdt.Serial.{FixedInt, FixedIntLaws}
use wdt.Varint.Encode.{IsCount}
use wdt.TransferLog.{Disk, max_entry_length}
use wdt.TransferLog.Codec.{encode_directory_invalidation_entry}
use wdt.TransferLog.Codec.Logged.{
  file_created, directory_invalidated, encode_logged-IsFramed, logged,
}
use wdt.TransferLog.Codec.Lengths.{
  length-payload_created, length-payload_directory, encode_log_header-refused,
}
use wdt.TransferLog.Parse.{write_entry}
use wdt.TransferLog.Parse.Frames.{frame, length-frame}
use wdt.TransferLog.Parse.Returned.{write_entry-IsFramed}
use wdt.TransferLog.Manager.{
  Manager, LogOptions, buffer, close_log, fsync_log, invalidate_directory, write_log_header,
  add_file_creation_entry, shutdown_thread, written_or, header_done,
}
use wdt.TransferLog.Manager.Writer.{framed_back, passes}

size-buffer : length buffer ≡ max_entry_length
size-buffer = length-replicate {A = ℕ} max_entry_length 0

module _ (f : FixedInt) (laws : FixedIntLaws f) (d : Disk) (o : LogOptions) (now : ℤ)
    (hn : IsCount now) where
  -- For a file with a name of at most PATH_MAX bytes, on a log that is open with its header written,
  -- the entry fits the buffer and is appended to the entries as it is framed.
  pub add_file_creation_entry_lem :
      (m : Manager) (file_name : List ℕ) (seq_id file_size : ℤ)
      → length file_name ≤ 4096
      → IsCount seq_id
      → IsCount file_size
      → m.is_open ≡ true
      → m.header_written ≡ true
      → add_file_creation_entry f d o now file_name seq_id file_size m
        ≡ some (record m {
          entries =
              m.entries ++ frame f (logged (file_created now file_name seq_id file_size)) ∷ [];
        })
  unfolding add_file_creation_entry
  add_file_creation_entry_lem m file_name seq_id file_size h hs hz op hd =
      passes f laws d o m.is_open m.header_written _ _ op hd
      ∙ framed_back f laws d o m (file_created now file_name seq_id file_size)
          (hn, omega arith, hs, hz) (length-payload_created now file_name seq_id file_size h)

  -- The tests.
  opened {ℓ} : {A : Type ℓ} (a : Bool) (x y : A) → a ≡ true → (if a then x else y) ≡ x
  opened true x y h = refl
  opened false x y h = absurd (cc)

  shut {ℓ} : {A : Type ℓ} (a : Bool) (x y : A) → a ≡ false → (if a then x else y) ≡ y
  shut true x y h = absurd (cc)
  shut false x y h = refl

  -- No log is open behind `closeLog`.
  fsync_log-close_log : (m : Manager) → fsync_log (close_log d o m) ≡ none
  unfolding fsync_log close_log
  fsync_log-close_log m =
      by_open m.is_open (if o.resume_using_dir_tree then m else shutdown_thread d m) m refl
    where
      by_open :
          (a : Bool) (y x : Manager)
          → x.is_open ≡ a
          → fsync_log (if a then record y { is_open = false } else x) ≡ none
      by_open true y x h = refl
      by_open false y x h = shut x.is_open (some x) none h

  -- The log is closed where a write of the entry is not whole, and the call of `fsyncLog` that
  -- follows ends the process: `invalidateDirectory` fails the check on the descriptor.
  pub invalidate_directory_fails :
      (m : Manager)
      → m.is_open ≡ true
      → ((bytes : List ℕ) → 0 < length bytes → d.accepted bytes < length bytes)
      → invalidate_directory f d o now m ≡ none
  unfolding invalidate_directory
  invalidate_directory_fails m op short =
      opened m.is_open _ _ op
      ∙ ap (written_or f d o now (λ x. fsync_log (close_log d o x)) fsync_log m') write
      ∙ ap
          (λ (b : Bool).
            written_or f d o now (λ x. fsync_log (close_log d o x)) fsync_log m' (some (b, log)))
          failed
      ∙ fsync_log-close_log (record m' { log = log })
    where
      m' : Manager
      m' = record m { resumption_status = inconsistent_directory }

      entry : ℕ × List ℕ
      entry = logged (directory_invalidated now)

      bytes : List ℕ
      bytes = frame f entry

      log : List ℕ
      log = m.log ++ take (d.accepted bytes) bytes

      write :
          write_entry f d now
            (encode_directory_invalidation_entry f now max_entry_length buffer)
            m.log
          ≡ some (d.accepted bytes == length bytes, log)
      write =
          let (done, off, front) =
            encode_logged-IsFramed f laws max_entry_length (omega arith) (directory_invalidated now)
              buffer hn (omega (arith, size-buffer))
              (omega (arith, length-payload_directory now)) in
          write_entry-IsFramed f laws d now entry _ m.log done off front

      not_whole : d.accepted bytes < length bytes → (d.accepted bytes == length bytes) ≡ false
      not_whole h = ground arith

      failed : (d.accepted bytes == length bytes) ≡ false
      failed = not_whole (short bytes (omega (arith, length-frame f laws entry)))

  -- A recovery-id and a sender address of 4,129 bytes together: the header does not fit its buffer,
  -- and `writeLogHeader` reports a valid directory and a header with nothing written to the log.
  pub write_log_header_too_long :
      (m : Manager)
      → m.is_open ≡ true
      → IsCount m.config
      → max_entry_length ≤ length m.recovery_id + length m.sender_ip
      → write_log_header f d o now m
        ≡ some (record m { resumption_status = ok_code; header_written = true })
  unfolding write_log_header fsync_log
  write_log_header_too_long m op hc long =
      opened m.is_open _ _ op
      ∙ by_status _ (
          encode_log_header-refused f now buffer m.recovery_id m.sender_ip m.config hn hc
            (omega (arith, size-buffer)) long)
    where
      opened_done :
          m.is_open ≡ true
          → header_done f d o now (fsync_log (record m { log = m.log }))
            ≡ some (record m { resumption_status = ok_code; header_written = true })
      opened_done h = ap (header_done f d o now) (opened m.is_open (some m) none h)

      by_status :
          (r : Status × Buffer)
          → r.0 ≡ Status.refused
          → written_or f d o now
              (λ x. some (close_log d o x))
              (λ x. header_done f d o now (fsync_log x))
              m
              (write_entry f d now r m.log)
            ≡ some (record m { resumption_status = ok_code; header_written = true })
      by_status (Status.refused, b) h = opened_done op
      by_status (Status.done, b) h = absurd (cc)
      by_status (Status.crashed, b) h = absurd (cc)
