-- ===== src/TransferLog/Manager/Resumed.antt =====
-- The log that the manager of one transfer leaves, as the parser of the next one finds it.
use wdt.Common.{ℕ, ◌≡◌, refl, sym, ap, ◌∙◌, arith}
use wdt.Common.{true, false, List, [], ◌∷◌, ◌++◌, append_assoc, map, All, All-append}
use mathlib.Core.List.{map-append}
use wdt.Common.Int.{ℤ}
use wdt.ErrorCodes.{ok_code}
use wdt.Serial.{FixedInt, FixedIntLaws}
use wdt.Protocol.{Interval}
use wdt.TransferLog.{ParserConfig, Disk}
use wdt.TransferLog.Codec.Logged.{LogEntry, logged}
use wdt.TransferLog.Parse.{parse_log, after_scan, new_parser}
use wdt.TransferLog.Parse.Frames.{frames, frame}
use wdt.TransferLog.Parse.Replay.{IsShort, replay, parse_log-replay}
use wdt.TransferLog.Manager.{Manager, LogOptions, close_log, runs}
use wdt.TransferLog.Manager.Writer.{WritesWhole, Adds, here, adds, writes, close_log-Adds}

frames-frames :
    (f : FixedInt) (xs ys : List (ℕ × List ℕ)) → frames f xs ++ frames f ys ≡ frames f (xs ++ ys)
frames-frames f [] ys = refl
frames-frames f (x ∷ xs) ys =
    append_assoc (frame f x) (frames f xs) (frames f ys)
    ∙ ap (◌++◌ (frame f x)) (frames-frames f xs ys)

module _ (f : FixedInt) (laws : FixedIntLaws f) (d : Disk) (o : LogOptions) where
  Adds-IsShort :
      (m : Manager) {es : List LogEntry} {m' : Manager} → Adds f laws d o m es m' → All IsShort es
  Adds-IsShort m here = tt
  Adds-IsShort m (adds {es} e a v fits g last) =
      rw last (All-append IsShort es (e ∷ []) (Adds-IsShort m a) ((v, omega arith), tt))
  Adds-IsShort m (writes a running) = Adds-IsShort m a

  -- The log of a manager that was opened on a log of whole entries, after any calls that add entries,
  -- any rounds of the writer thread between them, and the closing of the log, is parsed by handling
  -- the earlier entries and then the added ones, in the order in which they were added, each once:
  -- where reads succeed, every write is whole, and the resumption is log-based.
  pub parse_log-close_log :
      (c : ParserConfig) (sort : List Interval → List Interval) (now : ℤ) (sender_ip : List ℕ)
      (m m' : Manager) (before es : List LogEntry)
      → ((n : ℕ) → d.read_error n ≡ false)
      → WritesWhole d
      → o.resume_using_dir_tree ≡ false
      → All IsShort before
      → m.log ≡ frames f (map logged before)
      → m.is_open ≡ true
      → m.header_written ≡ true
      → m.entries ≡ []
      → Adds f laws d o m es m'
      → m'.writer_thread ≡ runs
      → parse_log f d c sort now sender_ip (close_log d o m').log
        ≡ after_scan f d c sort now
            (close_log d o m').log
            (replay d c (before ++ es) ok_code (new_parser sender_ip))
  parse_log-close_log c sort now sender_ip m m' before es reads whole tree short log op hd none_left
        a running =
      let left : (close_log d o m').log ≡ frames f (map logged (before ++ es)) =
        (close_log-Adds f laws d o m m' es whole tree op hd none_left a running).0
        ∙ ap (λ (l : List ℕ). l ++ frames f (map logged es)) log
        ∙ frames-frames f (map logged before) (map logged es)
        ∙ ap (frames f) (sym (map-append logged before es)) in
      rw left (
        parse_log-replay f laws d reads c sort now sender_ip (before ++ es)
          (All-append IsShort before es short (Adds-IsShort m a)))
