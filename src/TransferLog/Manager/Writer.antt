-- ===== src/TransferLog/Manager/Writer.antt =====
-- What the writer thread of TransferLogManager leaves in the log, however its rounds fall between the
-- calls of the threads that add entries.
use wdt.Common.{ℕ, ◌+◌, ◌≤◌, ◌≡◌, refl, sym, ap, ◌∙◌, arith, not, ◌||◌}
use wdt.Common.{
  Bool, true, false, Option, none, some, List, [], ◌∷◌, ◌++◌, append-nil, append_assoc, map,
}
use wdt.Common.{length, take, take-all, length-replicate, if◌then◌else◌, ◌==◌}
use wdt.Wire.Types.{Status, Buffer}
use wdt.Serial.{FixedInt, FixedIntLaws}
use wdt.TransferLog.{Disk, max_entry_length}
use wdt.TransferLog.Codec.Logged.{
  LogEntry, started, file_created, block_written, file_resized, file_invalidated,
  directory_invalidated, payload, IsLoggable, IsFramed, encode_logged, encode_logged-IsFramed,
  logged,
}
use wdt.TransferLog.Parse.Frames.{frame, frames}
use wdt.TransferLog.Entries.{is_empty}
use wdt.TransferLog.Manager.{
  Manager, LogOptions, concat, buffer, writer_round, write_entries_to_disk_no_lock, emplace_back,
  add_file_creation_entry, add_block_write_entry, add_file_resize_entry,
  add_file_invalidation_entry, close_log, shutdown_thread, joined, runs, not_started,
}

-- Every write is whole.
abbrev pub WritesWhole : Disk → Type 0
WritesWhole d = (bytes : List ℕ) → d.accepted bytes ≡ length bytes

concat-append : (xs : List (List ℕ)) (y : List ℕ) → concat (xs ++ y ∷ []) ≡ concat xs ++ y
concat-append [] y = append-nil y
concat-append (x ∷ xs) y = ap (◌++◌ x) (concat-append xs y) ∙ sym (append_assoc x (concat xs) y)

frames-append :
    (f : FixedInt) (xs : List (ℕ × List ℕ)) (y : ℕ × List ℕ)
    → frames f (xs ++ y ∷ []) ≡ frames f xs ++ frame f y
frames-append f [] y = append-nil (frame f y)
frames-append f (x ∷ xs) y =
    ap (◌++◌ (frame f x)) (frames-append f xs y)
    ∙ sym (append_assoc (frame f x) (frames f xs) (frame f y))

map-snoc :
    (es : List LogEntry) (e : LogEntry) → map logged (es ++ e ∷ []) ≡ map logged es ++ logged e ∷ []
map-snoc [] e = refl
map-snoc (x ∷ es) e = ap (◌∷◌ (logged x)) (map-snoc es e)

module _ (f : FixedInt) (laws : FixedIntLaws f) (d : Disk) (o : LogOptions) where
  -- The call that adds the entry.
  abbrev pub add_entry : LogEntry → Manager → Option Manager
  add_entry (started now recovery_id sender_ip config) m = none
  add_entry (file_created now file_name seq_id file_size) m =
      add_file_creation_entry f d o now file_name seq_id file_size m
  add_entry (block_written now seq_id offset block_size) m =
      add_block_write_entry f d o now seq_id offset block_size m
  add_entry (file_resized now seq_id file_size) m =
      add_file_resize_entry f d o now seq_id file_size m
  add_entry (file_invalidated now seq_id) m = add_file_invalidation_entry f d o now seq_id m
  add_entry (directory_invalidated now) m = none

  -- The manager behind calls that added these entries, with rounds of the writer thread anywhere
  -- between.
  pub data Adds (m : Manager) : List LogEntry → Manager → Type 0 where
    here : Adds m [] m
    adds :
        {es es' : List LogEntry} {m' m'' : Manager} (e : LogEntry)
        → Adds m es m'
        → IsLoggable e
        → length (payload e) + 3 ≤ max_entry_length
        → add_entry e m' ≡ some m''
        → es' ≡ es ++ e ∷ []
        → Adds m es' m''
    writes :
        {es : List LogEntry} {m' : Manager}
        → Adds m es m'
        → m'.writer_thread ≡ runs
        → Adds m es (writer_round d m')

  emplace_back-framed :
      (e : LogEntry) (r : Status × Buffer) (m : Manager)
      → IsFramed f e r
      → emplace_back r m ≡ some (record m { entries = m.entries ++ frame f (logged e) ∷ [] })
  emplace_back-framed e (status, b) m (done, off, bytes) =
      let whole : take b.off b.dest ≡ frame f (logged e) = rw off bytes in rw (done, whole) refl

  -- The entry encoded into the buffer of a call, and its bytes put behind the entries.
  pub framed_back :
      (m : Manager) (e : LogEntry)
      → IsLoggable e
      → length (payload e) + 3 ≤ max_entry_length
      → emplace_back (encode_logged f max_entry_length buffer e) m
        ≡ some (record m { entries = m.entries ++ frame f (logged e) ∷ [] })
  framed_back m e v fits =
      let size : length buffer ≡ max_entry_length = length-replicate {A = ℕ} max_entry_length 0 in
      emplace_back-framed e (encode_logged f max_entry_length buffer e) m (
        encode_logged-IsFramed f laws max_entry_length (omega arith) e buffer v
          (omega (arith, size)) fits)

  framed :
      (m m' : Manager) (e : LogEntry)
      → IsLoggable e
      → length (payload e) + 3 ≤ max_entry_length
      → emplace_back (encode_logged f max_entry_length buffer e) m ≡ some m'
      → m' ≡ record m { entries = m.entries ++ frame f (logged e) ∷ [] }
  framed m m' e v fits g = some_eq (sym g ∙ framed_back m e v fits)
    where
      some_eq : {x y : Manager} → some x ≡ some y → x ≡ y
      some_eq h = cc

  -- The tests ahead of a call that adds.
  pub passes :
      (a b : Bool) (x y : Option Manager)
      → a ≡ true
      → b ≡ true
      → (if not a || not b then x else y) ≡ y
  passes true true x y h k = refl
  passes true false x y h k = absurd (cc)
  passes false b x y h k = absurd (cc)

  opens : (a : Bool) (x y : Option Manager) → a ≡ true → (if not a then x else y) ≡ y
  opens true x y h = refl
  opens false x y h = absurd (cc)

  -- What a call adds, and that it leaves the rest alone.
  add_entry_lem :
      (e : LogEntry) (m m' : Manager)
      → IsLoggable e
      → length (payload e) + 3 ≤ max_entry_length
      → m.is_open ≡ true
      → m.header_written ≡ true
      → add_entry e m ≡ some m'
      → m' ≡ record m { entries = m.entries ++ frame f (logged e) ∷ [] }
  unfolding add_file_creation_entry add_block_write_entry add_file_resize_entry
      add_file_invalidation_entry
  add_entry_lem (started now recovery_id sender_ip config) m m' v fits o_open o_header g = cc g
  add_entry_lem (directory_invalidated now) m m' v fits o_open o_header g = cc g
  add_entry_lem (file_created now file_name seq_id file_size) m m' v fits o_open o_header g =
      framed m m' (file_created now file_name seq_id file_size) v fits
        (sym (passes m.is_open m.header_written _ _ o_open o_header) ∙ g)
  add_entry_lem (block_written now seq_id offset block_size) m m' v fits o_open o_header g =
      framed m m' (block_written now seq_id offset block_size) v fits
        (sym (passes m.is_open m.header_written _ _ o_open o_header) ∙ g)
  add_entry_lem (file_resized now seq_id file_size) m m' v fits o_open o_header g =
      framed m m' (file_resized now seq_id file_size) v fits
        (sym (passes m.is_open m.header_written _ _ o_open o_header) ∙ g)
  add_entry_lem (file_invalidated now seq_id) m m' v fits o_open o_header g =
      framed m m' (file_invalidated now seq_id) v fits (sym (opens m.is_open _ _ o_open) ∙ g)

  write_entries_whole :
      (es : List (List ℕ)) (log : List ℕ)
      → WritesWhole d
      → (write_entries_to_disk_no_lock d es log).1 ≡ log ++ concat es
  unfolding write_entries_to_disk_no_lock
  write_entries_whole es log whole = by_bytes (concat es)
    where
      written : List ℕ → Bool × List ℕ
      written bytes =
          if is_empty bytes
          then (true, log)
          else (d.accepted bytes == length bytes, log ++ take (d.accepted bytes) bytes)

      by_bytes : (bytes : List ℕ) → (written bytes).1 ≡ log ++ bytes
      by_bytes [] = sym (append-nil log)
      by_bytes (x ∷ bytes) =
          let all : length (x ∷ bytes) ≤ d.accepted (x ∷ bytes) =
            omega (arith, whole (x ∷ bytes)) in
          ap (◌++◌ log) (take-all (d.accepted (x ∷ bytes)) (x ∷ bytes) all)

  -- A round of the writer thread.
  writer_round_lem :
      (m : Manager)
      → WritesWhole d
      → ((writer_round d m).log ++ concat (writer_round d m).entries ≡ m.log ++ concat m.entries)
        × ((writer_round d m).entries ≡ [])
        × ((writer_round d m).is_open ≡ m.is_open)
        × ((writer_round d m).header_written ≡ m.header_written)
  unfolding writer_round
  writer_round_lem m whole =
      (append-nil _ ∙ write_entries_whole m.entries m.log whole, refl, refl, refl)

  Adds-open :
      (m : Manager) {es : List LogEntry} {m' : Manager}
      → WritesWhole d
      → m.is_open ≡ true
      → m.header_written ≡ true
      → Adds m es m'
      → (m'.is_open ≡ true)
        × (m'.header_written ≡ true)
        × (m'.log ++ concat m'.entries ≡ (m.log ++ concat m.entries) ++ frames f (map logged es))
  Adds-open m whole o_open o_header here = (o_open, o_header, sym (append-nil _))
  Adds-open m whole o_open o_header (adds {es} {es'} {m'} {m''} e a v fits g last) =
      let (op, hd, sum) = Adds-open m whole o_open o_header a in
      let e' = add_entry_lem e m' m'' v fits op hd g in
      let now : List ℕ = frames f (map logged es) in
      rw
        (
          e',
          last,
          concat-append m'.entries (frame f (logged e)),
          map-snoc es e,
          frames-append f (map logged es) (logged e),
        )
        (
          op,
          hd,
          sym (append_assoc m'.log (concat m'.entries) (frame f (logged e)))
              ∙ ap (λ (l : List ℕ). l ++ frame f (logged e)) sum
              ∙ append_assoc (m.log ++ concat m.entries) now (frame f (logged e)),
        )
  Adds-open m whole o_open o_header (writes {es} {m'} a running) =
      let (op, hd, sum) = Adds-open m whole o_open o_header a in
      let (same, none_left, op', hd') = writer_round_lem m' whole in
      (op' ∙ op, hd' ∙ hd, same ∙ sum)

  -- From a manager that is open with its header written and no entries, with the writer thread in its
  -- loop, after any calls that add entries and any rounds of the writer thread between them, closing
  -- the log leaves the log as it was, followed by the entries in the order in which they were added,
  -- each once, and nothing unwritten: where every write is whole, and the resumption is log-based.
  pub close_log-Adds :
      (m m' : Manager) (es : List LogEntry)
      → WritesWhole d
      → o.resume_using_dir_tree ≡ false
      → m.is_open ≡ true
      → m.header_written ≡ true
      → m.entries ≡ []
      → Adds m es m'
      → m'.writer_thread ≡ runs
      → ((close_log d o m').log ≡ m.log ++ frames f (map logged es))
        × ((close_log d o m').entries ≡ [])
        × ((close_log d o m').is_open ≡ false)
  unfolding close_log shutdown_thread
  close_log-Adds m m' es whole tree o_open o_header nothing a running =
      let (op, hd, sum) = Adds-open m whole o_open o_header a in
      let last : Manager = writer_round d (record m' { finished = true }) in
      let (same, none_left, op', hd') = writer_round_lem (record m' { finished = true }) whole in
      let closed : close_log d o m' ≡ record last { writer_thread = not_started; is_open = false } =
        closes m'.is_open o.resume_using_dir_tree _ op tree
        ∙ ap (λ t. record (joined d t m') { is_open = false }) running in
      let total : last.log ≡ m.log ++ frames f (map logged es) =
        sym (append-nil last.log)
        ∙ ap (λ (l : List (List ℕ)). last.log ++ concat l) (sym none_left)
        ∙ same
        ∙ sum
        ∙ ap (λ (l : List (List ℕ)). (m.log ++ concat l) ++ frames f (map logged es)) nothing
        ∙ ap (λ (l : List ℕ). l ++ frames f (map logged es)) (append-nil m.log) in
      rw closed (total, none_left, refl)
    where
      closes :
          (b t : Bool) (x : Manager)
          → b ≡ true
          → t ≡ false
          → (if b
              then (let y : Manager = if t then m' else x in record y { is_open = false })
              else m')
            ≡ record x { is_open = false }
      closes true false x h k = refl
      closes true true x h k = absurd (cc)
      closes false t x h k = absurd (cc)
