-- ===== src/History/Controller.antt =====
-- TransferHistoryController: the histories of the threads by their ports. The list stands for the
-- map, in the order in which it is iterated.
pub mod Mismatch
use wdt.Common.{ℕ, zero, suc, Bool, true, false, Option, none, some, List, [], ◌∷◌, ◌++◌}
use wdt.Common.{if◌then◌else◌}
use wdt.Common.Int.{ℤ, pos, ltb_ℤ, eqb_ℤ}
use wdt.ErrorCodes.{ErrorCode, ok_code, error}
use wdt.Protocol.{Checkpoint}
use wdt.History.{TransferStats, History, new_history}
use wdt.History.Operations.{set_global_checkpoint, return_unacked_sources_to_queue}

abbrev pub Histories : Type 0
Histories = List (ℤ × History)

-- `threadHistoriesMap_.find(port)`
pub find_history : ℤ → Histories → Option History
find_history port [] = none
find_history port ((p, h) ∷ rest) =
    let later = find_history port rest in if eqb_ℤ p port then some h else later

-- `none` is a failed WDT_CHECK.
pub get_transfer_history : ℤ → Histories → Option History
get_transfer_history = find_history

-- `emplace` leaves a port that is there.
abbrev added : ℤ → TransferStats → Histories → Option History → Histories
added port thread_stats hs (some h) = hs
added port thread_stats hs none = (port, new_history thread_stats) ∷ hs

pub add_thread_history : ℤ → TransferStats → Histories → Histories
add_thread_history port thread_stats hs = added port thread_stats hs (find_history port hs)

abbrev pub and_then :
    ℤ → Option History → Option (ErrorCode × Histories) → Option (ErrorCode × Histories)
and_then port none rest = none
and_then port (some h) none = none
and_then port (some h) (some (err, hs)) = some (err, (port, h) ∷ hs)

-- The histories behind one that has acknowledged blocks stay as they are.
pub handle_version_mismatch : Histories → Option (ErrorCode × Histories)
handle_version_mismatch [] = some (ok_code, [])
handle_version_mismatch ((port, h) ∷ hs) =
    let rest = handle_version_mismatch hs in
    if ltb_ℤ (pos 0) h.num_acknowledged
    then some (error, (port, h) ∷ hs)
    else and_then port (return_unacked_sources_to_queue h) rest

abbrev replaced : ℤ → History → Histories → Option (ErrorCode × History) → Option Histories
replaced p h rest none = none
replaced p h rest (some (err, h')) = some ((p, h') ∷ rest)

abbrev kept_first : ℤ × History → Option Histories → Option Histories
kept_first entry none = none
kept_first entry (some rest) = some (entry ∷ rest)

-- A port that is not there changes nothing.
pub handle_global_checkpoint : Checkpoint → Histories → Option Histories
handle_global_checkpoint c [] = some []
handle_global_checkpoint c ((p, h) ∷ rest) =
    let later = handle_global_checkpoint c rest in
    if eqb_ℤ p c.port
    then replaced p h rest (set_global_checkpoint c h)
    else kept_first (p, h) later
