-- ===== src/History/Operations.antt =====
-- The other operations of ThreadTransferHistory.
pub mod Bounds
pub mod Finish
use wdt.Common.{ℕ, zero, suc, ◌-◌, Bool, true, false, Option, none, some, List, [], ◌∷◌, ◌++◌}
use wdt.Common.{length, get_elem?, if◌then◌else◌, map}
use wdt.Common.Int.{ℤ, pos, negsuc, eqb_ℤ}
use wdt.ErrorCodes.{ErrorCode}
use wdt.Protocol.{Checkpoint, new_checkpoint}
use wdt.History.{TransferStats, ByteSource, History, mark_source_as_failed}
use wdt.History.{set_checkpoint_and_return_to_queue}

-- From the first source on; out of range the empty string.
abbrev oldest_first : List ByteSource → List ByteSource
oldest_first [] = []
oldest_first (source ∷ sources) = oldest_first sources ++ source ∷ []

abbrev identifier_of : Option ByteSource → List ℕ
identifier_of none = []
identifier_of (some source) = source.identifier

pub get_source_id : ℤ → History → List ℕ
get_source_id (negsuc n) h = []
get_source_id (pos n) h = identifier_of (get_elem? (oldest_first h.history) n)

-- Once a global checkpoint was received the source goes to the queue.
pub add_source : ByteSource → History → Bool × History
add_source source h =
    let (source', thread_stats) = mark_source_as_failed source h.last_checkpoint h.thread_stats in
    if h.global_checkpoint
    then (
      false,
      record h { last_checkpoint = none; thread_stats = thread_stats; queue = source' ∷ h.queue },
    )
    else (true, record h { history = source ∷ h.history })

pub set_local_checkpoint : Checkpoint → History → Option (ErrorCode × History)
set_local_checkpoint c h = set_checkpoint_and_return_to_queue c false h

-- Up to the wait for `markNotInUse`, which the caller makes while the history is in use.
pub set_global_checkpoint : Checkpoint → History → Option (ErrorCode × History)
set_global_checkpoint c h = set_checkpoint_and_return_to_queue c true h

pub pop_acked_source_stats : History → Option (List TransferStats × History)
pop_acked_source_stats h =
    if eqb_ℤ h.num_acknowledged (pos (length h.history))
    then some (map (λ (s : ByteSource). s.transfer_stats) h.history, record h { history = [] })
    else none

pub mark_all_acknowledged : History → History
mark_all_acknowledged h = record h { num_acknowledged = pos (length h.history) }

-- What `setCheckpointAndReturnToQueue` returns is not looked at.
abbrev pub state_of : Option (ErrorCode × History) → Option History
state_of none = none
state_of (some (err, h)) = some h

pub return_unacked_sources_to_queue : History → Option History
return_unacked_sources_to_queue h =
    let c : Checkpoint = record new_checkpoint { num_blocks = h.num_acknowledged } in
    state_of (set_checkpoint_and_return_to_queue c false h)

pub is_global_checkpoint_received : History → Bool
is_global_checkpoint_received h = h.global_checkpoint

pub mark_not_in_use : History → History
mark_not_in_use h = record h { in_use = false }
