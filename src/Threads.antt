-- ===== src/Threads.antt =====
-- util/ThreadsController: what one call, under its lock, does to each of the objects that the threads
-- of a transfer meet at. A result of `none` is a failed WDT_CHECK. Waiting is a result of its own, and
-- a notification is the flag or status on which the waiting threads wake up.
pub mod Meeting
pub mod Once
pub mod Gate
pub mod Controller
use wdt.Common.{
  ℕ, zero, suc, ◌+◌, ◌-◌, Bool, true, false, ◌&&◌, not, Option, none, some, List, [], ◌∷◌,
}
use wdt.Common.{ltb, leb, ◌==◌, if◌then◌else◌, replicate, length}
use wdt.Common.Int.{ℤ, pos, ◌-ℤ◌, ltb_ℤ, eqb_ℤ, ◌+ℤ◌}

-- ExecuteOnceFunc
pub record ExecuteOnce : Type 0 where
  pub num_hits : ℕ
  pub exec_first : Bool
  pub num_threads : ℕ

abbrev pub new_execute_once : ℕ → Bool → ExecuteOnce
new_execute_once num_threads exec_first = record {
  num_hits = 0;
  exec_first = exec_first;
  num_threads = num_threads;
}

-- Whether the function is run.
pub execute_once : ExecuteOnce → Option (Bool × ExecuteOnce)
execute_once x =
    let x' : ExecuteOnce = record x { num_hits = x.num_hits + 1 } in
    let num_expected = if x.exec_first then 1 else x.num_threads in
    if leb x'.num_hits x.num_threads then some (x'.num_hits == num_expected, x') else none

pub reset_once : ExecuteOnce → ExecuteOnce
reset_once x = record x { num_hits = 0 }

-- Barrier
pub record Barrier : Type 0 where
  pub num_hits : ℤ
  pub num_threads : ℤ
  pub is_complete : Bool

abbrev pub new_barrier : ℕ → Barrier
new_barrier num_threads = record {
  num_hits = pos 0;
  num_threads = pos num_threads;
  is_complete = false;
}

pub check_for_finish : Barrier → Option (Bool × Barrier)
check_for_finish b =
    let b' : Barrier =
      if eqb_ℤ b.num_hits b.num_threads then record b { is_complete = true } else b in
    if ltb_ℤ b.num_threads b.num_hits then none else some (b'.is_complete, b')

-- Up to the wait: whether the caller passes at once. A caller that does not passes when the barrier
-- is complete.
pub execute_barrier : Barrier → Option (Bool × Barrier)
unfolding check_for_finish
execute_barrier b =
    let hit = check_for_finish (record b { num_hits = b.num_hits +ℤ pos 1 }) in
    if b.is_complete then none else hit

abbrev state_after : Option (Bool × Barrier) → Option Barrier
state_after none = none
state_after (some (passes, b)) = some b

pub deregister_barrier : Barrier → Option Barrier
unfolding check_for_finish
deregister_barrier b =
    let left = state_after (check_for_finish (record b { num_threads = b.num_threads -ℤ pos 1 })) in
    if b.is_complete then some b else left

-- Funnel
pub data FunnelStatus : Type 0 where
  funnel_start funnel_progress funnel_end : FunnelStatus

-- What the caller is told, and the status behind.
unfoldable pub get_status : FunnelStatus → FunnelStatus × FunnelStatus
get_status funnel_start = (funnel_start, funnel_progress)
get_status funnel_progress = (funnel_progress, funnel_progress)
get_status funnel_end = (funnel_end, funnel_end)

-- Whether a call of `wait` waits.
pub must_wait : FunnelStatus → Bool
must_wait funnel_start = false
must_wait funnel_progress = true
must_wait funnel_end = false

pub notify_success : FunnelStatus → FunnelStatus
notify_success status = funnel_end

pub notify_fail : FunnelStatus → FunnelStatus
notify_fail status = funnel_start
