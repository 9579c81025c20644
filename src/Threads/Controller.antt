-- ===== src/Threads/Controller.antt =====
-- ThreadsController. The map of the thread states is an association list; a condition guard has no
-- state of its own besides its mutex, so only their number is kept.
pub mod Leaving
use wdt.Common.{
  ℕ, zero, suc, ◌+◌, Bool, true, false, ◌&&◌, not, Option, none, some, List, [], ◌∷◌, ◌++◌,
}
use wdt.Common.{ltb, ◌==◌, if◌then◌else◌, replicate, length, get_elem?, map}
use wdt.Common.Int.{ℤ, pos, negsuc, eqb_ℤ, ◌+ℤ◌}
use wdt.Threads.{ExecuteOnce, new_execute_once, reset_once, execute_once, Barrier, new_barrier}
use wdt.Threads.{FunnelStatus, funnel_start, deregister_barrier}

pub data ThreadStatus : Type 0 where
  init running waiting finished : ThreadStatus

abbrev pub same_status : ThreadStatus → ThreadStatus → Bool
same_status init init = true
same_status running running = true
same_status waiting waiting = true
same_status finished finished = true
same_status _ _ = false

pub record Controller : Type 0 where
  pub total_threads : ℕ
  pub thread_states : List (ℤ × ThreadStatus)
  pub exec_at_start : ExecuteOnce
  pub exec_at_end : ExecuteOnce
  pub barriers : List Barrier
  pub num_conditions : ℕ
  pub funnels : List FunnelStatus

-- The states of the threads from an index on.
initial_states : ℤ → ℕ → List (ℤ × ThreadStatus)
initial_states index zero = []
initial_states index (suc n) = (index, init) ∷ initial_states (index +ℤ pos 1) n

pub new_controller : ℕ → Controller
unfolding initial_states
new_controller total_threads = record {
  total_threads = total_threads;
  thread_states = initial_states (pos 0) total_threads;
  exec_at_start = new_execute_once total_threads true;
  exec_at_end = new_execute_once total_threads false;
  barriers = [];
  num_conditions = 0;
  funnels = [];
}

unfoldable pub find_state : ℤ → List (ℤ × ThreadStatus) → Option ThreadStatus
find_state index [] = none
find_state index ((i, state) ∷ states) =
    let later = find_state index states in if eqb_ℤ i index then some state else later

-- `threadStateMap_[index] = state`
pub put_state : ℤ → ThreadStatus → List (ℤ × ThreadStatus) → List (ℤ × ThreadStatus)
put_state index state [] = (index, state) ∷ []
put_state index state ((i, old) ∷ states) =
    let later = put_state index state states in
    if eqb_ℤ i index then (i, state) ∷ states else (i, old) ∷ later

pub mark_state : ℤ → ThreadStatus → Controller → Controller
unfolding put_state
mark_state index state c = record c { thread_states = put_state index state c.thread_states }

pub get_state : ℤ → Controller → Option ThreadStatus
unfolding find_state
get_state index c = find_state index c.thread_states

abbrev if_found : Option ThreadStatus → Option Controller → Option Controller
if_found none c = none
if_found (some state) c = c

pub register_thread : ℤ → Controller → Option Controller
register_thread index c =
    if_found (find_state index c.thread_states) (some (mark_state index running c))

abbrev pub front : Option Barrier → Option (List Barrier) → Option (List Barrier)
front none bs = none
front (some b) none = none
front (some b) (some bs) = some (b ∷ bs)

pub deregister_barriers : List Barrier → Option (List Barrier)
deregister_barriers [] = some []
deregister_barriers (b ∷ bs) = front (deregister_barrier b) (deregister_barriers bs)

abbrev with_barriers : Controller → Option (List Barrier) → Option Controller
with_barriers c none = none
with_barriers c (some bs) = some (record c { barriers = bs })

pub deregister_thread : ℤ → Controller → Option Controller
deregister_thread index c =
    if_found (find_state index c.thread_states)
      (with_barriers (mark_state index finished c) (deregister_barriers c.barriers))

-- Of the threads but the one with the index.
pub has_threads_but : ℤ → ThreadStatus → List (ℤ × ThreadStatus) → Bool
has_threads_but index state [] = false
has_threads_but index state ((i, s) ∷ states) =
    let later = has_threads_but index state states in
    if eqb_ℤ i index then later else if same_status s state then true else later

pub has_threads : ThreadStatus → Controller → Bool
has_threads state c = has_threads_but (negsuc 0) state c.thread_states

-- `getCondition`, `getBarrier` and `getFunnel`; out of range a check fails.
pub get_condition : ℕ → Controller → Option ℕ
get_condition index c = if ltb index c.num_conditions then some index else none

pub get_barrier : ℕ → Controller → Option Barrier
get_barrier index c = get_elem? c.barriers index

pub get_funnel : ℕ → Controller → Option FunnelStatus
get_funnel index c = get_elem? c.funnels index

pub set_num_barriers : ℕ → Controller → Controller
set_num_barriers num_barriers c = record c {
  barriers = replicate num_barriers (new_barrier c.total_threads);
}

pub set_num_conditions : ℕ → Controller → Controller
set_num_conditions num_conditions c = record c { num_conditions = num_conditions }

pub set_num_funnels : ℕ → Controller → Controller
set_num_funnels num_funnels c = record c { funnels = replicate num_funnels funnel_start }

all_running : List (ℤ × ThreadStatus) → List (ℤ × ThreadStatus)
all_running [] = []
all_running ((i, state) ∷ states) = (i, running) ∷ all_running states

pub reset : Controller → Controller
unfolding all_running
reset c =
    let c' : Controller =
      set_num_funnels (length c.funnels)
        (set_num_conditions c.num_conditions (set_num_barriers (length c.barriers) c)) in
    record c' {
      exec_at_start = reset_once c'.exec_at_start;
      exec_at_end = reset_once c'.exec_at_end;
      thread_states = all_running c'.thread_states;
    }

count_running : List (ℤ × ThreadStatus) → ℕ
count_running [] = 0
count_running ((i, state) ∷ states) =
    let rest = count_running states in if same_status state running then suc rest else rest

pub num_running_threads : Controller → ℕ
unfolding count_running
num_running_threads c = count_running c.thread_states

abbrev at_start : Controller → Option (Bool × ExecuteOnce) → Option (Bool × Controller)
at_start c none = none
at_start c (some (ran, x)) = some (ran, record c { exec_at_start = x })

-- Whether the function is run.
pub execute_at_start : Controller → Option (Bool × Controller)
execute_at_start c = at_start c (execute_once c.exec_at_start)

abbrev at_end : Controller → Option (Bool × ExecuteOnce) → Option (Bool × Controller)
at_end c none = none
at_end c (some (ran, x)) = some (ran, record c { exec_at_end = x })

pub execute_at_end : Controller → Option (Bool × Controller)
execute_at_end c = at_end c (execute_once c.exec_at_end)
