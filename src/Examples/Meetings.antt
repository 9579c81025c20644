-- ===== src/Examples/Meetings.antt =====
-- The theorems on barriers, funnels and the threads controller at concrete inputs.
use wdt.Common.{◌≡◌, refl, true, false, some, [], ◌∷◌, ◌==◌, All, arith}
use wdt.Common.Int.{pos}
use wdt.Threads.{
  Barrier, new_barrier, ExecuteOnce, new_execute_once, must_wait, funnel_progress, get_status,
}
use wdt.Threads.Meeting.{comes, leaves, run, run_completes}
use wdt.Threads.Once.{execute_times, execute_times_once}
use wdt.Threads.Gate.{Gate, Step, Reachable, occupants, Reachable-occupants}
use wdt.Threads.Controller.{Controller, find_state, set_num_barriers}
use wdt.Threads.Controller.{init, running}
use wdt.Threads.Controller.Leaving.{deregister_all, IsOpen, deregister_all_opens}

run_completes_example :
    (b : Barrier) × (run (comes ∷ leaves ∷ comes ∷ []) (new_barrier 3) ≡ some b)
    × (b.is_complete ≡ (3 == 3))
run_completes_example = run_completes 3 (comes ∷ leaves ∷ comes ∷ []) (omega arith) (omega arith)

execute_times_once_example :
    (x : ExecuteOnce) × (execute_times 3 (new_execute_once 3 false)
      ≡ some (false ∷ false ∷ true ∷ [], x))
execute_times_once_example = execute_times_once 2 false

abbrev entered : Gate
entered = record { status = funnel_progress; inside = 1 }

entered-Reachable : Reachable entered
unfolding get_status
entered-Reachable = Reachable.next Reachable.start Step.asks

Reachable-occupants_example :
    (1 ≡ occupants funnel_progress) × (must_wait funnel_progress ≡ (1 == 1))
Reachable-occupants_example = Reachable-occupants entered entered-Reachable

abbrev two_threads : Controller
two_threads = record {
  total_threads = 2;
  thread_states = (pos 0, running) ∷ (pos 1, init) ∷ [];
  exec_at_start = new_execute_once 2 true;
  exec_at_end = new_execute_once 2 false;
  barriers = [];
  num_conditions = 0;
  funnels = [];
}

deregister_all_opens_example :
    (c' : Controller) × (deregister_all (pos 1 ∷ pos 0 ∷ []) (set_num_barriers 2 two_threads)
      ≡ some c')
    × All IsOpen c'.barriers
deregister_all_opens_example =
    deregister_all_opens (pos 1 ∷ pos 0 ∷ []) two_threads 2 (omega arith) refl
      ((init, unfold find_state in refl), ((running, unfold find_state in refl), tt))
