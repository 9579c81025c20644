-- ===== src/Threads/Meeting.antt =====
-- The barrier opens exactly when the last of its threads has come or left.
use wdt.Common.{ℕ, zero, suc, ◌+◌, ◌-◌, ◌≤◌, ◌≡◌, ap, ◌∙◌, Option, none, some}
use wdt.Common.{List, [], ◌∷◌, length, ◌==◌, arith}
use wdt.Common.Int.{pos, ◌+ℤ◌, ◌-ℤ◌}
use wdt.Threads.{
  Barrier, new_barrier, execute_barrier, deregister_barrier, check_for_finish, state_after,
}

-- A thread comes to the barrier, or finishes without it.
pub data Event : Type 0 where
  comes leaves : Event

-- The calls of the threads in the order in which they get the lock.
abbrev pub call : Event → Barrier → Option Barrier
call comes b = state_after (execute_barrier b)
call leaves b = deregister_barrier b

abbrev and_then : (Barrier → Option Barrier) → Option Barrier → Option Barrier
and_then more none = none
and_then more (some b) = more b

pub run : List Event → Barrier → Option Barrier
run [] b = some b
run (event ∷ events) b = and_then (run events) (call event b)

-- So many have come, and so many have neither come nor left.
abbrev pub waiting : ℕ → ℕ → Barrier
waiting hits missing = record {
  num_hits = pos hits;
  num_threads = pos (hits + missing);
  is_complete = missing == 0;
}

hit : (a b : ℕ) → pos a +ℤ pos b ≡ pos (a + b)
unfolding ◌+ℤ◌
hit a b = ground arith

left : (a b : ℕ) → pos (a + suc b) -ℤ pos 1 ≡ pos (a + b)
unfolding ◌-ℤ◌
left a b = ground arith

comes_next :
    (hits missing : ℕ)
    → state_after (execute_barrier (waiting hits (suc missing))) ≡ some (waiting (hits + 1) missing)
unfolding execute_barrier check_for_finish
comes_next hits missing = rw (hit hits 1) (ground arith)

pub leaves_next :
    (hits missing : ℕ)
    → deregister_barrier (waiting hits (suc missing)) ≡ some (waiting hits missing)
unfolding deregister_barrier check_for_finish
leaves_next hits missing = rw (left hits missing) (ground arith)

-- The calls go through one after the other.
run-waiting :
    (events : List Event) (hits missing : ℕ)
    → length events ≤ missing
    → (hits' : ℕ) × (run events (waiting hits missing)
        ≡ some (waiting hits' (missing - length events)))
unfolding run
run-waiting [] hits missing h = (hits, ap (λ (m : ℕ). some (waiting hits m)) (omega arith))
run-waiting (event ∷ events) hits zero h = absurd (omega arith)
run-waiting (comes ∷ events) hits (suc missing) h =
    let (hits', e) = run-waiting events (hits + 1) missing (omega arith) in
    (hits', rw (comes_next hits missing) (e ∙ ap (λ (m : ℕ). some (waiting hits' m)) (omega arith)))
run-waiting (leaves ∷ events) hits (suc missing) h =
    let (hits', e) = run-waiting events hits missing (omega arith) in
    (
      hits',
      rw (leaves_next hits missing) (e ∙ ap (λ (m : ℕ). some (waiting hits' m)) (omega arith)),
    )

pub waiting_all : (n : ℕ) → 1 ≤ n → waiting 0 n ≡ new_barrier n
waiting_all n h = ground arith

-- Let each of the threads of a barrier call it at most once, to wait at it or to leave it. Then no
-- call fails a check, and the barrier is complete exactly when all of them have called it.
pub run_completes :
    (n : ℕ) (events : List Event)
    → 1 ≤ n
    → length events ≤ n
    → (b : Barrier) × (run events (new_barrier n) ≡ some b) × (b.is_complete ≡ (length events == n))
run_completes n events some_thread h =
    let (hits, e) = run-waiting events 0 n h in
    (waiting hits (n - length events), rw (← waiting_all n some_thread) e, ground arith)
