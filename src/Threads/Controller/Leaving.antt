-- ===== src/Threads/Controller/Leaving.antt =====
-- A thread that finishes is never waited for.
use wdt.Common.{ℕ, zero, suc, ◌≤◌, ◌≡◌, refl, sym, ap, ◌∙◌, inl, inr, true, Option, none, some}
use wdt.Common.{List, [], ◌∷◌, length, replicate, if◌then◌else◌, arith, All, Bool-cases}
use wdt.Common.Int.{ℤ, eqb_ℤ}
use wdt.Threads.{Barrier, deregister_barrier}
use wdt.Threads.Meeting.{waiting, leaves_next, waiting_all}
use wdt.Threads.Controller.{
  Controller, ThreadStatus, finished, find_state, put_state, mark_state, get_state,
}
use wdt.Threads.Controller.{deregister_thread, deregister_barriers, set_num_barriers}

same_index : (a b c : ℤ) → eqb_ℤ a b ≡ true → eqb_ℤ a c ≡ eqb_ℤ b c
same_index a b c e = ground arith

find_state-put_state :
    (i j : ℤ) (state : ThreadStatus) (states : List (ℤ × ThreadStatus))
    → find_state j (put_state i state states)
      ≡ (if eqb_ℤ i j then some state else find_state j states)
unfolding find_state put_state
find_state-put_state i j state [] = refl
find_state-put_state i j state ((k, old) ∷ states) = elim (Bool-cases (eqb_ℤ k i)) [
  | inl here ↦ elim (Bool-cases (eqb_ℤ i j)) [
    | inl yes_j ↦ rw (here, same_index k i j here, yes_j) refl
    | inr no_j ↦ rw (here, same_index k i j here, no_j) refl
  ]
  | inr there ↦ rw (there, find_state-put_state i j state states) (ground arith)
]

-- `markState` gives the thread its state and leaves that of every other thread.
pub get_state-mark_state :
    (i j : ℤ) (state : ThreadStatus) (c : Controller)
    → get_state j (mark_state i state c) ≡ (if eqb_ℤ i j then some state else get_state j c)
unfolding get_state mark_state
get_state-mark_state i j state c = find_state-put_state i j state c.thread_states

-- Threads that finish one after the other.
abbrev and_then : (Controller → Option Controller) → Option Controller → Option Controller
and_then more none = none
and_then more (some c) = more c

pub deregister_all : List ℤ → Controller → Option Controller
deregister_all [] c = some c
deregister_all (i ∷ is) c = and_then (deregister_all is) (deregister_thread i c)

abbrev pub IsRegistered : List (ℤ × ThreadStatus) → ℤ → Type 0
IsRegistered states i = (state : ThreadStatus) × (find_state i states ≡ some state)

put_state-IsRegistered :
    (i j : ℤ) (state : ThreadStatus) (states : List (ℤ × ThreadStatus))
    → IsRegistered states j
    → IsRegistered (put_state i state states) j
put_state-IsRegistered i j state states (old, e) = elim (Bool-cases (eqb_ℤ i j)) [
  | inl here ↦ (state, find_state-put_state i j state states ∙ rw here refl)
  | inr there ↦ (old, find_state-put_state i j state states ∙ rw (there, e) refl)
]

All-put_state :
    (i : ℤ) (state : ThreadStatus) (states : List (ℤ × ThreadStatus)) (is : List ℤ)
    → All (IsRegistered states) is
    → All (IsRegistered (put_state i state states)) is
All-put_state i state states [] v = tt
All-put_state i state states (j ∷ is) v =
    (put_state-IsRegistered i j state states v.0, All-put_state i state states is v.1)

all_barriers :
    (m : ℕ) (b b' : Barrier)
    → deregister_barrier b ≡ some b'
    → deregister_barriers (replicate m b) ≡ some (replicate m b')
unfolding deregister_barriers
all_barriers zero b b' e = refl
all_barriers (suc m) b b' e = rw (e, all_barriers m b b' e) refl

one_leaves :
    (i : ℤ) (c : Controller) (m missing : ℕ)
    → IsRegistered c.thread_states i
    → c.barriers ≡ replicate m (waiting 0 (suc missing))
    → deregister_thread i c
      ≡ some (record (mark_state i finished c) { barriers = replicate m (waiting 0 missing) })
unfolding deregister_thread
one_leaves i c m missing (state, found) b =
    rw
      (
        found,
        b,
        all_barriers m (waiting 0 (suc missing)) (waiting 0 missing) (leaves_next 0 missing),
      )
      refl

leave_in_turn :
    (is : List ℤ) (c : Controller) (m : ℕ)
    → All (IsRegistered c.thread_states) is
    → c.barriers ≡ replicate m (waiting 0 (length is))
    → (c' : Controller) × (deregister_all is c ≡ some c')
      × (c'.barriers ≡ replicate m (waiting 0 0))
unfolding deregister_all mark_state
leave_in_turn [] c m v b = (c, refl, b)
leave_in_turn (i ∷ is) c m v b =
    let (c', e, done) =
      leave_in_turn is
        (record (mark_state i finished c) { barriers = replicate m (waiting 0 (length is)) }) m
        (All-put_state i finished c.thread_states is v.1) refl in
    (c', rw (one_leaves i c m (length is) v.0 b) e, done)

abbrev pub IsOpen : Barrier → Type 0
IsOpen b = b.is_complete ≡ true

All-IsOpen : (m : ℕ) → All IsOpen (replicate m (waiting 0 0))
All-IsOpen zero = tt
All-IsOpen (suc m) = (refl, All-IsOpen m)

-- If every thread of a controller finishes, one after the other, then no check fails and every
-- barrier, however many there are, is complete in the end: no thread is waited for that has left.
pub deregister_all_opens :
    (is : List ℤ) (c : Controller) (m : ℕ)
    → 1 ≤ c.total_threads
    → length is ≡ c.total_threads
    → All (IsRegistered c.thread_states) is
    → (c' : Controller) × (deregister_all is (set_num_barriers m c) ≡ some c')
      × All IsOpen c'.barriers
unfolding set_num_barriers
deregister_all_opens is c m some_thread every v =
    let (c', e, done) = leave_in_turn is (set_num_barriers m c) m v (
      rw every
        (ap (λ (b : Barrier). replicate m b) (sym (waiting_all c.total_threads some_thread)))) in
    (c', e, rw done (All-IsOpen m))
