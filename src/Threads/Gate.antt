-- ===== src/Threads/Gate.antt =====
-- At most one thread is inside a funnel.
use wdt.Common.{ℕ, ◌+◌, ◌-◌, ◌≤◌, ◌≡◌, refl, arith, ◌==◌}
use wdt.Threads.{FunnelStatus, funnel_start, funnel_progress, funnel_end, get_status, must_wait}
use wdt.Threads.{notify_success, notify_fail}

-- The funnel, and how many threads were told to start and have not yet notified it.
pub record Gate : Type 0 where
  pub status : FunnelStatus
  pub inside : ℕ

abbrev pub entering : FunnelStatus → ℕ
entering funnel_start = 1
entering funnel_progress = 0
entering funnel_end = 0

-- A thread asks for the status, and is inside if it is told to start; a thread that is inside
-- notifies the funnel that it succeeded or failed.
pub data Step (g : Gate) : Gate → Type 0 where
  asks : Step g (record {
    status = (get_status g.status).1;
    inside = entering (get_status g.status).0 + g.inside;
  })
  succeeds :
      1 ≤ g.inside → Step g (record { status = notify_success g.status; inside = g.inside - 1 })
  fails : 1 ≤ g.inside → Step g (record { status = notify_fail g.status; inside = g.inside - 1 })

pub data Reachable : Gate → Type 0 where
  start : Reachable (record { status = funnel_start; inside = 0 })
  next : {g g' : Gate} → Reachable g → Step g g' → Reachable g'

abbrev pub occupants : FunnelStatus → ℕ
occupants funnel_start = 0
occupants funnel_progress = 1
occupants funnel_end = 0

asked :
    (status : FunnelStatus) (inside : ℕ)
    → inside ≡ occupants status
    → entering (get_status status).0 + inside ≡ occupants (get_status status).1
unfolding get_status
asked funnel_start inside h = omega arith
asked funnel_progress inside h = omega arith
asked funnel_end inside h = omega arith

occupants_le : (status : FunnelStatus) → occupants status ≤ 1
occupants_le funnel_start = omega arith
occupants_le funnel_progress = omega arith
occupants_le funnel_end = omega arith

Step-occupants :
    {g g' : Gate} → Step g g' → g.inside ≡ occupants g.status → g'.inside ≡ occupants g'.status
unfolding notify_success notify_fail
Step-occupants {g} Step.asks h = asked g.status g.inside h
Step-occupants {g} (Step.succeeds some_inside) h = omega (arith, occupants_le g.status)
Step-occupants {g} (Step.fails some_inside) h = omega (arith, occupants_le g.status)

-- In whatever order threads ask a funnel and those told to start notify it: one thread is inside
-- while the status is in progress, and none otherwise; so others wait exactly while one is inside.
pub Reachable-occupants :
    (g : Gate)
    → Reachable g
    → (g.inside ≡ occupants g.status) × (must_wait g.status ≡ (g.inside == 1))
Reachable-occupants g r = let h = inside_all g r in (h, rw h (waits g.status))
  where
    inside_all : (g : Gate) → Reachable g → g.inside ≡ occupants g.status
    inside_all _ Reachable.start = refl
    inside_all _ (Reachable.next {g} r s) = Step-occupants s (inside_all g r)

    waits : (status : FunnelStatus) → must_wait status ≡ (occupants status == 1)
    waits funnel_start = unfold must_wait in refl
    waits funnel_progress = unfold must_wait in refl
    waits funnel_end = unfold must_wait in refl
