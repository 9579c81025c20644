-- ===== src/Resources/Root/Quota.antt =====
-- What the creation of a sender or receiver does, on each of its ends.
use wdt.Common.{ℕ, ◌≡◌, ◌⊎◌, true, Option, none, some, List}
use wdt.Common.Int.{pos, ◌+ℤ◌, ◌≤ℤ◌, ltb_ℤ}
use wdt.ErrorCodes.{ErrorCode, ok_code, already_exists, quota_exceeded, not_found}
use wdt.Resources.{Kind, side}
use wdt.Resources.Root.{ResourceController, Tally, get}

-- A limit above zero is kept.
abbrev pub KeepsLimit : Tally → Type 0
KeepsLimit t = ltb_ℤ (pos 0) t.limit ≡ true → t.count ≤ℤ t.limit

-- How a creation ends, from what was found under the identifier before, and the number before.
pub data CreateEnds (k : Kind) (name identifier : List ℕ) (member : ℕ) (before : Option ℕ)
    (t : Tally) (r : ErrorCode × Option ℕ × ResourceController) : Type 0 where
  made :
      r.0 ≡ ok_code
      → r.1 ≡ some member
      → before ≡ none
      → get k name identifier r.2 ≡ some member
      → (side k r.2.tallies).count ≡ t.count +ℤ pos 1
      → KeepsLimit (side k r.2.tallies)
      → CreateEnds k name identifier member before t r
  there :
      {old : ℕ}
      → r.0 ≡ already_exists
      → r.1 ≡ some old
      → before ≡ some old
      → get k name identifier r.2 ≡ some old
      → (side k r.2.tallies).count ≡ t.count
      → CreateEnds k name identifier member before t r
  turned_away :
      (r.0 ≡ not_found) ⊎ (r.0 ≡ quota_exceeded)
      → r.1 ≡ none
      → get k name identifier r.2 ≡ before
      → (side k r.2.tallies).count ≡ t.count
      → CreateEnds k name identifier member before t r
