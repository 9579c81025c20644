-- ===== src/History/Controller/Mismatch.antt =====
-- `handleVersionMismatch` starts over.
use wdt.Common.{◌≡◌, []}
use wdt.Common.Int.{ℤ, pos}
use wdt.History.{History}
use wdt.History.Operations.Bounds.{IsWellFormed}
use wdt.History.Operations.Finish.{IsLocated}

-- A history of which nothing is acknowledged, and one of which nothing is left.
pub record IsUnacked (entry : ℤ × History) : Type 0 where
  pub well : IsWellFormed entry.1
  pub located : IsLocated entry.1.last_checkpoint
  pub nothing : entry.1.num_acknowledged ≡ pos 0

abbrev pub IsEmptied : ℤ × History → Type 0
IsEmptied entry = (entry.1.history ≡ []) × (entry.1.num_acknowledged ≡ pos 0)
