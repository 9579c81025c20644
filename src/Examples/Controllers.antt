-- ===== src/Examples/Controllers.antt =====
-- The resource controller at concrete inputs.
use wdt.Common.{[], ◌∷◌}
use wdt.Common.Int.{ℤ, pos}
use wdt.Resources.{of_senders, Sides}
use wdt.Resources.Root.{ResourceController, new_resource_controller, create}

-- One sender in all, and two of a namespace.
abbrev global_limits : Sides ℤ
global_limits = record { senders = pos 1; receivers = pos 0 }

abbrev namespace_limits : Sides ℤ
namespace_limits = record { senders = pos 2; receivers = pos 0 }

abbrev empty : ResourceController
empty = new_resource_controller global_limits namespace_limits

-- A sender, and a second one, which has no quota.
abbrev once : ResourceController
once = (create of_senders (110 ∷ []) (97 ∷ []) 7 empty).2

abbrev twice : ResourceController
twice = (create of_senders (110 ∷ []) (98 ∷ []) 8 once).2
