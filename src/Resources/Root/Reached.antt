-- ===== src/Resources/Root/Reached.antt =====
-- Calls of WdtResourceController in any order, and what its shutdown then finds.
use wdt.Common.{ℕ, ◌≡◌, Bool, List}
use wdt.Common.Int.{ℤ}
use wdt.Common.Named.{Named}
use wdt.Resources.{Kind, Sides}
use wdt.Resources.Root.{
  ResourceController, new_resource_controller, create, release, release_all, release_stale,
  update_max_limit, update_max_limit_of, register_wdt_namespace, de_register_wdt_namespace,
  require_registration,
}

-- A call that changes the controller.
pub data Step (c c' : ResourceController) : Type 0 where
  creates :
      (k : Kind) (name identifier : List ℕ) (member : ℕ)
      → c' ≡ (create k name identifier member c).2
      → Step c c'
  releases :
      (k : Kind) (name identifier : List ℕ) → c' ≡ (release k name identifier c).1 → Step c c'
  releases_all : (k : Kind) (name : List ℕ) → c' ≡ (release_all k name c).1 → Step c c'
  releases_stale :
      (k : Kind) (is_stale : ℕ → Bool) (name : List ℕ)
      → c' ≡ (release_stale k is_stale name c).2
      → Step c c'
  limits : (k : Kind) (n : ℤ) → c' ≡ update_max_limit k n c → Step c c'
  limits_of : (k : Kind) (name : List ℕ) (n : ℤ) → c' ≡ update_max_limit_of k name n c → Step c c'
  registers : (name : List ℕ) → c' ≡ (register_wdt_namespace name c).1 → Step c c'
  deregisters : (name : List ℕ) → c' ≡ (de_register_wdt_namespace name c).1 → Step c c'
  requires : (strict : Bool) → c' ≡ require_registration strict c → Step c c'

-- What calls in any order lead to.
pub data Reachable (global_limits namespace_limits : Sides ℤ) : ResourceController → Type 0 where
  start :
      Reachable global_limits namespace_limits
        (new_resource_controller global_limits namespace_limits)
  next :
      {c c' : ResourceController}
      → Reachable global_limits namespace_limits c
      → Step c c'
      → Reachable global_limits namespace_limits c'
