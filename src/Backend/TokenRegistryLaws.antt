-- ===== src/Backend/TokenRegistryLaws.antt =====
-- What registration and the teleport guarantee.
use rayls_sovereign_tests_au.Shared.{ℕ, String, some, List, ◌≡◌, find_first}
use rayls_sovereign_tests_au.Shared.Text.{◌<>◌, short_hex, show}
use rayls_sovereign_tests_au.Js.{ok}
use rayls_sovereign_tests_au.Logging.{Host, World}
use rayls_sovereign_tests_au.Polling.Loads.{Reached}
use rayls_sovereign_tests_au.Backend.{RegisteredToken, UserController}
use rayls_sovereign_tests_au.Backend.TokenRegistry.{has_status, truthy_token, status_poll}

module _ {X : Type 0} (host : Host X) (workers : ℕ) (user : UserController X) where
  -- In a state that a wait begun in `w` reached, the registry lists the address with the status.
  abbrev pub Listed : String → ℕ → World X → Type 0
  Listed address status w =
      (z t : World X) × (tokens : List RegisteredToken) × (listed : RegisteredToken)
      × (user.list_registry z ≡ (ok tokens, t))
      × (find_first (has_status address status) tokens ≡ some listed)
      × Reached host workers truthy_token
          ("Waiting for token " <> short_hex address <> " status → " <> show status)
          (status_poll user address status) w z
