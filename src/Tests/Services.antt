-- ===== src/Tests/Services.antt =====
-- Runs of the code that controls the services: fault injection, compositions, nodes and contracts.
use rayls_sovereign_tests_au.Shared.{
  AllOf, ℕ, ◌+◌, ◌<◌, min, String, none, some, List, [], ◌∷◌, length, true, ◌≡◌, ◌⊎◌, arith,
}
use rayls_sovereign_tests_au.Js.{JsError, ok, err, Exec}
use rayls_sovereign_tests_au.Logging.{World}
use rayls_sovereign_tests_au.Timed.Laws.{RunsForward}
use rayls_sovereign_tests_au.Faults.{crash, TriggerEvent, SessionSnapshot, Reply, Http}
use rayls_sovereign_tests_au.Faults.Injector.{FaultSession, is_alive}
use rayls_sovereign_tests_au.Faults.Session.{status, live_and_fired, assert_live_after}
use rayls_sovereign_tests_au.Faults.Liveness.{Returns, SawTrigger, assert_live_after_ends}
use rayls_sovereign_tests_au.Nodes.{TransferScenario, get_valid_transfer_scenarios}
use rayls_sovereign_tests_au.Nodes.Laws.{IsScenario, get_valid_transfer_scenarios-AllOf}
use rayls_sovereign_tests_au.Contracts.{Contract, connect_at, format_factory_name}
use rayls_sovereign_tests_au.Contracts.Laws.{Stored, connect_at-Stored}
use rayls_sovereign_tests_au.Tests.{clock_host, new_world}

abbrev fired : TriggerEvent
fired = record { point = "p"; action = crash; code = none; message = none; timestamp = "" }

abbrev snapshot : SessionSnapshot
snapshot = record {
  id = "s1";
  created_at = "";
  last_activity = "";
  rules = [];
  log = some (fired ∷ []);
}

abbrev reply : Reply
reply = record {
  status = 200;
  session_id = some "s1";
  snapshot = snapshot;
  listing = record { enabled = true; sessions = [] };
  body_text = "";
}

-- A server that answers every request at once, and one that answers none.
abbrev up : Http ℕ
up = record { send = λ method url rule timeout x. (ok reply, x) }

abbrev session : FaultSession
session = record { base = "http://relayer-b:6661"; id = "s1" }

live_forward : RunsForward clock_host (live_and_fired clock_host up session "p")
unfolding live_and_fired is_alive status
live_forward = record { waits = λ ms x. omega arith; probes = λ x. omega arith }

assert_live_after_ends_example :
    Returns clock_host
      (live_and_fired clock_host up session "p")
      1000
      (0 + 60000)
      0
      (assert_live_after clock_host up session "p" 60000 1000 0)
    × ((y : ℕ)
        → assert_live_after clock_host up session "p" 60000 1000 0 ≡ (some (ok tt), y)
        → (z : ℕ) × (z < 0 + 60000) × SawTrigger clock_host up 1000 (omega arith) session "p" z y)
assert_live_after_ends_example =
    assert_live_after_ends clock_host up 1000 (omega arith) session "p" 60000 0 live_forward

get_valid_transfer_scenarios-AllOf_example :
    ((2 < 2) × (e : JsError) × (get_valid_transfer_scenarios ("A" ∷ "B" ∷ []) ≡ err e))
    ⊎ ((scenarios : List TransferScenario) × (get_valid_transfer_scenarios ("A" ∷ "B" ∷ [])
          ≡ ok scenarios)
        × (length scenarios + 1 ≡ min 2 6)
        × AllOf (IsScenario ("A" ∷ "B" ∷ [])) scenarios)
get_valid_transfer_scenarios-AllOf_example = get_valid_transfer_scenarios-AllOf ("A" ∷ "B" ∷ [])

abbrev connected : String → String → ℕ → Exec (World ℕ) Contract
connected name address signer w = (ok (record { address = address; runner = signer }), w)

connect_at-Stored_example :
    Stored
      (format_factory_name "TKN")
      []
      (connect_at connected "Token__factory" "0x1" "TKN" 7 ([], new_world))
connect_at-Stored_example = connect_at-Stored connected "Token__factory" "0x1" "TKN" 7 [] new_world
