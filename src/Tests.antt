-- ===== src/Tests.antt =====
-- The fixtures of the tests: a host whose outside is its clock, a new world, and the runs that the
-- tests in the child modules start.
pub mod Loops
pub mod Chain
pub mod Services
pub mod Runner
pub mod Launch
pub mod Funding
pub mod Nodes
pub mod Assets
pub mod Vault
pub mod Hub
pub mod Deployments
use rayls_sovereign_tests_au.Shared.{
  ℕ, suc, ◌+◌, ◌≤◌, String, Option, none, some, List, [], Bool, true, false, leb, if◌then◌else◌,
  arith,
}
use rayls_sovereign_tests_au.Js.{error, Result, ok, err, Exec}
use rayls_sovereign_tests_au.Logging.{Host, Logger, World}
use rayls_sovereign_tests_au.Timed.Laws.{RunsForward}

abbrev pub clock_host : Host ℕ
clock_host = record {
  wait = λ ms x. x + ms;
  now = λ x. x;
  error_string = λ e. "Error";
  encode_uri = λ s. s;
  json_string = λ s. s;
  env = λ s. none;
}

-- A host whose outside is no clock: waits do not change it.
abbrev pub still_host : Host ℕ
still_host = record clock_host { wait = λ ms x. x }

abbrev pub new_logger : Logger
new_logger = record { active_loads = []; next_load_id = 0; console = [] }

abbrev pub new_world : World ℕ
new_world = record { logger = new_logger; outside = 0 }

-- An operation that throws until its state is 3000.
abbrev pub flaky : Exec ℕ ℕ
flaky s = if leb 3000 s then (ok s, s) else (err (error "nonce too low"), s)

-- A check that finds the state once it is 2000.
abbrev pub growing : Exec ℕ (Option ℕ)
growing s = if leb 2000 s then (ok (some s), s) else (ok none, s)

abbrev pub is_found : Option ℕ → Bool
is_found none = false
is_found (some n) = true
