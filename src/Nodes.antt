-- ===== src/Nodes.antt =====
-- src/entities/PrivacyNodeManager.ts, and from src/config/env-config.ts the settings of a node, the id
-- of a worker and the choice of a backend. The environment is a function of a variable's name.
pub mod Laws
pub mod Wallets
use rayls_sovereign_tests_au.Shared.{
  ℕ, ◌+◌, ◌*◌, ◌%◌, max, String, Option, none, some, Bool, true, false, not, ◌&&◌, ◌==◌, leb, List,
  [], ◌∷◌, ◌++◌, map, any, keep, length, take, get_elem?, if◌then◌else◌,
}
use rayls_sovereign_tests_au.Shared.Text.{◌<>◌, ParsedInt, nan, int, parse_int}
use rayls_sovereign_tests_au.Shared.Text.Split.{split, trim}
use rayls_sovereign_tests_au.Js.{error, Result, ok, err}
use rayls_sovereign_tests_au.Env.{default_timeout}
use text.Mathlib.Text.{◌==◌ as str_eq}

pub Environment : Type 0
Environment = String → Option String

abbrev pub rayls_nodes : List String
rayls_nodes = "A" ∷ "B" ∷ "C" ∷ "D" ∷ "E" ∷ "F" ∷ []

-- The truth of an optional text.
abbrev pub is_set : Option String → Bool
is_set none = false
is_set (some s) = not (str_eq s "")

abbrev pub chain_id : (String → Option String) → String → Option String
chain_id env node = env ("PRIVACY_NODE_" <> node <> "_CHAIN_ID")

abbrev pub rpc_url : (String → Option String) → String → Option String
rpc_url env node = env ("PRIVACY_NODE_" <> node <> "_RPC_URL")

abbrev pub ops_service_url : (String → Option String) → String → Option String
ops_service_url env node = env ("OPS_SERVICE_" <> node <> "_URL")

-- `includes` of an array of texts, for a text that may be undefined.
abbrev pub listed : List String → Option String → Bool
listed ids none = false
listed ids (some id) = any (str_eq id) ids

abbrev pub is_active : (String → Option String) → List String → String → Bool
is_active env ids node = listed ids (chain_id env node) && is_set (rpc_url env node)

abbrev pub active_chain_ids : String → List String
active_chain_ids participants = map trim (split b',' participants)

abbrev computed_nodes :
    (String → Option String) → Option String → Result (List String) × Option (List String)
computed_nodes env none = (err (error "PARTICIPANTS environment variable not set"), none)
computed_nodes env (some participants) =
    if str_eq participants ""
    then (err (error "PARTICIPANTS environment variable not set"), none)
    else let nodes = keep (is_active env (active_chain_ids participants)) rayls_nodes in
      (ok nodes, some nodes)

-- `getActiveNodes`: its state is the cache of the class.
unfoldable pub get_active_nodes :
    (String → Option String) → Option (List String) → Result (List String) × Option (List String)
get_active_nodes env (some nodes) = (ok nodes, some nodes)
get_active_nodes env none = computed_nodes env (env "PARTICIPANTS")

pub record TransferScenario : Type 0 where
  pub from : ℕ
  pub to : ℕ
  pub tag : String
  pub participants : List String

abbrev pub push_when {ℓ} : {A : Type ℓ} → Bool → A → List A → List A
push_when true x xs = xs ++ x ∷ []
push_when false x xs = xs

abbrev pub scenario : List String → ℕ → String → ℕ → TransferScenario
scenario nodes to tag count = record {
  from = 1;
  to = to;
  tag = tag;
  participants = take count nodes;
}

abbrev pub scenarios_for : List String → ℕ → List TransferScenario
scenarios_for nodes count =
    push_when (leb 6 count) (scenario nodes 5 "@1to5 @regression @enygma" 6) (
      push_when (leb 5 count) (scenario nodes 4 "@1to4 @regression @enygma" 5) (
        push_when (leb 4 count) (scenario nodes 3 "@1to3 @regression @enygma" 4) (
          push_when (leb 3 count) (scenario nodes 2 "@1to2 @regression @enygma" 3)
            (scenario nodes 1 "@1to1 @smoke @enygma" 2 ∷ []))))

unfoldable pub get_valid_transfer_scenarios : List String → Result (List TransferScenario)
get_valid_transfer_scenarios nodes =
    if leb 2 (length nodes)
    then ok (scenarios_for nodes (length nodes))
    else err (error "At least 2 participants required for transfer tests")

abbrev worker_of : ParsedInt → Option ℕ
worker_of nan = none
worker_of (int negative n) = if negative && not (n == 0) then none else some n

abbrev worker_of_text : Option String → Option ℕ
worker_of_text none = none
worker_of_text (some raw) = if str_eq raw "" then none else worker_of (parse_int raw)

-- `none` is a run that is not parallel.
unfoldable pub parse_worker_id : (String → Option String) → Option ℕ
parse_worker_id env = worker_of_text (env "MOCHA_WORKER_ID")

unfoldable pub before_hook_timeout : (workers cycles : ℕ) → ℕ
before_hook_timeout workers cycles = default_timeout workers * max cycles 1

abbrev pub available_backends : (String → Option String) → List String
available_backends env = keep (λ n. is_set (ops_service_url env n)) rayls_nodes

abbrev pub backend_index : Option ℕ → ℕ → ℕ
backend_index none n = 0
backend_index (some worker) n = worker % n

-- `none` where the array is read out of range, which Nodes/Laws excludes.
unfoldable pub backend_of : List String → Option ℕ → Option String
backend_of [] worker = some "A"
backend_of (b ∷ bs) worker = get_elem? (b ∷ bs) (backend_index worker (length (b ∷ bs)))

unfoldable pub backend_target_node : (String → Option String) → Option String
backend_target_node env = backend_of (available_backends env) (parse_worker_id env)
