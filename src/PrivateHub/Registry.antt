-- ===== src/PrivateHub/Registry.antt =====
-- src/entities/PrivateHub.ts: tokens looked up and approved in the token registry, the roles of the
-- operator and the compliance officer, participants, and the waits for the two ends of a swap. The
-- contracts are parameters.
use rayls_sovereign_tests_au.Shared.{
  ℕ, String, Option, none, some, Bool, true, false, ◌||◌, ◌==◌, List, [], ◌∷◌, find_first, ltb,
  length, if◌then◌else◌,
}
use rayls_sovereign_tests_au.Shared.Text.{◌<>◌, show, short_hex}
use rayls_sovereign_tests_au.Js.{ok, Exec, and_then}
use rayls_sovereign_tests_au.Logging.{Host, World, log}
use rayls_sovereign_tests_au.Polling.{PollOptions, eventually}
use rayls_sovereign_tests_au.Transactions.{Response, submit_tx}
use rayls_sovereign_tests_au.PrivacyNode.{zero_address}
use rayls_sovereign_tests_au.Tokens.{Hub, bool_json}
use rayls_sovereign_tests_au.Tokens.Reads.{await_read}
use text.Mathlib.Text.{◌==◌ as str_eq}

-- A token of the registry, with the fields that the hub reads.
pub record RegistryToken : Type 0 where
  pub symbol : String
  pub resource_id : String
  pub status : ℕ

-- The token registry, as each of its signers gets it: to read, and as the operator.
pub record TokenRegistry (X : Type 0) : Type 0 where
  pub get_all_tokens : Exec (World X) (List RegistryToken)
  pub get_token_by_resource_id : String → Exec (World X) RegistryToken
  pub update_status : String → ℕ → Exec (World X) (Response X)

abbrev pub has_symbol : String → RegistryToken → Bool
has_symbol symbol token = str_eq token.symbol symbol

abbrev pub is_token : Option RegistryToken → Bool
is_token none = false
is_token (some token) = true

abbrev pub token_json : Option RegistryToken → String
token_json o = bool_json (is_token o)

abbrev pub resource_of : Option RegistryToken → Option String
resource_of none = none
resource_of (some token) = some token.resource_id

-- The check writes `tokenOnPNH` in each round: here it returns what it wrote.
unfoldable pub find_token :
    {X : Type 0} → TokenRegistry X → (symbol : String) → Exec (World X) (Option RegistryToken)
find_token registry symbol w =
    and_then (registry.get_all_tokens w)
      (λ tokens v. (ok (find_first (has_symbol symbol) tokens), v))

module _ {X : Type 0} (host : Host X) (workers : ℕ) where
  abbrev pub token_poll :
      TokenRegistry X → (symbol : String) → PollOptions (World X) (Option RegistryToken)
  token_poll registry symbol = record {
    check = find_token registry symbol;
    interval = none;
    attempts = none;
    tolerate_errors = false;
  }

  abbrev pub token_message : (symbol : String) → String
  token_message symbol = "Waiting for token " <> symbol <> " on PNH registry"

  abbrev pub await_token :
      (symbol : String) → TokenRegistry X → Exec (World X) (Option RegistryToken)
  await_token symbol registry =
      eventually host workers is_token token_json (token_message symbol)
        (token_poll registry symbol)

  unfoldable pub get_token_from_registry :
      (get_registry : Exec (World X) (TokenRegistry X))
      → (symbol : String) → Exec (World X) (Option RegistryToken)
  get_token_from_registry get_registry symbol w = and_then (get_registry w) (await_token symbol)

  abbrev pub update_unless :
      TokenRegistry X
      → (resource_id : String) → (status : ℕ) → (already : Bool) → Exec (World X) (Unit {0})
  update_unless registry resource_id status true w = (
    ok tt,
    log
        ("Token "
          <> resource_id
          <> " already has status "
          <> show status
          <> " — skipping updateTokenStatus")
        w,
  )
  update_unless registry resource_id status false w =
      and_then (submit_tx host (registry.update_status resource_id status) "Updating status..." w)
        (λ receipt v. (ok tt, v))

  abbrev pub compare_status :
      TokenRegistry X
      → (resource_id : String) → (status : ℕ) → RegistryToken
      → Exec (World X) (Unit {0})
  compare_status registry resource_id status token =
      update_unless registry resource_id status (token.status == status)

  abbrev pub with_registry :
      (resource_id : String) → (status : ℕ) → TokenRegistry X → Exec (World X) (Unit {0})
  with_registry resource_id status registry w =
      and_then (registry.get_token_by_resource_id resource_id w)
        (compare_status registry resource_id status)

  unfoldable pub update_token_status :
      (as_operator : Exec (World X) (TokenRegistry X))
      → (resource_id : String) → (status : ℕ) → Exec (World X) (Unit {0})
  update_token_status as_operator resource_id status w =
      and_then (as_operator w) (with_registry resource_id status)

  -- The hub as the token wrappers use it.
  unfoldable pub hub_of : (get_registry as_operator : Exec (World X) (TokenRegistry X)) → Hub X
  hub_of get_registry as_operator = record {
    get_token_from_registry = λ symbol w.
        and_then (get_token_from_registry get_registry symbol w)
          (λ token v. (ok (resource_of token), v));
    update_token_status = λ resource_id. update_token_status as_operator resource_id 1;
  }

  unfoldable pub update_participant_status :
      (update_status : String → ℕ → Exec (World X) (Response X))
      → (chain_id : String) → (status : ℕ) → Exec (World X) (Unit {0})
  update_participant_status update_status chain_id status w =
      and_then
        (submit_tx host (update_status chain_id status)
          ("Updating participant " <> chain_id <> " status to " <> show status <> "...") w)
        (λ receipt v. (ok tt, v))

  -- The wait for an event of a swap reads the events from the given block to the tip of each round.
  abbrev pub events_to_tip :
      (get_block_number : Exec (World X) ℕ)
      → (query : (from_block to_block : ℕ) → Exec (World X) (List String)) → (block_number : ℕ)
      → Exec (World X) (List String)
  events_to_tip get_block_number query block_number w =
      and_then (get_block_number w) (λ tip. query block_number tip)

  abbrev pub some_logs : List String → Bool
  some_logs logs = ltb 0 (length logs)

  module _ (get_block_number : Exec (World X) ℕ)
      (query : (from_block to_block : ℕ) → Exec (World X) (List String)) where
    unfoldable pub wait_for_swap_completed :
        (shared_id : String) → (block_number : ℕ) → Exec (World X) (Unit {0})
    wait_for_swap_completed shared_id block_number =
        await_read (events_to_tip get_block_number query block_number) some_logs host workers
          ("Checking SwapCompleted event (sharedId=" <> short_hex shared_id <> ")")

    -- With a communicator, the relayer's shared information is waited for as well.
    abbrev pub await_shared :
        (shared_id : String)
        → Option (Exec (World X) (List String))
        → Unit {0}
        → Exec (World X) (Unit {0})
    await_shared shared_id none done w = (ok tt, w)
    await_shared shared_id (some shared_info) done w =
        await_read shared_info some_logs host workers
          ("Waiting for relayer to process swap (sharedId=" <> short_hex shared_id <> ")") w

    unfoldable pub wait_for_swap_initialized :
        (shared_id : String)
        → (block_number : ℕ) → (get_all_shared_info : Option (Exec (World X) (List String)))
        → Exec (World X) (Unit {0})
    wait_for_swap_initialized shared_id block_number get_all_shared_info w =
        and_then
          (await_read (events_to_tip get_block_number query block_number) some_logs host workers
            ("Checking SwapInitiated event (sharedId=" <> short_hex shared_id <> ")") w)
          (await_shared shared_id get_all_shared_info)

-- The access manager as the hub uses it; the granter is the wallet that signs.
pub record RoleManager (X : Type 0) : Type 0 where
  pub get_role_id_by_name : String → Exec (World X) String
  pub has_role : (role account : String) → Exec (World X) Bool
  pub grant_role : (granter role account : String) → Exec (World X) (Response X)
  pub add_function_allowed_roles :
      (granter target : String) → (selectors roles : List String) → Exec (World X) (Response X)

module _ {X : Type 0} (host : Host X) where
  abbrev pub grant_if_missing :
      RoleManager X
      → (granter role_name account wallet_name role : String) → Bool
      → Exec (World X) (Unit {0})
  grant_if_missing manager granter role_name account wallet_name role true w = (ok tt, w)
  grant_if_missing manager granter role_name account wallet_name role false w =
      and_then
        (submit_tx host (manager.grant_role granter role account)
          ("Granting " <> role_name <> " to " <> account) w)
        (λ receipt v.
          (ok tt, log ("Granted " <> role_name <> " to " <> wallet_name <> " " <> account) v))

  abbrev pub look_up_and_grant :
      RoleManager X
      → (granter role_name account wallet_name role : String) → Exec (World X) (Unit {0})
  look_up_and_grant manager granter role_name account wallet_name role w =
      and_then (manager.has_role role account w)
        (grant_if_missing manager granter role_name account wallet_name role)

  unfoldable pub grant_network_operator_role :
      (get_access_manager : Exec (World X) (RoleManager X))
      → (admin_wallet operator_wallet : String) → Exec (World X) (Unit {0})
  grant_network_operator_role get_access_manager admin_wallet operator_wallet w =
      and_then (get_access_manager w) (λ manager v.
        and_then (manager.get_role_id_by_name "PRIVATE_NETWORK_OPERATOR" v) (
          look_up_and_grant manager admin_wallet "PRIVATE_NETWORK_OPERATOR" operator_wallet
            "operatorWallet"))

  -- The selectors of the two functions are taken from the contract's interface.
  abbrev pub map_selectors :
      RoleManager X
      → (admin_wallet token_registry role : String) → (selectors : List String) → Unit {0}
      → Exec (World X) (Unit {0})
  map_selectors manager admin_wallet token_registry role selectors done w =
      if str_eq token_registry "" || str_eq token_registry zero_address
      then (ok tt, w)
      else and_then
          (submit_tx host
            (manager.add_function_allowed_roles admin_wallet token_registry selectors (role ∷ []))
            "Mapping freezeToken/unfreezeToken → COMPLIANCE_OFFICER on TokenRegistry" w)
          (λ receipt v.
            (ok tt, log "Mapped freezeToken/unfreezeToken → COMPLIANCE_OFFICER on TokenRegistry" v))

  abbrev pub grant_and_map :
      RoleManager X
      → (admin_wallet operator_wallet compliance_wallet token_registry : String)
      → (selectors : List String) → (role : String) → Exec (World X) (Unit {0})
  grant_and_map manager admin_wallet operator_wallet compliance_wallet token_registry selectors role
        w =
      and_then
        (look_up_and_grant manager operator_wallet "COMPLIANCE_OFFICER" compliance_wallet
          "complianceWallet" role w)
        (map_selectors manager admin_wallet token_registry role selectors)

  unfoldable pub grant_compliance_role :
      (get_access_manager : Exec (World X) (RoleManager X))
      → (admin_wallet operator_wallet compliance_wallet token_registry : String)
      → (selectors : List String) → Exec (World X) (Unit {0})
  grant_compliance_role get_access_manager admin_wallet operator_wallet compliance_wallet
        token_registry selectors w =
      and_then (get_access_manager w) (λ manager v.
        and_then (manager.get_role_id_by_name "COMPLIANCE_OFFICER" v) (
          grant_and_map manager admin_wallet operator_wallet compliance_wallet token_registry
            selectors))
