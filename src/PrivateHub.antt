-- ===== src/PrivateHub.antt =====
-- src/entities/PrivateHub.ts: the addresses of the hub's contracts, `getProxyRegistryDeployment` and
-- `getInstance`. The deployment registry's answer and the connecting of a contract are parameters.
pub mod Registry
pub mod Laws
pub mod Failures
pub mod RegistryLaws
pub mod Activation
use rayls_sovereign_tests_au.Shared.{
  ℕ, zero, suc, String, Option, none, some, Bool, true, false, List, [], ◌∷◌, map, if◌then◌else◌,
}
use rayls_sovereign_tests_au.Js.{Result, ok, err, Exec, and_then}
use rayls_sovereign_tests_au.Logging.{World}
use rayls_sovereign_tests_au.Contracts.{Contract}
use rayls_sovereign_tests_au.PrivacyNode.{zero_address}
use text.Mathlib.Text.{◌==◌ as str_eq}

-- A row of PNH_CONTRACT_WIRING; the factory is known by its name.
pub record Wiring : Type 0 where
  pub name : String
  pub factory_name : String
  pub cache_key : String
  pub address_field : String

abbrev wiring_row : (name factory_name cache_key address_field : String) → Wiring
wiring_row name factory_name cache_key address_field = record {
  name = name;
  factory_name = factory_name;
  cache_key = cache_key;
  address_field = address_field;
}

abbrev pub pnh_contract_wiring : List Wiring
pnh_contract_wiring =
    wiring_row "ResourceRegistry" "ResourceRegistryV1__factory" "ResourceRegistryV1"
      "resourceRegistryAddress"
    ∷ wiring_row "Teleport" "TeleportV1__factory" "TeleportV1" "teleportAddress"
    ∷ wiring_row "Endpoint" "EndpointV1__factory" "EndpointV1" "endpointAddress"
    ∷ wiring_row "TokenRegistry" "TokenRegistryV1__factory" "TokenRegistryV1" "tokenRegistryAddress"
    ∷ wiring_row "TokenCore" "TokenCoreV1__factory" "TokenCoreV1" "tokenCoreAddress"
    ∷ wiring_row "Proofs" "Proofs__factory" "Proofs" "proofsAddress"
    ∷ wiring_row "ParticipantStorage" "ParticipantStorageV1__factory" "ParticipantStorageV1"
        "participantStorageAddress"
    ∷ wiring_row "Dvp" "Dvp__factory" "Dvp" "dvpAddress"
    ∷ wiring_row "DvpTeleport" "DvpTeleport__factory" "DvpTeleport" "dvpTeleportAddress"
    ∷ []

-- An object used as a map, the key written last at the front. A value may be `undefined`.
abbrev pub Table : Type 0
Table = List (String × Option String)

unfoldable pub value_of : String → Table → Option String
value_of key [] = none
value_of key ((k, v) ∷ table) = if str_eq k key then v else value_of key table

-- The hub's fields that the deployment fills; a field that was not written holds the zero address.
pub record HubState : Type 0 where
  pub names_and_addresses : Table
  pub address_fields : Table

abbrev pub new_hub : HubState
new_hub = record { names_and_addresses = []; address_fields = [] }

abbrev field_in : String → Table → Option String
field_in name [] = some zero_address
field_in name ((k, v) ∷ table) = if str_eq k name then v else field_in name table

unfoldable pub address_field : String → HubState → Option String
address_field name hub = field_in name hub.address_fields

pub record Deployed : Type 0 where
  pub names : List String
  pub addresses : List String

abbrev pub first_of : List String → Option String
first_of [] = none
first_of (a ∷ as') = some a

abbrev pub rest_of : List String → List String
rest_of [] = []
rest_of (a ∷ as') = as'

-- `names.reduce`: each name is written with the address at its index.
unfoldable pub named_from : Table → List String → List String → Table
named_from acc [] addresses = acc
named_from acc (n ∷ names) addresses =
    named_from ((n, first_of addresses) ∷ acc) names (rest_of addresses)

-- The truth of an address that may be missing.
abbrev pub is_present : Option String → Bool
is_present none = false
is_present (some s) = if str_eq s "" then false else true

-- `a ?? b`.
abbrev pub or_else_value : Option String → Option String → Option String
or_else_value none b = b
or_else_value (some a) b = some a

abbrev pub events_address : Table → Option String
events_address table =
    or_else_value (value_of "EnygmaPNEvents" table) (value_of "EnygmaCCEvents" table)

abbrev pub write_field : String → Option String → HubState → HubState
write_field name address hub = record hub { address_fields = (name, address) ∷ hub.address_fields }

-- The hub's own state next to the world.
abbrev pub OnHub : Type 0 → Type 0
OnHub X = HubState × World X

abbrev pub beside_hub :
    {X A : Type 0} → HubState → Result A × World X → Result A × (HubState × World X)
beside_hub hub (r, w) = (r, (hub, w))

module _ {X : Type 0}
    (get_contract_at : (factory_name : String)
      → (address : Option String) → (key : String) → Exec (World X) Contract) where
  abbrev pub connect_and_write :
      (factory_name : String) → Option String → (key name : String) → Exec (OnHub X) (Unit {0})
  connect_and_write factory_name address key name (hub, w) =
      and_then (beside_hub hub (get_contract_at factory_name address key w))
        (λ contract s. (ok tt, (write_field name address s.0, s.1)))

  abbrev pub wire : Wiring → Exec (OnHub X) (Unit {0})
  wire row s =
      connect_and_write row.factory_name (value_of row.name (s.0).names_and_addresses) row.cache_key
        row.address_field s

  -- The loop over the table: a row's contract is connected, then its address is written.
  unfoldable pub wire_all : List Wiring → Exec (OnHub X) (Unit {0})
  wire_all [] s = (ok tt, s)
  wire_all (row ∷ rows) s = and_then (wire row s) (λ done. wire_all rows)

  abbrev pub wire_events : Unit {0} → Exec (OnHub X) (Unit {0})
  wire_events done s =
      let address = events_address (s.0).names_and_addresses in
      if is_present address
      then connect_and_write "EnygmaPNEvents__factory" address "EnygmaPNEvents"
          "enygmaPNEventsAddress" s
      else (ok tt, s)

  abbrev pub table_of : Unit {0} → Exec (OnHub X) Table
  table_of done s = (ok (s.0).names_and_addresses, s)

  abbrev pub wire_deployment : Deployed → Exec (OnHub X) Table
  wire_deployment deployment (hub, w) =
      let table = named_from [] deployment.names deployment.addresses in
      and_then
        (and_then (wire_all pnh_contract_wiring (record hub { names_and_addresses = table }, w))
          wire_events)
        table_of

  -- A table that is there is returned, whatever became of the wiring behind it.
  abbrev pub deploy_unless :
      Table → (get_all_contracts : Exec (World X) Deployed) → Exec (OnHub X) Table
  deploy_unless [] get_all_contracts (hub, w) =
      and_then (beside_hub hub (get_all_contracts w)) wire_deployment
  deploy_unless (entry ∷ table) get_all_contracts s = (ok (entry ∷ table), s)

  unfoldable pub get_proxy_registry_deployment :
      (get_all_contracts : Exec (World X) Deployed) → Exec (OnHub X) Table
  get_proxy_registry_deployment get_all_contracts (hub, w) =
      deploy_unless hub.names_and_addresses get_all_contracts (hub, w)

  -- `getInstance`: the one hub of the process is kept once it is initialized; until then each call
  -- begins with a new hub.
  abbrev pub keep_instance :
      Result Table × (HubState × World X) → Result HubState × (Option HubState × World X)
  keep_instance (ok table, (hub, w)) = (ok hub, (some hub, w))
  keep_instance (err e, (hub, w)) = (err e, (none, w))

  unfoldable pub get_instance :
      (get_all_contracts : Exec (World X) Deployed) → Exec (Option HubState × World X) HubState
  get_instance get_all_contracts (some hub, w) = (ok hub, (some hub, w))
  get_instance get_all_contracts (none, w) =
      keep_instance (get_proxy_registry_deployment get_all_contracts (new_hub, w))
