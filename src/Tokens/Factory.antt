-- ===== src/Tokens/Factory.antt =====
-- `deployViaFactory` of src/entities/tokens/ERC20Wrapper.ts and of EnygmaWrapper.ts, with `getRnFactory`
-- and `connectFactoryDeployed` of BaseTokenWrapper.ts; and `deploy`, `mintAndAwait` and `transfer` of
-- the ERC20 wrapper. The factory's contract, the encoding of arguments and the connecting of a contract
-- are parameters.
pub mod Laws
use rayls_sovereign_tests_au.Shared.{
  ℕ, ◌+◌, ◌==◌, String, Option, none, some, Bool, true, false, List, [], ◌∷◌, ◌++◌, if◌then◌else◌,
}
use rayls_sovereign_tests_au.Shared.Text.{◌<>◌, show, short_hex}
use rayls_sovereign_tests_au.Js.{JsError, error, ok, err, Exec, and_then}
use rayls_sovereign_tests_au.Logging.{Host, World, log}
use rayls_sovereign_tests_au.Contracts.{Contract, connect_at}
use rayls_sovereign_tests_au.PrivacyNode.{NodeCalls, NodeSettings, resolve_from_registry}
use rayls_sovereign_tests_au.PrivacyNode.Resources.{StorePlace, in_store}
use rayls_sovereign_tests_au.Transactions.{Log, Receipt, Response, submit_tx, send_tx}
use rayls_sovereign_tests_au.Tokens.Reads.{await_read}
use text.Mathlib.Text.{◌==◌ as str_eq}

-- A log as the factory's interface parses it, and the argument `deployedAddress` if it has one.
pub record FactoryEvent : Type 0 where
  pub name : String
  pub deployed_address : Option String

-- The factory at an address. `parse_log` gives nothing where `parseLog` throws or gives `null`. The two
-- keys are those of the token's standard.
pub record RnFactory (X : Type 0) : Type 0 where
  pub test_key : Exec (World X) String
  pub production_key : Exec (World X) String
  pub deploy_registered_as_user : (key arguments : String) → Exec (World X) (Response X)
  pub parse_log : Log → Option FactoryEvent

-- What a wrapper of either standard deploys.
pub record Template : Type 0 where
  pub name : String
  pub symbol : String
  pub factory_name : String
  pub is_test : Bool

abbrev pub is_deployment : Option FactoryEvent → Bool
is_deployment none = false
is_deployment (some e) = str_eq e.name "RegisteredContractDeployed"

abbrev pub address_of : Option FactoryEvent → Option String
address_of none = none
address_of (some e) = e.deployed_address

-- The address in the first event of a deployment; a later one is not looked at.
unfoldable pub deployed_in : (Log → Option FactoryEvent) → List Log → Option String
deployed_in parse [] = none
deployed_in parse (l ∷ logs) = elim (is_deployment (parse l)) [
  | true ↦ address_of (parse l)
  | false ↦ deployed_in parse logs
]

module _ {X : Type 0} (host : Host X) (calls : NodeCalls X) (node : NodeSettings)
    (place : StorePlace X) (connect : String → String → ℕ → Exec (World X) Contract)
    (factory_at : String → RnFactory X)
    (encode : (name symbol : String) → (decimals : ℕ) → String) where
  unfoldable pub get_rn_factory : Exec (World X) (RnFactory X)
  get_rn_factory w =
      and_then (resolve_from_registry host calls node "RNContractFactory" w)
        (λ address v. (ok (factory_at address), v))

  abbrev pub not_emitted : Template → JsError
  not_emitted template =
      error ("deploy*AsUser: RegisteredContractDeployed not emitted for " <> template.symbol)

  -- Returns the deployed address, which the wrapper records for its node, with the contract.
  abbrev pub connect_named :
      Template → (signer : ℕ) → (address : String) → Exec (World X) (String × Contract)
  connect_named template signer address w =
      and_then
        (in_store place (connect_at connect template.factory_name address template.symbol signer) w)
        (λ contract v. (ok (address, contract), v))

  abbrev pub connect_deployed :
      Template → (signer : ℕ) → Option String → Exec (World X) (String × Contract)
  connect_deployed template signer none w = (err (not_emitted template), w)
  connect_deployed template signer (some address) w =
      if str_eq address ""
      then (err (not_emitted template), w)
      else connect_named template signer address w

  unfoldable pub connect_factory_deployed :
      Template → (signer : ℕ) → RnFactory X → Receipt → Exec (World X) (String × Contract)
  connect_factory_deployed template signer factory receipt =
      connect_deployed template signer (deployed_in factory.parse_log receipt.logs)

  abbrev pub template_key : Template → RnFactory X → Exec (World X) String
  template_key template factory =
      if template.is_test then factory.test_key else factory.production_key

  abbrev pub deploy_message : Template → String
  deploy_message template =
      "Factory-deploying " <> template.symbol <> " as user (" <> template.factory_name <> ")..."

  abbrev pub deploy_keyed :
      Template
      → (decimals signer : ℕ) → RnFactory X
      → (key : String) → Exec (World X) (String × Contract)
  deploy_keyed template decimals signer factory key w =
      and_then
        (submit_tx host
          (factory.deploy_registered_as_user key (encode template.name template.symbol decimals))
          (deploy_message template) w)
        (connect_factory_deployed template signer factory)

  abbrev pub deploy_from :
      Template → (decimals signer : ℕ) → RnFactory X → Exec (World X) (String × Contract)
  deploy_from template decimals signer factory w =
      and_then (template_key template factory w) (deploy_keyed template decimals signer factory)

  -- `deployViaFactory` of the Enygma wrapper.
  unfoldable pub deploy_via_factory :
      Template → (decimals signer : ℕ) → Exec (World X) (String × Contract)
  deploy_via_factory template decimals signer w =
      and_then (get_rn_factory w) (deploy_from template decimals signer)

  -- The ERC20 wrapper refuses the one factory that has no template.
  unfoldable pub deploy_erc20_via_factory :
      (is_batch_teleport : Bool)
      → Template
      → (decimals signer : ℕ) → Exec (World X) (String × Contract)
  deploy_erc20_via_factory true template decimals signer w = (
    err (
        error
          "Erc20BatchTeleport has no seeded factory bytecode; use deploy() + activateOnPn() + activateOnHub()"),
    w,
  )
  deploy_erc20_via_factory false template decimals signer w =
      deploy_via_factory template decimals signer w

-- The arguments that `deploy` of the ERC20 wrapper gives to the constructor.
unfoldable pub erc20_constructor_args :
    (is_batch_teleport : Bool)
    → (name symbol endpoint_address rayls_node_endpoint_address user_governance : String)
    → List String
erc20_constructor_args is_batch_teleport name symbol endpoint_address rayls_node_endpoint_address
      user_governance =
    (name ∷ symbol ∷ endpoint_address ∷ rayls_node_endpoint_address ∷ [])
    ++ (if is_batch_teleport then [] else user_governance ∷ [])

pub record Erc20 (X : Type 0) : Type 0 where
  pub balance_of : String → Exec (World X) ℕ
  pub mint : String → ℕ → Exec (World X) (Response X)
  pub transfer_to : String → ℕ → Exec (World X) (Response X)

module _ {X : Type 0} (host : Host X) (workers : ℕ) (symbol : String) (contract : Erc20 X) where
  unfoldable pub mint_and_await : (to_address : String) → (amount : ℕ) → Exec (World X) (Unit {0})
  mint_and_await to_address amount w = and_then (contract.balance_of to_address w) (λ before v.
      and_then (submit_tx host (contract.mint to_address amount) ("Minting " <> symbol) v)
        (λ receipt u.
          await_read (contract.balance_of to_address) (λ n. n == before + amount) host workers
            ("Waiting for "
              <> symbol
              <> " PL balance → "
              <> show (before + amount)
              <> " for "
              <> short_hex to_address)
            (log ("Waiting for balance " <> show (before + amount) <> " and args " <> to_address)
              u)))

  unfoldable pub transfer : (to : String) → (amount : ℕ) → Exec (World X) (Unit {0})
  transfer to amount w =
      and_then
        (send_tx host (contract.transfer_to to amount) (some ("transfer " <> symbol))
          (log ("Transferring " <> show amount <> " " <> symbol <> " to " <> to) w))
        (λ receipt v. (
          ok tt,
          log ("Token transfer successful: " <> show amount <> " " <> symbol <> " → " <> to) v,
        ))
