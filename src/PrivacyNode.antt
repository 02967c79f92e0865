-- ===== src/PrivacyNode.antt =====
-- src/entities/PrivacyNode.ts, and what src/entities/PrivateHub.ts shares with it: contracts looked up in
-- the registry of deployments, roles granted by the access manager, and contracts connected under keys
-- of the node's store. The calls of contracts and providers are parameters, with the address of the
-- contract in front.
pub mod Laws
pub mod Resources
use rayls_sovereign_tests_au.Shared.{
  ℕ, String, Option, none, some, Bool, true, false, ◌||◌, List, [], ◌∷◌, if◌then◌else◌,
}
use rayls_sovereign_tests_au.Shared.Text.{◌<>◌, show, short_hex}
use rayls_sovereign_tests_au.Js.{JsError, error, Result, ok, err, Exec, and_then}
use rayls_sovereign_tests_au.Errors.{is_nonce_error, is_transient_rpc_error}
use rayls_sovereign_tests_au.Logging.{Host, World, log, delay}
use rayls_sovereign_tests_au.Retry.{RetryOptions, retry}
use rayls_sovereign_tests_au.Compose.{join_spaces}
use rayls_sovereign_tests_au.Polling.{PollOptions, eventually}
use rayls_sovereign_tests_au.Contracts.{Contract, Cache, format_factory_name, connect_at, get}
use rayls_sovereign_tests_au.Transactions.{Response, Receipt, send_tx}
use text.Mathlib.Text.{◌==◌ as str_eq}

abbrev pub zero_address : String
zero_address = "0x0000000000000000000000000000000000000000"

-- `getContract` of a registry, `getCode` of the provider, and the access manager's functions; the
-- granter is the address of the signer that the manager is connected to, and `settle` is `tx.wait()`.
pub record NodeCalls (X : Type 0) : Type 0 where
  pub get_contract : (registry name : String) → Exec (World X) String
  pub get_code : (address : String) → Exec (World X) String
  pub get_role_id_by_name : (manager name : String) → Exec (World X) String
  pub has_role : (manager role account : String) → Exec (World X) Bool
  pub grant_role : (granter manager role account : String) → Exec (World X) (Response X)
  pub settle : Response X → Exec (World X) (Option Receipt)

-- The settings of a node, and the addresses of its wallets; a registry that is not set is empty.
pub record NodeSettings : Type 0 where
  pub node : String
  pub chain_id : String
  pub deployment_proxy_registry_address : String
  pub admin_wallet : String
  pub operator_wallet : String
  pub bank_employee_wallet : String

abbrev pub is_unset : String → Bool
is_unset s = str_eq s ""

-- `join(', ')`.
abbrev pub join_commas : List String → String
join_commas [] = ""
join_commas (a ∷ []) = a
join_commas (a ∷ b ∷ as') = a <> ", " <> join_commas (b ∷ as')

unfoldable pub granted_line : (role_name : String) → List String → String
granted_line role_name accounts = "Granted " <> role_name <> " to " <> join_commas accounts

module _ {X : Type 0} (host : Host X) (calls : NodeCalls X) (node : NodeSettings) where
  abbrev pub code_options : (name : String) → RetryOptions (World X)
  code_options name = record {
    attempts = some 5;
    delay_ms = some 300;
    retry_if = some is_transient_rpc_error;
    on_retry = some (λ e i w. (
      ok tt,
      log
          ("[RPC RETRY] getCode for "
            <> name
            <> " on PN "
            <> node.node
            <> " (attempt "
            <> show i
            <> "/5)")
          w,
    ));
  }

  abbrev pub code_of : (name address : String) → Exec (World X) String
  code_of name address = retry (delay host) (code_options name) (calls.get_code address)

  abbrev pub with_code : (name address code : String) → Exec (World X) String
  with_code name address code w =
      if is_unset code || str_eq code "0x"
      then (
        err (
            error (
              "No code at address " <> address <> " (registered as '" <> name <> "' on PN "
              <> node.node <> ")")),
        w,
      )
      else (ok address, w)

  abbrev pub registered_at : (name address : String) → Exec (World X) String
  registered_at name address w =
      if is_unset address || str_eq address zero_address
      then (
        err (
            error (
              "Contract '" <> name <> "' not registered in DeploymentProxyRegistry on PN "
              <> node.node)),
        w,
      )
      else and_then (code_of name address w) (with_code name address)

  unfoldable pub resolve_from_registry : (name : String) → Exec (World X) String
  resolve_from_registry name w =
      if is_unset node.deployment_proxy_registry_address
      then (err (error "Deployment proxy registry is not set in the .env file"), w)
      else and_then (calls.get_contract node.deployment_proxy_registry_address name w)
          (registered_at name)

  -- The access manager, known by its address.
  unfoldable pub get_access_manager : Exec (World X) String
  unfolding resolve_from_registry
  get_access_manager = resolve_from_registry "RaylsAccessManager"

  abbrev pub grant_and_settle :
      (granter manager role account : String) → Exec (World X) (Option Receipt)
  grant_and_settle granter manager role account w =
      and_then (calls.grant_role granter manager role account w) calls.settle

  abbrev pub grant_unless : (has : Bool) (manager role account : String) → Exec (World X) (Unit {0})
  grant_unless true manager role account w = (ok tt, w)
  grant_unless false manager role account w =
      and_then (grant_and_settle node.admin_wallet manager role account w) (λ receipt t. (ok tt, t))

  -- The loop over the accounts.
  unfoldable pub grant_each : (manager role : String) → List String → Exec (World X) (Unit {0})
  grant_each manager role [] w = (ok tt, w)
  grant_each manager role (a ∷ as') w =
      and_then (calls.has_role manager role a w) (λ has u.
        and_then (grant_unless has manager role a u) (λ done. grant_each manager role as'))

  abbrev pub grant_named : (role_name : String) → List String → Exec (World X) (Unit {0})
  grant_named role_name accounts w = and_then (get_access_manager w) (λ manager u.
      and_then (calls.get_role_id_by_name manager role_name u) (λ role v.
        and_then (grant_each manager role accounts v)
          (λ done t. (ok tt, log (granted_line role_name accounts) t))))

  unfoldable pub grant_endpoint_sender : List String → Exec (World X) (Unit {0})
  unfolding grant_each get_access_manager
  grant_endpoint_sender = grant_named "ENDPOINT_SENDER"

  unfoldable pub grant_resource_registrar : List String → Exec (World X) (Unit {0})
  unfolding grant_each get_access_manager
  grant_resource_registrar = grant_named "RESOURCE_REGISTRAR"

  -- A role of one of the node's own wallets, granted by another one.
  abbrev pub grant_sent :
      (has : Bool) (granter manager role account context line : String) → Exec (World X) (Unit {0})
  grant_sent true granter manager role account context line w = (ok tt, w)
  grant_sent false granter manager role account context line w =
      and_then (send_tx host (calls.grant_role granter manager role account) (some context) w)
        (λ receipt t. (ok tt, log line t))

  abbrev pub grant_wallet_role :
      (role_name granter account context line : String) → Exec (World X) (Unit {0})
  grant_wallet_role role_name granter account context line w =
      and_then (get_access_manager w) (λ manager u.
        and_then (calls.get_role_id_by_name manager role_name u) (λ role v.
          and_then (calls.has_role manager role account v)
            (λ has. grant_sent has granter manager role account context line)))

  unfoldable pub grant_operator_role : Exec (World X) (Unit {0})
  unfolding get_access_manager
  grant_operator_role =
      grant_wallet_role "PRIVACY_NODE_OPERATOR" node.admin_wallet node.operator_wallet
        "grantOperatorRole"
        ("Granted PRIVACY_NODE_OPERATOR to operatorWallet " <> node.operator_wallet)

  unfoldable pub grant_bank_employee_role : Exec (World X) (Unit {0})
  unfolding get_access_manager
  grant_bank_employee_role =
      grant_wallet_role "BANK_EMPLOYEE" node.operator_wallet node.bank_employee_wallet
        "grantBankEmployeeRole"
        ("Granted BANK_EMPLOYEE to bankEmployeeWallet " <> node.bank_employee_wallet)

  abbrev pub funding_options : RetryOptions (World X)
  funding_options = record {
    attempts = some 5;
    delay_ms = some 500;
    retry_if = some (λ e. is_nonce_error e || is_transient_rpc_error e);
    on_retry =
        some (λ e i w.
          (ok tt, log ("[TX RETRY] makeRoleHolder funding attempt " <> show i <> "/5") w));
  }

  -- `fund` sends the ether to the new wallet, and `wallet` is its address.
  unfoldable pub make_role_holder :
      (fund : (to : String) → Exec (World X) (Response X)) (wallet role_name granter : String)
      → Exec (World X) String
  unfolding get_access_manager
  make_role_holder fund wallet role_name granter w =
      and_then (retry (delay host) funding_options (λ s. and_then (fund wallet s) calls.settle) w)
        (λ funded u. and_then (get_access_manager u) (λ manager v.
          and_then (calls.get_role_id_by_name manager role_name v) (λ role z.
            and_then
              (send_tx host (calls.grant_role granter manager role wallet)
                (some ("makeRoleHolder grantRole " <> role_name)) z)
              (λ receipt t. (ok wallet, t)))))

-- The key of `getContractAt`: with a signer, the contract is stored under a key of its own.
abbrev pub cache_key : (key : String) (signer_address : Option String) → String
cache_key key none = format_factory_name key
cache_key key (some address) = format_factory_name key <> "_" <> address

abbrev pub effective_signer : (user_wallet : ℕ) → Option (String × ℕ) → ℕ
effective_signer user_wallet none = user_wallet
effective_signer user_wallet (some (address, signer)) = signer

abbrev address_of : Option (String × ℕ) → Option String
address_of none = none
address_of (some (address, signer)) = some address

module _ {X : Type 0} where
  -- A signer is its address and its number.
  unfoldable pub get_contract_at :
      (connect : String → String → ℕ → Exec (World X) Contract)
      → (user_wallet : ℕ) (factory_name address key : String) (signer : Option (String × ℕ))
      → Exec (Cache × World X) Contract
  get_contract_at connect user_wallet factory_name address key signer =
      connect_at connect factory_name address (cache_key key (address_of signer))
        (effective_signer user_wallet signer)
