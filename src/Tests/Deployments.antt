-- ===== src/Tests/Deployments.antt =====
-- A deployment of a token through the factory of its node.
use rayls_sovereign_tests_au.Shared.{ℕ, suc, String, none, some, false, [], ◌∷◌, if◌then◌else◌}
use rayls_sovereign_tests_au.Js.{ok, Exec}
use rayls_sovereign_tests_au.Logging.{World}
use rayls_sovereign_tests_au.Contracts.{Contract}
use rayls_sovereign_tests_au.PrivacyNode.Resources.{StorePlace}
use rayls_sovereign_tests_au.Transactions.{Log, Receipt, Response}
use rayls_sovereign_tests_au.Tokens.Factory.{FactoryEvent, RnFactory, Template, deploy_via_factory}
use rayls_sovereign_tests_au.Tests.{still_host, new_world}
use rayls_sovereign_tests_au.Tests.Nodes.{node_calls, node_settings}
use text.Mathlib.Text.{◌==◌ as str_eq}

abbrev log_of : String → Log
log_of payload = record { address = none; topics = []; payload = payload }

-- The first log is of another contract, the third a second deployment.
abbrev deployment_receipt : Receipt
deployment_receipt = record {
  status = some 1;
  block_number = 1;
  logs = log_of "other" ∷ log_of "0x7" ∷ log_of "0x8" ∷ [];
}

abbrev rn_factory : String → RnFactory ℕ
rn_factory address = record {
  test_key = λ w. (ok "test", w);
  production_key = λ w. (ok "production", w);
  deploy_registered_as_user = λ key arguments w. (
    ok (record { hash = "0x1"; settled = λ ms x. (some (ok (some deployment_receipt)), x) }),
    record w { outside = suc w.outside },
  );
  parse_log = λ l.
      if str_eq l.payload "other"
      then none
      else some (record { name = "RegisteredContractDeployed"; deployed_address = some l.payload });
}

-- A store that keeps nothing.
abbrev no_store : StorePlace ℕ
no_store = record { cache_of = λ x. []; put_cache = λ cache x. x }

abbrev connect_there : String → String → ℕ → Exec (World ℕ) Contract
connect_there name address signer w = (ok (record { address = address; runner = signer }), w)

abbrev template : Template
template = record {
  name = "Token";
  symbol = "TKN";
  factory_name = "ProductionErc20Token__factory";
  is_test = false;
}

abbrev encode : String → String → ℕ → String
encode name symbol decimals = "0x00"

abbrev contract_there : Contract
contract_there = record { address = "0x7"; runner = 4 }

abbrev deployed : World ℕ
deployed =
    (deploy_via_factory still_host node_calls node_settings no_store connect_there rn_factory encode
      template 18 4 new_world).1
