-- ===== src/Tests/Nodes.antt =====
-- Runs of a privacy node: a registry that gives one address, and an access manager that counts grants.
use rayls_sovereign_tests_au.Shared.{
  ℕ, suc, ◌≤◌, String, Option, none, Bool, true, leb, leb→le, [], ◌∷◌, ◌≡◌, refl, ap, subst, arith,
}
use rayls_sovereign_tests_au.Js.{Result, ok}
use rayls_sovereign_tests_au.Logging.{World}
use rayls_sovereign_tests_au.Transactions.{Response, Receipt}
use rayls_sovereign_tests_au.PrivacyNode.{
  NodeCalls, NodeSettings, resolve_from_registry, grant_endpoint_sender,
}
use rayls_sovereign_tests_au.PrivacyNode.Laws.{
  Resolved, resolve_from_registry-Resolved, AllGranted, grant_endpoint_sender-AllGranted,
}
use rayls_sovereign_tests_au.Tests.{clock_host, new_world}
use rayls_sovereign_tests_au.Js.{Exec}
use rayls_sovereign_tests_au.Shared.{false}
use rayls_sovereign_tests_au.Logging.{Host}
use rayls_sovereign_tests_au.Contracts.{Contract, Cache, connect_at, get}
use rayls_sovereign_tests_au.Polling.Loads.{Reached}
use rayls_sovereign_tests_au.Tokens.{is_true}
use rayls_sovereign_tests_au.PrivacyNode.{zero_address}
use rayls_sovereign_tests_au.PrivacyNode.Resources.{
  StorePlace, in_store, node_message, node_poll, set_contract_by_resource_id,
  set_contract_by_resource_id-connected, hub_check,
}
use rayls_sovereign_tests_au.Tests.{new_logger}
use text.Mathlib.Text.{◌==◌ as str_eq}

abbrev sent : Response ℕ
sent = record { hash = "0x1"; settled = λ ms x. (none, x) }

-- Any account holds a role once a grant was made.
abbrev pub node_calls : NodeCalls ℕ
node_calls = record {
  get_contract = λ registry name w. (ok "0xabc", w);
  get_code = λ address w. (ok "0x60", w);
  get_role_id_by_name = λ manager name w. (ok "7", w);
  has_role = λ manager role account w. (ok (leb 1 w.outside), w);
  grant_role = λ granter manager role account w. (ok sent, record w { outside = suc w.outside });
  settle = λ response w. (ok none, w);
}

abbrev pub node_settings : NodeSettings
node_settings = record {
  node = "A";
  chain_id = "149402";
  deployment_proxy_registry_address = "0xdef";
  admin_wallet = "0x01";
  operator_wallet = "0x02";
  bank_employee_wallet = "0x03";
}

abbrev Granted : (manager role account : String) → ℕ → Type 0
Granted manager role account x = 1 ≤ x

outside_of : {A : Type 0} (a b : Result A × World ℕ) → a ≡ b → a.1.outside ≡ b.1.outside
outside_of a b h = ap (λ p. p.1.outside) h

told_true :
    (a b : Bool) (w t : World ℕ) → ◌≡◌ {A = Result Bool × World ℕ} (ok a, w) (ok b, t) → a ≡ b
told_true a b w t h = cc

resolve_from_registry-Resolved_example :
    Resolved clock_host node_calls node_settings "Endpoint" "0xabc" new_world
unfolding resolve_from_registry rayls_sovereign_tests_au.Retry.retry
    rayls_sovereign_tests_au.Retry.retry_from
resolve_from_registry-Resolved_example =
    resolve_from_registry-Resolved clock_host node_calls node_settings "Endpoint" "0xabc" new_world
      new_world refl

abbrev one_granted : World ℕ
one_granted =
    (grant_endpoint_sender clock_host node_calls node_settings ("0xa" ∷ "0xb" ∷ []) new_world).1

has_role_told :
    (m r a : String) (w t : World ℕ)
    → node_calls.has_role m r a w ≡ (ok true, t)
    → Granted m r a t.outside
has_role_told m r a w t h =
    subst (λ x. 1 ≤ x) (outside_of _ _ h)
      (leb→le 1 w.outside (told_true (leb 1 w.outside) true w t h))

has_role_keeps :
    (m r a b : String) (has : Bool) (w t : World ℕ)
    → node_calls.has_role m r a w ≡ (ok has, t)
    → Granted m r b w.outside
    → Granted m r b t.outside
has_role_keeps m r a b has w t h held = subst (λ x. 1 ≤ x) (outside_of _ _ h) held

grant_gives :
    (g m r a : String) (response : Response ℕ) (receipt : Option Receipt) (w u t : World ℕ)
    → node_calls.grant_role g m r a w ≡ (ok response, u)
    → node_calls.settle response u ≡ (ok receipt, t)
    → Granted m r a t.outside
grant_gives g m r a response receipt w u t h k =
    subst (λ x. 1 ≤ x) (outside_of _ _ k) (subst (λ x. 1 ≤ x) (outside_of _ _ h) (omega arith))

grant_endpoint_sender-AllGranted_example :
    AllGranted clock_host node_calls node_settings Granted "ENDPOINT_SENDER"
      ("0xa" ∷ "0xb" ∷ [])
      one_granted
unfolding grant_endpoint_sender resolve_from_registry rayls_sovereign_tests_au.Retry.retry
    rayls_sovereign_tests_au.Retry.retry_from
grant_endpoint_sender-AllGranted_example =
    grant_endpoint_sender-AllGranted clock_host node_calls node_settings Granted has_role_told
      has_role_keeps grant_gives
      (λ g m r a b response receipt w u t h k held. grant_gives g m r a response receipt w u t h k)
      ("0xa" ∷ "0xb" ∷ []) new_world one_granted refl

-- The outside is the node's store.
abbrev store_host : Host Cache
store_host = record {
  wait = λ ms x. x;
  now = λ x. 0;
  error_string = λ e. "Error";
  encode_uri = λ s. s;
  json_string = λ s. s;
  env = λ s. none;
}

abbrev whole_store : StorePlace Cache
whole_store = record { cache_of = λ x. x; put_cache = λ c x. c }

abbrev connect_there : String → String → ℕ → Exec (World Cache) Contract
connect_there name address signer w = (ok (record { address = address; runner = signer }), w)

abbrev empty_store : World Cache
empty_store = record { logger = new_logger; outside = [] }

abbrev known_at : String → (resource_id : String) → Exec (World Cache) String
known_at address resource_id w = (ok address, w)

abbrev connected_store : World Cache
connected_store =
    (set_contract_by_resource_id whole_store connect_there (known_at "0xabc") store_host 1 "149402"
      "Token" "0x11" "token" 4 empty_store).1

set_contract_by_resource_id-connected_example :
    (get "token" connected_store.outside ≡ ok (record { address = "0xabc"; runner = 4 }))
    × (z v u : World Cache) × (address : String) × (d : Contract) × Reached store_host 1 is_true
        (node_message whole_store connect_there (known_at "0xabc") "Token" "0x11" "149402")
        (node_poll whole_store connect_there (known_at "0xabc") "Token" "0x11" "token" 4)
        empty_store
        z
    × (known_at "0xabc" "0x11" z ≡ (ok address, v))
    × (str_eq address zero_address ≡ false)
    × (in_store whole_store (connect_at connect_there "Token" address "token" 4) v ≡ (ok d, u))
unfolding set_contract_by_resource_id rayls_sovereign_tests_au.Polling.eventually
    rayls_sovereign_tests_au.Polling.wait_over rayls_sovereign_tests_au.Polling.poll
    rayls_sovereign_tests_au.Polling.poll_from rayls_sovereign_tests_au.Polling.after_check
    rayls_sovereign_tests_au.Polling.recorded connect_at rayls_sovereign_tests_au.Contracts.lookup
    rayls_sovereign_tests_au.Logging.load get rayls_sovereign_tests_au.Logging.load_success
    rayls_sovereign_tests_au.Logging.finish_load rayls_sovereign_tests_au.Contracts.set
    rayls_sovereign_tests_au.Contracts.format_factory_name
    rayls_sovereign_tests_au.Contracts.has_suffix
set_contract_by_resource_id-connected_example =
    set_contract_by_resource_id-connected whole_store connect_there (known_at "0xabc") store_host 1
      "149402" "Token" "0x11" "token" 4 empty_store connected_store
      (record { address = "0xabc"; runner = 4 }) refl

-- The hub's check takes the zero address for a resource that is resolved.
hub_takes_zero_address :
    (hub_check whole_store connect_there
      (known_at zero_address)
      "Token"
      "0x11"
      "token"
      4
      empty_store).0
    ≡ ok true
unfolding hub_check connect_at rayls_sovereign_tests_au.Contracts.lookup
hub_takes_zero_address = refl
