-- ===== src/Tests/Hub.antt =====
-- Runs of the code that reads the hub's deployment and activates tokens on the hub.
use rayls_sovereign_tests_au.Shared.{ℕ, String, Option, some, [], ◌∷◌, ◌≡◌, ◌≢◌, refl}
use rayls_sovereign_tests_au.Shared.Text.{◌<>◌, short_hex}
use rayls_sovereign_tests_au.Js.{error, ok, err, Exec}
use rayls_sovereign_tests_au.Logging.{World}
use rayls_sovereign_tests_au.Contracts.{Contract}
use rayls_sovereign_tests_au.Transactions.{Receipt, submit_tx}
use rayls_sovereign_tests_au.Tokens.{Registry, activate_on_hub}
use rayls_sovereign_tests_au.PrivateHub.{
  Table, HubState, new_hub, Deployed, value_of, get_proxy_registry_deployment,
}
use rayls_sovereign_tests_au.PrivateHub.Laws.{
  AllWired, table_from, get_proxy_registry_deployment-AllWired,
}
use rayls_sovereign_tests_au.PrivateHub.Failures.{get_proxy_registry_deployment-hides_failure}
use rayls_sovereign_tests_au.PrivateHub.Registry.{
  RegistryToken, TokenRegistry, hub_of, get_token_from_registry, update_token_status,
}
use rayls_sovereign_tests_au.PrivateHub.RegistryLaws.{ListedFirst, Updated}
use rayls_sovereign_tests_au.PrivateHub.Activation.{HasResource, activate_on_hub-activated}
use rayls_sovereign_tests_au.Tests.{still_host, new_world}
use rayls_sovereign_tests_au.Tests.Assets.{sent, get_registry}

-- The registry names the teleport contract twice, and the hub's events by their old name.
abbrev deployment : Deployed
deployment = record {
  names = "Teleport" ∷ "Dvp" ∷ "Teleport" ∷ "EnygmaCCEvents" ∷ [];
  addresses = "0x1" ∷ "0x2" ∷ "0x3" ∷ "0x4" ∷ [];
}

abbrev get_all_contracts : Exec (World ℕ) Deployed
get_all_contracts w = (ok deployment, w)

abbrev connect : String → Option String → String → Exec (World ℕ) Contract
connect factory_name address key w = (ok (record { address = "0x1"; runner = 0 }), w)

abbrev refuse : String → Option String → String → Exec (World ℕ) Contract
refuse factory_name address key w = (err (error "no network"), w)

last_address : value_of "Teleport" (table_from deployment) ≡ some "0x3"
unfolding value_of rayls_sovereign_tests_au.PrivateHub.named_from
last_address = refl

abbrev wired : HubState × World ℕ
wired = (get_proxy_registry_deployment connect get_all_contracts (new_hub, new_world)).1

wiring_returns :
    get_proxy_registry_deployment connect get_all_contracts (new_hub, new_world)
    ≡ (ok (table_from deployment), (wired.0, wired.1))
unfolding get_proxy_registry_deployment rayls_sovereign_tests_au.PrivateHub.wire_all
    rayls_sovereign_tests_au.PrivateHub.named_from rayls_sovereign_tests_au.PrivateHub.value_of
wiring_returns = refl

get_proxy_registry_deployment-AllWired_example :
    (d : Deployed) × (v : World ℕ) × (get_all_contracts new_world ≡ (ok d, v))
    × (table_from deployment ≡ table_from d)
    × AllWired (table_from d) wired.0
get_proxy_registry_deployment-AllWired_example =
    get_proxy_registry_deployment-AllWired connect get_all_contracts new_world wired.1
      (table_from deployment) wired.0 wiring_returns

abbrev half_wired : HubState
half_wired = (get_proxy_registry_deployment refuse get_all_contracts (new_hub, new_world)).1.0

wiring_fails :
    get_proxy_registry_deployment refuse get_all_contracts (new_hub, new_world)
    ≡ (err (error "no network"), (half_wired, new_world))
unfolding get_proxy_registry_deployment rayls_sovereign_tests_au.PrivateHub.wire_all
wiring_fails = refl

names_something : deployment.names ≢ []
names_something e = absurd (cc)

get_proxy_registry_deployment-hides_failure_example :
    get_proxy_registry_deployment refuse get_all_contracts (half_wired, new_world)
    ≡ (ok (table_from deployment), (half_wired, new_world))
get_proxy_registry_deployment-hides_failure_example =
    get_proxy_registry_deployment-hides_failure refuse get_all_contracts deployment new_world
      new_world new_world half_wired (error "no network") refl names_something wiring_fails

-- The registry lists the token with the status 0.
abbrev listed : RegistryToken
listed = record { symbol = "TKN"; resource_id = "0x5"; status = 0 }

abbrev hub_tokens : TokenRegistry ℕ
hub_tokens = record {
  get_all_tokens = λ w. (ok (listed ∷ []), w);
  get_token_by_resource_id = λ id w. (ok listed, w);
  update_status = λ id n. sent;
}

abbrev get_tokens : Exec (World ℕ) (TokenRegistry ℕ)
get_tokens w = (ok hub_tokens, w)

abbrev resource_id_of : Exec (World ℕ) String
resource_id_of w = (ok "0x5", w)

abbrev activated : World ℕ
activated =
    (activate_on_hub still_host 1 "TKN" "0xc" get_registry
      (hub_of still_host 1 get_tokens get_tokens) resource_id_of new_world).1

activation_returns :
    activate_on_hub still_host 1 "TKN" "0xc" get_registry
      (hub_of still_host 1 get_tokens get_tokens)
      resource_id_of
      new_world
    ≡ (ok "0x5", activated)
unfolding activate_on_hub hub_of rayls_sovereign_tests_au.PrivateHub.Registry.find_token
    rayls_sovereign_tests_au.PrivateHub.Registry.get_token_from_registry
    rayls_sovereign_tests_au.PrivateHub.Registry.update_token_status
    rayls_sovereign_tests_au.Transactions.submit_tx
    rayls_sovereign_tests_au.Transactions.submit_from rayls_sovereign_tests_au.Retry.retry
    rayls_sovereign_tests_au.Retry.retry_from rayls_sovereign_tests_au.Transactions.wait_for_receipt
    rayls_sovereign_tests_au.Transactions.check_receipt rayls_sovereign_tests_au.Polling.eventually
    rayls_sovereign_tests_au.Polling.wait_over rayls_sovereign_tests_au.Polling.poll
    rayls_sovereign_tests_au.Polling.poll_from rayls_sovereign_tests_au.Polling.after_check
    rayls_sovereign_tests_au.Polling.recorded rayls_sovereign_tests_au.Logging.load
    rayls_sovereign_tests_au.Logging.log rayls_sovereign_tests_au.Logging.load_success
    rayls_sovereign_tests_au.Logging.finish_load
activation_returns = refl

activate_on_hub-activated_example :
    (r : Registry ℕ) × (given : Receipt) × (token : RegistryToken) × (v x y z : World ℕ)
    × (get_registry new_world ≡ (ok r, v))
    × (submit_tx still_host
          (r.submit_to_hub "0xc")
          ("Submitting " <> "TKN" <> " to hub (" <> short_hex "0xc" <> ")...")
          v
        ≡ (ok given, x))
    × (given.status ≡ some 1)
    × ListedFirst still_host 1 get_tokens "TKN" token x
    × (get_token_from_registry still_host 1 get_tokens "TKN" x ≡ (ok (some token), y))
    × (token.resource_id ≡ "0x5")
    × (update_token_status still_host 1 get_tokens "0x5" 1 y ≡ (ok tt, z))
    × Updated still_host 1 get_tokens "0x5" 1 y
    × HasResource still_host 1 "TKN" "0xc" get_registry get_tokens get_tokens resource_id_of z
activate_on_hub-activated_example =
    activate_on_hub-activated still_host 1 "TKN" "0xc" get_registry get_tokens get_tokens
      resource_id_of "0x5" new_world activated activation_returns
