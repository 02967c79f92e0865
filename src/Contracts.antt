-- ===== src/Contracts.antt =====
-- src/entities/ContractStore.ts: the cache of a node's contracts, with `formatFactoryName` of
-- src/utils/formatters.ts. Connecting and deploying are parameters. A contract is known by its
-- address and the signer that runs it.
pub mod Laws
use rayls_sovereign_tests_au.Shared.{
  ℕ, ◌-◌, String, Option, none, some, Bool, true, false, ◌&&◌, List, [], ◌∷◌, ◌≡◌, refl, ◌==◌, leb,
  if◌then◌else◌,
}
use rayls_sovereign_tests_au.Shared.Text.{
  ◌<>◌, show, codes, list_eq, code_drop, text_take, count_chars,
}
use rayls_sovereign_tests_au.Js.{JsError, error, Result, ok, err, Exec, and_then}
use rayls_sovereign_tests_au.Errors.{is_nonce_error}
use rayls_sovereign_tests_au.Logging.{Host, World, log, delay}
use rayls_sovereign_tests_au.Retry.{RetryOptions, retry}
use text.Mathlib.Text.{◌==◌ as str_eq}

pub record Contract : Type 0 where
  pub address : String
  pub runner : ℕ

-- The map of contracts, the entry written last at the front.
abbrev pub Cache : Type 0
Cache = List (String × Contract)

unfoldable pub has_suffix : String → String → Bool
has_suffix suffix s =
    leb (count_chars suffix) (count_chars s)
    && list_eq (codes suffix) (code_drop (count_chars s - count_chars suffix) (codes s))

-- The name without `__factory` at its end.
unfoldable pub format_factory_name : String → String
format_factory_name name =
    if has_suffix "__factory" name then text_take (count_chars name - 9) name else name

format_factory_name_example : format_factory_name "Token__factory" ≡ "Token"
unfolding format_factory_name has_suffix text_take
format_factory_name_example = refl

unfoldable pub lookup : String → Cache → Option Contract
lookup key [] = none
lookup key ((k, c) ∷ cache) = let rest = lookup key cache in if str_eq k key then some c else rest

unfoldable pub set : String → Contract → Cache → Cache
set key contract cache = (key, contract) ∷ cache

abbrev pub found : String → Option Contract → Result Contract
found key none = err (error ("Contract \"" <> key <> "\" not found"))
found key (some c) = ok c

-- `get`, which throws for a key that is not there.
unfoldable pub get : String → Cache → Result Contract
get key cache = found key (lookup key cache)

abbrev present : Option Contract → Bool
present none = false
present (some c) = true

unfoldable pub has : String → Cache → Bool
has key cache = present (lookup key cache)

module _ {X : Type 0} where
  abbrev pub store_connected :
      String → Cache → Result Contract × World X → Result Contract × (Cache × World X)
  store_connected key cache (ok c, w) = (ok c, (set key c cache, w))
  store_connected key cache (err e, w) = (err e, (cache, w))

  -- A contract in the cache is taken if its runner is the signer; any other is connected anew.
  abbrev pub connect_unless :
      String → ℕ → Exec (World X) Contract → Option Contract → Exec (Cache × World X) Contract
  connect_unless key signer connect none (cache, w) = store_connected key cache (connect w)
  connect_unless key signer connect (some c) (cache, w) =
      if c.runner == signer then (ok c, (cache, w)) else store_connected key cache (connect w)

  -- `get_contract_at` is hardhat's, with the name, the address and the signer.
  unfoldable pub connect_at :
      (get_contract_at : String → String → ℕ → Exec (World X) Contract)
      → (factory_name address key : String) → ℕ
      → Exec (Cache × World X) Contract
  connect_at get_contract_at factory_name address key signer (cache, w) =
      let formatted_key = format_factory_name key in
      connect_unless formatted_key signer
        (get_contract_at (format_factory_name factory_name) address signer)
        (lookup formatted_key cache) (cache, w)

  abbrev pub deploy_options : String → RetryOptions (World X)
  deploy_options key = record {
    attempts = some 5;
    delay_ms = some 500;
    retry_if = some is_nonce_error;
    on_retry =
        some
          (λ e i w. (ok tt, log ("[NONCE RETRY] Deploy attempt " <> show i <> "/5 for " <> key) w));
  }

  abbrev pub store_deployed :
      String → Cache → Result Contract × World X → Result Contract × (Cache × World X)
  store_deployed key cache (ok c, w) =
      (ok c, (set key c cache, log ("Deployed contract successfully " <> c.address) w))
  store_deployed key cache (err e, w) = (err e, (cache, w))

  -- `deploy_once` deploys with the factory and waits for the deployment.
  unfoldable pub deploy :
      Host X → (deploy_once : Exec (World X) Contract) → String → Exec (Cache × World X) Contract
  deploy host deploy_once key (cache, w) =
      store_deployed key cache (retry (delay host) (deploy_options key) deploy_once w)
