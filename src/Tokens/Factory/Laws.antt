-- ===== src/Tokens/Factory/Laws.antt =====
-- What has been seen when a deployment through the node's factory returns.
use rayls_sovereign_tests_au.Shared.{
  ℕ, String, Option, some, true, false, List, ◌∷◌, ◌++◌, ◌≡◌, AllOf,
}
use rayls_sovereign_tests_au.Js.{ok, Exec}
use rayls_sovereign_tests_au.Logging.{Host, World}
use rayls_sovereign_tests_au.Contracts.{Contract, connect_at}
use rayls_sovereign_tests_au.PrivacyNode.{NodeCalls, NodeSettings}
use rayls_sovereign_tests_au.PrivacyNode.Resources.{StorePlace, in_store}
use rayls_sovereign_tests_au.Transactions.{Log, Receipt}
use rayls_sovereign_tests_au.Tokens.Factory.{
  FactoryEvent, RnFactory, Template, is_deployment, address_of,
}
use text.Mathlib.Text.{◌==◌ as str_eq}

-- The logs of a receipt split at the first event of a deployment, which names the address.
abbrev pub FirstDeployed : (Log → Option FactoryEvent) → List Log → String → Type 0
FirstDeployed parse logs address =
    (before after : List Log) × (l : Log) × (logs ≡ before ++ l ∷ after)
    × AllOf (λ k. is_deployment (parse k) ≡ false) before
    × (is_deployment (parse l) ≡ true)
    × (address_of (parse l) ≡ some address)

module _ {X : Type 0} (host : Host X) (calls : NodeCalls X) (node : NodeSettings)
    (place : StorePlace X) (connect : String → String → ℕ → Exec (World X) Contract)
    (factory_at : String → RnFactory X)
    (encode : (name symbol : String) → (decimals : ℕ) → String) where
  -- The receipt's first event of a deployment names the address, which is not empty, and the store
  -- connects the contract there.
  abbrev pub Registered :
      Template
      → (signer : ℕ) → RnFactory X
      → Receipt
      → String
      → Contract
      → World X
      → World X
      → Type 0
  Registered template signer factory receipt address contract w u =
      FirstDeployed factory.parse_log receipt.logs address
      × (str_eq address "" ≡ false)
      × (in_store place (connect_at connect template.factory_name address template.symbol signer) w
          ≡ (ok contract, u))
