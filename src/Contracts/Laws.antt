-- ===== src/Contracts/Laws.antt =====
-- What the cache of contracts holds behind the calls of the store.
use rayls_sovereign_tests_au.Shared.{
  ℕ, String, Option, none, some, Bool, true, false, ◌≡◌, ◌≢◌, refl, ap, ◌==◌, Bool-cases, inl, inr,
}
use rayls_sovereign_tests_au.Js.{Result, ok, err, Exec}
use rayls_sovereign_tests_au.Logging.{Host, World, delay}
use rayls_sovereign_tests_au.Retry.{retry}
use text.Mathlib.Text.{◌==◌ as str_eq}
use text.Mathlib.TextEquality.{eq_iff}
use rayls_sovereign_tests_au.Contracts.{
  Contract, Cache, lookup, set, get, found, format_factory_name, connect_unless, connect_at,
  store_connected, store_deployed, deploy_options, deploy,
}

-- The cache holds the contract under the key, and under any other key what it held before.
abbrev pub Holds : String → Contract → Cache → Cache → Type 0
Holds key c before after =
    (get key after ≡ ok c)
    × ((other : String) → key ≢ other → lookup other after ≡ lookup other before)

lookup-set : (key : String) (c : Contract) (cache : Cache) → get key (set key c cache) ≡ ok c
unfolding get lookup set
lookup-set key c cache = rw ((eq_iff key key).1 refl) refl

not_equal : (b : Bool) → (b ≡ true → ⊥) → b ≡ false
not_equal true h = absurd (h refl)
not_equal false h = refl

lookup-set_other :
    (key other : String) (c : Contract) (cache : Cache)
    → key ≢ other
    → lookup other (set key c cache) ≡ lookup other cache
unfolding lookup set
lookup-set_other key other c cache h =
    rw (not_equal (str_eq key other) (λ e. h ((eq_iff key other).0 e))) refl

set-Holds : (key : String) (c : Contract) (cache : Cache) → Holds key c cache (set key c cache)
set-Holds key c cache = (lookup-set key c cache, λ other. lookup-set_other key other c cache)

module _ {X : Type 0} where
  -- What a call of the store that gives `r` leaves of the cache.
  abbrev pub Stored : String → Cache → Result Contract × (Cache × World X) → Type 0
  Stored key before (ok c, (after, w)) = Holds key c before after
  Stored key before (err e, (after, w)) = after ≡ before

  store_connected-Stored :
      (key : String) (cache : Cache) (p : Result Contract × World X)
      → Stored key cache (store_connected key cache p)
  store_connected-Stored key cache (ok c, w) = set-Holds key c cache
  store_connected-Stored key cache (err e, w) = refl

  connect_unless-Stored :
      (key : String) (signer : ℕ) (connect : Exec (World X) Contract) (o : Option Contract)
      (cache : Cache) (w : World X)
      → lookup key cache ≡ o
      → Stored key cache (connect_unless key signer connect o (cache, w))
  unfolding get
  connect_unless-Stored key signer connect none cache w h =
      store_connected-Stored key cache (connect w)
  connect_unless-Stored key signer connect (some c) cache w h =
      elim (Bool-cases (c.runner == signer)) [
        | inl same ↦ rw same (ap (found key) h, λ other _. refl)
        | inr other ↦ rw other (store_connected-Stored key cache (connect w))
      ]

  -- A contract that `connect_at` gives is the one that `get` finds from then on under the key's
  -- formatted name, and the contracts under other keys are as before; if it throws, so are all.
  pub connect_at-Stored :
      (get_contract_at : String → String → ℕ → Exec (World X) Contract)
      (factory_name address key : String) (signer : ℕ) (cache : Cache) (w : World X)
      → Stored
          (format_factory_name key)
          cache
          (connect_at get_contract_at factory_name address key signer (cache, w))
  unfolding connect_at
  connect_at-Stored get_contract_at factory_name address key signer cache w =
      connect_unless-Stored (format_factory_name key) signer _ _ cache w refl

  -- A contract that `deploy` gives is the one that `get` finds from then on under the key itself, and
  -- the contracts under other keys are as before; if it throws, so are all.
  pub deploy-Stored :
      (host : Host X) (deploy_once : Exec (World X) Contract) (key : String) (cache : Cache)
      (w : World X)
      → Stored key cache (deploy host deploy_once key (cache, w))
  unfolding deploy
  deploy-Stored host deploy_once key cache w =
      stored (retry (delay host) (deploy_options key) deploy_once w)
    where
      stored : (p : Result Contract × World X) → Stored key cache (store_deployed key cache p)
      stored (ok c, v) = set-Holds key c cache
      stored (err e, v) = refl
