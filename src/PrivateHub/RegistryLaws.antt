-- ===== src/PrivateHub/RegistryLaws.antt =====
-- What has been seen when a token was found in or approved on the hub's registry, and when a wrapper
-- was activated on the hub.
use rayls_sovereign_tests_au.Shared.{
  ℕ, String, Option, none, some, Bool, true, false, ◌==◌, ==_iff, List, find_first,
  find_first-passes, ◌≡◌, refl, ◌⊎◌, inl, inr,
}
use rayls_sovereign_tests_au.Js.{ok, Exec, and_then-ok}
use rayls_sovereign_tests_au.Logging.{Host, World}
use rayls_sovereign_tests_au.Polling.Loads.{Reached, eventually-Checked}
use rayls_sovereign_tests_au.Transactions.{Receipt, submit_tx}
use rayls_sovereign_tests_au.Transactions.Laws.{submit_tx-status}
use rayls_sovereign_tests_au.PrivateHub.Registry.{
  RegistryToken, TokenRegistry, has_symbol, is_token, token_json, find_token, token_poll,
  token_message, await_token, get_token_from_registry, update_unless, compare_status, with_registry,
  update_token_status,
}
use text.Mathlib.TextEquality.{eq_iff}

module _ {X : Type 0} (host : Host X) (workers : ℕ)
    (get_registry : Exec (World X) (TokenRegistry X)) where
  -- In a round of the wait that is begun behind `w`, the registry lists the token as its first one of
  -- the symbol.
  abbrev pub ListedFirst : (symbol : String) → RegistryToken → World X → Type 0
  ListedFirst symbol token w =
      (registry : TokenRegistry X) × (v z t : World X) × (tokens : List RegistryToken)
      × (get_registry w ≡ (ok registry, v))
      × (registry.get_all_tokens z ≡ (ok tokens, t))
      × (find_first (has_symbol symbol) tokens ≡ some token)
      × (token.symbol ≡ symbol)
      × Reached host workers is_token (token_message host workers symbol)
          (token_poll host workers registry symbol) v z

  found_token :
      (registry : TokenRegistry X) (symbol : String) (o : Option RegistryToken) (z t : World X)
      → find_token registry symbol z ≡ (ok o, t)
      → is_token o ≡ true
      → (token : RegistryToken) × (tokens : List RegistryToken) × (s : World X) × (o ≡ some token)
        × (registry.get_all_tokens z ≡ (ok tokens, s))
        × (find_first (has_symbol symbol) tokens ≡ some token)
  unfolding find_token
  found_token registry symbol none z t h found = absurd (cc)
  found_token registry symbol (some token) z t h found =
      let (tokens, s, read, rest) =
        and_then-ok (registry.get_all_tokens z)
          (λ tokens v. (ok (find_first (has_symbol symbol) tokens), v)) (some token) t h in
      (token, tokens, s, refl, read, cc)

  -- What `getTokenFromRegistry` returns is a token of the symbol, the first one that the registry listed
  -- in some round of the wait: it never returns `undefined`.
  pub get_token_from_registry-ListedFirst :
      (symbol : String) (w u : World X) (o : Option RegistryToken)
      → get_token_from_registry host workers get_registry symbol w ≡ (ok o, u)
      → (token : RegistryToken) × (o ≡ some token) × ListedFirst symbol token w
  unfolding get_token_from_registry
  get_token_from_registry-ListedFirst symbol w u o h =
      let (registry, v, given, waited) =
        and_then-ok (get_registry w) (await_token host workers symbol) o u h in
      let (z, t, checked, holds, at) =
        eventually-Checked host workers is_token token_json (token_message host workers symbol)
          (token_poll host workers registry symbol) v u o waited in
      let (token, tokens, s, same, read, first) = found_token registry symbol o z t checked holds in
      (
        token,
        same,
        (
          registry,
          v,
          z,
          s,
          tokens,
          given,
          read,
          first,
          (eq_iff token.symbol symbol).0 (find_first-passes (has_symbol symbol) tokens token first),
          at,
        ),
      )

module _ {X : Type 0} (host : Host X) (workers : ℕ)
    (as_operator : Exec (World X) (TokenRegistry X)) where
  -- The registry already had the status, or a transaction set it, whose receipt has status 1.
  abbrev pub Updated : (resource_id : String) → (status : ℕ) → World X → Type 0
  Updated resource_id status w =
      (registry : TokenRegistry X) × (v x : World X) × (token : RegistryToken) × (as_operator w
        ≡ (ok registry, v))
      × (registry.get_token_by_resource_id resource_id v ≡ (ok token, x))
      × ((token.status ≡ status)
          ⊎ ((receipt : Receipt) × (y : World X) × (submit_tx host
                  (registry.update_status resource_id status) "Updating status..." x
                ≡ (ok receipt, y))
              × (receipt.status ≡ some 1)))

  -- An update of a token's status that returns found the status already set, or set it by a transaction.
  pub update_token_status-Updated :
      (resource_id : String) (status : ℕ) (w u : World X) (done : Unit {0})
      → update_token_status host workers as_operator resource_id status w ≡ (ok done, u)
      → Updated resource_id status w
  unfolding update_token_status
  update_token_status-Updated resource_id status w u done h =
      let (registry, v, given, rest) =
        and_then-ok (as_operator w) (with_registry host workers resource_id status) done u h in
      let (token, x, read, rest₁) =
        and_then-ok (registry.get_token_by_resource_id resource_id v)
          (compare_status host workers registry resource_id status) done u rest in
      (
        registry,
        v,
        x,
        token,
        given,
        read,
        split registry token x (token.status == status) refl rest₁,
      )
    where
      split :
          (registry : TokenRegistry X) (token : RegistryToken) (x : World X) (b : Bool)
          → (token.status == status) ≡ b
          → update_unless host workers registry resource_id status b x ≡ (ok done, u)
          → (token.status ≡ status)
            ⊎ ((receipt : Receipt) × (y : World X) × (submit_tx host
                    (registry.update_status resource_id status)
                    "Updating status..."
                    x
                  ≡ (ok receipt, y))
                × (receipt.status ≡ some 1))
      split registry token x true same rest = inl ((==_iff token.status status).0 same)
      split registry token x false same rest =
          let (receipt, y, sent, _) =
            and_then-ok
              (submit_tx host (registry.update_status resource_id status) "Updating status..." x)
              (λ receipt v. (ok tt, v)) done u rest in
          inr (
            receipt,
            y,
            sent,
            submit_tx-status host "Updating status..." (registry.update_status resource_id status) x
                y receipt sent,
          )
