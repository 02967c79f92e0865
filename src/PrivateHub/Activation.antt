-- ===== src/PrivateHub/Activation.antt =====
-- What has been seen when a token's wrapper was activated on the hub, with the hub's own operations.
use rayls_sovereign_tests_au.Shared.{
  ℕ, String, Option, none, some, Bool, true, false, not, ◌≡◌, ◌∙◌, ap, subst, arith,
}
use rayls_sovereign_tests_au.Shared.Text.{◌<>◌, short_hex}
use rayls_sovereign_tests_au.Js.{Result, ok, Exec, and_then, and_then-ok}
use rayls_sovereign_tests_au.Logging.{Host, World}
use rayls_sovereign_tests_au.Polling.{eventually}
use rayls_sovereign_tests_au.Polling.Loads.{Reached, eventually-Checked}
use rayls_sovereign_tests_au.Transactions.{Receipt, submit_tx}
use rayls_sovereign_tests_au.Transactions.Laws.{submit_tx-status}
use rayls_sovereign_tests_au.Tokens.{
  zero_hash, Registry, RegistryOf, Hub, is_true, bool_json, on_registry, resource_poll, hub_message,
  await_resource, approve_listed, take_listed, look_up_listed, submit_listed, activate_on_hub,
}
use rayls_sovereign_tests_au.PrivateHub.Registry.{
  RegistryToken, TokenRegistry, get_token_from_registry, update_token_status, resource_of, hub_of,
}
use text.Mathlib.Text.{◌==◌ as str_eq}
use rayls_sovereign_tests_au.PrivateHub.RegistryLaws.{
  ListedFirst, get_token_from_registry-ListedFirst, Updated, update_token_status-Updated,
}

module _ {X : Type 0} (host : Host X) (workers : ℕ) (symbol addr : String)
    (get_registry : RegistryOf X) (hub_registry as_operator : Exec (World X) (TokenRegistry X))
    (resource_id_of : Exec (World X) String) where
  abbrev real_hub : Hub X
  unfolding hub_of
  real_hub = hub_of host workers hub_registry as_operator

  listed_resource :
      (w u : World X) (listed : Option String)
      → and_then
          (get_token_from_registry host workers hub_registry symbol w)
          (λ token v. (ok (resource_of token), v))
        ≡ (ok listed, u)
      → (token : RegistryToken) × (listed ≡ some token.resource_id)
        × ListedFirst host workers hub_registry symbol token w
        × (get_token_from_registry host workers hub_registry symbol w ≡ (ok (some token), u))
  listed_resource w u listed h =
      let (o, v, got, rest) =
        and_then-ok (get_token_from_registry host workers hub_registry symbol w)
          (λ token v. (ok (resource_of token), v)) listed u h in
      let (token, same, first) =
        get_token_from_registry-ListedFirst host workers hub_registry symbol w v o got in
      let (is_named, found) = named o v token same rest in (token, is_named, first, got ∙ found)
    where
      named :
          (o : Option RegistryToken) (v : World X) (token : RegistryToken)
          → o ≡ some token
          → ◌≡◌ {A = Result (Option String) × World X} (ok (resource_of o), v) (ok listed, u)
          → (listed ≡ some token.resource_id)
            × ◌≡◌ {A = Result (Option RegistryToken) × World X} (ok o, v) (ok (some token), u)
      named none v token same rest = absurd (cc)
      named (some t) v token same rest = (cc, cc)

  -- In a round of the wait that is begun in `w`, the token's contract has a resource id that is not zero.
  abbrev pub HasResource : World X → Type 0
  HasResource w =
      (z t : World X) × (id : String) × (resource_id_of z ≡ (ok id, t))
      × (str_eq id zero_hash ≡ false)
      × Reached host workers is_true (hub_message host workers symbol addr)
          (resource_poll host workers symbol addr resource_id_of) w z

  awaited-HasResource :
      (resource_id given : String) (w u : World X)
      → await_resource host workers symbol addr resource_id_of given tt w ≡ (ok resource_id, u)
      → (given ≡ resource_id) × HasResource w
  awaited-HasResource resource_id given w u h =
      let (b, v, waited, rest) =
        and_then-ok
          (eventually host workers is_true bool_json (hub_message host workers symbol addr)
            (resource_poll host workers symbol addr resource_id_of) w)
          (λ active t. (ok given, t)) resource_id u h in
      let (z, t, checked, holds, at) =
        eventually-Checked host workers is_true bool_json (hub_message host workers symbol addr)
          (resource_poll host workers symbol addr resource_id_of) w v b waited in
      let (id, s, read, judged) =
        and_then-ok (resource_id_of z) (λ id v. (ok (not (str_eq id zero_hash)), v)) b t checked in
      (same_text given resource_id v u rest, (z, s, id, read, nonzero id b s t judged holds, at))
    where
      same_text :
          (a b : String) (x y : World X)
          → ◌≡◌ {A = Result String × World X} (ok a, x) (ok b, y)
          → a ≡ b
      same_text a b x y e = cc

      nonzero :
          (id : String) (b : Bool) (x y : World X)
          → ◌≡◌ {A = Result Bool × World X} (ok (not (str_eq id zero_hash)), x) (ok b, y)
          → is_true b ≡ true
          → str_eq id zero_hash ≡ false
      nonzero id b x y e holds = let same : not (str_eq id zero_hash) ≡ b = cc in ground arith

  registered-resource :
      (listed : Option String) (token : RegistryToken) (given : String) (w u : World X)
      → listed ≡ some token.resource_id
      → on_registry host workers symbol addr listed w ≡ (ok given, u)
      → (token.resource_id ≡ given) × (w ≡ u)
  registered-resource none token given w u same h = absurd (cc)
  registered-resource (some id) token given w u same h = (cc, cc)

  -- An activation with the hub's own operations that returns a resource id: the token was submitted by a
  -- transaction of status 1; the id is that of the token that the hub's registry then listed first under
  -- the symbol; the registry had or got the status 1 for that id; and at the end the token's contract
  -- has a resource id that is not zero.
  pub activate_on_hub-activated :
      (resource_id : String) (w u : World X)
      → activate_on_hub host workers symbol addr get_registry
          (hub_of host workers hub_registry as_operator)
          resource_id_of
          w
        ≡ (ok resource_id, u)
      → (registry : Registry X) × (receipt : Receipt) × (token : RegistryToken) × (v x y z : World
          X)
        × (get_registry w ≡ (ok registry, v))
        × (submit_tx host
              (registry.submit_to_hub addr)
              ("Submitting " <> symbol <> " to hub (" <> short_hex addr <> ")...")
              v
            ≡ (ok receipt, x))
        × (receipt.status ≡ some 1)
        × ListedFirst host workers hub_registry symbol token x
        × (get_token_from_registry host workers hub_registry symbol x ≡ (ok (some token), y))
        × (token.resource_id ≡ resource_id)
        × (update_token_status host workers as_operator resource_id 1 y ≡ (ok tt, z))
        × Updated host workers as_operator resource_id 1 y
        × HasResource z
  unfolding activate_on_hub hub_of
  activate_on_hub-activated resource_id w u h =
      let (registry, v, given, rest) =
        and_then-ok (get_registry w)
          (submit_listed host workers symbol addr real_hub resource_id_of) resource_id u h in
      let (receipt, x, sent, rest₁) =
        and_then-ok
          (submit_tx host (registry.submit_to_hub addr)
            ("Submitting " <> symbol <> " to hub (" <> short_hex addr <> ")...") v)
          (look_up_listed host workers symbol addr real_hub resource_id_of) resource_id u rest in
      let (listed, s, found, rest₂) =
        and_then-ok (real_hub.get_token_from_registry symbol x)
          (take_listed host workers symbol addr real_hub resource_id_of) resource_id u rest₁ in
      let (token, same, first, got) = listed_resource x s listed found in
      let (id, y, taken, rest₃) =
        and_then-ok (on_registry host workers symbol addr listed s)
          (approve_listed host workers symbol addr real_hub resource_id_of) resource_id u rest₂ in
      let (done, z, updated, rest₄) =
        and_then-ok (update_token_status host workers as_operator id 1 y)
          (await_resource host workers symbol addr resource_id_of id) resource_id u rest₃ in
      let (one, has) = awaited-HasResource resource_id id z u rest₄ in
      let (named, still) = registered-resource listed token id s y same taken in
      (
        registry,
        receipt,
        token,
        v,
        x,
        y,
        z,
        given,
        sent,
        submit_tx-status host ("Submitting " <> symbol <> " to hub (" <> short_hex addr <> ")...")
            (registry.submit_to_hub addr) v x receipt sent,
        first,
        got ∙ ap (λ t. (ok (some token), t)) still,
        named ∙ one,
        subst (λ r. update_token_status host workers as_operator r 1 y ≡ (ok tt, z)) one updated,
        subst (λ r. Updated host workers as_operator r 1 y) one
            (update_token_status-Updated host workers as_operator id 1 y z done updated),
        has,
      )
